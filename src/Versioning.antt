-- ===== src/Versioning.antt =====
-- python/confiture/core/linting/versioning.py: versions of linting rules, the rules, and their manager.
pub mod Order
pub mod Lookup
pub mod Tests
use confiture.Base.{
  ℕ, ◌≡◌, Bool, true, false, not, ◌&&◌, ◌||◌, Option, none, some, List, [], ◌∷◌, map, if◌then◌else◌,
  ltb, filterb, ◌==◌, nat_eq, list_eq,
}
use confiture.Base.Text.{Text}

pub record RuleVersion : Type 0 where
  pub major : ℕ
  pub minor : ℕ
  pub patch : ℕ

unfoldable pub is_compatible_with : RuleVersion → RuleVersion → Bool
is_compatible_with v w = v.major == w.major

-- `(major, minor, patch) < (major, minor, patch)`, as Python compares tuples: the first components
-- that differ decide.
unfoldable pub version_lt : RuleVersion → RuleVersion → Bool
version_lt v w =
    if v.major == w.major
    then (if v.minor == w.minor then ltb v.patch w.patch else ltb v.minor w.minor)
    else ltb v.major w.major

unfoldable pub version_eq : RuleVersion → RuleVersion → Bool
version_eq v w = v.major == w.major && (v.minor == w.minor && v.patch == w.patch)

-- `<=` of tuples: they are equal, or the first components that differ decide.
unfoldable pub version_le : RuleVersion → RuleVersion → Bool
unfolding version_lt version_eq
version_le v w = version_eq v w || version_lt v w

unfoldable pub version_gt : RuleVersion → RuleVersion → Bool
unfolding version_lt
version_gt v w = version_lt w v

unfoldable pub version_ge : RuleVersion → RuleVersion → Bool
unfolding version_le
version_ge v w = version_le w v

pub record Rule : Type 0 where
  pub rule_id : Text
  pub version : RuleVersion
  pub deprecated_in : Option RuleVersion
  pub removed_in : Option RuleVersion

-- Whether something that happened in a version holds for a target, or for no target in particular.
unfoldable pub since : Option RuleVersion → Option RuleVersion → Bool
unfolding version_le
since none target = false
since (some v) none = true
since (some v) (some target) = version_le v target

unfoldable pub is_deprecated : Rule → Option RuleVersion → Bool
unfolding since
is_deprecated rule target = since rule.deprecated_in target

unfoldable pub is_removed : Rule → Option RuleVersion → Bool
unfolding since
is_removed rule target = since rule.removed_in target

-- `rules[r.rule_id] = r`
unfoldable pub put_rule : Rule → List Rule → List Rule
put_rule rule [] = rule ∷ []
put_rule rule (r ∷ rules) =
    if r.rule_id == rule.rule_id then rule ∷ rules else r ∷ put_rule rule rules

-- `{r.rule_id: r for r in rules}`, with what the dictionary holds so far.
unfoldable pub rule_dict : List Rule → List Rule → List Rule
unfolding put_rule
rule_dict [] dict = dict
rule_dict (rule ∷ rules) dict = rule_dict rules (put_rule rule dict)

-- `self.rules.get(rule_id)`
unfoldable pub find_rule : Text → List Rule → Option Rule
find_rule rule_id [] = none
find_rule rule_id (r ∷ rules) =
    let rest = find_rule rule_id rules in if r.rule_id == rule_id then some r else rest

-- What `get_rule` gives: a rule, with a warning or without, no rule, or a `RuleRemovedError`.
pub data Answer : Type 0 where
  not_found : Answer
  found : (warned : Bool) → Rule → Answer
  rule_removed_error : Rule → Answer

unfoldable pub answer_for : Option RuleVersion → Option Rule → Answer
unfolding is_removed is_deprecated
answer_for target none = not_found
answer_for target (some rule) =
    if is_removed rule target
    then rule_removed_error rule
    else found (is_deprecated rule target) rule

unfoldable pub get_rule : List Rule → Text → Option RuleVersion → Answer
unfolding find_rule answer_for
get_rule dict rule_id target = answer_for target (find_rule rule_id dict)

unfoldable pub validate_compatibility : List Rule → RuleVersion → List Text
unfolding is_compatible_with
validate_compatibility dict min_rule_version =
    map (λ r. r.rule_id) (filterb (λ r. not (is_compatible_with r.version min_rule_version)) dict)
