-- ===== src/Versioning/Lookup.antt =====
-- Proofs about the lookup of a rule.
use confiture.Base.{
  ◌≡◌, refl, ◌∙◌, ap, Bool, true, Option, none, some, List, [], ◌∷◌, if◌then◌else◌, ◌==◌, nat_eq,
  list_eq, arith, Bool-cases, inl, inr,
}
use confiture.Base.Text.{Text, text_eq_iff}
use confiture.Versioning.{
  RuleVersion, Rule, found, rule_removed_error, version_le, since, is_removed, find_rule, put_rule,
  rule_dict, answer_for, get_rule,
}
use confiture.Versioning.Order.{le_trans}

-- The rule in a dictionary built from rules: the last of its id.
abbrev pub last_rule : Text → List Rule → Option Rule → Option Rule
last_rule rule_id [] default = default
last_rule rule_id (r ∷ rules) default =
    last_rule rule_id rules (if r.rule_id == rule_id then some r else default)

find-put :
    (rule_id : Text) (rule : Rule) (dict : List Rule)
    → find_rule rule_id (put_rule rule dict)
      ≡ (if rule.rule_id == rule_id then some rule else find_rule rule_id dict)
unfolding find_rule put_rule
find-put rule_id rule [] = refl
find-put rule_id rule (r ∷ dict) = ground (
  arith,
  find-put rule_id rule dict,
  text_eq_iff r.rule_id rule.rule_id,
  text_eq_iff rule.rule_id rule_id,
  text_eq_iff r.rule_id rule_id,
)

-- The manager finds, for each id, the last of the given rules that has it.
find-rule_dict :
    (rule_id : Text) (rules dict : List Rule)
    → find_rule rule_id (rule_dict rules dict) ≡ last_rule rule_id rules (find_rule rule_id dict)
unfolding rule_dict
find-rule_dict rule_id [] dict = refl
find-rule_dict rule_id (rule ∷ rules) dict =
    find-rule_dict rule_id rules (put_rule rule dict)
    ∙ ap (last_rule rule_id rules) (find-put rule_id rule dict)

since_later :
    (v : Option RuleVersion) (target later : RuleVersion)
    → version_le target later ≡ true
    → since v (some target) ≡ true
    → since v (some later) ≡ true
unfolding since
since_later none target later h k = cc
since_later (some v) target later h k = le_trans v target later k h

removed_later :
    (rule : Option Rule) (target later : RuleVersion) (r : Rule)
    → version_le target later ≡ true
    → answer_for (some target) rule ≡ rule_removed_error r
    → answer_for (some later) rule ≡ rule_removed_error r
unfolding answer_for is_removed
removed_later none target later r h k = cc
removed_later (some rule) target later r h k =
    elim (Bool-cases (since rule.removed_in (some target))) [
      | inl gone ↦ rw (since_later rule.removed_in target later h gone) (rw gone at k)
      | inr there ↦ absurd (clash (rw there at k))
    ]
  where
    clash : {b : Bool} → found b rule ≡ rule_removed_error r → ⊥
    clash h = cc

-- A manager of some rules looks an id up in the last rule that has it. Once it raises
-- `RuleRemovedError` for a target version, it raises it for every later one.
pub get_rule_removed :
    (rules : List Rule) (rule_id : Text) (target later : RuleVersion) (r : Rule)
    → version_le target later ≡ true
    → (get_rule (rule_dict rules []) rule_id (some target)
        ≡ answer_for (some target) (last_rule rule_id rules none))
      × (get_rule (rule_dict rules []) rule_id (some target) ≡ rule_removed_error r
          → get_rule (rule_dict rules []) rule_id (some later) ≡ rule_removed_error r)
unfolding get_rule find_rule
get_rule_removed rules rule_id target later r h = (
  ap (answer_for (some target)) (find-rule_dict rule_id rules []),
  removed_later (find_rule rule_id (rule_dict rules [])) target later r h,
)
