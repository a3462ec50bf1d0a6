-- ===== src/Versioning/Tests.antt =====
-- Rules of which one was removed.
use confiture.Base.{◌≡◌, refl, true, none, some, List, [], ◌∷◌}
use confiture.Base.Text.{codes}
use confiture.Versioning.{
  RuleVersion, Rule, found, rule_removed_error, version_lt, version_le, version_eq, since,
  is_removed, is_deprecated, put_rule, rule_dict, find_rule, answer_for, get_rule,
  is_compatible_with, validate_compatibility,
}
use confiture.Versioning.Lookup.{last_rule, get_rule_removed}

abbrev v1 : RuleVersion
v1 = record { major = 1; minor = 0; patch = 9 }

abbrev v2 : RuleVersion
v2 = record { major = 1; minor = 2; patch = 0 }

abbrev v3 : RuleVersion
v3 = record { major = 2; minor = 0; patch = 0 }

abbrev old : Rule
old = record {
  rule_id = codes "naming";
  version = v1;
  deprecated_in = some v1;
  removed_in = some v2;
}

abbrev kept : Rule
kept = record { rule_id = codes "types"; version = v3; deprecated_in = none; removed_in = none }

abbrev rules : List Rule
rules = kept ∷ old ∷ []

program : Unit {0}
unfolding version_le version_lt version_eq since is_removed is_deprecated put_rule rule_dict
    find_rule answer_for get_rule is_compatible_with validate_compatibility
program = tt

looks_up :
    (get_rule (rule_dict rules []) (codes "naming") (some v1) ≡ found true old)
    × (get_rule (rule_dict rules []) (codes "naming") (some v2) ≡ rule_removed_error old)
    × (validate_compatibility (rule_dict rules []) v2 ≡ codes "types" ∷ [])
unfolding program
looks_up = (refl, refl, refl)

get_rule_removed_example :
    (get_rule (rule_dict rules []) (codes "naming") (some v2)
      ≡ answer_for (some v2) (last_rule (codes "naming") rules none))
    × (get_rule (rule_dict rules []) (codes "naming") (some v2) ≡ rule_removed_error old
        → get_rule (rule_dict rules []) (codes "naming") (some v3) ≡ rule_removed_error old)
unfolding version_le version_lt version_eq
get_rule_removed_example = get_rule_removed rules (codes "naming") v2 v3 old refl
