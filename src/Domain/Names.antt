-- ===== src/Domain/Names.antt =====
-- The names of the rule types.
use infernal_pf2e_parser_sim.Base.{◌≡◌, refl}
use infernal_pf2e_parser_sim.Std.Text.{text_eq}
use infernal_pf2e_parser_sim.Domain.{
  RuleType, as_str, parse_rule_type, action, reaction, free_action, feat, condition, unclassified,
}

-- The text that stands for a rule type, in the database and in an admission, is read back as that
-- rule type.
pub parse-as_str : (t : RuleType) → parse_rule_type (as_str t) ≡ t
unfolding parse_rule_type as_str text_eq
parse-as_str action = refl
parse-as_str reaction = refl
parse-as_str free_action = refl
parse-as_str feat = refl
parse-as_str condition = refl
parse-as_str unclassified = refl
