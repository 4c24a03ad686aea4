-- ===== src/Query/Examples.antt =====
-- The gate at a question that may be answered and at one whose evidence must stay local.
use manu.Base.{◌≡◌, ◌↔◌, refl, Bool, not, some, [], ◌∷◌, bytes, pos, is_empty}
use manu.Query.Abstention.{
  AbstentionInput, observed_execution, sufficient, validate_input, validate_support, proceed,
  decide_abstention, MayAnswer, decide_abstention_proceeds_iff,
}

abbrev named : AbstentionInput → Bool
named input = not (is_empty input.package_id)

abbrev answered : AbstentionInput
answered = record {
  package_id = bytes "p";
  package_digest = bytes "d";
  evidence = bytes "unit-1" ∷ [];
  query_id = bytes "q";
  query_digest = [];
  question_kind = observed_execution;
  support = record { kind = observed_execution; level = sufficient };
  local_only_evidence_count = pos 0;
}

abbrev withheld : AbstentionInput
withheld = record answered { evidence = []; local_only_evidence_count = pos 2 }

decide_abstention_proceeds_iff_example :
    (decide_abstention named answered ≡ some proceed) ↔ MayAnswer answered
unfolding validate_input validate_support
decide_abstention_proceeds_iff_example = decide_abstention_proceeds_iff named answered refl
