-- ===== src/Query/Abstention.antt =====
-- DecideAbstention of internal/query/abstention.go. The check of the package and of the query's
-- names, which is that of the response contract, is a parameter. The error is one sentinel.
use manu.Base.{
  ◌≡◌, ◌≢◌, ◌↔◌, Bool, true, false, not, ◌&&◌, ◌||◌, Option, none, some, List, [], ◌∷◌, Str, str_eq,
  str_eq_iff, if◌then◌else◌, ℤ, is_negative, is_positive, arith,
}

-- Any other text is `other`; the empty one stands for a kind that is not given.
pub data KnowledgeQuestionKind : Type 0 where
  inventory possible_flow observed_execution business_intent : KnowledgeQuestionKind
  other_kind : Str → KnowledgeQuestionKind

pub data EvidenceSupportLevel : Type 0 where
  no_support insufficient sufficient : EvidenceSupportLevel
  other_level : Str → EvidenceSupportLevel

pub record SupportAssessment : Type 0 where
  pub kind : KnowledgeQuestionKind
  pub level : EvidenceSupportLevel

-- The package, of which the gate reads the evidence that may be transferred.
pub record AbstentionInput : Type 0 where
  pub package_id : Str
  pub package_digest : Str
  pub evidence : List Str
  pub query_id : Str
  pub query_digest : Str
  pub question_kind : KnowledgeQuestionKind
  pub support : SupportAssessment
  pub local_only_evidence_count : ℤ

pub data AbstentionReasonCode : Type 0 where
  no_transferable_evidence transfer_prohibited insufficient_support kind_mismatch :
      AbstentionReasonCode

-- To go on, or to abstain for a reason.
pub data AbstentionDecision : Type 0 where
  proceed : AbstentionDecision
  abstain : AbstentionReasonCode → AbstentionDecision

abbrev pub valid_knowledge_question_kind : KnowledgeQuestionKind → Bool
valid_knowledge_question_kind (other_kind s) = false
valid_knowledge_question_kind _ = true

abbrev pub not_given : KnowledgeQuestionKind → Bool
not_given (other_kind []) = true
not_given _ = false

abbrev pub valid_level : EvidenceSupportLevel → Bool
valid_level (other_level []) = true
valid_level (other_level (c ∷ s)) = false
valid_level _ = true

unfoldable pub validate_support : SupportAssessment → Bool
validate_support support =
    (not_given support.kind || valid_knowledge_question_kind support.kind)
    && valid_level support.level

unfoldable pub same_kind : KnowledgeQuestionKind → KnowledgeQuestionKind → Bool
same_kind inventory inventory = true
same_kind possible_flow possible_flow = true
same_kind observed_execution observed_execution = true
same_kind business_intent business_intent = true
same_kind (other_kind s) (other_kind t) = str_eq s t
same_kind _ _ = false

abbrev pub is_sufficient : EvidenceSupportLevel → Bool
is_sufficient sufficient = true
is_sufficient _ = false

-- The order of the reasons, on an input that is valid.
unfoldable pub decide : AbstentionInput → AbstentionDecision
unfolding same_kind
decide input = elim input.evidence [
  | [] ↦
      if is_positive input.local_only_evidence_count
      then abstain transfer_prohibited
      else abstain no_transferable_evidence
  | unit ∷ more ↦
      if not (not_given input.support.kind)
        && not (same_kind input.support.kind input.question_kind)
      then abstain kind_mismatch
      else if not_given input.support.kind || not (is_sufficient input.support.level)
      then abstain insufficient_support
      else proceed
]

module _ (valid_configuration : AbstentionInput → Bool) where
  unfoldable pub validate_input : AbstentionInput → Bool
  unfolding validate_support
  validate_input input =
      valid_configuration input
      && valid_knowledge_question_kind input.question_kind
      && not (is_negative input.local_only_evidence_count)
      && validate_support input.support

  -- `none` where the input is refused.
  unfoldable pub decide_abstention : AbstentionInput → Option AbstentionDecision
  unfolding validate_input decide
  decide_abstention input = if validate_input input then some (decide input) else none

-- An answer may be generated exactly where there is evidence to transfer, the support was assessed
-- for the kind that the question asks for, and it is sufficient for that kind.
pub record MayAnswer (input : AbstentionInput) : Type 0 where
  pub transferable : input.evidence ≢ []
  pub same : input.support.kind ≡ input.question_kind
  pub enough : input.support.level ≡ sufficient

same_kind_iff : (a b : KnowledgeQuestionKind) → (same_kind a b ≡ true) ↔ (a ≡ b)
unfolding same_kind
same_kind_iff inventory b = ground arith
same_kind_iff possible_flow b = ground arith
same_kind_iff observed_execution b = ground arith
same_kind_iff business_intent b = ground arith
same_kind_iff (other_kind s) (other_kind t) = ground (arith, str_eq_iff s t)
same_kind_iff (other_kind s) inventory = ground arith
same_kind_iff (other_kind s) possible_flow = ground arith
same_kind_iff (other_kind s) observed_execution = ground arith
same_kind_iff (other_kind s) business_intent = ground arith

-- On a valid input the gate lets a question through exactly where there is evidence to transfer, the
-- support was assessed for the kind that the question asks for, and it is sufficient.
pub decide_abstention_proceeds_iff :
    (valid_configuration : AbstentionInput → Bool) (input : AbstentionInput)
    → validate_input valid_configuration input ≡ true
    → (decide_abstention valid_configuration input ≡ some proceed) ↔ MayAnswer input
unfolding decide_abstention decide validate_input
decide_abstention_proceeds_iff valid_configuration input valid = (
  λ h. record {
    transferable = λ e. ground arith;
    same = ground (arith, same_kind_iff input.support.kind input.question_kind);
    enough = ground arith;
  },
  λ m. ground (
    arith,
    same_kind_iff input.support.kind input.question_kind,
    m.transferable,
    m.same,
    m.enough,
  ),
)

-- The gate names a prohibited transfer exactly where a valid input has no evidence to transfer and
-- some that must stay local.
transfer_prohibited_iff :
    (valid_configuration : AbstentionInput → Bool) (input : AbstentionInput)
    → validate_input valid_configuration input ≡ true
    → (decide_abstention valid_configuration input ≡ some (abstain transfer_prohibited))
      ↔ ((input.evidence ≡ []) × (is_positive input.local_only_evidence_count ≡ true))
unfolding decide_abstention decide
transfer_prohibited_iff valid_configuration input valid =
    (λ h. (ground arith, ground arith), λ h. ground (arith, h.0, h.1))
