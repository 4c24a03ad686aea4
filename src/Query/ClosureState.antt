-- ===== src/Query/ClosureState.antt =====
-- The request, the audits and the result of internal/query/context_support_closure.go, and the variables of
-- the loop of CloseContextSupport.
use manu.Base.{ℕ, ℤ, Bool, false, List, [], Str}
use manu.Query.Candidate.{ContextSelectionCandidate, ContextSelectionRequest, Costs}
use manu.Query.Result.{ContextSelectionResult}
use manu.Query.Relation.{ContextRelation, ContextRelationCandidate}

pub record ContextSupportClosureRequest (W : Type 0) : Type 0 where
  pub request : ContextSelectionRequest W
  pub base : ContextSelectionResult W
  pub relations : List (ContextRelationCandidate W)

-- `undecided` is the empty text that an audit begins with.
pub data ContextRelationAuditReason : Type 0 where
  undecided relation_included missing_support over_relation_budget invalid_relation relation_scope :
      ContextRelationAuditReason

pub record ContextRelationAudit (W : Type 0) : Type 0 where
  pub relation_id : Str
  pub is_included : Bool
  pub reason : ContextRelationAuditReason
  pub rank : ℤ
  pub score : W
  pub token_cost : ℕ
  pub character_cost : ℕ
  pub byte_cost : ℕ
  pub missing_ids : List Str

pub record ContextSupportClosureResult (W : Type 0) : Type 0 where
  pub selection : ContextSelectionResult W
  pub relations : List ContextRelation
  pub relation_audit : List (ContextRelationAudit W)
  pub item_count : ℕ
  pub relation_count : ℕ
  pub total_count : ℕ
  pub token_estimate : ℕ
  pub characters_used : ℕ
  pub bytes_used : ℕ
  pub support_incomplete : Bool
  pub budget_exhausted : Bool

-- What the required items that are not selected come to.
pub record Missing (W : Type 0) : Type 0 where
  pub ids : List Str
  pub items : List (ContextSelectionCandidate W)
  pub support : Bool
  pub outside : Bool

abbrev pub nothing_missing : {W : Type 0} → Missing W
nothing_missing = record { ids = []; items = []; support = false; outside = false }

-- The variables of the loop. The set selectedIDs holds the identifiers of the items.
pub record Closing (W : Type 0) : Type 0 where
  pub selection : ContextSelectionResult W
  pub relations : List ContextRelation
  pub audits : List (ContextRelationAudit W)

-- The sum of the costs of the missing items, or why there is none.
pub data CostSum : Type 0 where
  summed : Costs → CostSum
  no_sum exceeded : CostSum
