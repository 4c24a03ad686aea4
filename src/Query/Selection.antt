-- ===== src/Query/Selection.antt =====
-- SelectContext of internal/query/context_selection.go: from the candidates to the audited result.
-- Its proofs are the children.
pub mod Flagged
pub mod Pass
pub mod Tracked
pub mod Loop
pub mod Identity
pub mod Preparation
pub mod Checks
pub mod Configuration
pub mod Audits
pub mod Course
pub mod SelfCheck
pub mod Outcome
pub mod Maximal
pub mod Examples
use manu.Base.{
  ℕ, ◌+◌, ltb, ◌==◌, ℤ, pos, ltb_ℤ, Bool, true, false, not, ◌&&◌, ◌||◌, Option, none, some, List,
  [], ◌∷◌, ◌++◌, map, length, Str, str_eq, str_lt, if◌then◌else◌, sorted, pos_part,
}
use manu.Query.Check.{
  Run, Check, require, ensure, obtain, give, poll, ◌>>=◌, ◌>>◌, is_nil, invalid_context,
}
use manu.Query.Context.{Scope, ContextItem, ContextLimits, Owners, mem_str}
use manu.Query.Context.Validate.{scope_valid, same_scope, validate_item}
use manu.Query.Utility.{Float, ContextUtilityConfiguration, normalize}
use manu.Query.Candidate.{
  ContextSelectionCandidate, ContextSelectionRequest, Costs, costs_or_none, redundancy_key,
  metadata_valid, validate_request,
}
use manu.Query.Greedy.{
  ContextSelectionReason, included, excluded_budget, excluded_redundancy, excluded_invalid,
  excluded_scope, Prepared, Selecting, select_loop,
}
use manu.Query.Result.{
  ContextSelectionAudit, ContextSelectionResult, says_included, says_budget, validate_against,
}

module _ {W : Type 0} where
  unfoldable pub excluded_audit :
      ContextSelectionCandidate W → ContextSelectionReason → ContextSelectionAudit W
  unfolding costs_or_none
  excluded_audit c reason = record {
    item_id = c.item.id;
    is_included = false;
    reason = reason;
    rank = c.rank;
    score = c.relevance;
    token_estimate = (costs_or_none c).tokens;
    characters = (costs_or_none c).characters;
    bytes = (costs_or_none c).bytes;
  }

  -- Why a candidate that was not chosen was left out, given the keys of those that were.
  unfoldable pub final_reason : List Str → Prepared W → ContextSelectionReason
  unfolding redundancy_key
  final_reason redundancy p =
      if mem_str (redundancy_key p.candidate) redundancy
      then excluded_redundancy
      else if says_included p.decision
      then excluded_budget
      else p.decision

  unfoldable pub audit_of : List Str → Prepared W → ContextSelectionAudit W
  unfolding final_reason
  audit_of redundancy p = record {
    item_id = p.candidate.item.id;
    is_included = p.is_included;
    reason = if p.is_included then included else final_reason redundancy p;
    rank = p.candidate.rank;
    score = p.last_gain;
    token_estimate = p.tokens;
    characters = p.characters;
    bytes = p.bytes;
  }

  unfoldable pub any_budget : List (ContextSelectionAudit W) → Bool
  any_budget [] = false
  any_budget (a ∷ rest) = not a.is_included && says_budget a.reason || any_budget rest

  abbrev pub items_of : List (ContextSelectionCandidate W) → List ContextItem
  items_of [] = []
  items_of (c ∷ rest) = c.item ∷ items_of rest

  -- The result, from the audits of the candidates that were not prepared and the end of the loop.
  unfoldable pub result_of :
      ContextUtilityConfiguration W
      → List (ContextSelectionAudit W)
      → Selecting W
      → ContextSelectionResult W
  unfolding audit_of any_budget sorted
  result_of configuration audits s =
      let all_audits =
        sorted (λ l r. str_lt l.item_id r.item_id)
          (audits ++ map (audit_of s.redundancy) s.prepared) in
      record {
        items = items_of s.selected;
        audit = all_audits;
        item_count = length (items_of s.selected);
        token_estimate = s.token_count;
        characters_used = s.character_count;
        bytes_used = s.byte_count;
        configuration = configuration;
        budget_exhausted = any_budget all_audits;
      }

  abbrev pub start : List (Prepared W) → Selecting W
  start prepared = record {
    prepared = prepared;
    selected = [];
    redundancy = [];
    token_count = 0;
    character_count = 0;
    byte_count = 0;
  }

module _ {W : Type 0} ⦃f : Float W⦄ where
  unfoldable pub prepared_of : ContextSelectionCandidate W → Prepared W
  unfolding costs_or_none
  prepared_of c = record {
    candidate = c;
    tokens = (costs_or_none c).tokens;
    characters = (costs_or_none c).characters;
    bytes = (costs_or_none c).bytes;
    last_gain = f.of_nat 0;
    last_ratio = f.of_nat 0;
    decision = excluded_budget;
    is_included = false;
  }

module _ {W : Type 0} ⦃f : Float W⦄ (owners : Owners) where
  -- A candidate of another scope or with an invalid item is audited; any other is prepared.
  unfoldable pub sort_out :
      Scope
      → ContextSelectionCandidate W
      → List (Prepared W) × List (ContextSelectionAudit W)
      → List (Prepared W) × List (ContextSelectionAudit W)
  unfolding scope_valid same_scope validate_item excluded_audit prepared_of
  sort_out scope c (prepared, audits) =
      if not (scope_valid c.item.scope) || not (same_scope c.item.scope scope)
      then (prepared, excluded_audit c excluded_scope ∷ audits)
      else if not (is_nil (validate_item owners c.item))
      then (prepared, excluded_audit c excluded_invalid ∷ audits)
      else (prepared_of c ∷ prepared, audits)

  unfoldable pub prepare :
      Scope
      → List (ContextSelectionCandidate W)
      → Run (List (Prepared W) × List (ContextSelectionAudit W))
  unfolding metadata_valid sort_out
  prepare scope [] = give ([], [])
  prepare scope (c ∷ rest) =
      poll
      >> (ensure (require (metadata_valid owners c) invalid_context)
          >> (prepare scope rest >>= λ sides. give (sort_out scope c sides)))

  module _ (hash : ContextUtilityConfiguration W → Str) where
    -- All but the check of the result. The context is the last argument, as its answers.
    unfoldable pub selection : ContextSelectionRequest W → Run (ContextSelectionResult W)
    unfolding normalize prepare select_loop result_of validate_request
    selection request =
        poll
        >> (ensure (validate_request owners hash request)
            >> (obtain (normalize hash request.configuration) invalid_context >>= λ configuration.
                prepare request.scope request.candidates >>= λ (prepared, audits).
                select_loop owners hash request.limits configuration
                  (pos_part request.limits.max_items) (start prepared)
                >>= λ s. give (result_of configuration audits s)))

    unfoldable pub select_context : ContextSelectionRequest W → Run (ContextSelectionResult W)
    unfolding selection validate_against
    select_context request = selection request >>= λ result.
        ensure (validate_against owners hash result request) >> give result
