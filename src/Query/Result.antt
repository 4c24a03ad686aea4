-- ===== src/Query/Result.antt =====
-- The result of a selection and its audit in internal/query/context.go and context_selection.go, and
-- the checks of a result against its request. The counts are sums of costs, which are not negative.
use manu.Base.{
  ℕ, ◌+◌, leb, ◌==◌, ℤ, pos, is_negative, ltb_ℤ, Bool, true, false, not, ◌&&◌, ◌||◌, Option, none,
  some, List, [], ◌∷◌, length, Str, if◌then◌else◌, Map, lookup, insert,
}
use manu.Query.Check.{
  Check, require, ◌then◌, invalid_context, invalid_context_budget, invalid_context_scope,
  invalid_context_reference,
}
use manu.Query.Context.{Scope, ContextItem, Owners, mem_str, max_context_items, max_context_audits}
use manu.Query.Context.Validate.{valid_context_id, same_scope, validate_item}
use manu.Query.Utility.{Float, ContextUtilityConfiguration, finite, normalize, same_configuration}
use manu.Query.Candidate.{
  ContextSelectionCandidate, ContextSelectionRequest, Costs, costs, is_some, validate_request,
}
use manu.Query.Greedy.{ContextSelectionReason, included, excluded_budget}

pub record ContextSelectionAudit (W : Type 0) : Type 0 where
  pub item_id : Str
  pub is_included : Bool
  pub reason : ContextSelectionReason
  pub rank : ℤ
  pub score : W
  pub token_estimate : ℕ
  pub characters : ℕ
  pub bytes : ℕ

pub record ContextSelectionResult (W : Type 0) : Type 0 where
  pub items : List ContextItem
  pub audit : List (ContextSelectionAudit W)
  pub item_count : ℕ
  pub token_estimate : ℕ
  pub characters_used : ℕ
  pub bytes_used : ℕ
  pub configuration : ContextUtilityConfiguration W
  pub budget_exhausted : Bool

abbrev pub says_included : ContextSelectionReason → Bool
says_included included = true
says_included _ = false

abbrev pub says_budget : ContextSelectionReason → Bool
says_budget excluded_budget = true
says_budget _ = false

abbrev pub same_answer : Bool → Bool → Bool
same_answer true b = b
same_answer false b = not b

abbrev pub item_ids : List ContextItem → List Str
item_ids [] = []
item_ids (i ∷ rest) = i.id ∷ item_ids rest

abbrev pub audit_ids : {W : Type 0} → List (ContextSelectionAudit W) → List Str
audit_ids [] = []
audit_ids (a ∷ rest) = a.item_id ∷ audit_ids rest

-- Every one of the identifiers is among the others.
unfoldable pub all_among : List Str → List Str → Check
all_among [] ids = none
all_among (id ∷ rest) ids = require (mem_str id ids) invalid_context then all_among rest ids

module _ (owners : Owners) where
  -- Each item is valid and comes once.
  unfoldable pub items_valid : List Str → List ContextItem → Check
  unfolding validate_item
  items_valid seen [] = none
  items_valid seen (i ∷ rest) =
      validate_item owners i
      then require (not (mem_str i.id seen)) invalid_context
      then items_valid (i.id ∷ seen) rest

  module _ {W : Type 0} ⦃f : Float W⦄ where
    unfoldable pub validate_audit : ContextSelectionAudit W → Check
    unfolding valid_context_id finite
    validate_audit a =
        require (valid_context_id owners a.item_id && not (is_negative a.rank) && finite a.score)
          invalid_context_reference
        then require (same_answer a.is_included (says_included a.reason)) invalid_context_reference

    -- Each decision is valid, comes once, and says of its item whether it is selected.
    unfoldable pub audits_valid : List Str → List Str → List (ContextSelectionAudit W) → Check
    unfolding validate_audit
    audits_valid ids seen [] = none
    audits_valid ids seen (a ∷ rest) =
        validate_audit a
        then require (not (mem_str a.item_id seen)) invalid_context
        then require (same_answer a.is_included (mem_str a.item_id ids)) invalid_context
        then audits_valid ids (a.item_id ∷ seen) rest

-- The variables of the loop over the audit in ValidateAgainst.
pub record Tally : Type 0 where
  pub seen : List Str
  pub included_count : ℕ
  pub included_tokens : ℕ
  pub included_characters : ℕ
  pub included_bytes : ℕ
  pub budget_audit : Bool

abbrev pub no_tally : Tally
no_tally = record {
  seen = [];
  included_count = 0;
  included_tokens = 0;
  included_characters = 0;
  included_bytes = 0;
  budget_audit = false;
}

module _ {W : Type 0} where
  -- The maps expectedIDs and candidatesByID, which have the same keys.
  unfoldable pub candidates_by_id :
      List (ContextSelectionCandidate W)
      → Map (ContextSelectionCandidate W)
      → Map (ContextSelectionCandidate W)
  unfolding insert
  candidates_by_id [] m = m
  candidates_by_id (c ∷ rest) m = candidates_by_id rest (insert c.item.id c m)

  abbrev pub is_expected : Option (ContextSelectionCandidate W) → Bool
  is_expected none = false
  is_expected (some c) = true

  unfoldable pub same_costs : ContextSelectionAudit W → Option Costs → Bool
  same_costs a none = false
  same_costs a (some k) =
      a.token_estimate == k.tokens && a.characters == k.characters && a.bytes == k.bytes

  -- The costs that the request gives for an audited item.
  unfoldable pub costs_at : Option (ContextSelectionCandidate W) → Option Costs
  unfolding costs
  costs_at none = none
  costs_at (some c) = costs c

  unfoldable pub count_audit : ContextSelectionAudit W → Tally → Tally
  count_audit a t =
      if not a.is_included
      then record t {
        seen = a.item_id ∷ t.seen;
        budget_audit = t.budget_audit || says_budget a.reason;
      }
      else record {
        seen = a.item_id ∷ t.seen;
        included_count = t.included_count + 1;
        included_tokens = t.included_tokens + a.token_estimate;
        included_characters = t.included_characters + a.characters;
        included_bytes = t.included_bytes + a.bytes;
        budget_audit = t.budget_audit;
      }

  -- `none` where the loop returns its error, which is the same in each case.
  unfoldable pub tally :
      Map (ContextSelectionCandidate W) → Tally → List (ContextSelectionAudit W) → Option Tally
  unfolding lookup same_costs costs_at count_audit
  tally expected t [] = some t
  tally expected t (a ∷ rest) =
      if is_expected (lookup a.item_id expected)
        && not (mem_str a.item_id t.seen)
        && (not a.is_included || same_costs a (costs_at (lookup a.item_id expected)))
      then tally expected (count_audit a t) rest
      else none

  unfoldable pub tally_agrees :
      Map (ContextSelectionCandidate W) → ContextSelectionResult W → Tally → Check
  tally_agrees expected r t =
      require (length t.seen == length expected) invalid_context
      then require
          (t.included_count == r.item_count
            && t.included_tokens == r.token_estimate
            && t.included_characters == r.characters_used
            && t.included_bytes == r.bytes_used)
          invalid_context
      then require (same_answer t.budget_audit r.budget_exhausted) invalid_context

  unfoldable pub tallied :
      Map (ContextSelectionCandidate W) → ContextSelectionResult W → Option Tally → Check
  unfolding tally_agrees
  tallied expected r none = some invalid_context
  tallied expected r (some t) = tally_agrees expected r t

  -- Each item is of the scope of the request and one of its candidates.
  unfoldable pub items_expected :
      Scope → Map (ContextSelectionCandidate W) → List ContextItem → Check
  unfolding same_scope lookup
  items_expected scope expected [] = none
  items_expected scope expected (i ∷ rest) =
      require (same_scope i.scope scope) invalid_context_scope
      then require (is_expected (lookup i.id expected)) invalid_context
      then items_expected scope expected rest

module _ {W : Type 0} ⦃f : Float W⦄ (owners : Owners)
    (hash : ContextUtilityConfiguration W → Str) where
  unfoldable pub validate_result : ContextSelectionResult W → Check
  unfolding normalize items_valid audits_valid all_among
  validate_result r =
      require (leb (length r.items) max_context_items && leb (length r.audit) max_context_audits)
        invalid_context
      then require (r.item_count == length r.items) invalid_context
      then require (is_some (normalize hash r.configuration)) invalid_context
      then items_valid owners [] r.items
      then audits_valid owners (item_ids r.items) [] r.audit
      then all_among (item_ids r.items) (audit_ids r.audit)

  -- The applied configuration is what the request's becomes; one that is refused is the zero value,
  -- which no valid result has applied.
  unfoldable pub is_applied :
      ContextUtilityConfiguration W → Option (ContextUtilityConfiguration W) → Bool
  unfolding same_configuration
  is_applied c none = false
  is_applied c (some normal) = same_configuration c normal

  unfoldable pub validate_against : ContextSelectionResult W → ContextSelectionRequest W → Check
  unfolding validate_request validate_result tally tallied items_expected candidates_by_id
      is_applied normalize
  validate_against r request =
      let expected = candidates_by_id request.candidates [] in
      validate_request owners hash request
      then validate_result r
      then require
          (not (ltb_ℤ request.limits.max_items (pos (length r.items)))
            && not (ltb_ℤ request.limits.max_tokens (pos r.token_estimate))
            && not (ltb_ℤ request.limits.max_characters (pos r.characters_used))
            && not (ltb_ℤ request.limits.max_bytes (pos r.bytes_used)))
          invalid_context_budget
      then require (is_applied r.configuration (normalize hash request.configuration))
          invalid_context
      then tallied expected r (tally expected no_tally r.audit)
      then items_expected request.scope expected r.items
