-- ===== src/Query/Candidate.antt =====
-- The candidates and the request of internal/query/context_selection.go, and their validation.
use manu.Base.{
  ℕ, ltb, leb, ◌==◌, ℤ, pos, is_negative, ltb_ℤ, Bool, true, false, not, ◌&&◌, ◌||◌, Option, none,
  some, List, [], ◌∷◌, length, Str, is_empty, if◌then◌else◌,
}
use manu.Query.Check.{Check, require, ◌then◌, invalid_context, invalid_context_budget}
use manu.Query.Context.{
  Scope, ContextItem, ContextLimits, Owners, mem_str, max_context_items, max_context_tokens,
  max_context_characters, max_context_bytes,
}
use manu.Query.Context.Validate.{
  scope_valid, limits_valid, valid_context_id, distinct_valid, validate_item,
}
use manu.Query.Utility.{Float, ContextUtilityConfiguration, finite, normalize}

pub record ContextSelectionCandidate (W : Type 0) : Type 0 where
  pub item : ContextItem
  pub relevance : W
  pub rank : ℤ
  pub aspects : List Str
  pub redundancy_key : Str
  pub token_cost : ℤ
  pub character_cost : ℤ
  pub byte_cost : ℤ
  pub tokens : ℤ
  pub characters : ℤ
  pub bytes : ℤ

pub record ContextSelectionRequest (W : Type 0) : Type 0 where
  pub scope : Scope
  pub limits : ContextLimits
  pub candidates : List (ContextSelectionCandidate W)
  pub configuration : ContextUtilityConfiguration W

-- What a candidate costs: tokens, characters and bytes.
pub record Costs : Type 0 where
  pub tokens : ℕ
  pub characters : ℕ
  pub bytes : ℕ

abbrev pub max_context_selection_candidates : ℕ
max_context_selection_candidates = max_context_items

abbrev pub max_context_selection_aspects : ℕ
max_context_selection_aspects = 1024

abbrev pub max_context_selection_score : ℕ
max_context_selection_score = 1048576

-- A cost has two names; `none` where one is negative or they are two different costs.
unfoldable pub resolve_selection_cost : ℤ → ℤ → Option ℕ
resolve_selection_cost (pos canonical) (pos alias) =
    if not (canonical == 0) && not (alias == 0) && not (canonical == alias)
    then none
    else if not (canonical == 0)
    then some canonical
    else some alias
resolve_selection_cost _ _ = none

abbrev pub three : Option ℕ → Option ℕ → Option ℕ → Option Costs
three (some t) (some c) (some b) = some (record { tokens = t; characters = c; bytes = b })
three _ _ _ = none

abbrev pub no_costs : Costs
no_costs = record { tokens = 0; characters = 0; bytes = 0 }

abbrev pub bounded : Option Costs → Bool
bounded none = false
bounded (some k) =
    not (ltb max_context_tokens k.tokens)
    && not (ltb max_context_characters k.characters)
    && not (ltb max_context_bytes k.bytes)

abbrev pub or_no_costs : Option Costs → Costs
or_no_costs none = no_costs
or_no_costs (some k) = k

module _ {W : Type 0} where
  unfoldable pub costs : ContextSelectionCandidate W → Option Costs
  unfolding resolve_selection_cost
  costs c =
      three (resolve_selection_cost c.token_cost c.tokens)
        (resolve_selection_cost c.character_cost c.characters)
        (resolve_selection_cost c.byte_cost c.bytes)

  -- The costs where the error is left aside: zeros come with it.
  unfoldable pub costs_or_none : ContextSelectionCandidate W → Costs
  unfolding costs
  costs_or_none c = or_no_costs (costs c)

  unfoldable pub redundancy_key : ContextSelectionCandidate W → Str
  redundancy_key c = if is_empty c.redundancy_key then c.item.id else c.redundancy_key

abbrev pub is_some : {W : Type 0} → Option (ContextUtilityConfiguration W) → Bool
is_some none = false
is_some (some c) = true

module _ {W : Type 0} ⦃f : Float W⦄ (owners : Owners) where
  unfoldable pub metadata_valid : ContextSelectionCandidate W → Bool
  unfolding valid_context_id distinct_valid finite costs
  metadata_valid c =
      valid_context_id owners c.item.id
      && finite c.relevance
      && not (f.lt c.relevance (f.of_nat 0))
      && not (f.lt (f.of_nat max_context_selection_score) c.relevance)
      && not (is_negative c.rank)
      && not (ltb_ℤ (pos max_context_selection_candidates) c.rank)
      && leb (length c.aspects) max_context_selection_aspects
      && distinct_valid owners owners.text_valid [] c.aspects
      && (is_empty c.redundancy_key || valid_context_id owners c.redundancy_key)
      && bounded (costs c)

  unfoldable pub validate_candidate : ContextSelectionCandidate W → Check
  unfolding metadata_valid validate_item
  validate_candidate c = require (metadata_valid c) invalid_context then validate_item owners c.item

  -- Each candidate has valid metadata, and no two have one identifier.
  unfoldable pub candidates_valid : List Str → List (ContextSelectionCandidate W) → Bool
  unfolding metadata_valid
  candidates_valid seen [] = true
  candidates_valid seen (c ∷ rest) =
      metadata_valid c && not (mem_str c.item.id seen) && candidates_valid (c.item.id ∷ seen) rest

  module _ (hash : ContextUtilityConfiguration W → Str) where
    unfoldable pub validate_request : ContextSelectionRequest W → Check
    unfolding scope_valid limits_valid normalize candidates_valid
    validate_request r =
        require (scope_valid r.scope) invalid_context
        then require (limits_valid r.limits) invalid_context_budget
        then require (leb (length r.candidates) max_context_selection_candidates) invalid_context
        then require (is_some (normalize hash r.configuration)) invalid_context
        then require (candidates_valid [] r.candidates) invalid_context
