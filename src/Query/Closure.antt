-- ===== src/Query/Closure.antt =====
-- CloseContextSupport of internal/query/context_support_closure.go: relations are added to a selection
-- with all that they need, or not at all.
use manu.Base.{
  ◌+◌, ltb, pos, ltb_ℤ, Bool, true, false, not, ◌&&◌, ◌||◌, Option, none, some, List, [], ◌∷◌, ◌++◌,
  length, Str, str_eq, if◌then◌else◌, Map, lookup,
}
use manu.Query.Check.{
  Run, Check, ◌then◌, obtain, give, poll, ◌>>=◌, ◌>>◌, is_nil, invalid_context,
  invalid_context_scope,
}
use manu.Query.Context.{
  Scope, ContextLimits, Owners, mem_str, max_context_tokens, max_context_characters,
  max_context_bytes,
}
use manu.Query.Context.Validate.{scope_valid, same_scope, validate_item}
use manu.Query.Utility.{Float}
use manu.Query.Candidate.{
  ContextSelectionCandidate, ContextSelectionRequest, Costs, costs, costs_or_none, no_costs,
  or_no_costs,
}
use manu.Query.Greedy.{included}
use manu.Query.Result.{ContextSelectionAudit, ContextSelectionResult, item_ids, candidates_by_id}
use manu.Query.Relation.{
  ContextRelationCandidate, required_ids, relation_costs, validate_relation_candidate,
}
use manu.Query.ClosureState.{
  ContextRelationAuditReason, ContextRelationAudit, Missing, nothing_missing, Closing, CostSum,
  undecided, relation_included, missing_support, over_relation_budget, invalid_relation,
  relation_scope, summed, no_sum, exceeded,
}

unfoldable pub add_closure_cost : Costs → Costs → Option Costs
add_closure_cost sum k =
    if ltb max_context_tokens (sum.tokens + k.tokens)
      || ltb max_context_characters (sum.characters + k.characters)
      || ltb max_context_bytes (sum.bytes + k.bytes)
    then none
    else some (record {
      tokens = sum.tokens + k.tokens;
      characters = sum.characters + k.characters;
      bytes = sum.bytes + k.bytes;
    })

unfoldable pub fits_closure_budget : Costs → Costs → ContextLimits → Bool
fits_closure_budget used k limits =
    not (ltb_ℤ limits.max_tokens (pos used.tokens))
    && not (ltb_ℤ limits.max_characters (pos used.characters))
    && not (ltb_ℤ limits.max_bytes (pos used.bytes))
    && not (ltb_ℤ limits.max_tokens (pos (used.tokens + k.tokens)))
    && not (ltb_ℤ limits.max_characters (pos (used.characters + k.characters)))
    && not (ltb_ℤ limits.max_bytes (pos (used.bytes + k.bytes)))

module _ {W : Type 0} where
  unfoldable pub sum_costs : Costs → List (ContextSelectionCandidate W) → CostSum
  unfolding costs add_closure_cost
  sum_costs sum [] = summed sum
  sum_costs sum (c ∷ rest) = elim (costs c) [
    | none ↦ no_sum
    | some k ↦ elim (add_closure_cost sum k) [ none ↦ exceeded | some more ↦ sum_costs more rest ]
  ]

  -- The assignments to the audit of an item that is added; `none` where it has none.
  unfoldable pub include_audit :
      Str → Costs → List (ContextSelectionAudit W) → Option (List (ContextSelectionAudit W))
  include_audit id k [] = none
  include_audit id k (a ∷ rest) =
      if str_eq a.item_id id
      then some (
          record a {
            is_included = true;
            reason = included;
            token_estimate = k.tokens;
            characters = k.characters;
            bytes = k.bytes;
          }
          ∷ rest)
      else elim (include_audit id k rest) [ none ↦ none | some more ↦ some (a ∷ more) ]

  -- One item is added to the selection.
  unfoldable pub add_item :
      ContextSelectionCandidate W → ContextSelectionResult W → Option (ContextSelectionResult W)
  unfolding costs_or_none include_audit
  add_item c s = elim (include_audit c.item.id (costs_or_none c) s.audit) [
    | none ↦ none
    | some audits ↦ some (record s {
      items = s.items ++ c.item ∷ [];
      audit = audits;
      token_estimate = s.token_estimate + (costs_or_none c).tokens;
      characters_used = s.characters_used + (costs_or_none c).characters;
      bytes_used = s.bytes_used + (costs_or_none c).bytes;
    })
  ]

  unfoldable pub add_items :
      List (ContextSelectionCandidate W)
      → ContextSelectionResult W
      → Option (ContextSelectionResult W)
  unfolding add_item
  add_items [] s = some (record s { item_count = length s.items })
  add_items (c ∷ rest) s = elim (add_item c s) [ none ↦ none | some more ↦ add_items rest more ]

  abbrev pub used_of : ContextSelectionResult W → Costs
  used_of s = record {
    tokens = s.token_estimate;
    characters = s.characters_used;
    bytes = s.bytes_used;
  }

  -- The audit that a relation begins with.
  unfoldable pub relation_audit_of : ContextRelationCandidate W → ContextRelationAudit W
  unfolding relation_costs
  relation_audit_of c = record {
    relation_id = c.relation.id;
    is_included = false;
    reason = undecided;
    rank = c.rank;
    score = c.score;
    token_cost = (or_no_costs (relation_costs c)).tokens;
    character_cost = (or_no_costs (relation_costs c)).characters;
    byte_cost = (or_no_costs (relation_costs c)).bytes;
    missing_ids = [];
  }

  -- A relation is left out for a reason, with what it misses.
  unfoldable pub leave_out :
      ContextRelationCandidate W → ContextRelationAuditReason → List Str → Closing W → Closing W
  unfolding relation_audit_of
  leave_out c reason ids s = record s {
    audits = s.audits ++ record (relation_audit_of c) { reason = reason; missing_ids = ids } ∷ [];
  }

  -- A relation is added to a selection that has all it needs.
  unfoldable pub take_relation :
      ContextRelationCandidate W → ContextSelectionResult W → Closing W → Closing W
  unfolding relation_audit_of
  take_relation c selection s = record {
    selection = selection;
    relations = s.relations ++ c.relation ∷ [];
    audits =
        s.audits
        ++ record (relation_audit_of c) { is_included = true; reason = relation_included } ∷ [];
  }

abbrev pub with_costs : Costs → Costs → Costs
with_costs a b = record {
  tokens = a.tokens + b.tokens;
  characters = a.characters + b.characters;
  bytes = a.bytes + b.bytes;
}

abbrev pub reason_of : Check → ContextRelationAuditReason
reason_of none = undecided
reason_of (some invalid_context_scope) = relation_scope
reason_of (some _) = invalid_relation

module _ {W : Type 0} where
  -- What is done with a relation once it is known what it misses.
  unfoldable pub add_with :
      ContextLimits → ContextRelationCandidate W → Missing W → Closing W → Run (Closing W)
  unfolding sum_costs fits_closure_budget add_items leave_out take_relation relation_costs
  add_with limits c m s =
      if m.outside
      then give (leave_out c relation_scope m.ids s)
      else if m.support
      then give (leave_out c missing_support m.ids s)
      else elim (sum_costs no_costs m.items) [
        | no_sum ↦ give (leave_out c invalid_relation [] s)
        | exceeded ↦ give (leave_out c over_relation_budget [] s)
        | summed k ↦
            if ltb_ℤ limits.max_items (pos (s.selection.item_count + length m.items))
              || not (
                  fits_closure_budget (used_of s.selection)
                    (with_costs k (or_no_costs (relation_costs c))) limits)
            then give (leave_out c over_relation_budget [] s)
            else obtain (add_items m.items s.selection) invalid_context >>= λ selection.
                give (take_relation c selection s)
      ]

module _ {W : Type 0} ⦃f : Float W⦄ (owners : Owners) where
  -- One required identifier.
  unfoldable pub look_for :
      Scope → Map (ContextSelectionCandidate W) → List Str → Str → Missing W → Missing W
  unfolding lookup scope_valid same_scope validate_item
  look_for scope candidates selected id m =
      if mem_str id selected then m else elim (lookup id candidates) [
        | none ↦ record m { ids = m.ids ++ id ∷ []; support = true }
        | some c ↦
            if not (scope_valid c.item.scope) || not (same_scope c.item.scope scope)
            then record m { ids = m.ids ++ id ∷ []; outside = true }
            else if not (is_nil (validate_item owners c.item))
            then record m { ids = m.ids ++ id ∷ []; support = true }
            else record m { items = m.items ++ c ∷ [] }
      ]

  unfoldable pub look_for_all :
      Scope → Map (ContextSelectionCandidate W) → List Str → List Str → Missing W → Run (Missing W)
  unfolding look_for
  look_for_all scope candidates selected [] m = give m
  look_for_all scope candidates selected (id ∷ rest) m =
      poll >> look_for_all scope candidates selected rest (look_for scope candidates selected id m)

  -- One relation.
  unfoldable pub close_relation :
      ContextSelectionRequest W → ContextRelationCandidate W → Closing W → Run (Closing W)
  unfolding relation_costs validate_relation_candidate same_scope candidates_by_id look_for_all
      required_ids add_with leave_out
  close_relation request c s = poll >> (elim (relation_costs c) [
    | none ↦ give (leave_out c invalid_relation [] s)
    | some k ↦
        if not (is_nil (validate_relation_candidate owners c))
        then give (leave_out c (reason_of (validate_relation_candidate owners c)) [] s)
        else if not (same_scope c.relation.scope request.scope)
        then give (leave_out c relation_scope [] s)
        else look_for_all request.scope (candidates_by_id request.candidates [])
            (item_ids s.selection.items) (required_ids c.relation) nothing_missing
          >>= λ m. add_with request.limits c m s
  ])

  unfoldable pub close_relations :
      ContextSelectionRequest W → List (ContextRelationCandidate W) → Closing W → Run (Closing W)
  unfolding close_relation
  close_relations request [] s = give s
  close_relations request (c ∷ rest) s =
      close_relation request c s >>= λ s'. close_relations request rest s'
