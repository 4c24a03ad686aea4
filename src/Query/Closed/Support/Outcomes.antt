-- ===== src/Query/Closed/Support/Outcomes.antt =====
-- What becomes of one relation in the loop of CloseContextSupport (internal/query/context_support_closure.go).
use manu.Base.{
  and→left, and→right, ◌&&◌, leb, Bool, none, ◌≡◌, refl, subst, true, false, not, ◌||◌, some,
  Option-cases, List, [], ◌∷◌, length, Str, ◌⊎◌, inl, inr, All, All-map, All-append, arith, ltb_ℤ,
  pos, ◌+◌,
}
use manu.Base.Run.{done, done-value, bind-done}
use manu.Query.Check.{Polls, if-done, obtain-done}
use manu.Query.Context.Validate.{same_scope, validate_context_ids}
use manu.Query.Context.{Scope, Owners, max_context_items, ContextLimits}
use manu.Query.Candidate.{Costs, no_costs, or_no_costs}
use manu.Query.Result.{ContextSelectionResult, item_ids}
use manu.Query.Relation.{
  validate_own, ContextRelation, ContextRelationCandidate, required_ids, relation_costs,
}
use manu.Query.Closure.{
  sum_costs, add_items, fits_closure_budget, used_of, with_costs, leave_out, take_relation,
  add_with,
}
use manu.Query.ClosureState.{
  undecided, relation_included, ContextRelationAuditReason, Missing, Closing, summed, no_sum,
  exceeded, CostSum, relation_scope, missing_support, invalid_relation, over_relation_budget,
}
use manu.Query.Closed.Support.Lookup.{Covered}
use manu.Query.Utility.{Float}
use manu.Query.Candidate.{ContextSelectionRequest}
use manu.Query.Result.{candidates_by_id}
use manu.Query.Relation.{
  validate_relation_candidate, validate_relation, relation_metadata, some_support,
  max_context_path_nodes,
}
use manu.Query.Context.Validate.{valid_context_id, validate_provenance}
use manu.Query.Check.{
  Check, is_nil, then_iff, require-then, is_nil-none, invalid_context_reference,
  invalid_context_scope,
}
use manu.Query.Closure.{close_relation, reason_of}
use manu.Base.Run.{then-done}
use manu.Query.ClosureState.{nothing_missing}
use manu.Query.Closed.Support.Lookup.{no_entry_named, lookup-named, look_for_all-AllLooked}
use manu.Query.Closed.Support.Steps.{
  Has, IsStep, leave_out-IsStep, take_relation-IsStep, add_items-Has,
}
use manu.Query.Closed.Support.Required.{
  required_ids-Once, named_ids, All-required_ids, distinct-valid_ids, part-validate_context_ids,
  missing-IsPart,
}

-- The reasons for which a relation is left out.
abbrev pub leaves_out : ContextRelationAuditReason → Bool
leaves_out undecided = false
leaves_out relation_included = false
leaves_out _ = true

-- A valid relation of the scope that is asked for.
pub record IsOwn (owners : Owners) (scope : Scope) (r : ContextRelation) : Type 0 where
  pub valid : validate_own owners r ≡ none
  pub in_scope : same_scope r.scope scope ≡ true

module _ {W : Type 0} (owners : Owners) (scope : Scope) where
  -- What becomes of one candidate.
  pub data Outcome (c : ContextRelationCandidate W) (s s' : Closing W) : Type 0 where
    left_out :
        (reason : ContextRelationAuditReason) (ids : List Str)
        → leaves_out reason ≡ true
        → (leb (length (required_ids c.relation)) max_context_items ≡ true
            → validate_context_ids owners ids max_context_items ≡ true)
        → leave_out c reason ids s ≡ s'
        → Outcome c s s'
    taken :
        (t : ContextSelectionResult W)
        → ((id : Str) → Has s.selection id → Has t id)
        → All (Has t) (required_ids c.relation)
        → IsOwn owners scope c.relation
        → take_relation c t s ≡ s'
        → Outcome c s s'

  pub Outcome-IsStep :
      (c : ContextRelationCandidate W) (s s' : Closing W) → Outcome c s s' → IsStep (c ∷ []) s s'
  Outcome-IsStep c s s' (left_out reason ids excluded valid e) =
      subst (IsStep (c ∷ []) s) e (leave_out-IsStep c reason ids s)
  Outcome-IsStep c s s' (taken t kept needs own e) =
      subst (IsStep (c ∷ []) s) e (take_relation-IsStep c t s kept needs)

CostSum-cases : (x : CostSum) → ((k : Costs) × (x ≡ summed k)) ⊎ ((x ≡ no_sum) ⊎ (x ≡ exceeded))
CostSum-cases (summed k) = inl (k, refl)
CostSum-cases no_sum = inr (inl refl)
CostSum-cases exceeded = inr (inr refl)

module _ {W : Type 0} where
  -- What is missing and what is selected are all that a relation needs, once it is added.
  Covered-Has :
      (s t : ContextSelectionResult W) (m : Missing W) (ids : List Str)
      → add_items m.items s ≡ some t
      → All (Covered (item_ids s.items) m) ids
      → All (Has t) ids
  Covered-Has s t m ids added covers =
      let (kept, new) = add_items-Has m.items s t added in
      All-map (λ id k. elim k [ inl here ↦ kept id here | inr there ↦ new id there ]) ids covers

no_ids_valid : (owners : Owners) → validate_context_ids owners [] max_context_items ≡ true
unfolding validate_context_ids
no_ids_valid owners = refl

module _ {W : Type 0} (owners : Owners) (scope : Scope) where
  pub add_with-Outcome :
      (limits : ContextLimits) (c : ContextRelationCandidate W) (m : Missing W) (s : Closing W)
      (p : Polls) {q : Polls} {s' : Closing W}
      → IsOwn owners scope c.relation
      → (leb (length (required_ids c.relation)) max_context_items ≡ true
          → validate_context_ids owners m.ids max_context_items ≡ true)
      → (m.support ≡ false
          → m.outside ≡ false
          → All (Covered (item_ids s.selection.items) m) (required_ids c.relation))
      → add_with limits c m s p ≡ done s' q
      → Outcome owners scope c s s'
  unfolding add_with
  add_with-Outcome limits c m s p own valid covers h = elim (if-done m.outside _ _ p h) [
    | inl (_, h1) ↦ left_out relation_scope m.ids refl valid (done-value h1)
    | inr (inside, h1) ↦ elim (if-done m.support _ _ p h1) [
      | inl (_, h2) ↦ left_out missing_support m.ids refl valid (done-value h2)
      | inr (supported, h2) ↦ elim (CostSum-cases (sum_costs no_costs m.items)) [
        | inr (inl e) ↦
            left_out invalid_relation [] refl (λ few. no_ids_valid owners) (done-value (rw e at h2))
        | inr (inr e) ↦
            left_out over_relation_budget [] refl (λ few. no_ids_valid owners)
              (done-value (rw e at h2))
        | inl (k, e) ↦
            elim (if-done
              (ltb_ℤ limits.max_items (pos (s.selection.item_count + length m.items))
                || not (
                    fits_closure_budget (used_of s.selection)
                      (with_costs k (or_no_costs (relation_costs c))) limits))
              _ _ p (rw e at h2)) [
                | inl (_, h3) ↦
                    left_out over_relation_budget [] refl (λ few. no_ids_valid owners)
                      (done-value h3)
                | inr (_, h3) ↦
                    let (t, p1, obtained, h4) = bind-done _ _ p h3 in
                    let added = obtain-done _ _ p obtained in
                    let needs =
                      Covered-Has s.selection t m (required_ids c.relation) added
                        (covers supported inside) in
                    let (kept, _) = add_items-Has m.items s.selection t added in
                    taken t kept needs own (done-value h4)
              ]
      ]
    ]
  ]

-- What a valid relation names are valid identifiers.
own-valid_ids :
    (owners : Owners) (r : ContextRelation)
    → validate_own owners r ≡ none
    → All (λ id. valid_context_id owners id ≡ true) (named_ids r)
unfolding validate_own validate_relation
own-valid_ids owners r h =
    let (_, h1) = require-then _ invalid_context_reference _ h in
    let (_, h2) = require-then _ invalid_context_scope _ h1 in
    let (_, h3) = require-then _ invalid_context_reference _ h2 in
    let (_, h4) = (then_iff (validate_provenance owners r.provenance r.scope) _).0 h3 in
    let (ends, h5) =
      require-then (valid_context_id owners r.from_id && valid_context_id owners r.to_id)
        invalid_context_reference _ h4 in
    let (_, h6) = require-then _ invalid_context_reference _ h5 in
    let (supports, h7) =
      require-then
        (some_support r.support_ids && validate_context_ids owners r.support_ids max_context_items)
        invalid_context_reference _ h6 in
    let (_, h8) = require-then _ invalid_context_reference _ h7 in
    let (path, _) =
      require-then (validate_context_ids owners r.path max_context_path_nodes)
        invalid_context_reference _ h8 in
    (
      and→left _ _ ends,
      (
        and→right _ _ ends,
        All-append _ r.path r.support_ids
            (distinct-valid_ids owners r.path max_context_path_nodes path)
            (distinct-valid_ids owners r.support_ids max_context_items (and→right _ _ supports)),
      ),
    )

not-false : (b : Bool) → not b ≡ false → b ≡ true
not-false true h = refl
not-false false h = absurd (ground arith)

reason_of-leaves_out : (c : Check) → not (is_nil c) ≡ true → leaves_out (reason_of c) ≡ true
reason_of-leaves_out c h = ground arith

own_valid :
    {W : Type 0} ⦃f : Float W⦄ (owners : Owners) (c : ContextRelationCandidate W)
    → validate_relation_candidate owners c ≡ none
    → validate_own owners c.relation ≡ none
unfolding validate_relation_candidate
own_valid owners c h = ((then_iff (relation_metadata owners c) _).0 h).1

module _ {W : Type 0} ⦃f : Float W⦄ (owners : Owners) (request : ContextSelectionRequest W) where
  pub close_relation-Outcome :
      (c : ContextRelationCandidate W) (s : Closing W) (p : Polls) {q : Polls} {s' : Closing W}
      → close_relation owners request c s p ≡ done s' q
      → Outcome owners request.scope c s s'
  unfolding close_relation
  close_relation-Outcome c s p h =
      let (_, p1, _, h1) = then-done _ _ p h in
      elim (Option-cases (relation_costs c)) [
        | inl none' ↦
            left_out invalid_relation [] refl (λ few. no_ids_valid owners)
              (done-value (rw none' at h1))
        | inr (k, e) ↦
            elim (if-done (not (is_nil (validate_relation_candidate owners c))) _ _ p1
              (rw e at h1)) [
                | inl (bad, h2) ↦
                    left_out (reason_of (validate_relation_candidate owners c)) []
                      (reason_of-leaves_out (validate_relation_candidate owners c) bad)
                      (λ few. no_ids_valid owners) (done-value h2)
                | inr (good, h2) ↦
                    elim (if-done (not (same_scope c.relation.scope request.scope)) _ _ p1 h2) [
                      | inl (_, h3) ↦
                          left_out relation_scope [] refl (λ few. no_ids_valid owners)
                            (done-value h3)
                      | inr (near, h3) ↦
                          let (m, p2, looked, h4) = bind-done _ _ p1 h3 in
                          let candidates = candidates_by_id request.candidates [] in
                          let valid = own_valid owners c (is_nil-none _ (not-false _ good)) in
                          let all =
                            look_for_all-AllLooked owners request.scope candidates
                              (item_ids s.selection.items) (required_ids c.relation) nothing_missing
                              p1
                              (λ id d found.
                                lookup-named request.candidates [] id d (no_entry_named id) found)
                              looked in
                          add_with-Outcome owners request.scope request.limits c m s p2
                            (record { valid = valid; in_scope = not-false _ near })
                            (part-validate_context_ids owners m.ids (required_ids c.relation)
                              (missing-IsPart owners request.scope candidates
                                (item_ids s.selection.items) (required_ids c.relation) p1 looked)
                              (All-required_ids _ c.relation
                                (own-valid_ids owners c.relation valid))
                              (required_ids-Once c.relation))
                            all.covers h4
                    ]
              ]
      ]
