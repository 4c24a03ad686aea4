-- ===== src/Query/Closed/Support.antt =====
-- A relation is closed over only with all that it needs, and what was selected stays selected.
mod Lookup
pub mod Required
pub mod Steps
pub mod Outcomes
use manu.Base.{
  refl, sym, ap, ◌∙◌, ◌++◌, ◌≡◌, refl, ◌∙◌, ap, subst, true, false, Bool-cases, not, ◌&&◌, ◌||◌,
  none, some, Option-cases, List, [], ◌∷◌, ◌++◌, length, Str, str_eq, str_eq_refl, ◌⊎◌, inl, inr,
  All, All-map, All-append, arith, Map, lookup, insert, lookup-insert-cases, ltb_ℤ, pos, ◌+◌,
}
use mathlib.Core.List.{append-nil, append_assoc}
use manu.Base.Run.{done, done-value, bind-done, then-done}
use manu.Query.Check.{
  Polls, is_nil, then_iff, require-then, ensure-done, invalid_context_budget, if-done, obtain-done,
}
use manu.Query.Context.{Scope, ContextItem, ContextLimits, Owners, mem_str}
use manu.Query.Context.Validate.{scope_valid, same_scope, validate_item}
use manu.Query.Utility.{Float, ContextUtilityConfiguration}
use manu.Query.Candidate.{
  ContextSelectionCandidate, ContextSelectionRequest, Costs, costs_or_none, no_costs, or_no_costs,
}
use manu.Query.Result.{ContextSelectionResult, validate_against, item_ids, candidates_by_id}
use manu.Query.Selection.{items_of}
use manu.Query.Relation.{
  ContextRelation, ContextRelationCandidate, required_ids, relation_costs,
  validate_relation_candidate, sorted_relations,
}
use manu.Query.Closure.{
  sum_costs, include_audit, add_item, add_items, fits_closure_budget, used_of, with_costs,
  reason_of, leave_out, take_relation, look_for, look_for_all, add_with, close_relation,
  close_relations,
}
use manu.Query.ClosureState.{
  ContextSupportClosureRequest, ContextSupportClosureResult, Missing, nothing_missing, Closing,
  summed, no_sum, exceeded, CostSum, relation_scope, missing_support, invalid_relation,
  over_relation_budget,
}
use manu.Query.ClosureResult.{closure_result, validate_closure}
use manu.Query.Closed.{
  closure, close_context_support, validate_closure_request, validate_closure_against,
}
use manu.Query.Closed.Support.Lookup.{
  Extends, AllLooked, no_entry_named, lookup-named, look_for_all-AllLooked,
}
use manu.Query.Closed.Support.Outcomes.{Outcome-IsStep, close_relation-Outcome}
use manu.Query.Closed.Support.Steps.{
  audited_ids, relation_ids_of, Agrees, Has, IsSupported, IsStep, leave_out-IsStep,
}

module _ {W : Type 0} ⦃f : Float W⦄ (owners : Owners) (request : ContextSelectionRequest W) where
  pub close_relations-IsStep :
      (cs : List (ContextRelationCandidate W)) (s : Closing W) (p : Polls) {q : Polls}
      {s' : Closing W}
      → close_relations owners request cs s p ≡ done s' q
      → IsStep cs s s'
  unfolding close_relations
  close_relations-IsStep [] s p h = subst (IsStep [] s) (done-value h) (record {
    audited = sym (append-nil (audited_ids s.audits));
    agrees = λ k. k;
    kept = λ id k. k;
    supported = λ k. k;
  })
  close_relations-IsStep (c ∷ cs) s p h =
      let (s1, p1, one, h1) = bind-done _ _ p h in
      let first =
        Outcome-IsStep owners request.scope c s s1
          (close_relation-Outcome owners request c s p one) in
      let rest = close_relations-IsStep cs s1 p1 h1 in
      record {
        audited =
            rest.audited
            ∙ ap (λ ids. ids ++ relation_ids_of cs) first.audited
            ∙ append_assoc (audited_ids s.audits) (c.relation.id ∷ []) (relation_ids_of cs);
        agrees = λ k. rest.agrees (first.agrees k);
        kept = λ id k. rest.kept id (first.kept id k);
        supported = λ k. rest.supported (first.supported k);
      }

-- What was selected is kept, each relation has what it needs, each candidate has an audit, in the order of
-- the candidates, and the relations are those that the audits call included.
pub record IsClosed {W : Type 0} ⦃f : Float W⦄ (request : ContextSupportClosureRequest W)
    (r : ContextSupportClosureResult W) : Type 0 where
  pub kept : (id : Str) → Has request.base id → Has r.selection id
  pub supported : IsSupported r.selection r.relations
  pub audited : audited_ids r.relation_audit ≡ relation_ids_of (sorted_relations request.relations)
  pub agrees : Agrees r.relations r.relation_audit

module _ {W : Type 0} ⦃f : Float W⦄ (owners : Owners) (hash : ContextUtilityConfiguration W → Str)
    (request : ContextSupportClosureRequest W) where
  closure-IsClosed :
      (p : Polls) (q : Polls) (r : ContextSupportClosureResult W)
      → closure owners hash request p ≡ done r q
      → IsClosed request r
  unfolding closure closure_result
  closure-IsClosed p q r h =
      let (_, p1, _, h1) = then-done _ _ p h in
      let (_, p2, _, h2) = then-done _ _ p1 h1 in
      let (s, p3, looped, h3) = bind-done _ _ p2 h2 in
      let (_, p4, _, h4) = then-done _ _ p3 h3 in
      let step =
        close_relations-IsStep owners request.request (sorted_relations request.relations) _ p2
          looped in
      subst (IsClosed request) (done-value h4) (record {
        kept = step.kept;
        supported = step.supported tt;
        audited = step.audited;
        agrees = step.agrees refl;
      })

  pub record IsWithin (r : ContextSupportClosureResult W) : Type 0 where
    pub items : ltb_ℤ request.request.limits.max_items (pos r.item_count) ≡ false
    pub tokens : ltb_ℤ request.request.limits.max_tokens (pos r.token_estimate) ≡ false
    pub characters : ltb_ℤ request.request.limits.max_characters (pos r.characters_used) ≡ false
    pub bytes : ltb_ℤ request.request.limits.max_bytes (pos r.bytes_used) ≡ false

  checked-IsWithin :
      (r : ContextSupportClosureResult W)
      → validate_closure_against owners hash r request ≡ none
      → IsWithin r
  unfolding validate_closure_against
  checked-IsWithin r h =
      let (_, h1) = (then_iff (validate_closure_request owners hash request) _).0 h in
      let (_, h2) = (then_iff (validate_closure owners hash r) _).0 h1 in
      let (_, h3) = (then_iff (validate_against owners hash r.selection request.request) _).0 h2 in
      let limits = request.request.limits in
      let (fits, _) =
        require-then
          (not (ltb_ℤ limits.max_items (pos r.item_count))
            && not (ltb_ℤ limits.max_tokens (pos r.token_estimate))
            && not (ltb_ℤ limits.max_characters (pos r.characters_used))
            && not (ltb_ℤ limits.max_bytes (pos r.bytes_used)))
          invalid_context_budget _ h3 in
      record {
        items = ground (arith, fits);
        tokens = ground (arith, fits);
        characters = ground (arith, fits);
        bytes = ground (arith, fits);
      }

  -- Where a closure has a result, it kept every item that was selected before, each relation that it took
  -- has its ends, its path and its support among the selected items, each relation of the request has
  -- one audit, in the order of the candidates, of which the included ones are the relations taken, and
  -- items and relations together are within the limits.
  pub close_context_support-IsClosed :
      (p : Polls) (q : Polls) (r : ContextSupportClosureResult W)
      → close_context_support owners hash request p ≡ done r q
      → IsClosed request r × IsWithin r
  unfolding close_context_support
  close_context_support-IsClosed p q r h =
      let (x, p1, closed, h1) = bind-done _ _ p h in
      let (_, p2, tested, h2) = then-done _ _ p1 h1 in
      subst (λ y. IsClosed request y × IsWithin y) (done-value h2)
        (closure-IsClosed p p1 x closed, checked-IsWithin x (ensure-done _ p1 tested))
