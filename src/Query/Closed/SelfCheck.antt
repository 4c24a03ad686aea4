-- ===== src/Query/Closed/SelfCheck.antt =====
-- The check that CloseContextSupport (internal/query/context_support_closure.go) makes of its own result comes
-- down to the four limits.
mod Tallied
mod Requested
pub mod Looped
use manu.Base.{
  ◌≡◌, refl, sym, ap, subst, ℕ, suc, ◌+◌, ◌≤◌, ◌==◌, leb, ltb_ℤ, pos, Bool, true, false, Bool-cases,
  not, ◌&&◌, ◌||◌, none, some, List, [], ◌∷◌, length, Str, str_eq, str_eq_iff, inl, inr, All,
  All-map, All-both, All-sorted, arith, one, total-sorted, total-length, occurrences,
}
use manu.Query.Closed.Support.{close_relations-IsStep}
use manu.Base.Run.{Result-cases, done, done-value, bind-done, then-done}
use manu.Query.Check.{
  Check, Polls, ensure, require, give, ◌then◌, ◌>>=◌, ◌>>◌, then_iff, require-then, ensure-done,
  invalid_context, invalid_context_budget,
}
use manu.Query.Context.{Owners, mem_str, max_context_items}
use manu.Query.Closed.Support.Steps.{IsSupported}
use manu.Query.Utility.{Float, IsFloat, ContextUtilityConfiguration}
use manu.Query.Candidate.{validate_request}
use manu.Query.Result.{
  ContextSelectionResult, candidates_by_id, items_expected, tallied, tally, no_tally,
  validate_result, validate_against, same_answer,
}
use manu.Query.Selection.{any_budget}
use manu.Query.Selection.Flagged.{mem_str-occurrences}
use manu.Query.Relation.{
  ContextRelation, ContextRelationCandidate, max_context_relations, required_ids, relation_metadata,
  relation_before, sorted_relations,
}
use manu.Query.ClosureState.{
  ContextSupportClosureRequest, ContextSupportClosureResult, ContextRelationAudit, Closing,
}
use manu.Query.Closure.{relation_audit_of}
use manu.Query.ClosureResult.{
  RelationTally, first_tally, count_relation, relation_tally, relation_ids, closure_result,
  says_missing, says_over, validate_closure,
}
use manu.Query.Closed.{
  candidate_ids, relation_candidates_valid, validate_closure_request, validate_closure_against,
  closure, close_context_support,
}
use manu.Query.Closed.Aligned.{
  taken_audit, relation_id, Aligned, nothing, left, took, relations-among, length-audits,
  Aligned-IsOwn, Aligned-All, close_relations-Appends,
}
use manu.Query.Closed.Audited.{IsFit, relation_audits_valid-none}
use manu.Query.Closed.Agreed.{find_relation-All, relation_audits_agree-none}
use manu.Query.Closed.Related.{relations_valid-none}
use manu.Query.Closed.SelfCheck.Tallied.{tally-IsTwin, tally-count}
use manu.Query.Closed.SelfCheck.Requested.{candidates-All, candidates_once}
use manu.Query.Closed.SelfCheck.Looped.{closure_fits, IsLooped, result_checked}

module _ {W : Type 0} ⦃f : Float W⦄ (laws : IsFloat W) (owners : Owners)
    (hash : ContextUtilityConfiguration W → Str) (request : ContextSupportClosureRequest W) where
  closure_looped :
      (p : Polls) (q : Polls) (r : ContextSupportClosureResult W)
      → All (λ c. leb (length (required_ids c.relation)) max_context_items ≡ true) request.relations
      → closure owners hash request p ≡ done r q
      → validate_closure_against owners hash r request
        ≡ require (closure_fits owners hash request r) invalid_context_budget
  unfolding closure
  closure_looped p q r few h =
      let (_, p1, _, h1) = then-done _ _ p h in
      let (_, p2, requested, h2) = then-done _ _ p1 h1 in
      let (s, p3, looped, h3) = bind-done _ _ p2 h2 in
      let (_, p4, against, h4) = then-done _ _ p3 h3 in
      let selection = record s.selection { budget_exhausted = any_budget s.selection.audit } in
      let appended =
        close_relations-Appends owners request.request (sorted_relations request.relations) _ p2
          looped in
      let step =
        close_relations-IsStep owners request.request (sorted_relations request.relations) _ p2
          looped in
      subst
        (λ x.
          validate_closure_against owners hash x request
          ≡ require (closure_fits owners hash request x) invalid_context_budget)
        (done-value h4)
        (result_checked laws owners hash request s selection (record {
          requested = ensure-done _ p1 requested;
          few = few;
          aligned =
              subst
                (λ l.
                  Aligned owners request.request.scope (sorted_relations request.relations) l
                    s.relations)
                (sym appended.all_audits)
                (subst
                  (λ l.
                    Aligned owners request.request.scope (sorted_relations request.relations)
                      appended.audits l)
                  (sym appended.all_relations) appended.aligned);
          supported = step.supported tt;
          against = ensure-done _ p3 against;
        }))

  -- For numbers with the laws of float64, and relations that need no more items than an audit can name:
  -- the check that CloseContextSupport makes of its own result fails for the limits only. The function
  -- answers what it would answer if it compared the result with the four limits, and failed with the
  -- budget error where one is exceeded.
  pub close_context_support-closure :
      (p : Polls)
      → All (λ c. leb (length (required_ids c.relation)) max_context_items ≡ true) request.relations
      → close_context_support owners hash request p
        ≡ (closure owners hash request >>= λ r.
              ensure (require (closure_fits owners hash request r) invalid_context_budget)
              >> give r)
            p
  unfolding close_context_support ◌>>=◌
  close_context_support-closure p few = elim (Result-cases (closure owners hash request p)) [
    | inl (e, fails) ↦ rw fails refl
    | inr (r, q, ends) ↦ rw (ends, closure_looped p q r few ends) refl
  ]
