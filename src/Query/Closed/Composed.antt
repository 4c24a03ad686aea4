-- ===== src/Query/Closed/Composed.antt =====
-- SelectContext (internal/query/context_selection.go) and then CloseContextSupport
-- (internal/query/context_support_closure.go).
use manu.Base.{
  ◌≡◌, refl, sym, ap, subst, ◌∙◌, ltb_ℤ, pos, true, false, not, ◌&&◌, none, [], ◌∷◌, length, Str,
  sorted,
}
use native.Mathlib.Nat.{add-zero}
use manu.Base.Run.{done}
use manu.Query.Check.{Polls, ◌>>=◌, ◌>>◌, then_iff, require-then, invalid_context_budget}
use manu.Query.Context.{Owners}
use manu.Query.Context.Validate.{is_sha256}
use manu.Query.Utility.{Float, IsFloat, ContextUtilityConfiguration}
use manu.Query.Candidate.{ContextSelectionRequest, validate_request}
use manu.Query.Result.{ContextSelectionResult, validate_result, validate_against}
use manu.Query.Selection.{any_budget, result_of, select_context}
use manu.Query.Selection.Course.{Course, selection-Course}
use manu.Query.Selection.SelfCheck.{course_passes}
use manu.Query.Selection.Outcome.{select_context-selection}
use manu.Query.Relation.{sorted_relations}
use manu.Query.ClosureState.{ContextSupportClosureRequest, ContextSupportClosureResult}
use manu.Query.Closure.{close_relations}
use manu.Query.ClosureResult.{relation_tally, closure_result}
use manu.Query.Closed.{
  relation_candidates_valid, validate_closure_request, closure, close_context_support,
}
use manu.Query.Closed.SelfCheck.Looped.{closure_fits}
use manu.Query.Closed.SelfCheck.{close_context_support-closure}

module _ {W : Type 0} where
  -- A closure under no relation.
  abbrev pub nothing_added : ContextSelectionResult W → ContextSupportClosureResult W
  nothing_added r = record {
    selection = r;
    relations = [];
    relation_audit = [];
    item_count = length r.items;
    relation_count = 0;
    total_count = length r.items;
    token_estimate = r.token_estimate;
    characters_used = r.characters_used;
    bytes_used = r.bytes_used;
    support_incomplete = false;
    budget_exhausted = r.budget_exhausted;
  }

  abbrev pub without_relations :
      ContextSelectionRequest W → ContextSelectionResult W → ContextSupportClosureRequest W
  without_relations request r = record { request = request; base = r; relations = [] }

module _ {W : Type 0} ⦃f : Float W⦄ (laws : IsFloat W) (owners : Owners)
    (hash : ContextUtilityConfiguration W → Str)
    (hexadecimal : (c : ContextUtilityConfiguration W) → is_sha256 (hash c) ≡ true)
    (request : ContextSelectionRequest W) where
  flag_set :
      (r : ContextSelectionResult W)
      → Course owners hash request r
      → any_budget r.audit ≡ r.budget_exhausted
  unfolding result_of
  flag_set r c = subst (λ x. any_budget x.audit ≡ x.budget_exhausted) c.result refl

  fits_alone :
      (r : ContextSelectionResult W)
      → validate_against owners hash r request ≡ none
      → closure_fits owners hash (without_relations request r) (nothing_added r) ≡ true
  unfolding validate_against
  fits_alone r h =
      let (_, h1) = (then_iff (validate_request owners hash request) _).0 h in
      let (_, h2) = (then_iff (validate_result owners hash r) _).0 h1 in
      (require-then
        (not (ltb_ℤ request.limits.max_items (pos (length r.items)))
          && not (ltb_ℤ request.limits.max_tokens (pos r.token_estimate))
          && not (ltb_ℤ request.limits.max_characters (pos r.characters_used))
          && not (ltb_ℤ request.limits.max_bytes (pos r.bytes_used)))
        invalid_context_budget _ h2).0

  requested_alone :
      (r : ContextSelectionResult W)
      → validate_request owners hash request ≡ none
      → validate_against owners hash r request ≡ none
      → validate_closure_request owners hash (without_relations request r) ≡ none
  unfolding validate_closure_request relation_candidates_valid
  requested_alone r valid passes =
      (then_iff (validate_request owners hash request) _).1
        (valid, (then_iff (validate_against owners hash r request) _).1 (passes, refl))

  flagged_passes :
      (r : ContextSelectionResult W)
      → any_budget r.audit ≡ r.budget_exhausted
      → validate_against owners hash r request ≡ none
      → validate_against owners hash (record r { budget_exhausted = any_budget r.audit }) request
        ≡ none
  flagged_passes r flag passes =
      subst (λ b. validate_against owners hash (record r { budget_exhausted = b }) request ≡ none)
        (sym flag) passes

  alone_result :
      (r : ContextSelectionResult W)
      → any_budget r.audit ≡ r.budget_exhausted
      → closure_result
          (record { selection = r; relations = []; audits = [] })
          (record r { budget_exhausted = any_budget r.audit })
        ≡ nothing_added r
  unfolding closure_result relation_tally
  alone_result r flag =
      rw
        (
          flag,
          add-zero r.token_estimate,
          add-zero r.characters_used,
          add-zero r.bytes_used,
          add-zero (length r.items),
        )
        refl

  closes_alone :
      (r : ContextSelectionResult W) (p : Polls)
      → validate_request owners hash request ≡ none
      → validate_against owners hash r request ≡ none
      → any_budget r.audit ≡ r.budget_exhausted
      → closure owners hash (without_relations request r) (false ∷ p) ≡ done (nothing_added r) p
  unfolding closure sorted_relations sorted close_relations closure_result relation_tally ◌>>=◌ ◌>>◌
  closes_alone r p valid passes flag =
      rw (requested_alone r valid passes, flagged_passes r flag passes)
        (ap (λ x. done x p) (alone_result r flag))

  -- For numbers with the laws of float64 and a digest in hexadecimal: where SelectContext has a result,
  -- CloseContextSupport accepts it as the base of a closure, and with no relation, asked with a context
  -- that has not ended, returns that selection as it is.
  pub select_context_closes :
      (p : Polls) (q : Polls) (r : ContextSelectionResult W) (next : Polls)
      → select_context owners hash request p ≡ done r q
      → close_context_support owners hash (without_relations request r) (false ∷ next)
        ≡ done (nothing_added r) next
  unfolding ◌>>=◌ ◌>>◌
  select_context_closes p q r next h =
      let c =
        selection-Course owners hash laws request p
          (sym (select_context-selection laws owners hash hexadecimal request p) ∙ h) in
      let passes = course_passes laws owners hash hexadecimal request r c in
      let closed = closes_alone r next c.valid passes (flag_set r c) in
      close_context_support-closure laws owners hash (without_relations request r) (false ∷ next) tt
      ∙ rw (closed, fits_alone r passes) refl
