-- ===== src/Query/Closed/SelfCheck/Looped.antt =====
-- Where the loop of CloseContextSupport (internal/query/context_support_closure.go) ends, the result passes every
-- test but that of the limits.
use manu.Base.{
  ◌≡◌, refl, ℕ, ◌+◌, ◌≤◌, ◌==◌, leb, ltb_ℤ, pos, Bool, true, false, not, ◌&&◌, ◌||◌, none, some,
  List, [], ◌∷◌, length, Str, str_eq, All, All-map, All-both, All-sorted, arith, one, total-sorted,
  total-length, occurrences,
}
use manu.Query.Check.{
  Check, require, ◌then◌, then_iff, require-then, invalid_context, invalid_context_budget,
}
use manu.Query.Context.{Owners, mem_str, max_context_items}
use manu.Query.Closed.Support.Steps.{IsSupported}
use manu.Query.Utility.{Float, IsFloat, ContextUtilityConfiguration}
use manu.Query.Candidate.{validate_request}
use manu.Query.Result.{
  ContextSelectionResult, candidates_by_id, items_expected, tallied, tally, no_tally,
  validate_result, validate_against, same_answer,
}
use manu.Query.Relation.{
  ContextRelation, ContextRelationCandidate, max_context_relations, required_ids, relation_before,
  sorted_relations,
}
use manu.Query.ClosureState.{ContextSupportClosureRequest, ContextSupportClosureResult, Closing}
use manu.Query.ClosureResult.{
  first_tally, relation_tally, relation_ids, closure_result, validate_closure,
}
use manu.Query.Closed.{
  candidate_ids, relation_candidates_valid, validate_closure_request, validate_closure_against,
}
use manu.Query.Closed.Aligned.{
  relation_id, Aligned, relations-among, length-audits, Aligned-IsOwn, Aligned-All,
}
use manu.Query.Closed.Audited.{IsFit, relation_audits_valid-none}
use manu.Query.Closed.Agreed.{find_relation-All, relation_audits_agree-none}
use manu.Query.Closed.Related.{relations_valid-none}
use manu.Query.Closed.SelfCheck.Tallied.{tally-IsTwin, tally-count}
use manu.Query.Closed.SelfCheck.Requested.{candidates-All, candidates_once}

same_answer_self : (b : Bool) → same_answer b b ≡ true
same_answer_self b = ground arith

equal_sum : (n : ℕ) → ((0 + n) == n) ≡ true
equal_sum n = ground arith

then_none : (c : Check) → (c then none) ≡ c
then_none none = refl
then_none (some e) = refl

equal_self : (n : ℕ) → (n == n) ≡ true
equal_self n = ground arith

module _ {W : Type 0} ⦃f : Float W⦄ (owners : Owners)
    (hash : ContextUtilityConfiguration W → Str) where
  -- The comparison of a result with the limits of the request.
  abbrev pub closure_fits : ContextSupportClosureRequest W → ContextSupportClosureResult W → Bool
  closure_fits request r =
      not (ltb_ℤ request.request.limits.max_items (pos r.item_count))
      && not (ltb_ℤ request.request.limits.max_tokens (pos r.token_estimate))
      && not (ltb_ℤ request.request.limits.max_characters (pos r.characters_used))
      && not (ltb_ℤ request.request.limits.max_bytes (pos r.bytes_used))

relation_ids-occurrences :
    (id : Str) (l : List ContextRelation)
    → occurrences (λ s. s) id (relation_ids l) ≡ occurrences (λ r. r.id) id l
relation_ids-occurrences id [] = refl
relation_ids-occurrences id (r ∷ l) = omega (arith, relation_ids-occurrences id l)

module _ {W : Type 0} ⦃f : Float W⦄ (laws : IsFloat W) (owners : Owners)
    (hash : ContextUtilityConfiguration W → Str) (request : ContextSupportClosureRequest W) where
  -- Where the loop ended, for a request that passed its validation.
  pub record IsLooped (s : Closing W) (selection : ContextSelectionResult W) : Type 0 where
    pub requested : validate_closure_request owners hash request ≡ none
    pub few :
        All (λ c. leb (length (required_ids c.relation)) max_context_items ≡ true) request.relations
    pub aligned :
        Aligned owners request.request.scope
          (sorted_relations request.relations)
          s.audits
          s.relations
    pub supported : IsSupported selection s.relations
    pub against : validate_against owners hash selection request.request ≡ none

  abbrev ids : List Str
  ids = candidate_ids request.request.candidates

  requested_candidates :
      validate_closure_request owners hash request ≡ none
      → (leb (length request.relations) max_context_relations ≡ true)
        × (relation_candidates_valid owners hash ids [] request.relations ≡ none)
  unfolding validate_closure_request
  requested_candidates h =
      let (_, h1) = (then_iff (validate_request owners hash request.request) _).0 h in
      let (_, h2) = (then_iff (validate_against owners hash request.base request.request) _).0 h1 in
      require-then (leb (length request.relations) max_context_relations) invalid_context _ h2

  selection_parts :
      (selection : ContextSelectionResult W)
      → validate_against owners hash selection request.request ≡ none
      → (validate_result owners hash selection ≡ none)
        × (items_expected request.request.scope
              (candidates_by_id request.request.candidates [])
              selection.items
            ≡ none)
  unfolding validate_against
  selection_parts selection h =
      let expected = candidates_by_id request.request.candidates [] in
      let limits = request.request.limits in
      let (_, h1) = (then_iff (validate_request owners hash request.request) _).0 h in
      let (valid, h2) = (then_iff (validate_result owners hash selection) _).0 h1 in
      let (_, h3) =
        require-then
          (not (ltb_ℤ limits.max_items (pos (length selection.items)))
            && not (ltb_ℤ limits.max_tokens (pos selection.token_estimate))
            && not (ltb_ℤ limits.max_characters (pos selection.characters_used))
            && not (ltb_ℤ limits.max_bytes (pos selection.bytes_used)))
          invalid_context_budget _ h2 in
      let (_, h4) = require-then _ invalid_context _ h3 in
      (
        valid,
        ((then_iff (tallied expected selection (tally expected no_tally selection.audit)) _).0
            h4).1,
      )

  module _ (s : Closing W) (selection : ContextSelectionResult W)
      (looped : IsLooped s selection) where
    abbrev cs : List (ContextRelationCandidate W)
    cs = sorted_relations request.relations

    candidates-IsFit : All (IsFit owners) cs
    unfolding sorted_relations
    candidates-IsFit = All-sorted relation_before (IsFit owners) request.relations (
        All-map (λ c h. record { metadata = h.0.0; few = h.1 }) request.relations
          (All-both _ _ request.relations
            (candidates-All owners hash ids [] request.relations
              (requested_candidates looped.requested).1)
            looped.few))

    relations_apart : All (λ r. mem_str r.id ids ≡ false) s.relations
    unfolding sorted_relations
    relations_apart =
        Aligned-All owners request.request.scope (λ r. mem_str r.id ids ≡ false) cs s.audits
          s.relations looped.aligned
          (All-sorted relation_before (λ c. mem_str c.relation.id ids ≡ false) request.relations
            (All-map (λ c h. h.1) request.relations
              (candidates-All owners hash ids [] request.relations
                (requested_candidates looped.requested).1)))

    once : (id : Str) → occurrences relation_id id cs ≤ 1
    unfolding sorted_relations
    once id = omega (
      arith,
      total-sorted (λ c. one (str_eq c.relation.id id)) relation_before request.relations,
      candidates_once owners hash ids [] request.relations (requested_candidates looped.requested).1
          (λ x. omega arith) id,
    )

    relations_once : (id : Str) → occurrences (λ r. r.id) id s.relations ≤ 1
    relations_once id = omega (
      arith,
      once id,
      relations-among owners request.request.scope cs s.audits s.relations looped.aligned
          (λ r. one (str_eq r.id id)),
    )

    few_audits : leb (length s.audits) max_context_relations ≡ true
    unfolding sorted_relations
    few_audits =
        let same : length s.audits ≡ length request.relations = omega (
          arith,
          length-audits owners request.request.scope cs s.audits s.relations looped.aligned,
          total-length cs,
          total-length request.relations,
          total-sorted (λ c. 1) relation_before request.relations,
        ) in
        rw same (requested_candidates looped.requested).0

    few_relations : leb (length s.relations) max_context_relations ≡ true
    few_relations =
        let among : length s.relations ≤ length s.audits = omega (
          arith,
          relations-among owners request.request.scope cs s.audits s.relations looped.aligned
              (λ r. 1),
          total-length s.relations,
          total-length cs,
          length-audits owners request.request.scope cs s.audits s.relations looped.aligned,
        ) in
        ground (arith, few_audits, among)

    result_valid : validate_closure owners hash (closure_result s selection) ≡ none
    unfolding validate_closure closure_result
    result_valid =
        let scope = request.request.scope in
        let (selected, expected) = selection_parts selection looped.against in
        let relations =
          relations_valid-none owners scope selection request.request.candidates [] s.relations
            expected (Aligned-IsOwn owners scope cs s.audits s.relations looped.aligned)
            looped.supported relations_apart (λ id. omega (arith, relations_once id)) in
        let audits =
          relation_audits_valid-none owners scope (relation_ids s.relations) [] cs s.audits
            s.relations looped.aligned candidates-IsFit (λ id. omega (arith, once id))
            (λ id. omega (arith, relation_ids-occurrences id s.relations))
            (λ id. omega (arith, relation_ids-occurrences id s.relations)) in
        let count =
          tally-count owners scope (first_tally selection.budget_exhausted) cs s.audits s.relations
            looped.aligned in
        let twin =
          tally-IsTwin selection.budget_exhausted (first_tally false)
            (first_tally selection.budget_exhausted) s.audits
            (record {
              included_count = refl;
              tokens = refl;
              characters = refl;
              bytes = refl;
              incomplete = refl;
              exhausted = ground arith;
            }) in
        let t = relation_tally (first_tally false) s.audits in
        rw
          (
            selected,
            few_relations,
            few_audits,
            equal_self (length selection.items),
            equal_self (length s.relations),
            equal_self (length selection.items + length s.relations),
            relations,
            audits,
            count,
            equal_sum (length s.relations),
            twin.incomplete,
            same_answer_self t.incomplete,
            twin.exhausted,
            same_answer_self (t.exhausted || selection.budget_exhausted),
            twin.tokens,
            twin.characters,
            twin.bytes,
            equal_self (selection.token_estimate + t.tokens),
            equal_self (selection.characters_used + t.characters),
            equal_self (selection.bytes_used + t.bytes),
          )
          refl

    -- The check of the result is the comparison with the limits.
    pub result_checked :
        validate_closure_against owners hash (closure_result s selection) request
        ≡ require
            (closure_fits owners hash request (closure_result s selection))
            invalid_context_budget
    unfolding validate_closure_against
    result_checked =
        let agreed =
          relation_audits_agree-none laws owners hash request.request.scope s.relations [] cs
            s.audits s.relations looped.aligned candidates-IsFit
            (find_relation-All s.relations relations_once) (λ id. omega (arith, once id))
            (λ id. omega (arith, relation_ids-occurrences id s.relations)) in
        rw (looped.requested, result_valid)
          (unfold closure_result in rw (looped.against, agreed) (then_none _))
