-- ===== src/Query/Selection/Maximal.antt =====
-- Nothing is left out of a selection that could have been added to it.
use manu.Base.{
  ◌≡◌, sym, ◌∙◌, ap, subst, ℕ, ◌≤◌, true, false, some, [], length, Str, str_eq, str_eq_iff,
  str_eq_refl, inl, inr, All, All-map, All-both, All-every, arith, one, total, total_bounds,
  total_find, occurrences, lookup, if◌then◌else◌,
}
use manu.Base.Run.{done}
use manu.Query.Check.{Polls}
use manu.Query.Context.{Owners, mem_str}
use manu.Query.Context.Validate.{is_sha256}
use manu.Query.Utility.{Float, IsFloat, ContextUtilityConfiguration, normalize}
use manu.Query.Candidate.{ContextSelectionCandidate, ContextSelectionRequest, redundancy_key}
use manu.Query.Greedy.{Prepared, Selecting, fits_selection_budget, marginal_utility}
use manu.Query.Result.{ContextSelectionResult, item_ids}
use manu.Query.Selection.{items_of, prepared_of, result_of, select_context}
use manu.Query.Selection.Pass.{IsPassed, chosen_before, redundant, too_large, useless}
use manu.Query.Selection.Flagged.{each, flag_part, IsPriced, mem_str-counted, counted-mem_str}
use manu.Query.Selection.Identity.{id_of, lookup-candidates}
use manu.Query.Selection.Preparation.{is_admissible, admissible_part}
use manu.Query.Selection.Checks.{items-occurrences}
use manu.Query.Selection.Audits.{same_id}
use manu.Query.Selection.Course.{Course, selection-Course, expected_of}
use manu.Query.Selection.Outcome.{
  select_context-selection, IsSound, last-IsSound, IsAccounted, chosen, item_limit_reached,
  key_taken, over_budget, no_utility,
}

module _ {W : Type 0} ⦃f : Float W⦄ (owners : Owners) (hash : ContextUtilityConfiguration W → Str)
    (request : ContextSelectionRequest W) (r : ContextSelectionResult W)
    (course : Course owners hash request r) where
  abbrev s : Selecting W
  s = course.last

  abbrev result : ContextSelectionResult W
  result = result_of course.configuration course.refused s

  abbrev Bounds : Prepared W → Type 0
  Bounds p = (m : Prepared W → ℕ) → m p ≤ total m s.prepared

  -- What a pass says of an entry, in terms of the result and of the candidate.
  passed-IsAccounted :
      (p : Prepared W) (c : ContextSelectionCandidate W)
      → p.candidate ≡ c
      → IsPriced p
      → Bounds p
      → IsPassed owners hash request.limits course.configuration s p
      → IsAccounted owners hash request result s.selected c
  unfolding result_of fits_selection_budget prepared_of
  passed-IsAccounted p c same price bounds (chosen_before taken) =
      let id = id_of p.candidate in
      let here : 1 ≤ occurrences (λ k. k) id (item_ids (items_of s.selected)) = omega (
        arith,
        bounds (flag_part (same_id id)),
        ap (λ b. if b then same_id id p.candidate else 0) taken,
        ap one (str_eq_refl id),
        items-occurrences id s.selected,
        course.tracked.counted (same_id id),
      ) in
      chosen (
        subst (λ e. mem_str (id_of e) (item_ids (items_of s.selected)) ≡ true) same
          (counted-mem_str id (item_ids (items_of s.selected)) here))
  passed-IsAccounted p c same price bounds (redundant known) = key_taken (
      subst (λ e. 1 ≤ occurrences redundancy_key (redundancy_key e) s.selected) same
        (omega (
          arith,
          mem_str-counted (redundancy_key p.candidate) s.redundancy known,
          course.tracked.keys (redundancy_key p.candidate),
        )))
  passed-IsAccounted p c same price bounds (too_large large) = over_budget (
      subst
        (λ e.
          fits_selection_budget (prepared_of e) s.token_count s.character_count s.byte_count
            (length s.selected) request.limits
          ≡ false)
        same (rw⁻¹ (price.tokens, price.characters, price.bytes) large))
  passed-IsAccounted p c same price bounds (useless u v gain computed low) =
      no_utility u v gain
        (subst (λ e. marginal_utility owners hash e s.selected course.configuration u ≡ done gain v)
          same computed)
        low

  abbrev Lookup : ContextSelectionCandidate W → Type 0
  Lookup c = lookup (id_of c) (expected_of owners hash request) ≡ some c

  -- Where the loop ended with nothing left to add, the entry of an admissible candidate says why.
  closed-IsAccounted :
      All (IsPassed owners hash request.limits course.configuration s) s.prepared
      → (c : ContextSelectionCandidate W) → Lookup c
      → ((m : ContextSelectionCandidate W → ℕ) → m c ≤ total m request.candidates)
      → is_admissible owners request.scope c ≡ true
      → IsAccounted owners hash request result s.selected c
  closed-IsAccounted closed c found bounds fit =
      let m = same_id (id_of c) in
      let expected = expected_of owners hash request in
      let there : 1 ≤ each m s.prepared = omega (
        arith,
        bounds (admissible_part owners request.scope m),
        ap (λ b. if b then m c else 0) fit,
        ap one (str_eq_refl (id_of c)),
        course.divided.admissible m,
        course.tracked.same m,
      ) in
      let known =
        All-both _ _ s.prepared
          (All-both _ _ s.prepared course.tracked.admitted course.tracked.priced)
          (All-both _ _ s.prepared closed (total_bounds s.prepared)) in
      let (p, equal, ((ok, price), (passed, entry_bounds))) =
        total_find (λ p. str_eq (id_of p.candidate) (id_of c)) _ s.prepared there known in
      let same_name = (str_eq_iff (id_of p.candidate) (id_of c)).0 equal in
      let looked_up : some p.candidate ≡ some c =
        sym ok.found ∙ ap (λ id. lookup id expected) same_name ∙ found in
      passed-IsAccounted p c (ground (arith, looked_up)) price entry_bounds passed

  course_accounts :
      All
        (λ c.
          is_admissible owners request.scope c ≡ true
          → IsAccounted owners hash request result s.selected c)
        request.candidates
  course_accounts = elim course.ending [
    | inl full ↦ All-every (λ c fit. item_limit_reached full) request.candidates
    | inr closed ↦
        All-map (λ c known. closed-IsAccounted closed c known.0 known.1) request.candidates
          (All-both _ _ request.candidates
            (lookup-candidates request.candidates [] course.parts.distinct)
            (total_bounds request.candidates))
  ]

module _ {W : Type 0} ⦃f : Float W⦄ (laws : IsFloat W) (owners : Owners)
    (hash : ContextUtilityConfiguration W → Str)
    (hexadecimal : (c : ContextUtilityConfiguration W) → is_sha256 (hash c) ≡ true)
    (request : ContextSelectionRequest W) where
  -- A selection is maximal. Behind its items there are candidates of the request, each found there
  -- under its item's identifier and selected once, no two of one redundancy key, and its counters are
  -- the sums of their costs; its configuration is the normal form of the request's. And each candidate
  -- of the request's scope with a valid item is one of them, or they reach the item limit, or one of
  -- them has its redundancy key, or it does not fit in what they leave of the limits, or its utility
  -- beside them is not positive.
  pub select_context_maximal :
      (p : Polls) (q : Polls) (r : ContextSelectionResult W)
      → select_context owners hash request p ≡ done r q
      → (sound : IsSound owners hash request r) × (normalize hash request.configuration
          ≡ some r.configuration)
        × All
            (λ c.
              is_admissible owners request.scope c ≡ true
              → IsAccounted owners hash request r sound.selected c)
            request.candidates
  unfolding result_of last-IsSound
  select_context_maximal p q r h =
      let c =
        selection-Course owners hash laws request p
          (sym (select_context-selection laws owners hash hexadecimal request p) ∙ h) in
      subst
        (λ x.
          (sound : IsSound owners hash request x) × (normalize hash request.configuration
            ≡ some x.configuration)
          × All
              (λ c.
                is_admissible owners request.scope c ≡ true
                → IsAccounted owners hash request x sound.selected c)
              request.candidates)
        c.result
        (
          last-IsSound laws owners hash hexadecimal request r c,
          c.normal,
          course_accounts owners hash request r c,
        )
