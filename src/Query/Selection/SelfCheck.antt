-- ===== src/Query/Selection/SelfCheck.antt =====
-- The check at the end of SelectContext: ValidateAgainst accepts every result of the selection, so the
-- check never turns one into an error.
use manu.Base.{
  ◌≡◌, refl, ◌∙◌, ap, subst, ℕ, suc, ◌≤◌, leb, ◌==◌, pos, ltb_ℤ, Bool, true, false, Bool-cases,
  none, List, [], ◌∷◌, length, Str, str_eq_refl, inl, inr, All, All-map, All-every, arith, one,
  total, total_one, total_mono, total_bounds, occurrences, Map, lookup,
}
use manu.Query.Context.{Owners, mem_str, max_context_items, max_context_audits}
use manu.Query.Utility.{Float, IsFloat, ContextUtilityConfiguration, normalize}
use manu.Query.Context.Validate.{is_sha256}
use manu.Query.Candidate.{ContextSelectionCandidate, ContextSelectionRequest, is_some}
use manu.Query.Greedy.{Selecting}
use manu.Query.Result.{
  ContextSelectionAudit, ContextSelectionResult, Tally, no_tally, item_ids, audit_ids, items_valid,
  audits_valid, is_expected, tally, tally_agrees, tallied, items_expected, is_applied,
  validate_result, validate_against, same_answer,
}
use manu.Query.Selection.{items_of, any_budget, audit_of, result_of}
use manu.Query.Selection.Tracked.{IsTracked, token_price, character_price, byte_price}
use manu.Query.Selection.Flagged.{each, flag_part, mem_str-occurrences}
use manu.Query.Selection.Identity.{id_of, length-candidates_by_id}
use manu.Query.Selection.Checks.{
  audit_id, audits-occurrences, all_among-none, items_expected-none, items_valid-none,
  audits_valid-none, included_part, IsSettled, IsTallied, tally-IsTallied,
}
use manu.Query.Selection.Configuration.{normalize_again, normal-same}
use manu.Query.Selection.Audits.{
  all_audits, audits-Settled, audits-occurrences_id, length-audits, audits-included, same_id,
}
use manu.Query.Selection.Course.{expected_of, Admitted, Course}

length-items_of :
    {W : Type 0} (cs : List (ContextSelectionCandidate W)) → length (items_of cs) ≡ length cs
length-items_of [] = refl
length-items_of (c ∷ cs) = ap suc (length-items_of cs)

All-ids :
    {W : Type 0} (Q : Str → Type 0) (cs : List (ContextSelectionCandidate W))
    → All (λ c. Q (id_of c)) cs
    → All Q (item_ids (items_of cs))
All-ids Q [] h = tt
All-ids Q (c ∷ cs) h = (h.0, All-ids Q cs h.1)

no_entry : {W : Type 0} (id : Str) → lookup {V = ContextSelectionCandidate W} id [] ≡ none
unfolding lookup
no_entry id = refl

equal_test : (a b : ℕ) → a ≡ b → (a == b) ≡ true
equal_test a b h = ground arith

pub same_answer-equal : (a b : Bool) → same_answer a b ≡ true → a ≡ b
same_answer-equal a b h = ground arith

same_answer_self : (b : Bool) → same_answer b b ≡ true
same_answer_self b = ground arith

module _ {W : Type 0} ⦃f : Float W⦄ (laws : IsFloat W) (owners : Owners)
    (hash : ContextUtilityConfiguration W → Str)
    (hexadecimal : (c : ContextUtilityConfiguration W) → is_sha256 (hash c) ≡ true)
    (request : ContextSelectionRequest W) (r : ContextSelectionResult W)
    (course : Course owners hash request r) where
  abbrev s : Selecting W
  s = course.last

  abbrev tracked : IsTracked request.limits (Admitted owners hash request) course.prepared s
  tracked = course.tracked

  abbrev cs : List (ContextSelectionCandidate W)
  cs = request.candidates

  abbrev expected : Map (ContextSelectionCandidate W)
  expected = expected_of owners hash request

  abbrev ids : List Str
  ids = item_ids (items_of s.selected)

  abbrev audits : List (ContextSelectionAudit W)
  audits =
      all_audits owners request.scope request.limits expected cs course.parts.distinct
        course.prepared course.refused course.divided s tracked

  selected_le : (m : ContextSelectionCandidate W → ℕ) → total m s.selected ≤ each m course.prepared
  selected_le m =
      let part =
        total_mono (flag_part m) (λ p. m p.candidate) s.prepared
          (All-every (λ p. ground arith) s.prepared) in
      omega (arith, tracked.counted m, tracked.same m, part)

  -- No identifier is selected twice, and no more is selected than there are candidates.
  pub selected_once : (id : Str) → occurrences id_of id s.selected ≤ occurrences id_of id cs
  selected_once id = omega (arith, selected_le (same_id id), course.divided.identities id)

  selected_few : length s.selected ≤ length cs
  selected_few = omega (
    arith,
    selected_le (λ c. 1),
    total_one s.selected,
    total_one course.prepared,
    course.divided.sizes,
  )

  pub audits_once : (id : Str) → occurrences audit_id id audits ≡ occurrences id_of id cs
  audits_once =
      audits-occurrences_id owners request.scope request.limits expected cs course.parts.distinct
        course.prepared course.refused course.divided s tracked

  audited :
      (c : ContextSelectionCandidate W)
      → same_id (id_of c) c ≤ occurrences id_of (id_of c) s.selected
      → mem_str (id_of c) (audit_ids audits) ≡ true
  audited c here = elim (Bool-cases (mem_str (id_of c) (audit_ids audits))) [
    | inl found ↦ found
    | inr missing ↦ absurd (
        omega (
          arith,
          here,
          ap one (str_eq_refl (id_of c)),
          selected_once (id_of c),
          audits_once (id_of c),
          audits-occurrences (id_of c) audits,
          mem_str-occurrences (id_of c) (audit_ids audits) missing,
        ))
  ]

  -- Each selected item has an audit.
  selected_audited : All (λ id. mem_str id (audit_ids audits) ≡ true) ids
  selected_audited =
      All-ids (λ id. mem_str id (audit_ids audits) ≡ true) s.selected
        (All-map
          (λ c (bound : (m : ContextSelectionCandidate W → ℕ) → m c ≤ total m s.selected).
            audited c (bound (same_id (id_of c))))
          s.selected (total_bounds s.selected))

  items_pass : items_valid owners [] (items_of s.selected) ≡ none
  items_pass =
      items_valid-none owners [] s.selected (All-map (λ c h. h.item) s.selected tracked.chosen)
        (λ id. omega (arith, selected_once id, course.parts.distinct id))

  pub audits-IsSettled : All (IsSettled owners ids expected) audits
  audits-IsSettled =
      audits-Settled owners request.scope request.limits expected cs course.parts.distinct
        course.prepared course.refused course.divided s tracked

  audits_pass : audits_valid owners ids [] audits ≡ none
  audits_pass =
      audits_valid-none owners ids expected [] audits audits-IsSettled
        (λ id. omega (arith, audits_once id, course.parts.distinct id))

  scopes_pass : items_expected request.scope expected (items_of s.selected) ≡ none
  scopes_pass =
      items_expected-none request.scope expected s.selected
        (All-map (λ c h. (h.same, ap is_expected h.found)) s.selected tracked.chosen)

  abbrev result : ContextSelectionResult W
  result = result_of course.configuration course.refused s

  every_audit : length audits ≡ length cs
  every_audit =
      length-audits owners request.scope request.limits expected cs course.parts.distinct
        course.prepared course.refused course.divided s tracked

  sums :
      (m : ContextSelectionAudit W → ℕ) (price : ContextSelectionCandidate W → ℕ)
      → All (λ p. m (audit_of s.redundancy p) ≡ price p.candidate) s.prepared
      → total (included_part m) audits ≡ total price s.selected
  sums =
      audits-included owners request.scope request.limits expected cs course.parts.distinct
        course.prepared course.refused course.divided s tracked

  tally_agrees_pass :
      (t : Tally)
      → IsTallied owners ids expected no_tally audits t
      → tally_agrees expected result t ≡ none
  unfolding tally_agrees result_of audit_of
  tally_agrees_pass t sum =
      let number : t.included_count ≡ length (items_of s.selected) = omega (
        arith,
        sum.count,
        sums (λ a. 1) (λ c. 1) (All-every (λ p. refl) s.prepared),
        total_one s.selected,
        length-items_of s.selected,
      ) in
      let tokens : t.included_tokens ≡ s.token_count = omega (
        arith,
        sum.tokens,
        tracked.tokens,
        sums (λ a. a.token_estimate) token_price
            (All-map (λ p h. h.tokens) s.prepared tracked.priced),
      ) in
      let characters : t.included_characters ≡ s.character_count = omega (
        arith,
        sum.characters,
        tracked.characters,
        sums (λ a. a.characters) character_price
            (All-map (λ p h. h.characters) s.prepared tracked.priced),
      ) in
      let size : t.included_bytes ≡ s.byte_count = omega (
        arith,
        sum.bytes,
        tracked.bytes,
        sums (λ a. a.bytes) byte_price (All-map (λ p h. h.bytes) s.prepared tracked.priced),
      ) in
      let seen : length t.seen ≡ length expected = omega (
        arith,
        sum.seen,
        every_audit,
        length-candidates_by_id cs [] course.parts.distinct
            (All-every (λ c. no_entry (id_of c)) cs),
      ) in
      rw
        (
          equal_test _ _ seen,
          equal_test _ _ number,
          equal_test _ _ tokens,
          equal_test _ _ characters,
          equal_test _ _ size,
          sum.budget,
          same_answer_self (any_budget audits),
        )
        refl

  tally_pass : tallied expected result (tally expected no_tally audits) ≡ none
  unfolding tallied
  tally_pass =
      let (t, ends, sum) =
        tally-IsTallied owners ids expected no_tally audits audits-IsSettled
          (λ id. omega (arith, audits_once id, course.parts.distinct id)) in
      rw ends (tally_agrees_pass t sum)

  result_passes : validate_result owners hash result ≡ none
  unfolding validate_result result_of
  result_passes =
      let few : leb (length (items_of s.selected)) max_context_items ≡ true =
        ground (arith, length-items_of s.selected, selected_few, course.parts.count) in
      let audited_few : leb (length audits) max_context_audits ≡ true =
        ground (arith, every_audit, course.parts.count) in
      let normal : is_some (normalize hash course.configuration) ≡ true = ap is_some (
        normalize_again laws hash hexadecimal request.configuration course.configuration
          course.normal) in
      rw
        (
          few,
          audited_few,
          equal_test (length (items_of s.selected)) _ refl,
          normal,
          items_pass,
          audits_pass,
        )
        (all_among-none ids (audit_ids audits) selected_audited)

  against_passes : validate_against owners hash result request ≡ none
  unfolding validate_against result_of is_applied
  against_passes =
      let items_fit : ltb_ℤ request.limits.max_items (pos (length (items_of s.selected))) ≡ false =
        ap (λ n. ltb_ℤ request.limits.max_items (pos n)) (length-items_of s.selected)
        ∙ tracked.item_limit in
      rw
        (
          course.valid,
          result_passes,
          items_fit,
          tracked.token_limit,
          tracked.character_limit,
          tracked.byte_limit,
          course.normal,
          normal-same laws hash hexadecimal request.configuration course.configuration
              course.normal,
          tally_pass,
        )
        scopes_pass

  pub course_passes : validate_against owners hash r request ≡ none
  course_passes =
      subst (λ x. validate_against owners hash x request ≡ none) course.result against_passes
