-- ===== src/Query/Selection/Outcome.antt =====
-- What SelectContext answers: the final check changes nothing, the limits and the redundancy keys are
-- kept, every candidate is audited once, and nothing is left out that could have been added.
use manu.Base.{
  ◌≡◌, refl, sym, ◌∙◌, subst, ◌≤◌, ltb_ℤ, pos, true, false, none, List, length, Str, inl, inr, All,
  All-map, arith, total, occurrences,
}
use manu.Base.Run.{Result-cases, done}
use manu.Query.Check.{Run, Polls, Check, ensure, give, ◌>>=◌, ◌>>◌}
use manu.Query.Context.{Owners, mem_str}
use manu.Query.Context.Validate.{is_sha256}
use manu.Query.Utility.{Float, IsFloat, ContextUtilityConfiguration}
use manu.Query.Candidate.{ContextSelectionCandidate, ContextSelectionRequest, redundancy_key}
use manu.Query.Greedy.{fits_selection_budget, marginal_utility}
use manu.Query.Result.{ContextSelectionResult, item_ids, validate_against}
use manu.Query.Selection.{items_of, prepared_of, result_of, selection, select_context}
use manu.Query.Selection.Tracked.{token_price, character_price, byte_price}
use manu.Query.Selection.Course.{Course, selection-Course, Admitted}
use manu.Query.Selection.SelfCheck.{
  course_passes, selected_once, audits_once, audits-IsSettled, same_answer-equal,
}

-- A check of what a run returns that always passes leaves the run as it is.
checked_run :
    {A : Type 0} (test : A → Check) (m : Run A) (p : Polls)
    → ((a : A) (q : Polls) → m p ≡ done a q → test a ≡ none)
    → (m >>= λ a. ensure (test a) >> give a) p ≡ m p
unfolding ◌>>=◌ ◌>>◌
checked_run test m p h = elim (Result-cases (m p)) [
  | inl (e, failure) ↦ rw failure refl
  | inr (a, q, success) ↦ rw (success, h a q success) refl
]

module _ {W : Type 0} ⦃f : Float W⦄ (owners : Owners) (hash : ContextUtilityConfiguration W → Str)
    (request : ContextSelectionRequest W) where
  -- What is known of a result: the selected candidates behind its items.
  pub record IsSound (r : ContextSelectionResult W) : Type 0 where
    pub selected : List (ContextSelectionCandidate W)
    pub items : items_of selected ≡ r.items
    pub admitted : All (Admitted owners hash request) selected
    pub once : (id : Str) → occurrences (λ c. c.item.id) id selected ≤ 1
    pub apart : (key : Str) → occurrences redundancy_key key selected ≤ 1
    pub tokens : r.token_estimate ≡ total token_price selected
    pub characters : r.characters_used ≡ total character_price selected
    pub bytes : r.bytes_used ≡ total byte_price selected
    pub item_limit : ltb_ℤ request.limits.max_items (pos (length selected)) ≡ false
    pub token_limit : ltb_ℤ request.limits.max_tokens (pos r.token_estimate) ≡ false
    pub character_limit : ltb_ℤ request.limits.max_characters (pos r.characters_used) ≡ false
    pub byte_limit : ltb_ℤ request.limits.max_bytes (pos r.bytes_used) ≡ false

  -- Why an admissible candidate may be left out, given what is selected.
  pub data IsAccounted (r : ContextSelectionResult W)
      (selected : List (ContextSelectionCandidate W)) (c : ContextSelectionCandidate W)
      : Type 0 where
    chosen : mem_str c.item.id (item_ids r.items) ≡ true → IsAccounted r selected c
    item_limit_reached :
        ltb_ℤ (pos (length selected)) request.limits.max_items ≡ false → IsAccounted r selected c
    key_taken :
        1 ≤ occurrences redundancy_key (redundancy_key c) selected → IsAccounted r selected c
    over_budget :
        fits_selection_budget
            (prepared_of c)
            r.token_estimate
            r.characters_used
            r.bytes_used
            (length selected)
            request.limits
          ≡ false
        → IsAccounted r selected c
    no_utility :
        (p q : Polls) (gain : W)
        → marginal_utility owners hash c selected r.configuration p ≡ done gain q
        → f.le gain (f.of_nat 0) ≡ true
        → IsAccounted r selected c

module _ {W : Type 0} ⦃f : Float W⦄ (laws : IsFloat W) (owners : Owners)
    (hash : ContextUtilityConfiguration W → Str)
    (hexadecimal : (c : ContextUtilityConfiguration W) → is_sha256 (hash c) ≡ true)
    (request : ContextSelectionRequest W) where
  -- Where equality on floats is reflexive away from NaN, 0 is finite, 1 is not 0 and the digest is 64
  -- lower-case hexadecimal digits, the check that SelectContext makes of its own result never fails:
  -- for every request and every course of its context it answers, error or result, what it answers
  -- without the check.
  pub select_context-selection :
      (p : Polls) → select_context owners hash request p ≡ selection owners hash request p
  unfolding select_context
  select_context-selection p =
      checked_run (λ r. validate_against owners hash r request) (selection owners hash request) p
        (λ r q h.
          course_passes laws owners hash hexadecimal request r
            (selection-Course owners hash laws request p h))

  unfoldable pub last-IsSound :
      (r : ContextSelectionResult W) (c : Course owners hash request r)
      → IsSound owners hash request (result_of c.configuration c.refused c.last)
  unfolding result_of
  last-IsSound r c = record {
    selected = c.last.selected;
    items = refl;
    admitted = c.tracked.chosen;
    once = λ id.
        omega
          (arith, selected_once laws owners hash hexadecimal request r c id, c.parts.distinct id);
    apart = c.tracked.apart;
    tokens = c.tracked.tokens;
    characters = c.tracked.characters;
    bytes = c.tracked.bytes;
    item_limit = c.tracked.item_limit;
    token_limit = c.tracked.token_limit;
    character_limit = c.tracked.character_limit;
    byte_limit = c.tracked.byte_limit;
  }

  Course-IsSound :
      (r : ContextSelectionResult W) → Course owners hash request r → IsSound owners hash request r
  Course-IsSound r c = subst (IsSound owners hash request) c.result (last-IsSound r c)

  -- A result has valid items of the request's scope only, each of a candidate of the request and none
  -- twice, no two of one redundancy key, and its counters are the sums of their costs, within the four
  -- limits at once.
  pub select_context-IsSound :
      (p : Polls) (q : Polls) (r : ContextSelectionResult W)
      → select_context owners hash request p ≡ done r q
      → IsSound owners hash request r
  select_context-IsSound p q r h =
      Course-IsSound r
        (selection-Course owners hash laws request p (sym (select_context-selection p) ∙ h))

  -- The audit lists each candidate of a request once, and marks as included exactly those whose items
  -- are selected.
  pub select_context_audits :
      (p : Polls) (q : Polls) (r : ContextSelectionResult W)
      → select_context owners hash request p ≡ done r q
      → ((id : Str)
          → occurrences (λ a. a.item_id) id r.audit
            ≡ occurrences (λ c. c.item.id) id request.candidates)
        × All (λ a. a.is_included ≡ mem_str a.item_id (item_ids r.items)) r.audit
  unfolding result_of
  select_context_audits p q r h =
      let c = selection-Course owners hash laws request p (sym (select_context-selection p) ∙ h) in
      subst
        (λ x.
          ((id : Str)
            → occurrences (λ a. a.item_id) id x.audit
              ≡ occurrences (λ c. c.item.id) id request.candidates)
          × All (λ a. a.is_included ≡ mem_str a.item_id (item_ids x.items)) x.audit)
        c.result
        (
          audits_once laws owners hash hexadecimal request r c,
          All-map (λ a settled. same_answer-equal _ _ settled.selected) _
              (audits-IsSettled laws owners hash hexadecimal request r c),
        )
