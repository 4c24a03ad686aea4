-- ===== src/Query/Selection/Pass.antt =====
-- One pass over the prepared candidates (the inner loop of SelectContext): what it keeps of each of
-- them, and what it knows of the best.
use manu.Base.{
  ◌≡◌, refl, sym, ◌∙◌, subst, ℕ, zero, suc, ◌+◌, true, false, not, Bool-cases, Option, none, some,
  List, [], ◌∷◌, length, Str, ◌⊎◌, inl, inr, All, if◌then◌else◌, and→left, arith, ltb,
}
use manu.Base.Run.{done, done-value, bind-done, then-done}
use manu.Query.Check.{Polls, require_iff, ensure-done, if-done, invalid_context}
use manu.Query.Context.{ContextLimits, Owners, mem_str}
use manu.Query.Utility.{Float, ContextUtilityConfiguration, finite}
use manu.Query.Candidate.{ContextSelectionCandidate, redundancy_key}
use manu.Query.Greedy.{
  ContextSelectionReason, excluded_redundancy, excluded_budget, Prepared, Best, Selecting,
  fits_selection_budget, choose, marginal_utility, weigh, consider, scan,
}

pub record IsKept {W : Type 0} (c c' : Prepared W) : Type 0 where
  pub candidate : c'.candidate ≡ c.candidate
  pub tokens : c'.tokens ≡ c.tokens
  pub characters : c'.characters ≡ c.characters
  pub bytes : c'.bytes ≡ c.bytes
  pub flag : c'.is_included ≡ c.is_included

module _ {W : Type 0} where
  abbrev pub Kept : List (Prepared W) → List (Prepared W) → Type 0
  Kept [] [] = Unit
  Kept (c ∷ cs) (d ∷ ds) = IsKept c d × Kept cs ds
  Kept _ _ = ⊥

  -- The entry stands at the position.
  abbrev pub At : ℕ → List (Prepared W) → Prepared W → Type 0
  At n [] e = ⊥
  At zero (c ∷ cs) e = c ≡ e
  At (suc n) (c ∷ cs) e = At n cs e

module _ {W : Type 0} ⦃f : Float W⦄ (owners : Owners)
    (hash : ContextUtilityConfiguration W → Str) where
  -- A utility that is computed is a finite number.
  pub marginal_utility-finite :
      (c : ContextSelectionCandidate W) (selected : List (ContextSelectionCandidate W))
      (configuration : ContextUtilityConfiguration W) (p : Polls) {q : Polls} {gain : W}
      → marginal_utility owners hash c selected configuration p ≡ done gain q
      → finite gain ≡ true
  unfolding marginal_utility
  marginal_utility-finite c selected configuration p h =
      let (_, p1, _, h1) = then-done _ _ p h in
      let (weights, p2, _, h2) = bind-done _ _ p1 h1 in
      let (_, p3, _, h3) = then-done _ _ p2 h2 in
      let (_, p4, tested, h4) = then-done _ _ p3 h3 in
      let number = and→left _ _ ((require_iff _ invalid_context).0 (ensure-done _ p3 tested)) in
      subst (λ w. finite w ≡ true) (done-value h4) number

  module _ (limits : ContextLimits) (configuration : ContextUtilityConfiguration W)
      (s : Selecting W) where
    -- May be chosen: not yet chosen, of a new key, and within what is left of the limits.
    pub record IsEligible (c : Prepared W) : Type 0 where
      pub waiting : c.is_included ≡ false
      pub fresh : mem_str (redundancy_key c.candidate) s.redundancy ≡ false
      pub fits :
          fits_selection_budget c s.token_count s.character_count s.byte_count
            (length s.selected)
            limits
          ≡ true

    -- Why a candidate is passed over.
    pub data IsPassed (c : Prepared W) : Type 0 where
      chosen_before : c.is_included ≡ true → IsPassed c
      redundant : mem_str (redundancy_key c.candidate) s.redundancy ≡ true → IsPassed c
      too_large :
          fits_selection_budget c s.token_count s.character_count s.byte_count
              (length s.selected)
              limits
            ≡ false
          → IsPassed c
      useless :
          (p q : Polls) (gain : W)
          → marginal_utility owners hash c.candidate s.selected configuration p ≡ done gain q
          → f.le gain (f.of_nat 0) ≡ true
          → IsPassed c

    -- What the pass makes of one candidate: it keeps what the candidate is, and either leaves the best
    -- as it was or has it in its place.
    pub record Outcome (n : ℕ) (c : Prepared W) (best : Option (Best W)) (c' : Prepared W)
        (best' : Option (Best W)) : Type 0 where
      pub kept : IsKept c c'
      pub number : finite c.last_gain ≡ true → finite c'.last_gain ≡ true
      pub passed : best' ≡ none → IsPassed c × (best ≡ none)
      pub found :
          (best' ≡ best)
          ⊎ ((b : Best W) × (best' ≡ some b) × (b.position ≡ n) × (b.entry ≡ c') × IsEligible c')

    -- A new gain, ratio and decision leave what a candidate is.
    as-Kept :
        (c : Prepared W) (gain ratio : W) (decision : ContextSelectionReason)
        → IsKept c (record c { last_gain = gain; last_ratio = ratio; decision = decision })
    as-Kept c gain ratio decision = record {
      candidate = refl;
      tokens = refl;
      characters = refl;
      bytes = refl;
      flag = refl;
    }

    choose_cases :
        (new : Best W) (best : Option (Best W))
        → (choose new best ≡ some new) ⊎ ((choose new best ≡ best) × ¬ (best ≡ none))
    unfolding choose
    choose_cases new none = inl refl
    choose_cases new (some best) = ground arith

    -- A candidate that is passed over, with its decision written down.
    over-Outcome :
        (n : ℕ) (c c' : Prepared W) (best : Option (Best W))
        → IsKept c c'
        → (finite c.last_gain ≡ true → finite c'.last_gain ≡ true)
        → IsPassed c
        → Outcome n c best c' best
    over-Outcome n c c' best kept number why = record {
      kept = kept;
      number = number;
      passed = λ h. (why, h);
      found = inl refl;
    }

    chosen-Outcome :
        (n : ℕ) (c c' : Prepared W) (new : Best W) (best : Option (Best W))
        → IsKept c c'
        → (finite c.last_gain ≡ true → finite c'.last_gain ≡ true)
        → IsEligible c'
        → new.position ≡ n
        → new.entry ≡ c'
        → Outcome n c best c' (choose new best)
    chosen-Outcome n c c' new best kept number eligible here is_entry =
        elim (choose_cases new best) [
          | inl taken ↦ record {
            kept = kept;
            number = number;
            passed = λ h. absurd (ground (arith, taken, h));
            found = inr (new, taken, here, is_entry, eligible);
          }
          | inr (left, some_best) ↦ record {
            kept = kept;
            number = number;
            passed = λ h. absurd (some_best (sym left ∙ h));
            found = inl left;
          }
        ]

    abbrev Out : ℕ → Prepared W → Option (Best W) → Prepared W × Option (Best W) → Type 0
    Out n c best r = Outcome n c best r.0 r.1

    weigh-Outcome :
        (n : ℕ) (c : Prepared W) (gain : W) (best : Option (Best W)) (p q : Polls)
        → IsEligible c
        → marginal_utility owners hash c.candidate s.selected configuration p ≡ done gain q
        → Out n c best (weigh n c gain best)
    unfolding weigh fits_selection_budget
    weigh-Outcome n c gain best p q eligible computed =
        let number = marginal_utility-finite c.candidate s.selected configuration p computed in
        let ratio = f.div gain (f.of_nat (if ltb 1 c.tokens then c.tokens else 1)) in
        let scored = record c { last_gain = gain; last_ratio = ratio } in
        elim (Bool-cases (f.le gain (f.of_nat 0))) [
          | inl low ↦
              let over = record scored { decision = excluded_redundancy } in
              rw low (
                over-Outcome n c over best (as-Kept c gain ratio excluded_redundancy) (λ _. number)
                  (useless p q gain computed low))
          | inr high ↦
              let new : Best W = record {
                position = n;
                entry = scored;
                gain = gain;
                ratio = ratio;
              } in
              rw high (
                chosen-Outcome n c scored new best (as-Kept c gain ratio c.decision) (λ _. number)
                  (record {
                    waiting = eligible.waiting;
                    fresh = eligible.fresh;
                    fits = eligible.fits;
                  })
                  refl refl)
        ]

    -- A candidate that is passed over with a decision, or with the one that it has.
    decided-Outcome :
        (n : ℕ) (c : Prepared W) (best : Option (Best W)) (decision : ContextSelectionReason)
        → IsPassed c
        → Outcome n c best (record c { decision = decision }) best
    decided-Outcome n c best decision why =
        over-Outcome n c (record c { decision = decision }) best
          (as-Kept c c.last_gain c.last_ratio decision) (λ k. k) why

    consider-Outcome :
        (n : ℕ) (c : Prepared W) (best : Option (Best W)) (p : Polls) {q : Polls}
        {r : Prepared W × Option (Best W)}
        → consider owners hash limits configuration s n c best p ≡ done r q
        → Out n c best r
    unfolding consider
    consider-Outcome n c best p h = elim (if-done c.is_included _ _ p h) [
      | inl (before, h1) ↦
          subst (Out n c best) (done-value h1)
            (decided-Outcome n c best c.decision (chosen_before before))
      | inr (waiting, h1) ↦
          elim (if-done (mem_str (redundancy_key c.candidate) s.redundancy) _ _ p h1) [
            | inl (known, h2) ↦
                subst (Out n c best) (done-value h2)
                  (decided-Outcome n c best excluded_redundancy (redundant known))
            | inr (fresh, h2) ↦
                elim (if-done
                  (not (
                    fits_selection_budget c s.token_count s.character_count s.byte_count
                      (length s.selected) limits))
                  _ _ p h2) [
                    | inl (large, h3) ↦
                        subst (Out n c best) (done-value h3)
                          (decided-Outcome n c best excluded_budget (too_large (ground arith)))
                    | inr (fits, h3) ↦
                        let (gain, p', computed, last) = bind-done _ _ p h3 in
                        subst (Out n c best) (done-value last) (
                          weigh-Outcome n c gain best p p'
                            (record { waiting = waiting; fresh = fresh; fits = ground arith })
                            computed)
                  ]
          ]
    ]

    -- What a pass makes of the list, from a position on and with a best so far.
    pub record Passed (n : ℕ) (cs : List (Prepared W)) (best : Option (Best W))
        (ds : List (Prepared W)) (last : Option (Best W)) : Type 0 where
      pub kept : Kept cs ds
      pub numbers :
          All (λ c. finite c.last_gain ≡ true) cs → All (λ c. finite c.last_gain ≡ true) ds
      pub passed : last ≡ none → All IsPassed cs × (best ≡ none)
      pub found :
          (last ≡ best)
          ⊎ ((b : Best W) × (k : ℕ) × (last ≡ some b)
              × (b.position ≡ n + k)
              × At k ds b.entry
              × IsEligible b.entry)

    pub scan-Passed :
        (n : ℕ) (cs : List (Prepared W)) (best : Option (Best W)) (p : Polls) {q : Polls}
        {r : List (Prepared W) × Option (Best W)}
        → scan owners hash limits configuration s n cs best p ≡ done r q
        → Passed n cs best r.0 r.1
    unfolding scan
    scan-Passed n [] best p h =
        subst (λ r. Passed n [] best r.0 r.1) (done-value h)
          (record { kept = tt; numbers = λ _. tt; passed = λ e. (tt, e); found = inl refl })
    scan-Passed n (c ∷ cs) best p h =
        let ((c', best'), p1, here, h1) = bind-done _ _ p h in
        let ((ds, last), p2, there, h2) = bind-done _ _ p1 h1 in
        let first = consider-Outcome n c best p here in
        let rest = scan-Passed (suc n) cs best' p1 there in
        subst (λ r. Passed n (c ∷ cs) best r.0 r.1) (done-value h2)
          (record {
            kept = (first.kept, rest.kept);
            numbers = λ k. (first.number k.0, rest.numbers k.1);
            passed = λ e.
                let (over, none') = rest.passed e in
                let (why, none_before) = first.passed none' in ((why, over), none_before);
            found = elim rest.found [
              | inr (b, k, is_last, there', entry, ok) ↦
                  inr (b, suc k, is_last, omega arith, entry, ok)
              | inl same ↦ elim first.found [
                | inl before ↦ inl (same ∙ before)
                | inr (b, is_best, at, entry, ok) ↦
                    inr (
                      b,
                      0,
                      same ∙ is_best,
                      omega arith,
                      sym entry,
                      subst IsEligible (sym entry) ok,
                    )
              ]
            ];
          })
