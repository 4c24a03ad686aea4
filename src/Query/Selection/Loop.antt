-- ===== src/Query/Selection/Loop.antt =====
-- The loop of SelectContext: it keeps what the passes keep, and it ends, within its fuel, when the item
-- limit is reached or nothing that is left may be added.
use manu.Base.{
  ◌≡◌, refl, sym, ◌∙◌, subst, ℕ, zero, suc, ◌+◌, ◌≤◌, ltb_ℤ, pos, pos_part, Bool, true, false, none,
  Option-cases, List, [], ◌∷◌, length, length-append, Str, ◌⊎◌, inl, inr, All, if◌then◌else◌, arith,
}
use manu.Base.Run.{done, done-value, bind-done, then-done}
use manu.Query.Check.{Polls, give, if-done, ◌>>=◌}
use manu.Query.Context.{ContextLimits, Owners, mem_str}
use manu.Query.Utility.{Float, ContextUtilityConfiguration}
use manu.Query.Candidate.{ContextSelectionCandidate, redundancy_key}
use manu.Query.Greedy.{
  Prepared, Selecting, fits_selection_budget, take_best, marginal_utility, round, select_loop,
}
use manu.Query.Selection.Pass.{
  IsKept, At, IsPassed, chosen_before, redundant, too_large, useless, scan-Passed,
}
use manu.Query.Selection.Tracked.{IsTracked, pass-IsTracked, take-IsTracked}
use manu.Query.Selection.Flagged.{Kept-All}

module _ {W : Type 0} ⦃f : Float W⦄ (owners : Owners) (hash : ContextUtilityConfiguration W → Str)
    (limits : ContextLimits) (configuration : ContextUtilityConfiguration W) where
  -- Nothing that is left may be added.
  abbrev pub Closed : Selecting W → Type 0
  Closed s = All (IsPassed owners hash limits configuration s) s.prepared

  abbrev pub Full : Selecting W → Type 0
  Full s = ltb_ℤ (pos (length s.selected)) limits.max_items ≡ false

  IsPassed-Kept :
      (s : Selecting W) (ds : List (Prepared W)) (c d : Prepared W)
      → IsKept c d
      → IsPassed owners hash limits configuration s c
      → IsPassed owners hash limits configuration (record s { prepared = ds }) d
  unfolding fits_selection_budget
  IsPassed-Kept s ds c d h (chosen_before k) = chosen_before (h.flag ∙ k)
  IsPassed-Kept s ds c d h (redundant k) =
      redundant (subst (λ e. mem_str (redundancy_key e) s.redundancy ≡ true) (sym h.candidate) k)
  IsPassed-Kept s ds c d h (too_large k) = too_large (rw (h.tokens, h.characters, h.bytes) k)
  IsPassed-Kept s ds c d h (useless p q gain computed low) =
      useless p q gain
        (subst (λ e. marginal_utility owners hash e s.selected configuration p ≡ done gain q)
          (sym h.candidate) computed)
        low

  module _ (P : ContextSelectionCandidate W → Type 0) (first : List (Prepared W)) where
    -- A round either ends the loop or adds one candidate.
    record After (s : Selecting W) (r : Bool × Selecting W) : Type 0 where
      tracked : IsTracked limits P first r.1
      ending :
          ((r.0 ≡ false) × Closed r.1)
          ⊎ ((r.0 ≡ true) × (length r.1.selected ≡ suc (length s.selected)))

    round-After :
        (s : Selecting W) (p : Polls) {q : Polls} {r : Bool × Selecting W}
        → IsTracked limits P first s
        → round owners hash limits configuration s p ≡ done r q
        → After s r
    unfolding round take_best
    round-After s p t h =
        let (_, p1, _, h1) = then-done _ _ p h in
        let ((ds, last), p2, there, h2) = bind-done _ _ p1 h1 in
        let pass = scan-Passed owners hash limits configuration s 0 s.prepared none p1 there in
        let t' = pass-IsTracked limits P first s ds pass.kept pass.numbers t in
        elim (Option-cases last) [
          | inl empty ↦ subst (After s) (done-value (rw empty at h2)) (record {
            tracked = t';
            ending = inl (
              refl,
              Kept-All (IsPassed owners hash limits configuration s)
                  (IsPassed owners hash limits configuration (record s { prepared = ds }))
                  (IsPassed-Kept s ds) s.prepared ds pass.kept (pass.passed empty).0,
            );
          })
          | inr (b, is_last) ↦ elim pass.found [
            | inl same ↦ absurd (ground (arith, same, is_last))
            | inr (b', k, is_best, at, entry, ok) ↦
                let place : b'.position ≡ k = omega (arith, at) in
                subst (After s) (done-value (rw is_best at h2)) (record {
                  tracked =
                      take-IsTracked limits P first owners hash configuration s b' ds t'
                        (subst (λ n. At n ds b'.entry) (sym place) entry) ok;
                  ending =
                      inr (refl, omega (arith, length-append s.selected (b'.entry.candidate ∷ [])));
                })
          ]
        ]

    -- The loop keeps what is tracked, and it stops at the limit or with nothing left to add.
    pub select_loop-Tracked :
        (fuel : ℕ) (s : Selecting W) (p : Polls) {q : Polls} {s' : Selecting W}
        → pos_part limits.max_items ≤ fuel + length s.selected
        → IsTracked limits P first s
        → select_loop owners hash limits configuration fuel s p ≡ done s' q
        → IsTracked limits P first s' × (Full s' ⊎ Closed s')
    unfolding select_loop
    select_loop-Tracked zero s p enough t h =
        subst (λ s'. IsTracked limits P first s' × (Full s' ⊎ Closed s')) (done-value h)
          (t, inl (ground arith))
    select_loop-Tracked (suc fuel) s p enough t h =
        elim (if-done (ltb_ℤ (pos (length s.selected)) limits.max_items)
          (round owners hash limits configuration s >>= (λ (chosen, s1).
            if chosen then select_loop owners hash limits configuration fuel s1 else give s1))
          (give s) p h) [
            | inr (full, h1) ↦
                subst (λ s'. IsTracked limits P first s' × (Full s' ⊎ Closed s')) (done-value h1)
                  (t, inl full)
            | inl (room, h1) ↦
                let ((chosen, s1), p1, one_round, h2) = bind-done _ _ p h1 in
                let after = round-After s p t one_round in
                elim after.ending [
                  | inl (ended, closed) ↦
                      subst (λ s'. IsTracked limits P first s' × (Full s' ⊎ Closed s'))
                        (done-value (rw ended at h2)) (after.tracked, inr closed)
                  | inr (goes_on, longer) ↦
                      select_loop-Tracked fuel s1 p1 (omega (arith, longer)) after.tracked
                        (rw goes_on at h2)
                ]
          ]
