-- ===== src/Derivation/FixedPoint.antt =====
-- A run that meets no limit ends where no rule has anything new to say, and it does end where the
-- iterations are limited.
pub mod Known
pub mod Silence
use manu.Base.{
  ℕ, zero, suc, ◌+◌, ◌≤◌, ◌<◌, ◌≡◌, ◌≢◌, refl, sym, ◌∙◌, ap, subst, Bool, true, false, Option, none,
  some, List, [], ◌∷◌, Str, Map, length, arith, ℤ, pos_part, is_positive, Bool-cases, inl, inr, All,
}
use manu.Derivation.Run.{Run, Polls, done, bind-done, then-done, done-value, poll}
use manu.Derivation.Facts.{Scope, CanonicalFact, FactPackage}
use manu.Derivation.Batch.{DerivationLimits, any_code}
use manu.Derivation.Executor.{
  RegisteredRule, Progress, apply_rules, derive_loop, exhausted, after_iteration, within_iterations,
  iterate, with_iteration_limit,
}
use manu.Derivation.FixedPoint.Silence.{Silent, Quiet, apply_rules-Quiet, apply_rules-waits}

module _ (facts : FactPackage) (rules : List RegisteredRule) (scope : Scope)
    (limits : DerivationLimits) where
  -- Where it ends without a limit, no rule has anything to add to what is known.
  abbrev Settling : (Progress → Run (Option Progress)) → Type 0
  Settling continue =
      (st last : Progress) (p q : Polls)
      → continue st p ≡ done (some last) q
      → any_code last.codes ≡ false
      → 0 < st.pending
      → All (Silent last.known) rules

  module _ (continue : Progress → Run (Option Progress)) (settling : Settling continue) where
    after_iteration-settles :
        (begun next last : Progress) (p₀ p q : Polls) (goes : Bool)
        → begun.accepted ≡ false
        → apply_rules facts rules scope limits begun p₀ ≡ done next p
        → next.accepted ≡ goes
        → after_iteration facts continue rules scope limits next goes p ≡ done (some last) q
        → any_code last.codes ≡ false
        → All (Silent last.known) rules
    after_iteration-settles begun next last p₀ p q true idle ruled e h clear =
        settling next last p q h clear (
          apply_rules-waits facts scope limits rules begun next p₀ p (λ busy. ground arith) ruled e)
    after_iteration-settles begun next last p₀ p q false idle ruled e h clear =
        let same : next ≡ last = ground arith in
        let quiet =
          apply_rules-Quiet facts scope limits rules begun next p₀ p ruled e
            (ap (λ (x : Progress). any_code x.codes) same ∙ clear) in
        subst (λ m. All (Silent m) rules) (sym quiet.same ∙ ap (λ (x : Progress). x.known) same)
          quiet.silent

    within_iterations-settles :
        (st last : Progress) (waiting : ℕ) (p q : Polls) (over : Bool)
        → within_iterations facts continue rules scope limits st waiting over p ≡ done (some last) q
        → any_code last.codes ≡ false
        → All (Silent last.known) rules
    unfolding within_iterations
    within_iterations-settles st last waiting p q true h clear = absurd (ground arith)
    within_iterations-settles st last waiting p q false h clear =
        let begun = record st { pending = waiting; accepted = false } in
        let (next, p₁, ruled, h₁) = bind-done (apply_rules facts rules scope limits begun) _ p h in
        after_iteration-settles begun next last p p₁ q next.accepted refl ruled refl h₁ clear

    iterate-settles :
        (iterations : ℕ) (st last : Progress) (waiting : ℕ) (p q : Polls)
        → iterate facts continue rules scope limits iterations st waiting p ≡ done (some last) q
        → any_code last.codes ≡ false
        → 0 < waiting
        → All (Silent last.known) rules
    unfolding iterate
    iterate-settles iterations st last zero p q h clear more = absurd (omega arith)
    iterate-settles iterations st last (suc waiting) p q h clear more =
        let (_, p₁, _, h₁) = then-done poll _ p h in
        within_iterations-settles st last waiting p₁ q (exhausted iterations limits.max_iterations)
          h₁ clear

  -- A run that begins with a fact in its queue and reports no limit ends at a fixed point: each rule
  -- succeeds on the facts known at the end, and names no fact that is not among them.
  pub derive_loop_settles :
      (fuel iterations : ℕ) (st last : Progress) (p q : Polls)
      → derive_loop facts fuel rules scope limits iterations st p ≡ done (some last) q
      → any_code last.codes ≡ false
      → 0 < st.pending
      → All (Silent last.known) rules
  unfolding derive_loop
  derive_loop_settles zero iterations st last p q h clear more = absurd (ground arith)
  derive_loop_settles (suc fuel) iterations st last p q h clear more =
      iterate-settles (λ next. derive_loop facts fuel rules scope limits (iterations + 1) next)
        (λ m l p' q' g c w. derive_loop_settles fuel (iterations + 1) m l p' q' g c w) iterations st
        last st.pending p q h clear more
