-- ===== src/Derivation/Ending.antt =====
-- With a limit on iterations the loop of DeriveWithLimits ends.
use manu.Base.{
  ℕ, zero, suc, ◌+◌, ◌≤◌, ◌<◌, ◌≡◌, refl, Bool, true, false, Option, none, List, arith, pos_part,
  is_positive,
}
use manu.Derivation.Run.{Run, Polls, done, bind-done, then-done, poll}
use manu.Derivation.Facts.{Scope, FactPackage}
use manu.Derivation.Batch.{DerivationLimits}
use manu.Derivation.Executor.{
  RegisteredRule, Progress, apply_rules, derive_loop, exhausted, after_iteration, within_iterations,
  iterate,
}

module _ (facts : FactPackage) (rules : List RegisteredRule) (scope : Scope)
    (limits : DerivationLimits) where
  -- Fuel never runs out.
  abbrev Ends : (Progress → Run (Option Progress)) → Type 0
  Ends continue = (st : Progress) (p q : Polls) → ¬ (continue st p ≡ done none q)

  module _ (continue : Progress → Run (Option Progress)) where
    after_iteration-Ends :
        (next : Progress) (p q : Polls) (goes : Bool)
        → Ends continue
        → ¬ (after_iteration facts continue rules scope limits next goes p ≡ done none q)
    after_iteration-Ends next p q true ends h = ends next p q h
    after_iteration-Ends next p q false ends h = ground arith

    within_iterations-Ends :
        (st : Progress) (waiting : ℕ) (p q : Polls) (over : Bool)
        → (over ≡ false → Ends continue)
        → ¬ (within_iterations facts continue rules scope limits st waiting over p ≡ done none q)
    unfolding within_iterations
    within_iterations-Ends st waiting p q true ends h = ground arith
    within_iterations-Ends st waiting p q false ends h =
        let (next, p₁, _, h₁) =
          bind-done
            (apply_rules facts rules scope limits
              (record st { pending = waiting; accepted = false }))
            _ p h in
        after_iteration-Ends next p₁ q next.accepted (ends refl) h₁

    iterate-Ends :
        (iterations : ℕ) (st : Progress) (waiting : ℕ) (p q : Polls)
        → (exhausted iterations limits.max_iterations ≡ false → Ends continue)
        → ¬ (iterate facts continue rules scope limits iterations st waiting p ≡ done none q)
    unfolding iterate
    iterate-Ends iterations st zero p q ends h = ground arith
    iterate-Ends iterations st (suc waiting) p q ends h =
        let (_, p₁, _, h₁) = then-done poll _ p h in
        within_iterations-Ends st waiting p₁ q (exhausted iterations limits.max_iterations) ends h₁

  -- Where the iterations are limited, fuel for one more than are left never runs out, whatever the
  -- rules return.
  pub derive_loop-Ends :
      (fuel iterations : ℕ) (st : Progress) (p q : Polls)
      → is_positive limits.max_iterations ≡ true
      → iterations ≤ pos_part limits.max_iterations
      → pos_part limits.max_iterations < iterations + fuel
      → ¬ (derive_loop facts fuel rules scope limits iterations st p ≡ done none q)
  unfolding derive_loop
  derive_loop-Ends zero iterations st p q limited below enough h = omega arith
  derive_loop-Ends (suc fuel) iterations st p q limited below enough h =
      iterate-Ends (λ next. derive_loop facts fuel rules scope limits (iterations + 1) next)
        iterations st st.pending p q
        (λ left m p' q' g.
          derive_loop-Ends fuel (iterations + 1) m p' q' limited (ground (arith, left))
            (omega arith) g)
        h
