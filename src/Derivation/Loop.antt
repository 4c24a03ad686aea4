-- ===== src/Derivation/Loop.antt =====
-- What every iteration keeps, the loop of DeriveWithLimits keeps.
use manu.Base.{ℕ, zero, suc, ◌+◌, ◌≡◌, subst, Bool, true, false, Option, some, List, arith}
use manu.Derivation.Run.{Run, Polls, done, bind-done, then-done, poll}
use manu.Derivation.Facts.{Scope, FactPackage}
use manu.Derivation.Batch.{DerivationLimits}
use manu.Derivation.Executor.{
  RegisteredRule, Progress, apply_rules, derive_loop, exhausted, after_iteration, within_iterations,
  iterate, with_iteration_limit,
}

module _ (facts : FactPackage) (rules : List RegisteredRule) (scope : Scope)
    (limits : DerivationLimits) (Inv : Progress → Type 0)
    (over : (st : Progress) → Inv st → Inv (record st { codes = with_iteration_limit st.codes }))
    (round : (st next : Progress) (waiting : ℕ) (p q : Polls)
      → Inv st
      → apply_rules facts rules scope limits (record st { pending = waiting; accepted = false }) p
        ≡ done next q
      → Inv next) where
  abbrev Keeping : (Progress → Run (Option Progress)) → Type 0
  Keeping continue =
      (st last : Progress) (p q : Polls) → Inv st → continue st p ≡ done (some last) q → Inv last

  module _ (continue : Progress → Run (Option Progress)) (keeping : Keeping continue) where
    after_iteration-keeps :
        (next last : Progress) (p q : Polls) (goes : Bool)
        → Inv next
        → after_iteration facts continue rules scope limits next goes p ≡ done (some last) q
        → Inv last
    after_iteration-keeps next last p q true i h = keeping next last p q i h
    after_iteration-keeps next last p q false i h = subst Inv {x = next} {y = last} (ground arith) i

    within_iterations-keeps :
        (st last : Progress) (waiting : ℕ) (p q : Polls) (spent : Bool)
        → Inv st
        → within_iterations facts continue rules scope limits st waiting spent p
          ≡ done (some last) q
        → Inv last
    unfolding within_iterations
    within_iterations-keeps st last waiting p q true i h =
        subst Inv {x = record st { codes = with_iteration_limit st.codes }} {y = last}
          (ground arith) (over st i)
    within_iterations-keeps st last waiting p q false i h =
        let begun = record st { pending = waiting; accepted = false } in
        let (next, p₁, ruled, h₁) = bind-done (apply_rules facts rules scope limits begun) _ p h in
        after_iteration-keeps next last p₁ q next.accepted (round st next waiting p p₁ i ruled) h₁

    iterate-keeps :
        (iterations : ℕ) (st last : Progress) (waiting : ℕ) (p q : Polls)
        → Inv st
        → iterate facts continue rules scope limits iterations st waiting p ≡ done (some last) q
        → Inv last
    unfolding iterate
    iterate-keeps iterations st last zero p q i h = subst Inv {x = st} {y = last} (ground arith) i
    iterate-keeps iterations st last (suc waiting) p q i h =
        let (_, p₁, _, h₁) = then-done poll _ p h in
        within_iterations-keeps st last waiting p₁ q (exhausted iterations limits.max_iterations) i
          h₁

  pub loop_invariant :
      (fuel iterations : ℕ) (st last : Progress) (p q : Polls)
      → Inv st
      → derive_loop facts fuel rules scope limits iterations st p ≡ done (some last) q
      → Inv last
  unfolding derive_loop
  loop_invariant zero iterations st last p q i h = absurd (ground arith)
  loop_invariant (suc fuel) iterations st last p q i h =
      iterate-keeps (λ next. derive_loop facts fuel rules scope limits (iterations + 1) next)
        (λ m l p' q' j g. loop_invariant fuel (iterations + 1) m l p' q' j g) iterations st last
        st.pending p q i h
