-- ===== src/Derivation/Growth.antt =====
-- What an iteration adds to the known facts.
pub mod Accepted
pub mod Limits
use manu.Base.{
  ℕ, zero, suc, ◌≡◌, refl, subst, Option-cases, ◌+◌, ◌⊎◌, inl, inr, Bool, true, false, Option, none,
  some, List, [], ◌∷◌, Str, str_eq, str_eq_iff, Map, lookup, insert, lookup-insert,
  lookup-insert-cases, all, All, arith, Bool-cases, length,
}
use manu.Derivation.Run.{Run, Polls, done, bind-done, then-done, done-value, poll}
use manu.Derivation.Facts.{
  Scope, Lineage, CanonicalFact, FactPackage, same_scope, is_known, ordered_facts,
}
use manu.Derivation.Batch.{DerivationLimits, accept_candidate_batch}
use manu.Derivation.Growth.Accepted.{Ready, accept_candidate_batch-Ready}
use manu.Derivation.Loop.{loop_invariant}
use manu.Derivation.Executor.{
  RegisteredRule, Progress, add_facts, advance, invoke_rule, apply_rules, derive_loop, exhausted,
  after_iteration, within_iterations, iterate, with_iteration_limit,
}

-- A fact of the scope whose lineage names known facts only.
pub record Derived (scope : Scope) (known : Map CanonicalFact) (f : CanonicalFact) : Type 0 where
  pub scoped : same_scope f.scope scope ≡ true
  pub lineage : Lineage
  pub cited : f.lineage ≡ some lineage
  pub supported : all (is_known known) lineage.input_fact_ids ≡ true

-- The facts that were known are known as they were, and each further one is derived.
pub record Grown (scope : Scope) (known later : Map CanonicalFact) : Type 0 where
  pub kept : (id : Str) (f : CanonicalFact) → lookup id known ≡ some f → lookup id later ≡ some f
  pub justified :
      (id : Str) (f : CanonicalFact)
      → lookup id later ≡ some f
      → (lookup id known ≡ some f) ⊎ Derived scope later f

pub all_mono :
    (known later : Map CanonicalFact)
    → ((id : Str) → is_known known id ≡ true → is_known later id ≡ true)
    → (ids : List Str) → all (is_known known) ids ≡ true
    → all (is_known later) ids ≡ true
all_mono known later more [] h = refl
all_mono known later more (id ∷ ids) h = ground (arith, more id, all_mono known later more ids)

Derived-mono :
    (scope : Scope) (known later : Map CanonicalFact) (f : CanonicalFact)
    → ((id : Str) → is_known known id ≡ true → is_known later id ≡ true)
    → Derived scope known f
    → Derived scope later f
Derived-mono scope known later f more d = record {
  scoped = d.scoped;
  lineage = d.lineage;
  cited = d.cited;
  supported = all_mono known later more d.lineage.input_fact_ids d.supported;
}

pub Grown-is_known :
    (scope : Scope) (known later : Map CanonicalFact)
    → Grown scope known later
    → (id : Str) → is_known known id ≡ true
    → is_known later id ≡ true
Grown-is_known scope known later g id h = elim (Option-cases (lookup id known)) [
  | inl missing ↦ ground arith
  | inr (f, found) ↦ rw (g.kept id f found, is_known) refl
]

pub Grown-refl : (scope : Scope) (known : Map CanonicalFact) → Grown scope known known
Grown-refl scope known = record { kept = λ id f h. h; justified = λ id f h. inl h }

pub Grown-trans :
    (scope : Scope) (a b c : Map CanonicalFact)
    → Grown scope a b
    → Grown scope b c
    → Grown scope a c
Grown-trans scope a b c g h = record {
  kept = λ id f at. h.kept id f (g.kept id f at);
  justified = λ id f at. elim (h.justified id f at) [
    | inr d ↦ inr d
    | inl at' ↦ elim (g.justified id f at') [
      | inl at'' ↦ inl at''
      | inr d ↦ inr (Derived-mono scope b c f (Grown-is_known scope b c h) d)
    ]
  ];
}

insert-is_known :
    (k : Str) (f : CanonicalFact) (known : Map CanonicalFact) (id : Str)
    → is_known known id ≡ true
    → is_known (insert k f known) id ≡ true
insert-is_known k f known id h = ground (arith, lookup-insert k id f known)

Grown-insert :
    (scope : Scope) (known m : Map CanonicalFact) (f : CanonicalFact)
    → Ready scope known f
    → Grown scope known m
    → Grown scope known (insert f.id f m)
Grown-insert scope known m f ready g = record {
  kept = λ id e at.
      ground
        (arith, lookup-insert f.id id f m, str_eq_iff f.id id, ready.fresh, g.kept id e at, at);
  justified = λ id e at. elim (lookup-insert-cases f.id id f m at) [
    | inr old ↦ elim (g.justified id e old) [
      | inl at' ↦ inl at'
      | inr d ↦ inr (Derived-mono scope m (insert f.id f m) e (insert-is_known f.id f m) d)
    ]
    | inl (_, same) ↦ inr (
        subst (Derived scope (insert f.id f m)) same (record {
          scoped = ready.scoped;
          lineage = ready.lineage;
          cited = ready.cited;
          supported =
              all_mono known (insert f.id f m)
                (λ k h. insert-is_known f.id f m k (Grown-is_known scope known m g k h))
                ready.lineage.input_fact_ids ready.supported;
        }))
  ];
}

add_facts-Grown :
    (scope : Scope) (known m later : Map CanonicalFact) (accepted : List CanonicalFact)
    (p q : Polls)
    → All (Ready scope known) accepted
    → Grown scope known m
    → add_facts accepted m p ≡ done later q
    → Grown scope known later
unfolding add_facts
add_facts-Grown scope known m later [] p q ready g h = subst (Grown scope known) (done-value h) g
add_facts-Grown scope known m later (f ∷ rest) p q ready g h =
    let (_, r, _, h₁) = then-done poll (add_facts rest (insert f.id f m)) p h in
    add_facts-Grown scope known (insert f.id f m) later rest r q ready.1
      (Grown-insert scope known m f ready.0 g) h₁

module _ (facts : FactPackage) (scope : Scope) (limits : DerivationLimits) where
  apply_rules-Grown :
      (rules : List RegisteredRule) (st next : Progress) (p q : Polls)
      → apply_rules facts rules scope limits st p ≡ done next q
      → Grown scope st.known next.known
  unfolding apply_rules advance
  apply_rules-Grown [] st next p q h =
      subst (λ (x : Progress). Grown scope st.known x.known) {x = st} {y = next} (done-value h)
        (Grown-refl scope st.known)
  apply_rules-Grown (rule ∷ rest) st next p q h =
      let (_, p₁, _, h₁) = then-done poll _ p h in
      let (_, p₂, _, h₂) = then-done poll _ p₁ h₁ in
      let (candidates, p₃, _, h₃) = bind-done (invoke_rule rule (ordered_facts st.known)) _ p₂ h₂ in
      let (batch, p₄, taken, h₄) =
        bind-done (accept_candidate_batch facts candidates scope rule.version st.known limits) _ p₃
          h₃ in
      let (known, p₅, added, h₅) = bind-done (add_facts batch.0 st.known) _ p₄ h₄ in
      Grown-trans scope st.known known next.known
        (add_facts-Grown scope st.known st.known known batch.0 p₄ p₅
          (accept_candidate_batch-Ready facts scope limits rule.version st.known candidates batch p₃
            p₄ taken)
          (Grown-refl scope st.known) added)
        (apply_rules-Grown rest (advance st known batch.0 batch.1) next p₅ q h₅)

  -- However many iterations a derivation makes, the facts that it began with are known at its end
  -- as they were, and each further fact has the scope of the run and a lineage that names facts
  -- known at the end.
  pub derive_loop-Grown :
      (fuel : ℕ) (rules : List RegisteredRule) (iterations : ℕ) (st last : Progress) (p q : Polls)
      → derive_loop facts fuel rules scope limits iterations st p ≡ done (some last) q
      → Grown scope st.known last.known
  derive_loop-Grown fuel rules iterations st last p q h =
      loop_invariant facts rules scope limits (λ x. Grown scope st.known x.known) (λ x i. i)
        (λ x next waiting p' q' i ruled. Grown-trans scope st.known x.known next.known i (
          apply_rules-Grown rules (record x { pending = waiting; accepted = false }) next p' q'
            ruled))
        fuel iterations st last p q (Grown-refl scope st.known) h
