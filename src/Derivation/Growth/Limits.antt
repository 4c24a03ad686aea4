-- ===== src/Derivation/Growth/Limits.antt =====
-- A run respects its limits, and with a limit on iterations it ends.
use manu.Base.{
  ℕ, suc, ◌+◌, ◌≤◌, ◌≡◌, ◌⊎◌, sym, refl, subst, false, some, List, [], ◌∷◌, Str, Map, insert,
  length, arith, ℤ, inl, inr, map,
}
use manu.Derivation.Run.{Polls, done, bind-done, then-done, done-value, poll}
use manu.Derivation.Facts.{Scope, CanonicalFact, FactPackage, ordered_facts, clone_fact}
use manu.Derivation.Batch.{
  DerivationLimits, LimitCodes, RuleVersion, exceeds, no_codes, accept_candidate_batch,
  within_limits, limits_reached, fresh_facts, check_shapes, check_support, with_keys,
}
use manu.Derivation.Loop.{loop_invariant}
use manu.Derivation.Executor.{
  RegisteredRule, Progress, add_facts, advance, invoke_rule, apply_rules, derive_loop,
}

-- The fact limit admits the known facts.
abbrev pub Fits : DerivationLimits → Map CanonicalFact → Type 0
Fits limits known = exceeds (length known) limits.max_facts ≡ false

length-insert_le :
    (k : Str) (f : CanonicalFact) (m : Map CanonicalFact) → length (insert k f m) ≤ suc (length m)
unfolding insert
length-insert_le k f [] = omega arith
length-insert_le k f ((j, g) ∷ m) = ground (arith, length-insert_le k f m)

add_facts-length :
    (accepted : List CanonicalFact) (m later : Map CanonicalFact) (p q : Polls)
    → add_facts accepted m p ≡ done later q
    → length later ≤ length m + length accepted
unfolding add_facts
add_facts-length [] m later p q h =
    subst (λ x. length x ≤ length m + 0) (done-value h) (omega arith)
add_facts-length (f ∷ rest) m later p q h =
    let (_, r, _, h₁) = then-done poll (add_facts rest (insert f.id f m)) p h in
    omega (arith, add_facts-length rest (insert f.id f m) later r q h₁, length-insert_le f.id f m)

exceeds_le : (n m : ℕ) (limit : ℤ) → n ≤ m → exceeds m limit ≡ false → exceeds n limit ≡ false
exceeds_le n m limit le h = ground arith

within_limits-Fits :
    (limits : DerivationLimits) (known : Map CanonicalFact) (fresh : List CanonicalFact)
    → Fits limits known
    → exceeds (length known + length (within_limits limits known fresh).0) limits.max_facts ≡ false
unfolding within_limits limits_reached
within_limits-Fits limits known fresh h = ground arith

-- What a batch lets through is what the limits let through of its fresh facts.
pub batch-within_limits :
    (facts : FactPackage) (scope : Scope) (limits : DerivationLimits) (version : RuleVersion)
    (known : Map CanonicalFact) (candidates : List CanonicalFact)
    (batch : List CanonicalFact × LimitCodes) (p q : Polls)
    → accept_candidate_batch facts candidates scope version known limits p ≡ done batch q
    → (candidates ≡ []) × (batch ≡ ([], no_codes))
      ⊎ ((keyed : List (Str × CanonicalFact)) × (r s : Polls) × (with_keys facts
              (map clone_fact candidates)
              r
            ≡ done keyed s)
          × (batch ≡ within_limits limits known (fresh_facts known keyed)))
unfolding accept_candidate_batch
batch-within_limits facts scope limits version known [] batch p q h = inl (refl, sym (done-value h))
batch-within_limits facts scope limits version known (f ∷ rest) batch p q h =
    let validated = map clone_fact (f ∷ rest) in
    let (_, p₁, _, h₁) = then-done (check_shapes facts scope version (f ∷ rest)) _ p h in
    let (_, p₂, _, h₂) = then-done (check_support known validated) _ p₁ h₁ in
    let (keyed, p₃, keys, h₃) = bind-done (with_keys facts validated) _ p₂ h₂ in
    inr (keyed, p₂, p₃, keys, sym (done-value h₃))

module _ (facts : FactPackage) (scope : Scope) (limits : DerivationLimits) where
  batch-Fits :
      (version : RuleVersion) (known : Map CanonicalFact) (candidates : List CanonicalFact)
      (batch : List CanonicalFact × LimitCodes) (p q : Polls)
      → Fits limits known
      → accept_candidate_batch facts candidates scope version known limits p ≡ done batch q
      → exceeds (length known + length batch.0) limits.max_facts ≡ false
  batch-Fits version known candidates batch p q fits h =
      elim (batch-within_limits facts scope limits version known candidates batch p q h) [
        | inl (_, e) ↦ ground (arith, e)
        | inr (keyed, _, _, _, e) ↦
            rw e (within_limits-Fits limits known (fresh_facts known keyed) fits)
      ]

  apply_rules-Fits :
      (rules : List RegisteredRule) (st next : Progress) (p q : Polls)
      → Fits limits st.known
      → apply_rules facts rules scope limits st p ≡ done next q
      → Fits limits next.known
  unfolding apply_rules advance
  apply_rules-Fits [] st next p q fits h =
      subst (λ (x : Progress). Fits limits x.known) {x = st} {y = next} (done-value h) fits
  apply_rules-Fits (rule ∷ rest) st next p q fits h =
      let (_, p₁, _, h₁) = then-done poll _ p h in
      let (_, p₂, _, h₂) = then-done poll _ p₁ h₁ in
      let (candidates, p₃, _, h₃) = bind-done (invoke_rule rule (ordered_facts st.known)) _ p₂ h₂ in
      let (batch, p₄, taken, h₄) =
        bind-done (accept_candidate_batch facts candidates scope rule.version st.known limits) _ p₃
          h₃ in
      let (known, p₅, added, h₅) = bind-done (add_facts batch.0 st.known) _ p₄ h₄ in
      apply_rules-Fits rest (advance st known batch.0 batch.1) next p₅ q
        (exceeds_le (length known) (length st.known + length batch.0) limits.max_facts
          (add_facts-length batch.0 st.known known p₄ p₅ added)
          (batch-Fits rule.version st.known candidates batch p₃ p₄ fits taken))
        h₅

  -- A derivation that begins within its fact limit ends within it, however many iterations it makes.
  pub derive_loop-Fits :
      (fuel : ℕ) (rules : List RegisteredRule) (iterations : ℕ) (st last : Progress) (p q : Polls)
      → Fits limits st.known
      → derive_loop facts fuel rules scope limits iterations st p ≡ done (some last) q
      → Fits limits last.known
  derive_loop-Fits fuel rules iterations st last p q fits h =
      loop_invariant facts rules scope limits (λ x. Fits limits x.known) (λ x i. i)
        (λ x next waiting p' q' i ruled.
          apply_rules-Fits rules (record x { pending = waiting; accepted = false }) next p' q' i
            ruled)
        fuel iterations st last p q fits h
