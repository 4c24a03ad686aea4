-- ===== src/Derivation/Growth/Accepted.antt =====
-- What acceptCandidateBatch lets through.
use manu.Base.{
  sorted, All-sorted, ◌≡◌, refl, subst, true, false, some, List, [], ◌∷◌, map, Str, str_eq, str_lt,
  Map, all, All, arith, Bool-cases, inl, inr, Option-cases, not,
}
use manu.Derivation.Run.{
  Polls, done, bind-done, then-done, poll, check, check-done, done-value, invalid_output,
}
use manu.Derivation.Facts.{
  Scope, Lineage, CanonicalFact, FactPackage, same_scope, is_known, clone_fact,
}
use manu.Derivation.Batch.{
  DerivationLimits, LimitCodes, RuleVersion, accept_candidate_batch, valid_candidate_shape,
  check_shapes, check_support, supported, with_keys, keyless, encoded, unique_facts, new_facts,
  fresh_facts, within_limits, limits_reached, any_code, no_codes,
}

-- A fact that may be added: new, of the scope, and supported by what is known.
pub record Ready (scope : Scope) (known : Map CanonicalFact) (f : CanonicalFact) : Type 0 where
  pub fresh : is_known known f.id ≡ false
  pub scoped : same_scope f.scope scope ≡ true
  pub lineage : Lineage
  pub cited : f.lineage ≡ some lineage
  pub supported : all (is_known known) lineage.input_fact_ids ≡ true

-- The same, of a fact that need not be new.
record Backed (scope : Scope) (known : Map CanonicalFact) (f : CanonicalFact) : Type 0 where
  scoped : same_scope f.scope scope ≡ true
  lineage : Lineage
  cited : f.lineage ≡ some lineage
  supported : all (is_known known) lineage.input_fact_ids ≡ true

module _ (P : CanonicalFact → Type 0) where
  All-unique_facts :
      (seen : List Str) (l : List CanonicalFact) → All P l → All P (unique_facts seen l)
  unfolding unique_facts
  All-unique_facts seen [] h = tt
  All-unique_facts seen (f ∷ rest) h = elim (Bool-cases (all (λ id. not (str_eq id f.id)) seen)) [
    | inl first ↦ rw first (h.0, All-unique_facts (f.id ∷ seen) rest h.1)
    | inr again ↦ rw again (All-unique_facts seen rest h.1)
  ]

  All-keyless : (l : List (Str × CanonicalFact)) → All (λ x. P x.1) l → All P (keyless l)
  unfolding keyless
  All-keyless [] h = tt
  All-keyless ((key, f) ∷ rest) h = (h.0, All-keyless rest h.1)

Backed-new_facts :
    (scope : Scope) (known : Map CanonicalFact) (l : List CanonicalFact)
    → All (Backed scope known) l
    → All (Ready scope known) (new_facts known l)
unfolding new_facts
Backed-new_facts scope known [] h = tt
Backed-new_facts scope known (f ∷ rest) (b, bs) = elim (Bool-cases (is_known known f.id)) [
  | inl old ↦ rw (old, is_known) (Backed-new_facts scope known rest bs)
  | inr fresh ↦
      rw (fresh, is_known)
        (
          record {
            fresh = fresh;
            scoped = b.scoped;
            lineage = b.lineage;
            cited = b.cited;
            supported = b.supported;
          },
          Backed-new_facts scope known rest bs,
        )
]

-- A candidate of the right shape has the scope and a lineage.
record Shaped (scope : Scope) (f : CanonicalFact) : Type 0 where
  scoped : same_scope f.scope scope ≡ true
  lineage : Lineage
  cited : f.lineage ≡ some lineage

module _ (facts : FactPackage) (scope : Scope) where
  valid-Shaped :
      (version : RuleVersion) (f : CanonicalFact)
      → valid_candidate_shape facts scope version f ≡ true
      → Shaped scope (clone_fact f)
  unfolding valid_candidate_shape clone_fact
  valid-Shaped version f h = elim (Option-cases f.lineage) [
    | inl bare ↦ absurd (ground arith)
    | inr (l, cited) ↦ record {
      scoped = ground arith;
      lineage = record l { input_fact_ids = sorted str_lt l.input_fact_ids };
      cited = rw cited refl;
    }
  ]

  check_shapes-Shaped :
      (version : RuleVersion) (l : List CanonicalFact) (p q : Polls)
      → check_shapes facts scope version l p ≡ done tt q
      → All (Shaped scope) (map clone_fact l)
  unfolding check_shapes
  check_shapes-Shaped version [] p q h = tt
  check_shapes-Shaped version (f ∷ rest) p q h =
      let (_, p₁, _, h₁) = then-done poll _ p h in
      let (_, p₂, passed, h₂) =
        then-done (check (valid_candidate_shape facts scope version f) invalid_output) _ p₁ h₁ in
      (
        valid-Shaped version f (check-done _ invalid_output p₁ passed),
        check_shapes-Shaped version rest p₂ q h₂,
      )

check_support-Backed :
    (scope : Scope) (known : Map CanonicalFact) (l : List CanonicalFact) (p q : Polls)
    → All (Shaped scope) l
    → check_support known l p ≡ done tt q
    → All (Backed scope known) l
unfolding check_support supported
check_support-Backed scope known [] p q s h = tt
check_support-Backed scope known (f ∷ rest) p q (s, ss) h =
    let (_, p₁, _, h₁) = then-done poll _ p h in
    let (_, p₂, passed, h₂) = then-done (check (supported known f) invalid_output) _ p₁ h₁ in
    let holds : supported known f ≡ true = check-done _ invalid_output p₁ passed in
    (
      record {
        scoped = s.scoped;
        lineage = s.lineage;
        cited = s.cited;
        supported = rw s.cited at holds;
      },
      check_support-Backed scope known rest p₂ q ss h₂,
    )

with_keys-All :
    (facts : FactPackage) (P : CanonicalFact → Type 0) (l : List CanonicalFact)
    (keyed : List (Str × CanonicalFact)) (p q : Polls)
    → All P l
    → with_keys facts l p ≡ done keyed q
    → All (λ x. P x.1) keyed
unfolding with_keys
with_keys-All facts P [] keyed p q hs h = subst (All (λ x. P x.1)) (done-value h) tt
with_keys-All facts P (f ∷ rest) keyed p q hs h =
    let (_, p₁, _, h₁) = then-done poll _ p h in
    let (key, p₂, _, h₂) = bind-done (encoded facts f) _ p₁ h₁ in
    let (keys, p₃, more, h₃) = bind-done (with_keys facts rest) _ p₂ h₂ in
    subst (All (λ x. P x.1)) {x = (key, f) ∷ keys} (done-value h₃)
      (hs.0, with_keys-All facts P rest keys p₂ p₃ hs.1 more)

fresh_facts-Ready :
    (scope : Scope) (known : Map CanonicalFact) (keyed : List (Str × CanonicalFact))
    → All (λ x. Backed scope known x.1) keyed
    → All (Ready scope known) (fresh_facts known keyed)
unfolding fresh_facts
fresh_facts-Ready scope known keyed h =
    let P = Backed scope known in
    let ordered = sorted (λ l r. str_lt l.0 r.0) keyed in
    Backed-new_facts scope known _ (
      All-sorted (λ l r. str_lt l.id r.id) P (unique_facts [] (keyless ordered))
        (All-unique_facts P [] (keyless ordered)
          (All-keyless P ordered (All-sorted (λ l r. str_lt l.0 r.0) (λ x. P x.1) keyed h))))

pub within_limits-All :
    (P : CanonicalFact → Type 0) (limits : DerivationLimits) (known : Map CanonicalFact)
    (fresh : List CanonicalFact)
    → All P fresh
    → All P (within_limits limits known fresh).0
unfolding within_limits
within_limits-All P limits known fresh h =
    elim (Bool-cases (any_code (limits_reached limits known fresh))) [
      | inl over ↦ rw over tt
      | inr fits ↦ rw fits h
    ]

-- Each fact that a batch adds is new, has the scope of the run, and names known facts.
pub accept_candidate_batch-Ready :
    (facts : FactPackage) (scope : Scope) (limits : DerivationLimits) (version : RuleVersion)
    (known : Map CanonicalFact) (candidates : List CanonicalFact)
    (batch : List CanonicalFact × LimitCodes) (p q : Polls)
    → accept_candidate_batch facts candidates scope version known limits p ≡ done batch q
    → All (Ready scope known) batch.0
unfolding accept_candidate_batch
accept_candidate_batch-Ready facts scope limits version known [] batch p q h =
    subst (λ (x : List CanonicalFact × LimitCodes). All (Ready scope known) x.0)
      {x = ([], no_codes)} {y = batch} (done-value h) tt
accept_candidate_batch-Ready facts scope limits version known (f ∷ rest) batch p q h =
    let validated = map clone_fact (f ∷ rest) in
    let (_, p₁, shaped, h₁) = then-done (check_shapes facts scope version (f ∷ rest)) _ p h in
    let (_, p₂, backed, h₂) = then-done (check_support known validated) _ p₁ h₁ in
    let (keyed, p₃, keys, h₃) = bind-done (with_keys facts validated) _ p₂ h₂ in
    let all_backed =
      check_support-Backed scope known validated p₁ p₂
        (check_shapes-Shaped facts scope version (f ∷ rest) p p₁ shaped) backed in
    subst (λ (x : List CanonicalFact × LimitCodes). All (Ready scope known) x.0)
      {x = within_limits limits known (fresh_facts known keyed)} {y = batch} (done-value h₃)
      (within_limits-All (Ready scope known) limits known (fresh_facts known keyed) (
        fresh_facts-Ready scope known keyed
          (with_keys-All facts (Backed scope known) validated keyed p₂ p₃ all_backed keys)))
