-- ===== src/Derivation/FixedPoint/Known.antt =====
-- A batch that brings nothing new consists of known facts.
use manu.Base.{
  sorted, sorted-All, ◌≡◌, sym, subst, true, false, not, List, [], ◌∷◌, map, Str, str_eq,
  str_eq_iff, str_lt, Map, all, arith, Bool-cases, inl, inr, All,
}
use manu.Derivation.Run.{Polls, done, bind-done, then-done, done-value, poll}
use manu.Derivation.Facts.{CanonicalFact, FactPackage, is_known, clone_fact}
use manu.Derivation.Batch.{unique_facts, new_facts, keyless, with_keys, encoded, fresh_facts}

module _ (known : Map CanonicalFact) where
  abbrev Old : CanonicalFact → Type 0
  Old f = is_known known f.id ≡ true

  new_facts_none : (l : List CanonicalFact) → new_facts known l ≡ [] → All Old l
  unfolding new_facts
  new_facts_none [] h = tt
  new_facts_none (f ∷ rest) h = elim (Bool-cases (is_known known f.id)) [
    | inl old ↦ (old, new_facts_none rest (rw (old, is_known) at h))
    | inr fresh ↦ absurd (let r = rw (fresh, is_known) at h in ground arith)
  ]

  seen-Old :
      (seen : List Str) (f : CanonicalFact)
      → all (λ id. not (str_eq id f.id)) seen ≡ false
      → All (λ id. is_known known id ≡ true) seen
      → Old f
  seen-Old [] f h olds = absurd (ground arith)
  seen-Old (id ∷ rest) f h olds = elim (Bool-cases (str_eq id f.id)) [
    | inl same ↦ subst (λ k. is_known known k ≡ true) ((str_eq_iff id f.id).0 same) olds.0
    | inr other ↦ seen-Old rest f (rw other at h) olds.1
  ]

  unique_facts-Old :
      (seen : List Str) (l : List CanonicalFact)
      → All (λ id. is_known known id ≡ true) seen
      → All Old (unique_facts seen l)
      → All Old l
  unfolding unique_facts
  unique_facts-Old seen [] olds h = tt
  unique_facts-Old seen (f ∷ rest) olds h =
      elim (Bool-cases (all (λ id. not (str_eq id f.id)) seen)) [
        | inl first ↦
            let r = rw first at h in (r.0, unique_facts-Old (f.id ∷ seen) rest (r.0, olds) r.1)
        | inr again ↦ (seen-Old seen f again olds, unique_facts-Old seen rest olds (rw again at h))
      ]

  keyless-Old : (l : List (Str × CanonicalFact)) → All Old (keyless l) → All (λ x. Old x.1) l
  unfolding keyless
  keyless-Old [] h = tt
  keyless-Old ((key, f) ∷ rest) h = (h.0, keyless-Old rest h.1)

  pub fresh_facts_none :
      (keyed : List (Str × CanonicalFact)) → fresh_facts known keyed ≡ [] → All (λ x. Old x.1) keyed
  unfolding fresh_facts
  fresh_facts_none keyed h =
      let ordered = sorted (λ l r. str_lt l.0 r.0) keyed in
      sorted-All (λ l r. str_lt l.0 r.0) (λ x. Old x.1) keyed
        (keyless-Old ordered (
          unique_facts-Old [] (keyless ordered) tt (
            sorted-All (λ l r. str_lt l.id r.id) Old (unique_facts [] (keyless ordered))
              (new_facts_none (sorted (λ l r. str_lt l.id r.id) (unique_facts [] (keyless ordered)))
                h))))

  pub with_keys-Old :
      (facts : FactPackage) (l : List CanonicalFact) (keyed : List (Str × CanonicalFact))
      (p q : Polls)
      → with_keys facts l p ≡ done keyed q
      → All (λ x. Old x.1) keyed
      → All Old l
  unfolding with_keys
  with_keys-Old facts [] keyed p q h olds = tt
  with_keys-Old facts (f ∷ rest) keyed p q h olds =
      let (_, p₁, _, h₁) = then-done poll _ p h in
      let (key, p₂, _, h₂) = bind-done (encoded facts f) _ p₁ h₁ in
      let (keys, p₃, more, h₃) = bind-done (with_keys facts rest) _ p₂ h₂ in
      let (here, there) =
        subst (All (λ x. Old x.1)) {x = keyed} {y = (key, f) ∷ keys} (sym (done-value h₃)) olds in
      (here, with_keys-Old facts rest keys p₂ p₃ more there)

  pub clone_fact-Old : (l : List CanonicalFact) → All Old (map clone_fact l) → All Old l
  unfolding clone_fact
  clone_fact-Old [] h = tt
  clone_fact-Old (f ∷ rest) h = (h.0, clone_fact-Old rest h.1)
