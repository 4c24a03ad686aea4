-- ===== src/Query/Selection/Configuration.antt =====
-- Normalize of the utility configuration: it is idempotent, and what it returns is equal to itself.
use manu.Base.{
  ◌≡◌, refl, ◌∙◌, ap, subst, Bool, true, false, Bool-cases, not, ◌&&◌, ◌||◌, some, [], Str, str_eq,
  str_eq_iff, str_eq_refl, is_empty, inl, inr, arith, and→left, and→right,
}
use manu.Query.Context.Validate.{is_sha256}
use manu.Query.Utility.{
  Float, IsFloat, ContextUtilityConfiguration, context_utility_version, context_selection_algorithm,
  finite, weight_valid, validate_configuration, with_identifiers, weightless, with_weights,
  with_digest, checked, normalize, same_configuration,
}

with_last : (a b c : Bool) → (a && b) ≡ true → c ≡ true → (a && c) ≡ true
with_last a b c h k = ground arith

or_right : (a b : Bool) → b ≡ true → (a || b) ≡ true
or_right a b h = ground arith

module _ {W : Type 0} ⦃f : Float W⦄ (laws : IsFloat W) (hash : ContextUtilityConfiguration W → Str)
    (hexadecimal : (c : ContextUtilityConfiguration W) → is_sha256 (hash c) ≡ true) where
  checked-some :
      (x n : ContextUtilityConfiguration W)
      → checked hash x ≡ some n
      → (validate_configuration x ≡ true) × (with_digest hash x ≡ n)
  unfolding checked
  checked-some x n h = elim (Bool-cases (validate_configuration x)) [
    | inr invalid ↦ absurd (ground (arith, rw invalid at h))
    | inl valid ↦
        elim (Bool-cases
          (not (is_empty x.digest) && not (str_eq x.digest (hash (record x { digest = [] }))))) [
            | inl differs ↦ absurd (ground (arith, rw (valid, differs) at h))
            | inr agrees ↦ (valid, ground (arith, rw (valid, agrees) at h))
          ]
  ]

  with_weights-weightless :
      (z : ContextUtilityConfiguration W) → weightless (with_weights z) ≡ false
  unfolding with_weights
  with_weights-weightless z = elim (Bool-cases (weightless z)) [
    | inr weighted ↦ rw weighted weighted
    | inl unset ↦ rw (unset, laws.one_nonzero) refl
  ]

  is_sha256-nonempty : (s : Str) → is_sha256 s ≡ true → is_empty s ≡ false
  unfolding is_sha256
  is_sha256-nonempty s h = ground arith

  equal-nonempty : (s t : Str) → str_eq s t ≡ true → is_empty t ≡ false → is_empty s ≡ false
  equal-nonempty s t h k = ap is_empty ((str_eq_iff s t).0 h) ∙ k

  with_identifiers-same :
      (y : ContextUtilityConfiguration W)
      → is_empty y.version ≡ false
      → is_empty y.algorithm ≡ false
      → with_identifiers y ≡ y
  unfolding with_identifiers
  with_identifiers-same y h k = rw (h, k) refl

  with_weights-same :
      (y : ContextUtilityConfiguration W) → weightless y ≡ false → with_weights y ≡ y
  unfolding with_weights
  with_weights-same y h = rw h refl

  -- The parts of a configuration that is valid.
  record HasParts (x : ContextUtilityConfiguration W) : Type 0 where
    version : is_empty x.version ≡ false
    algorithm : is_empty x.algorithm ≡ false
    relevance : weight_valid x.relevance_weight ≡ true
    aspect : weight_valid x.aspect_weight ≡ true
    kind_diversity : weight_valid x.kind_diversity_weight ≡ true
    artifact_diversity : weight_valid x.artifact_diversity_weight ≡ true

  parts_of : (x : ContextUtilityConfiguration W) → validate_configuration x ≡ true → HasParts x
  unfolding validate_configuration
  parts_of x h =
      let first_six = and→left _ _ h in
      let first_five = and→left _ _ first_six in
      let first_four = and→left _ _ first_five in
      let first_three = and→left _ _ first_four in
      let first_two = and→left _ _ first_three in
      record {
        version = equal-nonempty x.version context_utility_version (and→left _ _ first_two) refl;
        algorithm =
            equal-nonempty x.algorithm context_selection_algorithm (and→right _ _ first_two) refl;
        relevance = and→right _ _ first_three;
        aspect = and→right _ _ first_four;
        kind_diversity = and→right _ _ first_five;
        artifact_diversity = and→right _ _ first_six;
      }

  digest_valid :
      (x : ContextUtilityConfiguration W)
      → validate_configuration x ≡ true
      → validate_configuration (with_digest hash x) ≡ true
  unfolding validate_configuration with_digest
  digest_valid x h =
      let digest = hash (record x { digest = [] }) in
      let good : (is_empty digest || is_sha256 digest) ≡ true =
        or_right (is_empty digest) (is_sha256 digest) (hexadecimal (record x { digest = [] })) in
      with_last _ (is_empty x.digest || is_sha256 x.digest) (is_empty digest || is_sha256 digest) h
        good

  checked_again :
      (x : ContextUtilityConfiguration W)
      → validate_configuration x ≡ true
      → checked hash (with_digest hash x) ≡ some (with_digest hash x)
  unfolding checked with_digest
  checked_again x h =
      rw (digest_valid x h, str_eq_refl (hash (record x { digest = [] }))) (ground arith)

  -- What Normalize returns is normal.
  pub normalize_again :
      (c n : ContextUtilityConfiguration W) → normalize hash c ≡ some n → normalize hash n ≡ some n
  unfolding normalize with_digest
  normalize_again c n h =
      let z = with_identifiers c in
      let (valid, result) = checked-some (with_weights z) n h in
      let parts = parts_of (with_weights z) valid in
      let y = with_digest hash (with_weights z) in
      let named : with_identifiers y ≡ y = with_identifiers-same y parts.version parts.algorithm in
      let weighted : with_weights y ≡ y = with_weights-same y (with_weights-weightless z) in
      subst (λ m. normalize hash m ≡ some m) result
        (ap (λ m. checked hash (with_weights m)) named
          ∙ ap (checked hash) weighted
          ∙ checked_again (with_weights z) valid)

  weight_equal : (w : W) → weight_valid w ≡ true → f.eq w w ≡ true
  unfolding weight_valid finite
  weight_equal w h = laws.eq_refl w (ground (arith, h))

  pub normal-same :
      (c n : ContextUtilityConfiguration W)
      → normalize hash c ≡ some n
      → same_configuration n n ≡ true
  unfolding normalize same_configuration with_digest
  normal-same c n h =
      let x = with_weights (with_identifiers c) in
      let (valid, result) = checked-some x n h in
      let parts = parts_of x valid in
      let y = with_digest hash x in
      subst (λ m. same_configuration m m ≡ true) result
        (rw
          (
            str_eq_refl y.version,
            str_eq_refl y.algorithm,
            weight_equal x.relevance_weight parts.relevance,
            weight_equal x.aspect_weight parts.aspect,
            weight_equal x.kind_diversity_weight parts.kind_diversity,
            weight_equal x.artifact_diversity_weight parts.artifact_diversity,
            str_eq_refl y.digest,
          )
          refl)
