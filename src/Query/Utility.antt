-- ===== src/Query/Utility.antt =====
-- ContextUtilityConfiguration of internal/query/context_selection.go. A float64 is a value of a type
-- that is given, with the operations that the code applies to it.
use manu.Base.{
  ◌≡◌, ℕ, Bool, true, false, not, ◌&&◌, ◌||◌, Option, none, some, [], Str, str_eq, is_empty, bytes,
  if◌then◌else◌,
}
use manu.Query.Context.Validate.{is_sha256}

-- The operations on float64.
pub record Float (W : Type 0) : Type 0 where
  pub of_nat : ℕ → W
  pub add : W → W → W
  pub mul : W → W → W
  pub div : W → W → W
  pub eq : W → W → Bool
  pub lt : W → W → Bool
  pub le : W → W → Bool
  pub is_nan : W → Bool
  pub is_inf : W → Bool

-- A number is equal to itself, 0 is one that is not infinite, and 1 is not 0.
pub record IsFloat (W : Type 0) ⦃f : Float W⦄ : Type 0 where
  pub eq_refl : (x : W) → f.is_nan x ≡ false → f.eq x x ≡ true
  pub zero_number : f.is_nan (f.of_nat 0) ≡ false
  pub zero_finite : f.is_inf (f.of_nat 0) ≡ false
  pub one_nonzero : f.eq (f.of_nat 1) (f.of_nat 0) ≡ false

pub record ContextUtilityConfiguration (W : Type 0) : Type 0 where
  pub version : Str
  pub algorithm : Str
  pub relevance_weight : W
  pub aspect_weight : W
  pub kind_diversity_weight : W
  pub artifact_diversity_weight : W
  pub digest : Str

abbrev pub context_utility_version : Str
context_utility_version = bytes "v1alpha1"

abbrev pub context_selection_algorithm : Str
context_selection_algorithm = bytes "greedy-v1"

abbrev pub max_context_selection_weight : ℕ
max_context_selection_weight = 1048576

module _ {W : Type 0} ⦃f : Float W⦄ where
  unfoldable pub finite : W → Bool
  finite w = not (f.is_nan w) && not (f.is_inf w)

  unfoldable pub weight_valid : W → Bool
  unfolding finite
  weight_valid w =
      finite w && not (f.lt w (f.of_nat 0)) && not (f.lt (f.of_nat max_context_selection_weight) w)

  unfoldable pub validate_configuration : ContextUtilityConfiguration W → Bool
  unfolding weight_valid is_sha256
  validate_configuration c =
      str_eq c.version context_utility_version
      && str_eq c.algorithm context_selection_algorithm
      && weight_valid c.relevance_weight
      && weight_valid c.aspect_weight
      && weight_valid c.kind_diversity_weight
      && weight_valid c.artifact_diversity_weight
      && (is_empty c.digest || is_sha256 c.digest)

  -- The first two tests of Normalize.
  unfoldable pub with_identifiers : ContextUtilityConfiguration W → ContextUtilityConfiguration W
  with_identifiers c = record c {
    version = if is_empty c.version then context_utility_version else c.version;
    algorithm = if is_empty c.algorithm then context_selection_algorithm else c.algorithm;
  }

  abbrev pub weightless : ContextUtilityConfiguration W → Bool
  weightless c =
      f.eq c.relevance_weight (f.of_nat 0)
      && f.eq c.aspect_weight (f.of_nat 0)
      && f.eq c.kind_diversity_weight (f.of_nat 0)
      && f.eq c.artifact_diversity_weight (f.of_nat 0)

  unfoldable pub with_weights : ContextUtilityConfiguration W → ContextUtilityConfiguration W
  with_weights c =
      if weightless c
      then record c {
        relevance_weight = f.of_nat 1;
        aspect_weight = f.of_nat 1;
        kind_diversity_weight = f.of_nat 1;
        artifact_diversity_weight = f.of_nat 1;
      }
      else c

  -- `hash` is encoding/json and crypto/sha256 on a configuration without its digest, in hexadecimal.
  module _ (hash : ContextUtilityConfiguration W → Str) where
    unfoldable pub with_digest : ContextUtilityConfiguration W → ContextUtilityConfiguration W
    with_digest c = let bare = record c { digest = [] } in record bare { digest = hash bare }

    -- What Normalize returns for a configuration that has its identifiers and its weights.
    unfoldable pub checked : ContextUtilityConfiguration W → Option (ContextUtilityConfiguration W)
    unfolding validate_configuration with_digest
    checked c =
        if not (validate_configuration c)
        then none
        else if not (is_empty c.digest) && not (str_eq c.digest (hash (record c { digest = [] })))
        then none
        else some (with_digest c)

    unfoldable pub normalize :
        ContextUtilityConfiguration W → Option (ContextUtilityConfiguration W)
    unfolding with_identifiers with_weights checked
    normalize c = checked (with_weights (with_identifiers c))

  unfoldable pub same_configuration :
      ContextUtilityConfiguration W → ContextUtilityConfiguration W → Bool
  same_configuration l r =
      str_eq l.version r.version
      && str_eq l.algorithm r.algorithm
      && f.eq l.relevance_weight r.relevance_weight
      && f.eq l.aspect_weight r.aspect_weight
      && f.eq l.kind_diversity_weight r.kind_diversity_weight
      && f.eq l.artifact_diversity_weight r.artifact_diversity_weight
      && str_eq l.digest r.digest
