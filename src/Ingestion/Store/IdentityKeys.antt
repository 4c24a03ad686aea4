-- ===== src/Ingestion/Store/IdentityKeys.antt =====
-- The joined key of identityKey stands for its four parts.
use manu.Base.{◌≡◌, ◌↔◌, refl, false, [], ◌∷◌, ◌++◌, Str, has_control, arith}
use manu.Ingestion.Result.{Passed, then-eq-ok}
use manu.Ingestion.Text.{validate_identifier}
use manu.Ingestion.Job.{Job}
use manu.Ingestion.Job.Validate.{
  validate, validate_names, validate_required, required_fields, validate_optional_names,
}
use manu.Ingestion.Job.Validate.Parts.{validate→IsValid}
use manu.Ingestion.Store.{identity_key}

-- A text without NUL ends where the first NUL stands.
split_at_nul :
    (s t u v : Str)
    → has_control s ≡ false
    → has_control t ≡ false
    → s ++ 0 ∷ u ≡ t ++ 0 ∷ v
    → (s ≡ t) × (u ≡ v)
unfolding has_control
split_at_nul [] [] u v h k e = (refl, cc)
split_at_nul [] (y ∷ t) u v h k e = absurd (ground arith)
split_at_nul (x ∷ s) [] u v h k e = absurd (ground arith)
split_at_nul (x ∷ s) (y ∷ t) u v h k e =
    let (same, rest) = split_at_nul s t u v (ground arith) (ground arith) (cc) in
    (ground arith, rest)

validate_identifier-has_control : (s : Str) → Passed (validate_identifier s) → has_control s ≡ false
unfolding validate_identifier
validate_identifier-has_control s h = ground arith

-- No key part of a valid job that another part follows holds a NUL.
record IsPlain (j : Job) : Type 0 where
  organization : has_control j.organization_id ≡ false
  source : has_control j.source_external_id ≡ false
  snapshot : has_control j.snapshot_external_id ≡ false

validate-IsPlain : (j : Job) → Passed (validate j) → IsPlain j
unfolding validate_names
validate-IsPlain j h =
    let v = validate→IsValid j h in
    let (required, _) =
      then-eq-ok (validate_required (required_fields j)) (validate_optional_names j) v.names in
    let (_, h₁) = then-eq-ok (validate_identifier j.id) _ required in
    let (organization, h₂) = then-eq-ok (validate_identifier j.organization_id) _ h₁ in
    let (source, h₃) = then-eq-ok (validate_identifier j.source_external_id) _ h₂ in
    let (snapshot, _) =
      then-eq-ok (validate_identifier j.snapshot_external_id)
        (validate_required (j.analysis_configuration_id ∷ [])) h₃ in
    record {
      organization = validate_identifier-has_control j.organization_id organization;
      source = validate_identifier-has_control j.source_external_id source;
      snapshot = validate_identifier-has_control j.snapshot_external_id snapshot;
    }

-- Two valid jobs have one factual identity key exactly where they agree in organization, source,
-- snapshot and digest.
pub identity_key_iff :
    (i j : Job)
    → Passed (validate i)
    → Passed (validate j)
    → (identity_key i ≡ identity_key j) ↔ (
        (i.organization_id ≡ j.organization_id)
        × (i.source_external_id ≡ j.source_external_id)
        × (i.snapshot_external_id ≡ j.snapshot_external_id)
        × (i.factual_digest ≡ j.factual_digest))
unfolding identity_key
identity_key_iff i j hi hj =
    let p = validate-IsPlain i hi in
    let q = validate-IsPlain j hj in
    (
      λ e.
          let (organization, e₁) =
            split_at_nul i.organization_id j.organization_id _ _ p.organization q.organization e in
          let (source, e₂) =
            split_at_nul i.source_external_id j.source_external_id _ _ p.source q.source e₁ in
          let (snapshot, digest) =
            split_at_nul i.snapshot_external_id j.snapshot_external_id _ _ p.snapshot q.snapshot
              e₂ in
          (organization, source, snapshot, digest),
      λ same. cc (same.0, same.1, same.2, same.3),
    )
