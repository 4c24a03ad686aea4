-- ===== src/Derivation/Batch.antt =====
-- acceptCandidateBatch of internal/derivation/executor.go.
use manu.Base.{
  sorted, ℕ, ◌+◌, Bool, true, false, not, ◌&&◌, ◌||◌, none, some, List, [], ◌∷◌, ◌++◌, map, Str,
  str_eq, str_lt, Map, if◌then◌else◌, ltb, length, all, ℤ, pos_part, is_positive, is_negative,
}
use manu.Derivation.Run.{
  Run, ◌>>=◌, ◌>>◌, give, refuse, check, poll, invalid_output, invalid_limits,
}
use manu.Derivation.Facts.{
  lineage_valid, Scope, CanonicalFact, FactPackage, same_scope, clone_fact, is_known,
}

pub record RuleVersion : Type 0 where
  pub rule_id : Str
  pub version : Str

-- Zero is unlimited.
pub record DerivationLimits : Type 0 where
  pub max_iterations : ℤ
  pub max_facts : ℤ
  pub max_fanout : ℤ

unfoldable pub validate_limits : DerivationLimits → Run (Unit {0})
validate_limits l =
    check
      (not (is_negative l.max_iterations || is_negative l.max_facts || is_negative l.max_fanout))
      invalid_limits

-- The set of limit codes.
pub record LimitCodes : Type 0 where
  pub iteration_limit : Bool
  pub fact_limit : Bool
  pub fanout_limit : Bool

abbrev pub no_codes : LimitCodes
no_codes = record { iteration_limit = false; fact_limit = false; fanout_limit = false }

abbrev pub any_code : LimitCodes → Bool
any_code codes = codes.iteration_limit || codes.fact_limit || codes.fanout_limit

abbrev pub join : LimitCodes → LimitCodes → LimitCodes
join a b = record {
  iteration_limit = a.iteration_limit || b.iteration_limit;
  fact_limit = a.fact_limit || b.fact_limit;
  fanout_limit = a.fanout_limit || b.fanout_limit;
}

-- `limit > 0 && n > limit`
abbrev pub exceeds : ℕ → ℤ → Bool
exceeds n limit = is_positive limit && ltb (pos_part limit) n

-- The first of each identifier that is not among `seen`.
unfoldable pub unique_facts : List Str → List CanonicalFact → List CanonicalFact
unique_facts seen [] = []
unique_facts seen (f ∷ rest) =
    if all (λ id. not (str_eq id f.id)) seen
    then f ∷ unique_facts (f.id ∷ seen) rest
    else unique_facts seen rest

unfoldable pub new_facts : Map CanonicalFact → List CanonicalFact → List CanonicalFact
new_facts known [] = []
new_facts known (f ∷ rest) =
    if is_known known f.id then new_facts known rest else f ∷ new_facts known rest

-- The facts under their keys, without the keys.
unfoldable pub keyless : List (Str × CanonicalFact) → List CanonicalFact
keyless [] = []
keyless ((key, f) ∷ rest) = f ∷ keyless rest

unfoldable pub supported : Map CanonicalFact → CanonicalFact → Bool
supported known f = elim f.lineage [ none ↦ true | some l ↦ all (is_known known) l.input_fact_ids ]

unfoldable pub limits_reached :
    DerivationLimits → Map CanonicalFact → List CanonicalFact → LimitCodes
limits_reached limits known fresh = record {
  iteration_limit = false;
  fact_limit = exceeds (length known + length fresh) limits.max_facts;
  fanout_limit = exceeds (length fresh) limits.max_fanout;
}

unfoldable pub check_support : Map CanonicalFact → List CanonicalFact → Run (Unit {0})
unfolding supported ◌>>◌ poll
check_support known [] = give tt
check_support known (candidate ∷ rest) = do
  poll
  check (supported known candidate) invalid_output
  check_support known rest

-- What is new in a batch, in the order of identifiers.
unfoldable pub fresh_facts : Map CanonicalFact → List (Str × CanonicalFact) → List CanonicalFact
unfolding sorted keyless unique_facts new_facts
fresh_facts known keyed =
    let ordered = keyless (sorted (λ l r. str_lt l.0 r.0) keyed) in
    new_facts known (sorted (λ l r. str_lt l.id r.id) (unique_facts [] ordered))

-- The facts to add, and the limits that kept them out.
unfoldable pub within_limits :
    DerivationLimits → Map CanonicalFact → List CanonicalFact → List CanonicalFact × LimitCodes
unfolding limits_reached
within_limits limits known fresh =
    let reached = limits_reached limits known fresh in
    if any_code reached then ([], reached) else (fresh, no_codes)

module _ (facts : FactPackage) where
  unfoldable pub valid_candidate_shape : Scope → RuleVersion → CanonicalFact → Bool
  unfolding lineage_valid
  valid_candidate_shape scope version candidate =
      facts.fact_valid candidate && same_scope candidate.scope scope && (elim candidate.lineage [
        | none ↦ false
        | some l ↦
            str_eq l.rule_id version.rule_id
            && str_eq l.rule_version version.version
            && lineage_valid facts.valid_identifier l candidate.id
      ])

  unfoldable pub check_shapes : Scope → RuleVersion → List CanonicalFact → Run (Unit {0})
  unfolding valid_candidate_shape ◌>>◌ poll
  check_shapes scope version [] = give tt
  check_shapes scope version (candidate ∷ rest) = do
    poll
    check (valid_candidate_shape scope version candidate) invalid_output
    check_shapes scope version rest

  abbrev pub encoded : CanonicalFact → Run Str
  encoded candidate = elim (facts.canonical_bytes candidate) [
    | none ↦ refuse invalid_output
    | some bytes ↦ give (candidate.id ++ 0 ∷ bytes)
  ]

  unfoldable pub with_keys : List CanonicalFact → Run (List (Str × CanonicalFact))
  unfolding ◌>>=◌ ◌>>◌ poll
  with_keys [] = give []
  with_keys (candidate ∷ rest) = do
    poll
    key ← encoded candidate
    keyed ← with_keys rest
    give ((key, candidate) ∷ keyed)

  unfoldable pub accept_candidate_batch :
      List CanonicalFact
      → Scope
      → RuleVersion
      → Map CanonicalFact
      → DerivationLimits
      → Run (List CanonicalFact × LimitCodes)
  unfolding check_shapes check_support with_keys fresh_facts within_limits clone_fact ◌>>=◌ ◌>>◌
  accept_candidate_batch [] scope version known limits = give ([], no_codes)
  accept_candidate_batch (candidate ∷ rest) scope version known limits = do
    check_shapes scope version (candidate ∷ rest)
    let validated = map clone_fact (candidate ∷ rest)
    check_support known validated
    keyed ← with_keys validated
    give (within_limits limits known (fresh_facts known keyed))
