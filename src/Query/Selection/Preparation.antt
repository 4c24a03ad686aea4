-- ===== src/Query/Selection/Preparation.antt =====
-- The first loop of SelectContext: each candidate is either prepared, and may then be chosen, or
-- audited as excluded.
use manu.Base.{
  ◌≡◌, refl, ap, subst, ℕ, ◌+◌, is_negative, Bool, true, false, Bool-cases, not, ◌&&◌, ◌||◌, none,
  some, List, [], ◌∷◌, length, Str, str_eq, inl, inr, All, arith, one, total, occurrences, lookup,
  Map, if◌then◌else◌, and→left, and→right,
}
use manu.Base.Run.{done, done-value, bind-done, then-done}
use manu.Query.Check.{Polls, is_nil, is_nil-none, require_iff, ensure-done, invalid_context}
use manu.Query.Context.{Scope, Owners}
use manu.Query.Context.Validate.{valid_context_id, same_scope, scope_valid, validate_item}
use manu.Query.Utility.{Float, IsFloat, finite}
use manu.Query.Candidate.{ContextSelectionCandidate, metadata_valid}
use manu.Query.Greedy.{ContextSelectionReason, Prepared, excluded_scope, excluded_invalid}
use manu.Query.Result.{ContextSelectionAudit, validate_audit, says_included, is_expected}
use manu.Query.Selection.{excluded_audit, prepared_of, sort_out, prepare}
use manu.Query.Selection.Flagged.{each, flagged, IsPriced}
use manu.Query.Selection.Identity.{id_of}

inside_same : (a b : Bool) → (not a || not b) ≡ false → b ≡ true
inside_same a b h = ground arith

outside_unfit : (a b c : Bool) → (not a || not b) ≡ true → (a && b && c) ≡ false
outside_unfit a b c h = ground arith

invalid_unfit : (a b : Bool) → b ≡ false → (a && b) ≡ false
invalid_unfit a b h = ground arith

inside_fit : (a b c : Bool) → (not a || not b) ≡ false → c ≡ true → (a && b && c) ≡ true
inside_fit a b c h k = ground arith

module _ {W : Type 0} (owners : Owners) (scope : Scope) where
  -- The tests that let a candidate be chosen: its scope and its item.
  abbrev pub is_admissible : ContextSelectionCandidate W → Bool
  is_admissible c =
      scope_valid c.item.scope
      && same_scope c.item.scope scope
      && is_nil (validate_item owners c.item)

  abbrev pub admissible_part : (ContextSelectionCandidate W → ℕ) → ContextSelectionCandidate W → ℕ
  admissible_part m c = if is_admissible c then m c else 0

module _ {W : Type 0} ⦃f : Float W⦄ (owners : Owners) (scope : Scope)
    (expected : Map (ContextSelectionCandidate W)) where
  pub record IsAdmitted (c : ContextSelectionCandidate W) : Type 0 where
    pub metadata : metadata_valid owners c ≡ true
    pub item : validate_item owners c.item ≡ none
    pub same : same_scope c.item.scope scope ≡ true
    pub found : lookup (id_of c) expected ≡ some c

  pub record IsRefused (a : ContextSelectionAudit W) : Type 0 where
    pub flag : a.is_included ≡ false
    pub valid : validate_audit owners a ≡ none
    pub found : is_expected (lookup a.item_id expected) ≡ true

  -- The parts of a candidate's metadata that its audit repeats.
  pub metadata_parts :
      (c : ContextSelectionCandidate W)
      → metadata_valid owners c ≡ true
      → (valid_context_id owners c.item.id && not (is_negative c.rank) ≡ true)
        × (finite c.relevance ≡ true)
  unfolding metadata_valid
  metadata_parts c h =
      let first_five = and→left _ _ (and→left _ _ (and→left _ _ (and→left _ _ (and→left _ _ h)))) in
      let first_two = and→left _ _ (and→left _ _ (and→left _ _ first_five)) in
      let name : valid_context_id owners c.item.id ≡ true = and→left _ _ first_two in
      let ranked : not (is_negative c.rank) ≡ true = and→right _ _ first_five in
      (rw (name, ranked) refl, and→right _ _ first_two)

  excluded_audit-IsRefused :
      (c : ContextSelectionCandidate W) (reason : ContextSelectionReason)
      → metadata_valid owners c ≡ true
      → lookup (id_of c) expected ≡ some c
      → says_included reason ≡ false
      → IsRefused (excluded_audit c reason)
  unfolding excluded_audit validate_audit
  excluded_audit-IsRefused c reason metadata found left_out =
      let (names, number) = metadata_parts c metadata in
      record {
        flag = refl;
        valid = ground (arith, names, number, left_out);
        found = ap is_expected found;
      }

  -- How the candidates are divided.
  pub record IsDivided (cs : List (ContextSelectionCandidate W)) (prepared : List (Prepared W))
      (audits : List (ContextSelectionAudit W)) : Type 0 where
    pub identities :
        (id : Str)
        → each (λ c. one (str_eq (id_of c) id)) prepared + occurrences (λ a. a.item_id) id audits
          ≡ occurrences id_of id cs
    pub admissible :
        (m : ContextSelectionCandidate W → ℕ)
        → each m prepared ≡ total (admissible_part owners scope m) cs
    pub sizes : length prepared + length audits ≡ length cs
    pub unmarked : (m : ContextSelectionCandidate W → ℕ) → flagged m prepared ≡ 0
    pub priced : All IsPriced prepared
    pub numbers : All (λ p. finite p.last_gain ≡ true) prepared
    pub admitted : All (λ p. IsAdmitted p.candidate) prepared
    pub refused : All IsRefused audits

  abbrev Divided :
      List (ContextSelectionCandidate W)
      → List (Prepared W) × List (ContextSelectionAudit W)
      → Type 0
  Divided cs r = IsDivided cs r.0 r.1

  refuse-Divided :
      (c : ContextSelectionCandidate W) (cs : List (ContextSelectionCandidate W))
      (reason : ContextSelectionReason) (ps : List (Prepared W))
      (audits : List (ContextSelectionAudit W))
      → IsRefused (excluded_audit c reason)
      → is_admissible owners scope c ≡ false
      → IsDivided cs ps audits
      → IsDivided (c ∷ cs) ps (excluded_audit c reason ∷ audits)
  unfolding excluded_audit
  refuse-Divided c cs reason ps audits refused unfit d = record {
    identities = λ id. omega (arith, d.identities id);
    admissible = λ m. omega (arith, d.admissible m, ap (λ b. if b then m c else 0) unfit);
    sizes = omega (arith, d.sizes);
    unmarked = d.unmarked;
    priced = d.priced;
    numbers = d.numbers;
    admitted = d.admitted;
    refused = (refused, d.refused);
  }

  admit-Divided :
      (laws : IsFloat W) (c : ContextSelectionCandidate W) (cs : List (ContextSelectionCandidate W))
      (ps : List (Prepared W)) (audits : List (ContextSelectionAudit W))
      → IsAdmitted c
      → is_admissible owners scope c ≡ true
      → IsDivided cs ps audits
      → IsDivided (c ∷ cs) (prepared_of c ∷ ps) audits
  unfolding prepared_of finite
  admit-Divided laws c cs ps audits admitted fit d = record {
    identities = λ id. omega (arith, d.identities id);
    admissible = λ m. omega (arith, d.admissible m, ap (λ b. if b then m c else 0) fit);
    sizes = omega (arith, d.sizes);
    unmarked = λ m. omega (arith, d.unmarked m);
    priced = (record { tokens = refl; characters = refl; bytes = refl }, d.priced);
    numbers = (ground (arith, laws.zero_number, laws.zero_finite), d.numbers);
    admitted = (admitted, d.admitted);
    refused = d.refused;
  }

  sort_out-Divided :
      (laws : IsFloat W) (c : ContextSelectionCandidate W) (cs : List (ContextSelectionCandidate W))
      (r : List (Prepared W) × List (ContextSelectionAudit W))
      → metadata_valid owners c ≡ true
      → lookup (id_of c) expected ≡ some c
      → Divided cs r
      → Divided (c ∷ cs) (sort_out owners scope c r)
  unfolding sort_out
  sort_out-Divided laws c cs (ps, audits) metadata found d =
      elim (Bool-cases (not (scope_valid c.item.scope) || not (same_scope c.item.scope scope))) [
        | inl outside ↦ rw outside (
            refuse-Divided c cs excluded_scope ps audits
              (excluded_audit-IsRefused c excluded_scope metadata found refl)
              (outside_unfit (scope_valid c.item.scope) (same_scope c.item.scope scope) _ outside)
              d)
        | inr inside ↦ elim (Bool-cases (is_nil (validate_item owners c.item))) [
          | inr invalid ↦
              rw (inside, invalid)
                (refuse-Divided c cs excluded_invalid ps audits
                  (excluded_audit-IsRefused c excluded_invalid metadata found refl)
                  (invalid_unfit (scope_valid c.item.scope && same_scope c.item.scope scope) _
                    invalid)
                  d)
          | inl valid ↦
              rw (inside, valid)
                (admit-Divided laws c cs ps audits
                  (record {
                    metadata = metadata;
                    item = is_nil-none (validate_item owners c.item) valid;
                    same =
                        inside_same (scope_valid c.item.scope) (same_scope c.item.scope scope)
                          inside;
                    found = found;
                  })
                  (inside_fit (scope_valid c.item.scope) (same_scope c.item.scope scope) _ inside
                    valid)
                  d)
        ]
      ]

  pub prepare-Divided :
      (laws : IsFloat W) (cs : List (ContextSelectionCandidate W)) (p : Polls) {q : Polls}
      {r : List (Prepared W) × List (ContextSelectionAudit W)}
      → All (λ c. lookup (id_of c) expected ≡ some c) cs
      → prepare owners scope cs p ≡ done r q
      → Divided cs r
  unfolding prepare
  prepare-Divided laws [] p found h = subst (Divided []) (done-value h) (record {
    identities = λ id. refl;
    admissible = λ m. refl;
    sizes = refl;
    unmarked = λ m. refl;
    priced = tt;
    numbers = tt;
    admitted = tt;
    refused = tt;
  })
  prepare-Divided laws (c ∷ cs) p found h =
      let (_, p1, _, h1) = then-done _ _ p h in
      let (_, p2, tested, h2) = then-done _ _ p1 h1 in
      let (r, p3, rest, h3) = bind-done _ _ p2 h2 in
      let metadata = (require_iff _ invalid_context).0 (ensure-done _ p1 tested) in
      subst (Divided (c ∷ cs)) (done-value h3)
        (sort_out-Divided laws c cs r metadata found.0 (prepare-Divided laws cs p2 found.1 rest))
