-- ===== src/Query/Selection/Identity.antt =====
-- The identifiers of a request's candidates: validation makes them distinct, so that the maps of
-- ValidateAgainst hold each candidate under its own.
use manu.Base.{
  ◌≡◌, refl, ◌∙◌, ap, suc, ◌+◌, ◌≤◌, true, false, Bool-cases, none, some, List, [], ◌∷◌, length,
  Str, str_eq, str_eq_iff, str_eq_refl, str_eq_symm, inl, inr, All, All-map, All-both, arith, one,
  occurrences, Map, lookup, insert, lookup-insert, lookup-insert_self, if◌then◌else◌,
}
use manu.Query.Context.{Owners, mem_str}
use manu.Query.Utility.{Float}
use manu.Query.Candidate.{ContextSelectionCandidate, candidates_valid}
use manu.Query.Result.{candidates_by_id}
use manu.Query.Selection.Flagged.{mem_str-occurrences}

module _ {W : Type 0} where
  abbrev pub id_of : ContextSelectionCandidate W → Str
  id_of c = c.item.id

  abbrev pub Distinct : List (ContextSelectionCandidate W) → Type 0
  Distinct cs = (id : Str) → occurrences id_of id cs ≤ 1

  -- Where the head stands once, it is not in the rest.
  head_once :
      (c : ContextSelectionCandidate W) (cs : List (ContextSelectionCandidate W))
      → Distinct (c ∷ cs)
      → occurrences id_of (id_of c) cs ≡ 0
  head_once c cs d = omega (arith, d (id_of c), ap one (str_eq_refl (id_of c)))

  rest-Distinct :
      (c : ContextSelectionCandidate W) (cs : List (ContextSelectionCandidate W))
      → Distinct (c ∷ cs)
      → Distinct cs
  rest-Distinct c cs d = λ id. omega (arith, d id)

  others :
      (id : Str) (cs : List (ContextSelectionCandidate W))
      → occurrences id_of id cs ≡ 0
      → All (λ c. str_eq (id_of c) id ≡ false) cs
  others id [] h = tt
  others id (c ∷ cs) h = (ground (arith, h), others id cs (omega (arith, h)))

  lookup-others :
      (id : Str) (cs : List (ContextSelectionCandidate W)) (m : Map (ContextSelectionCandidate W))
      → occurrences id_of id cs ≡ 0
      → lookup id (candidates_by_id cs m) ≡ lookup id m
  unfolding candidates_by_id
  lookup-others id [] m h = refl
  lookup-others id (c ∷ cs) m h =
      let away : str_eq (id_of c) id ≡ false = ground (arith, h) in
      let below = lookup-others id cs (insert (id_of c) c m) (omega (arith, h)) in
      below ∙ lookup-insert (id_of c) id c m ∙ ap (λ b. if b then some c else lookup id m) away

  pub lookup-candidates :
      (cs : List (ContextSelectionCandidate W)) (m : Map (ContextSelectionCandidate W))
      → Distinct cs
      → All (λ c. lookup (id_of c) (candidates_by_id cs m) ≡ some c) cs
  unfolding candidates_by_id
  lookup-candidates [] m d = tt
  lookup-candidates (c ∷ cs) m d = (
    lookup-others (id_of c) cs (insert (id_of c) c m) (head_once c cs d)
        ∙ lookup-insert_self (id_of c) c m,
    lookup-candidates cs (insert (id_of c) c m) (rest-Distinct c cs d),
  )

  length-insert :
      (k : Str) (v : ContextSelectionCandidate W) (m : Map (ContextSelectionCandidate W))
      → lookup k m ≡ none
      → length (insert k v m) ≡ suc (length m)
  unfolding insert lookup
  length-insert k v [] h = refl
  length-insert k v ((j, w) ∷ m) h = elim (Bool-cases (str_eq j k)) [
    | inl here ↦ absurd (ground (arith, h, here))
    | inr away ↦ rw away (ap suc (length-insert k v m (rw away at h)))
  ]

  pub length-candidates_by_id :
      (cs : List (ContextSelectionCandidate W)) (m : Map (ContextSelectionCandidate W))
      → Distinct cs
      → All (λ c. lookup (id_of c) m ≡ none) cs
      → length (candidates_by_id cs m) ≡ length cs + length m
  unfolding candidates_by_id
  length-candidates_by_id [] m d h = omega arith
  length-candidates_by_id (c ∷ cs) m d h =
      let apart = others (id_of c) cs (head_once c cs d) in
      let still : All (λ x. lookup (id_of x) (insert (id_of c) c m) ≡ none) cs =
        All-map
          (λ x k.
            lookup-insert (id_of c) (id_of x) c m
            ∙ ap (λ b. if b then some c else lookup (id_of x) m)
                (str_eq_symm (id_of c) (id_of x) ∙ k.0)
            ∙ k.1)
          cs
          (All-both (λ x. str_eq (id_of x) (id_of c) ≡ false) (λ x. lookup (id_of x) m ≡ none) cs
            apart h.1) in
      omega (
        arith,
        length-insert (id_of c) c m h.0,
        length-candidates_by_id cs (insert (id_of c) c m) (rest-Distinct c cs d) still,
      )

module _ {W : Type 0} ⦃f : Float W⦄ (owners : Owners) where
  pub candidates_valid-Distinct :
      (seen : List Str) (cs : List (ContextSelectionCandidate W)) (id : Str)
      → candidates_valid owners seen cs ≡ true
      → occurrences (λ s. s) id seen ≤ 1
      → occurrences id_of id cs + occurrences (λ s. s) id seen ≤ 1
  unfolding candidates_valid
  candidates_valid-Distinct seen [] id h k = omega (arith, k)
  candidates_valid-Distinct seen (c ∷ cs) id h k =
      let fresh : mem_str (id_of c) seen ≡ false = ground (arith, h) in
      let rest : candidates_valid owners (id_of c ∷ seen) cs ≡ true = ground (arith, h) in
      elim (Bool-cases (str_eq (id_of c) id)) [
        | inr away ↦ omega (
          arith,
          ap one away,
          candidates_valid-Distinct (id_of c ∷ seen) cs id rest (omega (arith, ap one away)),
        )
        | inl here ↦
            let equal = (str_eq_iff (id_of c) id).0 here in
            let unseen : occurrences (λ s. s) id seen ≡ 0 =
              mem_str-occurrences id seen (rw⁻¹ equal fresh) in
            omega (
              arith,
              ap one here,
              candidates_valid-Distinct (id_of c ∷ seen) cs id rest
                  (omega (arith, ap one here, unseen)),
            )
      ]
