-- ===== src/Query/Closed/Support/Required.antt =====
-- What a relation needs, and the part of it that CloseContextSupport (internal/query/context_support_closure.go)
-- finds missing.
use manu.Base.{
  ◌≡◌, refl, ap, subst, ℕ, ◌+◌, ◌≤◌, leb, Bool, true, Bool-cases, Option-cases, not, ◌||◌, List, [],
  ◌∷◌, ◌++◌, length, Str, str_eq, str_eq_iff, str_eq_refl, inl, inr, All, All-append, arith, one,
  and→right, total, total-length, total-append, occurrences, Map, lookup,
}
use manu.Base.Run.{done, done-value, then-done}
use manu.Query.Check.{Polls, is_nil}
use manu.Query.Context.{Scope, Owners, mem_str, max_context_items}
use manu.Query.Context.Validate.{
  scope_valid, same_scope, validate_item, valid_context_id, distinct_valid, validate_context_ids,
}
use manu.Query.Utility.{Float}
use manu.Query.Candidate.{ContextSelectionCandidate}
use manu.Query.Selection.Flagged.{mem_str-occurrences, occurrences-mem_str}
use manu.Query.Relation.{ContextRelation, add_required, required_ids}
use manu.Query.ClosureState.{Missing, nothing_missing}
use manu.Query.Closure.{look_for, look_for_all}

pub All-member : (P : Str → Type 0) (id : Str) (l : List Str) → All P l → mem_str id l ≡ true → P id
All-member P id [] h k = absurd (ground arith)
All-member P id (x ∷ l) h k = elim (Bool-cases (str_eq x id)) [
  | inl here ↦ subst P ((str_eq_iff x id).0 here) h.0
  | inr away ↦ All-member P id l h.1 (rw away at k)
]

All-required :
    (P : Str → Type 0) (required l : List Str)
    → All P required
    → All P l
    → All P (add_required required l)
All-required P required [] h k = h
All-required P required (id ∷ l) h k = elim (Bool-cases (mem_str id required)) [
  | inl there ↦ rw there (All-required P required l h k.1)
  | inr new ↦
      rw new
        (All-required P (required ++ id ∷ []) l (All-append P required (id ∷ []) h (k.0, tt)) k.1)
]

pub All-front : (P : Str → Type 0) (l m : List Str) → All P (l ++ m) → All P l × All P m
All-front P [] m h = (tt, h)
All-front P (x ∷ l) m h = let (front, back) = All-front P l m h.1 in ((h.0, front), back)

-- What is needed holds all that is named.
required-All :
    (P : Str → Type 0) (required l : List Str)
    → All P (add_required required l)
    → All P required × All P l
required-All P required [] h = (h, tt)
required-All P required (id ∷ l) h = elim (Bool-cases (mem_str id required)) [
  | inl there ↦
      let (before, rest) = required-All P required l (rw there at h) in
      (before, (All-member P id required before there, rest))
  | inr new ↦
      let (before, rest) = required-All P (required ++ id ∷ []) l (rw new at h) in
      let (first, last) = All-front P required (id ∷ []) before in (first, (last.0, rest))
]

abbrev pub Once : List Str → Type 0
Once l = (id : Str) → occurrences (λ s. s) id l ≤ 1

required-Once : (required l : List Str) → Once required → Once (add_required required l)
required-Once required [] once = once
required-Once required (id ∷ l) once = elim (Bool-cases (mem_str id required)) [
  | inl there ↦ rw there (required-Once required l once)
  | inr new ↦ rw new (
      required-Once (required ++ id ∷ []) l (λ x. elim (Bool-cases (str_eq id x)) [
        | inl same ↦
            let none_before =
              subst (λ y. occurrences (λ s. s) y required ≡ 0) ((str_eq_iff id x).0 same)
                (mem_str-occurrences id required new) in
            omega (
              arith,
              total-append (λ s. one (str_eq s x)) required (id ∷ []),
              none_before,
              ap one same,
            )
        | inr other ↦
            omega
              (arith, total-append (λ s. one (str_eq s x)) required (id ∷ []), once x, ap one other)
      ]))
]

module _ (valid : Str → Bool) where
  invalid : Str → ℕ
  invalid s = one (not (valid s))

  All-no_invalid : (l : List Str) → All (λ s. valid s ≡ true) l → total invalid l ≡ 0
  unfolding invalid
  All-no_invalid [] h = refl
  All-no_invalid (s ∷ l) h = ground (arith, h.0, All-no_invalid l h.1)

  no_invalid-All : (l : List Str) → total invalid l ≡ 0 → All (λ s. valid s ≡ true) l
  unfolding invalid
  no_invalid-All [] h = tt
  no_invalid-All (s ∷ l) h = (ground (arith, h), no_invalid-All l (omega (arith, h)))

module _ (owners : Owners) (valid : Str → Bool) where
  distinct-All :
      (seen l : List Str) → distinct_valid owners valid seen l ≡ true → All (λ s. valid s ≡ true) l
  unfolding distinct_valid
  distinct-All seen [] h = tt
  distinct-All seen (s ∷ l) h = (ground (arith, h), distinct-All (s ∷ seen) l (ground (arith, h)))

  All-distinct :
      (seen l : List Str)
      → All (λ s. valid s ≡ true) l
      → ((id : Str) → occurrences (λ s. s) id l + occurrences (λ s. s) id seen ≤ 1)
      → distinct_valid owners valid seen l ≡ true
  unfolding distinct_valid
  All-distinct seen [] h once = refl
  All-distinct seen (s ∷ l) h once =
      let fresh = occurrences-mem_str s seen (omega (arith, once s, ap one (str_eq_refl s))) in
      rw (h.0, fresh) (All-distinct (s ∷ seen) l h.1 (λ id. omega (arith, once id)))

-- However they are counted, the ones are among the others.
abbrev pub IsPart : List Str → List Str → Type 0
IsPart ids all = (m : Str → ℕ) → total m ids ≤ total m all

module _ (owners : Owners) where
  -- A part of valid identifiers, each there once, is valid where it is short enough.
  pub part-validate_context_ids :
      (ids all : List Str)
      → IsPart ids all
      → All (λ s. valid_context_id owners s ≡ true) all
      → Once all
      → leb (length all) max_context_items ≡ true
      → validate_context_ids owners ids max_context_items ≡ true
  unfolding validate_context_ids
  part-validate_context_ids ids all part valid once few =
      let short : leb (length ids) max_context_items ≡ true =
        ground (arith, few, part (λ s. 1), total-length ids, total-length all) in
      let none_invalid : total (invalid (valid_context_id owners)) ids ≡ 0 = omega (
        arith,
        part (invalid (valid_context_id owners)),
        All-no_invalid (valid_context_id owners) all valid,
      ) in
      rw short (
        All-distinct owners (valid_context_id owners) [] ids
          (no_invalid-All (valid_context_id owners) ids none_invalid)
          (λ id. omega (arith, part (λ s. one (str_eq s id)), once id)))

  pub distinct-valid_ids :
      (l : List Str) (most : ℕ)
      → validate_context_ids owners l most ≡ true
      → All (λ s. valid_context_id owners s ≡ true) l
  unfolding validate_context_ids
  distinct-valid_ids l most h = distinct-All owners (valid_context_id owners) [] l (and→right _ _ h)

pub required_ids-Once : (r : ContextRelation) → Once (required_ids r)
unfolding required_ids
required_ids-Once r =
    required-Once [] (r.from_id ∷ r.to_id ∷ r.path ++ r.support_ids) (λ id. omega arith)

-- What a relation names.
abbrev pub named_ids : ContextRelation → List Str
named_ids r = r.from_id ∷ r.to_id ∷ r.path ++ r.support_ids

pub All-required_ids :
    (P : Str → Type 0) (r : ContextRelation) → All P (named_ids r) → All P (required_ids r)
unfolding required_ids
All-required_ids P r h = All-required P [] (named_ids r) tt h

pub required_ids-All :
    (P : Str → Type 0) (r : ContextRelation) → All P (required_ids r) → All P (named_ids r)
unfolding required_ids
required_ids-All P r h = (required-All P [] (named_ids r) h).1

module _ {W : Type 0} ⦃f : Float W⦄ (owners : Owners) (scope : Scope)
    (candidates : Map (ContextSelectionCandidate W)) (selected : List Str) where
  look_for-part :
      (id : Str) (m : Missing W) (n : Str → ℕ)
      → total n (look_for owners scope candidates selected id m).ids ≤ total n m.ids + n id
  unfolding look_for
  look_for-part id m n =
      let more = total-append n m.ids (id ∷ []) in
      elim (Bool-cases (mem_str id selected)) [
        | inl here ↦ rw here (omega arith)
        | inr away ↦ elim (Option-cases (lookup id candidates)) [
          | inl absent ↦ rw (away, absent) (omega (arith, more))
          | inr (c, found) ↦
              elim (Bool-cases
                (not (scope_valid c.item.scope) || not (same_scope c.item.scope scope))) [
                  | inl far ↦ rw (away, found, far) (omega (arith, more))
                  | inr near ↦ elim (Bool-cases (is_nil (validate_item owners c.item))) [
                    | inr bad ↦ rw (away, found, near, bad) (omega (arith, more))
                    | inl good ↦ rw (away, found, near, good) (omega arith)
                  ]
                ]
        ]
      ]

  look_for_all-part :
      (ids : List Str) (m : Missing W) (p : Polls) {q : Polls} {r : Missing W} (n : Str → ℕ)
      → look_for_all owners scope candidates selected ids m p ≡ done r q
      → total n r.ids ≤ total n m.ids + total n ids
  unfolding look_for_all
  look_for_all-part [] m p n h =
      subst (λ r. total n r.ids ≤ total n m.ids + 0) (done-value h) (omega arith)
  look_for_all-part (id ∷ ids) m p n h =
      let (_, p1, _, h1) = then-done _ _ p h in
      let rest = look_for_all-part ids (look_for owners scope candidates selected id m) p1 n h1 in
      omega (arith, rest, look_for-part id m n)

  -- What is missing is a part of what was looked for.
  pub missing-IsPart :
      (ids : List Str) (p : Polls) {q : Polls} {r : Missing W}
      → look_for_all owners scope candidates selected ids nothing_missing p ≡ done r q
      → IsPart r.ids ids
  missing-IsPart ids p h n = omega (arith, look_for_all-part ids nothing_missing p n h)
