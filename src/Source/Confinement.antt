-- ===== src/Source/Confinement.antt =====
-- A path that normalizeRootRelativePath accepts goes down from the root.
use mathlib.Core.List.{reverse-cons}
use manu.Base.{
  ◌≡◌, refl, sym, ap, subst, ◌∙◌, ℕ, ◌==◌, false, ◌||◌, Bool-cases, some, List, [], ◌∷◌, ◌++◌,
  reverse, ◌⊎◌, inl, inr, Str, str_eq, is_empty, All, All-append, arith,
}
use manu.Source.Segments.{
  slash, dot, dots, cons_head, split, join, is_rooted, clean_parts, clean_text, clean,
}
use manu.Source.Path.{
  backslash, has_byte, fields, any_dots, has_parent_component, has_drive_prefix,
  is_parent_slash_path, normalize_root_relative_path,
}

-- A part of a path that names something below where it is read.
pub record IsName (part : Str) : Type 0 where
  pub nonempty : is_empty part ≡ false
  pub not_here : str_eq part dot ≡ false
  pub not_above : str_eq part dots ≡ false
  pub whole : has_byte slash part ≡ false

All-reverse : {A : Type 0} (P : A → Type 0) (l : List A) → All P l → All P (reverse l)
All-reverse P [] h = tt
All-reverse P (x ∷ l) h =
    subst (All P) (sym (reverse-cons x l))
      (All-append P (reverse l) (x ∷ []) (All-reverse P l h.1) (h.0, tt))

-- The parts of a split hold no slash.
cons_head-whole :
    (c : ℕ) (parts : List Str)
    → (c == slash) ≡ false
    → All (λ part. has_byte slash part ≡ false) parts
    → All (λ part. has_byte slash part ≡ false) (cons_head c parts)
unfolding has_byte
cons_head-whole c [] h k = (ground arith, tt)
cons_head-whole c (part ∷ parts) h k = (ground (arith, k.0), k.1)

split-whole : (s : Str) → All (λ part. has_byte slash part ≡ false) (split s)
unfolding split has_byte
split-whole [] = (refl, tt)
split-whole (c ∷ s) = elim (Bool-cases (c == slash)) [
  | inl cut ↦ rw cut (refl, split-whole s)
  | inr kept ↦ rw kept (cons_head-whole c (split s) kept (split-whole s))
]

-- Without a backslash the fields are the parts between slashes.
fields-split : (s : Str) → has_byte backslash s ≡ false → fields s ≡ split s
unfolding fields split has_byte
fields-split [] h = refl
fields-split (c ∷ s) h =
    let other : (c == backslash) ≡ false = ground (arith, h) in
    let rest = fields-split s (ground (arith, h)) in rw (other, rest) (ground arith)

any_dots-All :
    (parts : List Str) → any_dots parts ≡ false → All (λ part. str_eq part dots ≡ false) parts
any_dots-All [] h = tt
any_dots-All (part ∷ parts) h = (ground (arith, h), any_dots-All parts (ground (arith, h)))

-- Where no part is two dots, the parts that are kept are names.
clean_parts-IsName :
    (kept parts : List Str)
    → All IsName kept
    → All (λ part. str_eq part dots ≡ false) parts
    → All (λ part. has_byte slash part ≡ false) parts
    → All IsName (clean_parts false kept parts)
unfolding clean_parts
clean_parts-IsName kept [] h k w = h
clean_parts-IsName kept (part ∷ parts) h k w =
    elim (Bool-cases (is_empty part || str_eq part dot)) [
      | inl idle ↦ rw idle (clean_parts-IsName kept parts h k.1 w.1)
      | inr named ↦
          rw (named, k.0)
            (clean_parts-IsName (part ∷ kept) parts
              (
                record {
                  nonempty = ground (arith, named);
                  not_here = ground (arith, named);
                  not_above = k.0;
                  whole = w.0;
                },
                h,
              )
              k.1 w.1)
    ]

-- To split what was joined gives the parts back.
split-part :
    (part rest : Str)
    → has_byte slash part ≡ false
    → split (part ++ slash ∷ rest) ≡ part ∷ split rest
unfolding split has_byte
split-part [] rest h = refl
split-part (c ∷ part) rest h =
    let other : (c == slash) ≡ false = ground (arith, h) in
    rw (other, split-part part rest (ground (arith, h))) refl

split-whole_part : (part : Str) → has_byte slash part ≡ false → split part ≡ part ∷ []
unfolding split has_byte
split-whole_part [] h = refl
split-whole_part (c ∷ part) h =
    let other : (c == slash) ≡ false = ground (arith, h) in
    rw (other, split-whole_part part (ground (arith, h))) refl

split-join :
    (part : Str) (parts : List Str)
    → All IsName (part ∷ parts)
    → split (join (part ∷ parts)) ≡ part ∷ parts
unfolding join
split-join part [] h = split-whole_part part h.0.whole
split-join part (next ∷ parts) h =
    split-part part (join (next ∷ parts)) h.0.whole ∙ ap (λ l. part ∷ l) (split-join next parts h.1)

clean_text-IsName :
    (parts : List Str)
    → All IsName parts
    → (str_eq (clean_text false parts) dot ≡ false)
    → All IsName (split (clean_text false parts))
unfolding str_eq
clean_text-IsName [] h k = absurd (ground (arith, k))
clean_text-IsName (part ∷ parts) h k = subst (All IsName) (sym (split-join part parts h)) h

clean-IsName :
    (s : Str)
    → is_rooted s ≡ false
    → has_byte backslash s ≡ false
    → has_parent_component s ≡ false
    → str_eq (clean s) dot ≡ false
    → All IsName (split (clean s))
unfolding clean has_parent_component
clean-IsName s unrooted plain down named =
    let below =
      any_dots-All (split s) (subst (λ l. any_dots l ≡ false) (fields-split s plain) down) in
    let parts = clean_parts-IsName [] (split s) tt below (split-whole s) in
    rw unrooted (
      clean_text-IsName (reverse (clean_parts false [] (split s)))
        (All-reverse IsName (clean_parts false [] (split s)) parts) (rw unrooted at named))

-- A path that is accepted for a confined root is the root itself, or each of its parts is a name: none
-- is empty, a dot or two dots, or holds a slash.
pub normalize_root_relative_path-IsName :
    (s c : Str) → normalize_root_relative_path s ≡ some c → (c ≡ dot) ⊎ All IsName (split c)
unfolding normalize_root_relative_path
normalize_root_relative_path-IsName s c h = elim (Bool-cases (is_empty s || str_eq s dot)) [
  | inl root ↦ inl (ground (arith, rw root at h))
  | inr below ↦
      let refused =
        has_byte 0 s
        || has_byte backslash s
        || is_rooted s
        || has_drive_prefix s
        || has_parent_component s in
      elim (Bool-cases refused) [
        | inl bad ↦ absurd (ground (arith, rw (below, bad) at h))
        | inr good ↦ elim (Bool-cases (str_eq (clean s) dot || is_parent_slash_path (clean s))) [
          | inl out ↦ absurd (ground (arith, rw (below, good, out) at h))
          | inr down ↦
              let equal : clean s ≡ c = ground (arith, rw (below, good, down) at h) in
              inr (
                subst (λ x. All IsName (split x)) equal
                  (clean-IsName s (ground (arith, good)) (ground (arith, good))
                    (ground (arith, good)) (ground (arith, down))))
        ]
      ]
]
