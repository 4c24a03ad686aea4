-- ===== src/Base/Sort.antt =====
-- sort.Slice and sort.SliceStable of the standard library, and what they keep of a list.

use mathlib.Core.Bool.{Bool}
use mathlib.Core.Logic.{inl, inr}
use mathlib.Core.List.{List, [], ◌∷◌}
use manu.Base.Tests.{if◌then◌else◌, Bool-cases}
use manu.Base.Lists.{All}

-- sort.SliceStable, as an insertion sort that keeps the order of equals.
module _ {A : Type 0} (less : A → A → Bool) where
  unfoldable pub place : A → List A → List A
  place x [] = x ∷ []
  place x (y ∷ ys) = if less y x then y ∷ place x ys else x ∷ y ∷ ys

  unfoldable pub sorted : List A → List A
  unfolding place
  sorted [] = []
  sorted (x ∷ xs) = place x (sorted xs)

  pub All-place : (P : A → Type 0) (x : A) (l : List A) → P x → All P l → All P (place x l)
  unfolding place
  All-place P x [] h hs = (h, tt)
  All-place P x (y ∷ ys) h hs = elim (Bool-cases (less y x)) [
    | inl below ↦ rw below (hs.0, All-place P x ys h hs.1)
    | inr above ↦ rw above (h, hs)
  ]

  pub All-sorted : (P : A → Type 0) (l : List A) → All P l → All P (sorted l)
  unfolding sorted
  All-sorted P [] h = tt
  All-sorted P (x ∷ xs) h = All-place P x (sorted xs) h.0 (All-sorted P xs h.1)

  pub place-All : (P : A → Type 0) (x : A) (l : List A) → All P (place x l) → P x × All P l
  unfolding place
  place-All P x [] h = h
  place-All P x (y ∷ ys) h = elim (Bool-cases (less y x)) [
    | inl below ↦
        let h' = rw below at h in let (here, rest) = place-All P x ys h'.1 in (here, (h'.0, rest))
    | inr above ↦ rw above at h
  ]

  pub sorted-All : (P : A → Type 0) (l : List A) → All P (sorted l) → All P l
  unfolding sorted
  sorted-All P [] h = tt
  sorted-All P (x ∷ xs) h =
      let (here, rest) = place-All P x (sorted xs) h in (here, sorted-All P xs rest)
