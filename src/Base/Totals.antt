-- ===== src/Base/Totals.antt =====
-- Sums over a list, and counts of a text among the keys of a list, which do not see its order.
use Prim.Native.Nat.{ℕ, ◌+◌, ◌≤◌}
use mathlib.Core.Path.{◌≡◌, refl, ap}
use mathlib.Core.Logic.{inl, inr}
use mathlib.Core.Bool.{Bool, true, false}
use mathlib.Core.List.{List, [], ◌∷◌, ◌++◌, map, reverse, reverse-cons}
use native.Mathlib.Omega.{arith}
use manu.Base.Tests.{Bool-cases}
use manu.Base.Lists.{length, All, All-map}
use manu.Base.Text.{Str, str_eq, str_eq_iff}
use manu.Base.Sort.{place, sorted}

abbrev pub one : Bool → ℕ
one true = 1
one false = 0

abbrev pub total : {A : Type 0} → (A → ℕ) → List A → ℕ
total m [] = 0
total m (x ∷ xs) = m x + total m xs

-- How many members of the list have the key.
abbrev pub occurrences : {A : Type 0} → (A → Str) → Str → List A → ℕ
occurrences key id = total (λ x. one (str_eq (key x) id))

pub total-length : {A : Type 0} (l : List A) → total (λ x. 1) l ≡ length l
total-length [] = refl
total-length (x ∷ l) = omega (arith, total-length l)

module _ {A : Type 0} (m : A → ℕ) where
  pub total-append : (xs ys : List A) → total m (xs ++ ys) ≡ total m xs + total m ys
  total-append [] ys = omega arith
  total-append (x ∷ xs) ys = omega (arith, total-append xs ys)

  pub total-reverse : (l : List A) → total m (reverse l) ≡ total m l
  total-reverse [] = refl
  total-reverse (x ∷ l) =
      rw (reverse-cons x l) (omega (arith, total-append (reverse l) (x ∷ []), total-reverse l))

  pub total-map : {B : Type 0} (g : B → A) (l : List B) → total m (map g l) ≡ total (λ x. m (g x)) l
  total-map g [] = refl
  total-map g (x ∷ l) = omega (arith, total-map g l)

  total-place :
      (less : A → A → Bool) (x : A) (l : List A) → total m (place less x l) ≡ m x + total m l
  unfolding place
  total-place less x [] = refl
  total-place less x (y ∷ l) = elim (Bool-cases (less y x)) [
    | inl below ↦ rw below (omega (arith, total-place less x l))
    | inr above ↦ rw above refl
  ]

  pub total-sorted : (less : A → A → Bool) (l : List A) → total m (sorted less l) ≡ total m l
  unfolding sorted
  total-sorted less [] = refl
  total-sorted less (x ∷ l) = omega (arith, total-place less x (sorted less l), total-sorted less l)

  pub total_congr : (n : A → ℕ) (l : List A) → All (λ x. m x ≡ n x) l → total m l ≡ total n l
  total_congr n [] h = refl
  total_congr n (x ∷ l) h = omega (arith, h.0, total_congr n l h.1)

  pub total_mono : (n : A → ℕ) (l : List A) → All (λ x. m x ≤ n x) l → total m l ≤ total n l
  total_mono n [] h = omega arith
  total_mono n (x ∷ l) h = omega (arith, h.0, total_mono n l h.1)

module _ {A : Type 0} where
  pub All-every : {P : A → Type 0} (f : (x : A) → P x) (l : List A) → All P l
  All-every f [] = tt
  All-every f (x ∷ l) = (f x, All-every f l)

  -- A member counts for no more than the whole, however it is counted.
  pub total_bounds : (l : List A) → All (λ x. (m : A → ℕ) → m x ≤ total m l) l
  total_bounds [] = tt
  total_bounds (x ∷ l) =
      (λ m. omega arith, All-map (λ y h m. omega (arith, h m)) l (total_bounds l))

  -- What is counted at least once is there.
  pub total_find :
      (b : A → Bool) (P : A → Type 0) (l : List A)
      → 1 ≤ total (λ x. one (b x)) l
      → All P l
      → (x : A) × (b x ≡ true) × P x
  total_find b P [] h k = absurd (omega arith)
  total_find b P (x ∷ l) h k = elim (Bool-cases (b x)) [
    | inl here ↦ (x, here, k.0)
    | inr away ↦ total_find b P l (omega (arith, h, ap one away)) k.1
  ]

  pub total_zero : (l : List A) → total (λ x. 0) l ≡ 0
  total_zero [] = refl
  total_zero (x ∷ l) = omega (arith, total_zero l)

  pub total_one : (l : List A) → total (λ x. 1) l ≡ length l
  total_one [] = refl
  total_one (x ∷ l) = omega (arith, total_one l)

  pub All-append : (P : A → Type 0) (xs ys : List A) → All P xs → All P ys → All P (xs ++ ys)
  All-append P [] ys h k = k
  All-append P (x ∷ xs) ys h k = (h.0, All-append P xs ys h.1 k)

  pub All-both : (P Q : A → Type 0) (l : List A) → All P l → All Q l → All (λ x. P x × Q x) l
  All-both P Q [] h k = tt
  All-both P Q (x ∷ l) h k = ((h.0, k.0), All-both P Q l h.1 k.1)

  -- Two parts of a count that exclude each other.
  pub total_two :
      (m n w : A → ℕ) (l : List A)
      → All (λ x. m x + n x ≤ w x) l
      → total m l + total n l ≤ total w l
  total_two m n w [] h = omega arith
  total_two m n w (x ∷ l) h = omega (arith, h.0, total_two m n w l h.1)

pub All-mapped :
    {A B : Type 0} (P : B → Type 0) (g : A → B) (l : List A)
    → All (λ x. P (g x)) l
    → All P (map g l)
All-mapped P g [] h = tt
All-mapped P g (x ∷ l) h = (h.0, All-mapped P g l h.1)

pub one_le : (b : Bool) → one b ≤ 1
one_le b = ground arith

pub str_eq_symm : (s t : Str) → str_eq s t ≡ str_eq t s
str_eq_symm s t = ground (arith, str_eq_iff s t, str_eq_iff t s)
