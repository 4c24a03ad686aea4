-- ===== src/Base/Text/Trim.antt =====
-- A text with an ASCII byte that is no white space does not trim to the empty text.
use Prim.Native.Nat.{ℕ, zero, suc, ◌-◌, ◌≤◌}
use mathlib.Core.Path.{◌≡◌, refl, ◌∙◌}
use mathlib.Core.Logic.{inl, inr}
use mathlib.Core.Bool.{false, not, ◌&&◌}
use mathlib.Core.List.{[], ◌∷◌, ◌++◌, reverse}
use native.Mathlib.Omega.{arith}
use manu.Base.Tests.{ltb, ◌==◌, Bool-cases}
use manu.Base.Lists.{take}
use manu.Base.Text.{Str, is_empty, white1, white_prefix, white_suffix, trim_from, trim_space}
use manu.Base.Totals.{one, total, total-append, total-reverse}

abbrev pub solid : ℕ → ℕ
solid x = one (ltb x 128 && not (white1 x))

-- What `white` measures holds no such byte.
abbrev Covers : (Str → ℕ) → Type 0
Covers white = (s : Str) → total solid (take (white s) s) ≡ 0

white_prefix-Covers : Covers white_prefix
unfolding white_prefix
white_prefix-Covers [] = refl
white_prefix-Covers (a ∷ []) = ground arith
white_prefix-Covers (a ∷ b ∷ []) = ground arith
white_prefix-Covers (a ∷ b ∷ c ∷ r) = ground arith

white_suffix-Covers : Covers white_suffix
unfolding white_suffix
white_suffix-Covers [] = refl
white_suffix-Covers (c ∷ []) = ground arith
white_suffix-Covers (c ∷ b ∷ []) = ground arith
white_suffix-Covers (c ∷ b ∷ a ∷ r) = ground arith

pub solid-amid : (s t : Str) (x : ℕ) → solid x ≡ 1 → 1 ≤ total solid (s ++ x ∷ t)
solid-amid s t x h = omega (arith, h, total-append solid s (x ∷ t))

take_parts :
    (n x : ℕ) (s : Str)
    → (n == 0) ≡ false
    → total solid (take n (x ∷ s)) ≡ 0
    → (solid x ≡ 0) × (total solid (take (n - 1) s) ≡ 0)
take_parts zero x s h e = absurd (ground (arith, h))
take_parts (suc n) x s h e =
    let less : suc n - 1 ≡ n = omega arith in (omega (arith, e), rw less (omega (arith, e)))

total-trim_from :
    (white : Str → ℕ) (k : ℕ) (s : Str)
    → Covers white
    → total solid (take k s) ≡ 0
    → total solid (trim_from white k s) ≡ total solid s
unfolding trim_from
total-trim_from white k [] covers h = refl
total-trim_from white (suc k) (x ∷ s) covers h =
    omega (arith, h, total-trim_from white k s covers (omega (arith, h)))
total-trim_from white zero (x ∷ s) covers h = elim (Bool-cases (white (x ∷ s) == 0)) [
  | inl none_here ↦ rw none_here refl
  | inr some_here ↦
      let (blank, rest) = take_parts (white (x ∷ s)) x s some_here (covers (x ∷ s)) in
      rw some_here (omega (arith, blank, total-trim_from white (white (x ∷ s) - 1) s covers rest))
]

total-trim_space : (s : Str) → total solid (trim_space s) ≡ total solid s
unfolding trim_space
total-trim_space s =
    let front = trim_from white_prefix 0 s in
    total-reverse solid (trim_from white_suffix 0 (reverse front))
    ∙ total-trim_from white_suffix 0 (reverse front) white_suffix-Covers refl
    ∙ total-reverse solid front
    ∙ total-trim_from white_prefix 0 s white_prefix-Covers refl

not_empty : (s : Str) → 1 ≤ total solid s → is_empty s ≡ false
not_empty [] h = absurd (omega (arith, h))
not_empty (x ∷ s) h = refl

pub is_empty-trim_space : (s : Str) → 1 ≤ total solid s → is_empty (trim_space s) ≡ false
is_empty-trim_space s h = not_empty (trim_space s) (omega (arith, h, total-trim_space s))
