-- ===== src/Base/Text.antt =====
-- Go strings as lists of bytes, and what the code uses of package strings.
pub mod Trim
use Prim.Native.Char.{code}
use Prim.Native.Nat.{ℕ, zero, suc, ◌-◌}
use Prim.Native.String.{String}
use mathlib.Core.Path.{◌≡◌, refl}
use mathlib.Core.Logic.{◌↔◌}
use mathlib.Core.Bool.{Bool, true, false, ◌&&◌, ◌||◌}
use mathlib.Core.List.{List, [], ◌∷◌, reverse}
use native.Mathlib.Omega.{arith}
use manu.Base.Tests.{ltb, leb, ◌==◌, if◌then◌else◌}

abbrev pub Str : Type 0
Str = List ℕ

-- The bytes of an ASCII literal.
abbrev pub bytes : String → Str
bytes (String.◌∷◌ letter rest) = code letter ∷ bytes rest
bytes String.[] = []

unfoldable pub str_eq : Str → Str → Bool
str_eq [] [] = true
str_eq (x ∷ xs) (y ∷ ys) = x == y && str_eq xs ys
str_eq _ _ = false

-- Go's `<` on strings: lexicographic on bytes.
unfoldable pub str_lt : Str → Str → Bool
str_lt [] [] = false
str_lt [] (y ∷ ys) = true
str_lt (x ∷ xs) [] = false
str_lt (x ∷ xs) (y ∷ ys) = if ltb x y then true else if ltb y x then false else str_lt xs ys

abbrev pub is_empty : Str → Bool
is_empty [] = true
is_empty (x ∷ xs) = false

pub str_eq_iff : (s t : Str) → (str_eq s t ≡ true) ↔ (s ≡ t)
unfolding str_eq
str_eq_iff [] [] = ground arith
str_eq_iff [] (y ∷ t) = ground arith
str_eq_iff (x ∷ s) [] = ground arith
str_eq_iff (x ∷ s) (y ∷ t) = ground (arith, str_eq_iff s t)

pub str_eq_refl : (s : Str) → str_eq s s ≡ true
str_eq_refl s = (str_eq_iff s s).1 refl

-- unicode.IsSpace on a rune of one, two and three bytes of UTF-8; no longer rune is white space.
abbrev pub white1 : ℕ → Bool
white1 a = leb 9 a && leb a 13 || a == 32

abbrev white2 : ℕ → ℕ → Bool
white2 a b = a == 0xC2 && (b == 0x85 || b == 0xA0)

abbrev white3 : ℕ → ℕ → ℕ → Bool
white3 a b c =
    a == 0xE1 && b == 0x9A && c == 0x80
    || a == 0xE2 && b == 0x80 && (leb 0x80 c && leb c 0x8A || c == 0xA8 || c == 0xA9 || c == 0xAF)
    || a == 0xE2 && b == 0x81 && c == 0x9F
    || a == 0xE3 && b == 0x80 && c == 0x80

-- How many bytes of white space a text begins with: those of its first rune, or 0.
pub white_prefix : Str → ℕ
white_prefix (a ∷ b ∷ c ∷ r) =
    if white1 a then 1 else if white2 a b then 2 else if white3 a b c then 3 else 0
white_prefix (a ∷ b ∷ []) = if white1 a then 1 else if white2 a b then 2 else 0
white_prefix (a ∷ []) = if white1 a then 1 else 0
white_prefix [] = 0

-- The same for the last rune, on the reversed text.
pub white_suffix : Str → ℕ
white_suffix (c ∷ b ∷ a ∷ r) =
    if white1 c then 1 else if white2 b c then 2 else if white3 a b c then 3 else 0
white_suffix (c ∷ b ∷ []) = if white1 c then 1 else if white2 b c then 2 else 0
white_suffix (c ∷ []) = if white1 c then 1 else 0
white_suffix [] = 0

-- Drops `skip` bytes, then white space as `white` measures it.
pub trim_from : (Str → ℕ) → ℕ → Str → Str
trim_from white skip [] = []
trim_from white (suc k) (x ∷ xs) = trim_from white k xs
trim_from white zero (x ∷ xs) =
    if white (x ∷ xs) == 0 then x ∷ xs else trim_from white (white (x ∷ xs) - 1) xs

unfoldable pub trim_space : Str → Str
unfolding white_prefix white_suffix trim_from
trim_space s = reverse (trim_from white_suffix 0 (reverse (trim_from white_prefix 0 s)))

-- strings.ContainsAny(s, "\x00\r\n")
unfoldable pub has_control : Str → Bool
has_control [] = false
has_control (x ∷ xs) = x == 0 || x == 13 || x == 10 || has_control xs

trim_test : trim_space (bytes " a b  ") ≡ bytes "a b"
unfolding trim_space
trim_test = refl
