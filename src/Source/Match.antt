-- ===== src/Source/Match.antt =====
-- path.Match of the standard library on a segment of a path, as internal/source/path.go calls it.
use mathlib.Core.Bool.{xor}
use manu.Base.{
  ◌≡◌, refl, ℕ, zero, suc, ◌+◌, ◌-◌, ◌*◌, leb, ltb, ◌==◌, Bool, true, false, not, ◌&&◌, ◌||◌,
  Option, none, some, List, [], ◌∷◌, length, drop, Str, str_eq, is_empty, bytes, if◌then◌else◌,
}

-- What one or more elements of a segment pattern ask of the rune that stands there.
pub data Element : Type 0 where
  any_run any_rune : Element
  byte_of : ℕ → Element
  one_of : Bool → List (ℕ × ℕ) → Element

-- A rune and how many bytes it takes; a byte that begins none is U+FFFD.
pub record Rune : Type 0 where
  pub value : ℕ
  pub width : ℕ

abbrev between : ℕ → ℕ → ℕ → Bool
between low high b = leb low b && leb b high

abbrev bad_byte : Rune
bad_byte = record { value = 65533; width = 1 }

two_bytes : ℕ → ℕ → Rune
two_bytes a b =
    if between 194 223 a && between 128 191 b
    then record { value = (a - 192) * 64 + (b - 128); width = 2 }
    else bad_byte

three_bytes : ℕ → ℕ → ℕ → Rune
unfolding two_bytes
three_bytes a b c =
    if between 224 239 a
      && between (if a == 224 then 160 else 128) (if a == 237 then 159 else 191) b
      && between 128 191 c
    then record { value = (a - 224) * 4096 + (b - 128) * 64 + (c - 128); width = 3 }
    else two_bytes a b

four_bytes : ℕ → ℕ → ℕ → ℕ → Rune
unfolding three_bytes
four_bytes a b c d =
    if between 240 244 a
      && between (if a == 240 then 144 else 128) (if a == 244 then 143 else 191) b
      && between 128 191 c
      && between 128 191 d
    then record {
      value = (a - 240) * 262144 + (b - 128) * 4096 + (c - 128) * 64 + (d - 128);
      width = 4;
    }
    else three_bytes a b c

-- utf8.DecodeRuneInString, on a text that is not empty.
unfoldable pub decode_rune : Str → Rune
unfolding four_bytes three_bytes two_bytes
decode_rune [] = bad_byte
decode_rune (a ∷ s) = if ltb a 128 then record { value = a; width = 1 } else elim s [
  | [] ↦ bad_byte
  | b ∷ [] ↦ two_bytes a b
  | b ∷ c ∷ [] ↦ three_bytes a b c
  | b ∷ c ∷ d ∷ r ↦ four_bytes a b c d
]

abbrev is_bad : Rune → Bool
is_bad r = r.value == 65533 && r.width == 1

-- A rune of a class, after the backslash that may quote it, and what is left; `none` for a pattern
-- that is malformed.
quoted_rune : Str → Option (ℕ × Str)
unfolding decode_rune
quoted_rune [] = none
quoted_rune s =
    let r = decode_rune s in
    let rest = drop r.width s in if is_bad r || is_empty rest then none else some (r.value, rest)

class_rune : Str → Option (ℕ × Str)
unfolding quoted_rune
class_rune [] = none
class_rune (c ∷ s) =
    if c == 45 || c == 93 then none else if c == 92 then quoted_rune s else quoted_rune (c ∷ s)

abbrev range_end : ℕ → Str → Option (ℕ × Str)
range_end low [] = some (low, [])
range_end low (c ∷ s) = if c == 45 then class_rune s else some (low, c ∷ s)

-- The ranges of a class up to its bracket, on fuel; each takes a byte at least.
class_ranges : ℕ → List (ℕ × ℕ) → Str → Option (List (ℕ × ℕ) × Str)
class_ranges zero ranges s = none
class_ranges (suc fuel) ranges [] = none
class_ranges (suc fuel) ranges (c ∷ s) =
    if c == 93 && ltb 0 (length ranges) then some (ranges, s) else elim (class_rune (c ∷ s)) [
      | none ↦ none
      | some (low, rest) ↦ elim (range_end low rest) [
        | none ↦ none
        | some (high, after) ↦ class_ranges fuel ((low, high) ∷ ranges) after
      ]
    ]

abbrev class_of : Bool → Option (List (ℕ × ℕ) × Str) → Option (Element × Str)
class_of negated none = none
class_of negated (some (ranges, rest)) = some (one_of negated ranges, rest)

-- A class, after its bracket, and what is left of the pattern.
class_element : Str → Option (Element × Str)
unfolding class_ranges
class_element [] = none
class_element (d ∷ rest) =
    if d == 94
    then class_of true (class_ranges (length rest) [] rest)
    else class_of false (class_ranges (suc (length rest)) [] (d ∷ rest))

-- The first element of a pattern and what is left of it.
next_element : ℕ → Str → Option (Element × Str)
unfolding class_element
next_element c s =
    if c == 42
    then some (any_run, s)
    else if c == 63
    then some (any_rune, s)
    else if c == 92
    then elim s [ [] ↦ none | d ∷ rest ↦ some (byte_of d, rest) ]
    else if c == 91
    then class_element s
    else some (byte_of c, s)

elements : ℕ → Str → Option (List Element)
unfolding next_element
elements zero s = none
elements (suc fuel) [] = some []
elements (suc fuel) (c ∷ s) = elim (next_element c s) [
  | none ↦ none
  | some (element, rest) ↦ elim (elements fuel rest) [
    | none ↦ none
    | some more ↦ some (element ∷ more)
  ]
]

-- Whether what is left of a list, or what is left after some of it, passes a test.
unfoldable pub at_some_end {ℓ} : {A : Type ℓ} → (List A → Bool) → List A → Bool
at_some_end test [] = test []
at_some_end test (x ∷ xs) = test (x ∷ xs) || at_some_end test xs

in_ranges : List (ℕ × ℕ) → ℕ → Bool
in_ranges [] r = false
in_ranges ((low, high) ∷ ranges) r = between low high r || in_ranges ranges r

-- matchChunk: what is left of the text after elements without a star, if they match.
match_chunk : List Element → Str → Option Str
unfolding in_ranges decode_rune xor
match_chunk [] s = some s
match_chunk (any_run ∷ es) s = none
match_chunk (byte_of b ∷ es) [] = none
match_chunk (byte_of b ∷ es) (c ∷ s) = let rest = match_chunk es s in if b == c then rest else none
match_chunk (any_rune ∷ es) s =
    let rest = match_chunk es (drop (decode_rune s).width s) in if is_empty s then none else rest
match_chunk (one_of negated ranges ∷ es) s =
    let rest = match_chunk es (drop (decode_rune s).width s) in
    if not (is_empty s) && xor negated (in_ranges ranges (decode_rune s).value) then rest else none

-- The elements up to the first star, and those after each star up to the next.
chunks : List Element → List Element × List (List Element)
chunks [] = ([], [])
chunks (e ∷ es) =
    let (chunk, more) = chunks es in
    elim e [
      | any_run ↦ ([], chunk ∷ more)
      | any_rune ↦ (any_rune ∷ chunk, more)
      | byte_of b ↦ (byte_of b ∷ chunk, more)
      | one_of negated ranges ↦ (one_of negated ranges ∷ chunk, more)
    ]

-- The last chunk has to use up the text.
abbrev accepted : Bool → Option Str → Option Str
accepted is_last none = none
accepted is_last (some rest) = if is_last && not (is_empty rest) then none else some rest

-- After a star: at the first byte where the chunk matches.
leftmost : Bool → List Element → Str → Option Str
unfolding match_chunk
leftmost is_last chunk [] = accepted is_last (match_chunk chunk [])
leftmost is_last chunk (c ∷ s) =
    let later = leftmost is_last chunk s in
    elim (accepted is_last (match_chunk chunk (c ∷ s))) [ none ↦ later | some rest ↦ some rest ]

abbrev is_nil {ℓ} : {A : Type ℓ} → List A → Bool
is_nil [] = true
is_nil (x ∷ xs) = false

-- A chunk that has matched after a star stays where it is: no other place is tried for it.
match_chunks : List (List Element) → Str → Bool
unfolding leftmost
match_chunks [] s = is_empty s
match_chunks (chunk ∷ more) s = elim (leftmost (is_nil more) chunk s) [
  | none ↦ false
  | some rest ↦ match_chunks more rest
]

match_elements : List Element → Str → Bool
unfolding match_chunk chunks match_chunks
match_elements es s =
    let (chunk, more) = chunks es in
    elim (accepted (is_nil more) (match_chunk chunk s)) [
      | none ↦ false
      | some rest ↦ match_chunks more rest
    ]

-- path.Match on a segment, which holds no slash: that there is no error and the segment matches.
unfoldable pub match_segment : Str → Str → Bool
unfolding elements match_elements next_element class_element class_ranges class_rune quoted_rune
    in_ranges xor
match_segment pattern' segment = elim (elements (suc (length pattern')) pattern') [
  | none ↦ false
  | some es ↦ match_elements es segment
]

segment_test : match_segment (bytes "*se[a-d]r?t*") (bytes "my_secret.txt") ≡ true
unfolding match_segment str_eq
segment_test = refl

-- The first `?` matches the rune at the start and stays there, so nothing is left for the second: the
-- bytes within a rune are not tried as runes of their own.
rune_test : match_segment (bytes "*?*?") (0xE2 ∷ 0x82 ∷ 0xAC ∷ []) ≡ false
unfolding match_segment
rune_test = refl

stars_test : match_segment (bytes "a*b?c**") (bytes "axbbycbdcz") ≡ true
unfolding match_segment
stars_test = refl
