-- ===== src/Ingestion/Text/Uuid.antt =====
-- newUUID of internal/ingestion/jobs.go makes what isUUID accepts.
use Prim.Native.Nat.{bit_and, bit_or}
use native.Mathlib.Nat.{add-zero}
use mathlib.Core.Bool.{and_assoc}
use manu.Base.{
  sym, and→left, and→right, ℕ, zero, suc, ◌+◌, ◌*◌, ◌/◌, ◌%◌, ◌≤◌, ◌<◌, ◌≡◌, refl, ◌⊎◌, inl, inr,
  Bool, true, false, ◌&&◌, ◌||◌, List, [], ◌∷◌, ◌++◌, some, length, length-append, take, drop, all,
  All, length-take_le, length-drop, all-take, all-drop, ltb, ltb→lt, ◌==◌, Str, arith,
}
use manu.Ingestion.Text.{
  hex_digit, uuid_byte, uuid_from, is_uuid, hex_char, encode_hex, update_byte, new_uuid,
}

uuid_from-append :
    (i : ℕ) (s t : Str) → uuid_from i (s ++ t) ≡ (uuid_from i s && uuid_from (i + length s) t)
unfolding uuid_from
uuid_from-append i [] t = rw add-zero refl
uuid_from-append i (c ∷ s) t =
    let along : suc i + length s ≡ i + suc (length s) = omega arith in
    rw (uuid_from-append (suc i) s t, along)
      (sym (and_assoc (uuid_byte i c) (uuid_from (suc i) s) (uuid_from (i + suc (length s)) t)))

-- The positions from `i` on, `n` of them, hold no dash.
abbrev IsDashless : ℕ → ℕ → Type 0
IsDashless i n =
    (i + n ≤ 8)
    ⊎ ((9 ≤ i) × (i + n ≤ 13))
    ⊎ ((14 ≤ i) × (i + n ≤ 18))
    ⊎ ((19 ≤ i) × (i + n ≤ 23))
    ⊎ (24 ≤ i)

no_dash : (i n : ℕ) → IsDashless i (suc n) → (i == 8 || i == 13 || i == 18 || i == 23) ≡ false
no_dash i n (inl h) = ground arith
no_dash i n (inr (inl h)) = ground arith
no_dash i n (inr (inr (inl h))) = ground arith
no_dash i n (inr (inr (inr (inl h)))) = ground arith
no_dash i n (inr (inr (inr (inr h)))) = ground arith

IsDashless-suc : (i n : ℕ) → IsDashless i (suc n) → IsDashless (suc i) n
IsDashless-suc i n (inl h) = inl (omega arith)
IsDashless-suc i n (inr (inl h)) = inr (inl (omega arith))
IsDashless-suc i n (inr (inr (inl h))) = inr (inr (inl (omega arith)))
IsDashless-suc i n (inr (inr (inr (inl h)))) = inr (inr (inr (inl (omega arith))))
IsDashless-suc i n (inr (inr (inr (inr h)))) = inr (inr (inr (inr (omega arith))))

uuid_from-hex :
    (i : ℕ) (s : Str) → IsDashless i (length s) → all hex_digit s ≡ true → uuid_from i s ≡ true
unfolding uuid_from
uuid_from-hex i [] d h = refl
uuid_from-hex i (c ∷ s) d h =
    rw (no_dash i (length s) d, and→left (hex_digit c) _ h)
      (uuid_from-hex (suc i) s (IsDashless-suc i (length s) d) (and→right (hex_digit c) _ h))

hex_digit-hex_char : (d : ℕ) → d < 16 → hex_digit (hex_char d) ≡ true
unfolding hex_char
hex_digit-hex_char d h = ground arith

abbrev IsByte : ℕ → Type 0
IsByte v = v < 256

all-encode_hex : (vs : List ℕ) → All IsByte vs → all hex_digit (encode_hex vs) ≡ true
unfolding encode_hex
all-encode_hex [] h = refl
all-encode_hex (v ∷ vs) (fits, rest) =
    rw (hex_digit-hex_char (v / 16) (omega arith), hex_digit-hex_char (v % 16) (omega arith))
      (all-encode_hex vs rest)

length-encode_hex : (vs : List ℕ) → length (encode_hex vs) ≡ 2 * length vs
unfolding encode_hex
length-encode_hex [] = refl
length-encode_hex (v ∷ vs) = omega (arith, length-encode_hex vs)

length-update_byte : (i : ℕ) (f : ℕ → ℕ) (vs : List ℕ) → length (update_byte i f vs) ≡ length vs
unfolding update_byte
length-update_byte i f [] = refl
length-update_byte zero f (v ∷ vs) = refl
length-update_byte (suc i) f (v ∷ vs) = omega (arith, length-update_byte i f vs)

All-update_byte :
    (i : ℕ) (f : ℕ → ℕ) (vs : List ℕ)
    → ((v : ℕ) → IsByte v → IsByte (f v))
    → All IsByte vs
    → All IsByte (update_byte i f vs)
unfolding update_byte
All-update_byte i f [] keeps h = h
All-update_byte zero f (v ∷ vs) keeps h = (keeps v h.0, h.1)
All-update_byte (suc i) f (v ∷ vs) keeps h = (h.0, All-update_byte i f vs keeps h.1)

-- The tests of `test` at the `count` values from `first` on.
every_from : ℕ → ℕ → (ℕ → Bool) → Bool
every_from zero first test = true
every_from (suc count) first test = test first && every_from count (suc first) test

every_from-at :
    (count first v : ℕ) (test : ℕ → Bool)
    → every_from count first test ≡ true
    → first ≤ v
    → v < first + count
    → test v ≡ true
unfolding every_from
every_from-at zero first v test h from upto = absurd (omega arith)
every_from-at (suc count) first v test h from upto =
    ground (arith, every_from-at count (suc first) v test)

marked_table :
    every_from 256 0
      (λ v. ltb (bit_or (bit_and v 0x0f) 0x40) 256 && ltb (bit_or (bit_and v 0x3f) 0x80) 256)
    ≡ true
unfolding every_from
marked_table = refl

version-IsByte : (v : ℕ) → IsByte v → IsByte (bit_or (bit_and v 0x0f) 0x40)
version-IsByte v h =
    ltb→lt _ _ (and→left _ _ (every_from-at 256 0 v _ marked_table (omega arith) (omega arith)))

variant-IsByte : (v : ℕ) → IsByte v → IsByte (bit_or (bit_and v 0x3f) 0x80)
variant-IsByte v h =
    ltb→lt _ _ (and→right _ _ (every_from-at 256 0 v _ marked_table (omega arith) (omega arith)))

-- A group of `n` digits, and a dash where one is due, before what follows.
digits_then :
    (i n : ℕ) (s t : Str)
    → length s ≡ n
    → IsDashless i n
    → all hex_digit s ≡ true
    → uuid_from (i + n) t ≡ true
    → uuid_from i (s ++ t) ≡ true
digits_then i n s t long d h rest =
    rw (uuid_from-append i s t, uuid_from-hex i s (rw long d) h, long) rest

dash_then :
    (i : ℕ) (t : Str)
    → uuid_byte i b'-' ≡ true
    → uuid_from (suc i) t ≡ true
    → uuid_from i (b'-' ∷ t) ≡ true
unfolding uuid_from
dash_then i t due rest = rw due rest

abbrev dashed : Str → Str
dashed e =
    take 8 e
    ++ b'-'
      ∷ (take 4 (drop 8 e)
          ++ b'-' ∷ (take 4 (drop 12 e) ++ b'-' ∷ (take 4 (drop 16 e) ++ b'-' ∷ drop 20 e)))

module _ (e : Str) (long : length e ≡ 32) (hex : all hex_digit e ≡ true) where
  four : (n : ℕ) → n ≤ 28 → length (take 4 (drop n e)) ≡ 4
  four n h = length-take_le 4 (drop n e) (omega (arith, length-drop n e))

  hex_four : (n : ℕ) → all hex_digit (take 4 (drop n e)) ≡ true
  hex_four n = all-take hex_digit 4 (drop n e) (all-drop hex_digit n e hex)

  last_twelve : length (drop 20 e) ≡ 12
  last_twelve = omega (arith, length-drop 20 e)

  uuid_from-dashed : uuid_from 0 (dashed e) ≡ true
  uuid_from-dashed =
      digits_then 0 8 (take 8 e) _ (length-take_le 8 e (omega arith)) (inl (omega arith))
        (all-take hex_digit 8 e hex)
        (dash_then 8 _ refl (
          digits_then 9 4 (take 4 (drop 8 e)) _ (four 8 (omega arith)) (inr (inl (omega arith)))
            (hex_four 8)
            (dash_then 13 _ refl (
              digits_then 14 4 (take 4 (drop 12 e)) _ (four 12 (omega arith))
                (inr (inr (inl (omega arith)))) (hex_four 12)
                (dash_then 18 _ refl (
                  digits_then 19 4 (take 4 (drop 16 e)) _ (four 16 (omega arith))
                    (inr (inr (inr (inl (omega arith))))) (hex_four 16)
                    (dash_then 23 _ refl (
                      uuid_from-hex 24 (drop 20 e) (inr (inr (inr (inr (omega arith)))))
                        (all-drop hex_digit 20 e hex)))))))))

  length-dashed : length (dashed e) ≡ 36
  length-dashed = omega (
    arith,
    length-append {0},
    length-take_le 8 e (omega arith),
    four 8 (omega arith),
    four 12 (omega arith),
    four 16 (omega arith),
    last_twelve,
  )

-- Whatever sixteen bytes the random source delivers, newUUID makes a text that isUUID accepts.
pub is_uuid-new_uuid :
    (value : List ℕ)
    → length value ≡ 16
    → All IsByte value
    → (id : Str) × (new_uuid (some value) ≡ some id) × (is_uuid id ≡ true)
unfolding new_uuid is_uuid
is_uuid-new_uuid value sixteen fits =
    let version = λ (v : ℕ). bit_or (bit_and v 0x0f) 0x40 in
    let variant = λ (v : ℕ). bit_or (bit_and v 0x3f) 0x80 in
    let first = update_byte 6 version value in
    let marked = update_byte 8 variant first in
    let hex = all-encode_hex marked (
      All-update_byte 8 variant first variant-IsByte
        (All-update_byte 6 version value version-IsByte fits)) in
    let long : length (encode_hex marked) ≡ 32 = omega (
      arith,
      length-encode_hex marked,
      length-update_byte 8 variant first,
      length-update_byte 6 version value,
    ) in
    (
      dashed (encode_hex marked),
      refl,
      rw (length-dashed (encode_hex marked) long hex)
          (uuid_from-dashed (encode_hex marked) long hex),
    )
