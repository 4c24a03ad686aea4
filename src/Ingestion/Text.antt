-- ===== src/Ingestion/Text.antt =====
-- The texts that internal/ingestion/jobs.go accepts: identifiers, diagnostic codes, digests, UUIDs.
pub mod Uuid
use Prim.Native.Nat.{bit_and, bit_or}
use manu.Base.{
  ℕ, zero, suc, ◌+◌, ◌/◌, ◌%◌, ◌-◌, Bool, true, not, ◌&&◌, ◌||◌, List, [], ◌∷◌, ◌++◌, Option, none,
  some, length, take, drop, all, leb, ◌==◌, if◌then◌else◌, Str, str_eq, is_empty, trim_space,
  has_control,
}
use manu.Ingestion.Result.{Result, ◌>>◌, guard, invalid_job}

abbrev pub max_job_identifier_length : ℕ
max_job_identifier_length = 256

abbrev pub max_diagnostic_code_length : ℕ
max_diagnostic_code_length = 64

abbrev pub max_diagnostic_message_length : ℕ
max_diagnostic_message_length = 512

unfoldable pub validate_identifier : Str → Result (Unit {0})
validate_identifier value = do
  guard (not (is_empty (trim_space value))) invalid_job
  guard (leb (length value) max_job_identifier_length && not (has_control value)) invalid_job

-- The loop reads runes and this reads bytes: a rune beyond ASCII is refused, and so is each of its
-- bytes.
abbrev code_byte : ℕ → Bool
code_byte r =
    leb b'a' r && leb r b'z' || leb b'0' r && leb r b'9' || r == b'_' || r == b'-' || r == b'.'

unfoldable pub valid_diagnostic_code : Str → Bool
valid_diagnostic_code value = not (is_empty value) && all code_byte value

abbrev lower_hex : ℕ → Bool
lower_hex c = leb b'0' c && leb c b'9' || leb b'a' c && leb c b'f'

abbrev pub hex_digit : ℕ → Bool
hex_digit c = lower_hex c || leb b'A' c && leb c b'F'

-- strings.ToLower on ASCII. It may change other texts too, and those no hexadecimal decoder accepts.
to_lower : Str → Str
to_lower [] = []
to_lower (c ∷ s) = (if leb b'A' c && leb c b'Z' then c + 32 else c) ∷ to_lower s

-- hex.DecodeString succeeds on an even number of digits of either case.
decodes_hex : Str → Bool
decodes_hex value = length value % 2 == 0 && all hex_digit value

unfoldable pub is_lower_sha256 : Str → Bool
unfolding to_lower decodes_hex
is_lower_sha256 value = length value == 64 && str_eq (to_lower value) value && decodes_hex value

-- What isUUID accepts at a position.
abbrev pub uuid_byte : ℕ → ℕ → Bool
uuid_byte index c =
    if index == 8 || index == 13 || index == 18 || index == 23 then c == b'-' else hex_digit c

-- The loop of isUUID from `index` on.
unfoldable pub uuid_from : ℕ → Str → Bool
uuid_from index [] = true
uuid_from index (c ∷ s) = uuid_byte index c && uuid_from (suc index) s

unfoldable pub is_uuid : Str → Bool
unfolding uuid_from
is_uuid value = length value == 36 && uuid_from 0 value

unfoldable pub hex_char : ℕ → ℕ
hex_char d = if leb d 9 then d + b'0' else d - 10 + b'a'

-- hex.EncodeToString
unfoldable pub encode_hex : List ℕ → Str
unfolding hex_char
encode_hex [] = []
encode_hex (v ∷ vs) = hex_char (v / 16) ∷ hex_char (v % 16) ∷ encode_hex vs

-- `value[i] = f(value[i])` inside the bounds.
unfoldable pub update_byte : ℕ → (ℕ → ℕ) → List ℕ → List ℕ
update_byte i f [] = []
update_byte zero f (v ∷ vs) = f v ∷ vs
update_byte (suc i) f (v ∷ vs) = v ∷ update_byte i f vs

-- The sixteen bytes that rand.Read delivers, or `none` where it fails.
unfoldable pub new_uuid : Option (List ℕ) → Option Str
unfolding encode_hex update_byte
new_uuid none = none
new_uuid (some value) =
    let marked =
      update_byte 8 (λ v. bit_or (bit_and v 0x3f) 0x80)
        (update_byte 6 (λ v. bit_or (bit_and v 0x0f) 0x40) value) in
    let encoded = encode_hex marked in
    some (
      take 8 encoded
      ++ b'-'
        ∷ (take 4 (drop 8 encoded)
            ++ b'-'
              ∷ (take 4 (drop 12 encoded)
                  ++ b'-' ∷ (take 4 (drop 16 encoded) ++ b'-' ∷ drop 20 encoded))))
