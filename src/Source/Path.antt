-- ===== src/Source/Path.antt =====
-- The paths of internal/source/path.go, and that a path which is accepted for a confined root goes down
-- from it.
use manu.Base.{
  ℕ, leb, ◌==◌, Bool, true, false, not, ◌&&◌, ◌||◌, Option, none, some, List, [], ◌∷◌, Str, str_eq,
  is_empty, bytes, if◌then◌else◌,
}
use manu.Source.Segments.{slash, dot, dots, cons_head, is_rooted, clean}

abbrev pub backslash : ℕ
backslash = 92

unfoldable pub has_byte : ℕ → Str → Bool
has_byte b [] = false
has_byte b (c ∷ s) = c == b || has_byte b s

abbrev is_letter : ℕ → Bool
is_letter c = leb 97 c && leb c 122 || leb 65 c && leb c 90

unfoldable pub has_drive_prefix : Str → Bool
has_drive_prefix (c ∷ d ∷ s) = is_letter c && d == 58
has_drive_prefix _ = false

-- The parts between slashes and backslashes. strings.FieldsFunc drops the empty ones, which no test
-- looks for.
unfoldable pub fields : Str → List Str
fields [] = [] ∷ []
fields (c ∷ s) = if c == slash || c == backslash then [] ∷ fields s else cons_head c (fields s)

abbrev pub any_dots : List Str → Bool
any_dots [] = false
any_dots (part ∷ parts) = str_eq part dots || any_dots parts

unfoldable pub has_parent_component : Str → Bool
unfolding fields
has_parent_component s = any_dots (fields s)

unfoldable pub has_prefix : Str → Str → Bool
has_prefix [] s = true
has_prefix (c ∷ prefix) [] = false
has_prefix (c ∷ prefix) (d ∷ s) = c == d && has_prefix prefix s

unfoldable pub is_parent_slash_path : Str → Bool
unfolding has_prefix
is_parent_slash_path s = str_eq s dots || has_prefix (bytes "../") s

-- `none` where the path is refused as a traversal.
unfoldable pub normalize_root_relative_path : Str → Option Str
unfolding has_byte has_drive_prefix has_parent_component is_parent_slash_path clean
normalize_root_relative_path s =
    if is_empty s || str_eq s dot
    then some dot
    else if has_byte 0 s
        || has_byte backslash s
        || is_rooted s
        || has_drive_prefix s
        || has_parent_component s
    then none
    else if str_eq (clean s) dot || is_parent_slash_path (clean s)
    then none
    else some (clean s)

-- A pattern is refused like a path that leaves the root.
unfoldable pub pattern_valid : Str → Bool
unfolding has_byte has_drive_prefix has_parent_component
pattern_valid s =
    not (has_byte 0 s || has_byte backslash s || has_drive_prefix s || is_rooted s)
    && not (has_parent_component s)

unfoldable pub validate_patterns : List Str → Bool
unfolding pattern_valid
validate_patterns [] = true
validate_patterns (pattern' ∷ rest) = pattern_valid pattern' && validate_patterns rest
