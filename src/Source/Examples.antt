-- ===== src/Source/Examples.antt =====
-- A path below the root and a pattern that covers it.
use manu.Base.{◌≡◌, refl, ◌↔◌, true, some, ◌⊎◌, All, Str, bytes, str_eq}
use manu.Source.Segments.{dot, split, join, clean, clean_parts}
use manu.Source.Path.{
  has_byte, has_drive_prefix, fields, has_parent_component, is_parent_slash_path, has_prefix,
  normalize_root_relative_path,
}
use manu.Source.Confinement.{IsName, normalize_root_relative_path-IsName}
use manu.Source.Glob.{split_slash, match_slash_glob}
use manu.Source.Patterns.{Covers, match_slash_glob_iff}

abbrev given : Str
given = bytes "src/./main//app.go"

normalizes : normalize_root_relative_path given ≡ some (bytes "src/main/app.go")
unfolding normalize_root_relative_path clean split join clean_parts has_byte has_drive_prefix
    has_parent_component fields is_parent_slash_path has_prefix str_eq
normalizes = refl

normalize_root_relative_path-IsName_example :
    (bytes "src/main/app.go" ≡ dot) ⊎ All IsName (split (bytes "src/main/app.go"))
normalize_root_relative_path-IsName_example =
    normalize_root_relative_path-IsName given (bytes "src/main/app.go") normalizes

match_slash_glob_iff_example :
    (match_slash_glob (bytes "**/*.go") (bytes "src/main/app.go") ≡ true)
    ↔ Covers (split_slash (bytes "**/*.go")) (split_slash (bytes "src/main/app.go"))
match_slash_glob_iff_example = match_slash_glob_iff (bytes "**/*.go") (bytes "src/main/app.go")
