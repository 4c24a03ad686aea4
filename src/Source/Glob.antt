-- ===== src/Source/Glob.antt =====
-- matchSlashGlob of internal/source/path.go and the tests of a path that are made with it.
use manu.Base.{
  ◌≡◌, refl, Bool, true, false, not, ◌&&◌, ◌||◌, Option, none, some, List, [], ◌∷◌, Str, str_eq,
  is_empty, bytes, trim_space, if◌then◌else◌,
}
use manu.Source.Segments.{dot, split, trim_slashes, base, clean}
use manu.Source.Path.{is_parent_slash_path}
use manu.Source.Match.{at_some_end, match_segment}

abbrev pub double_star : Str
double_star = bytes "**"

-- splitSlash
unfoldable pub split_slash : Str → List Str
unfolding trim_slashes split
split_slash s = let value = trim_slashes s in if is_empty value then [] else split value

abbrev pub no_parts : List Str → Bool
no_parts [] = true
no_parts (part ∷ parts) = false

-- The function `match` inside matchSlashGlob, from two positions on.
unfoldable pub match_parts : List Str → List Str → Bool
unfolding at_some_end match_segment
match_parts [] values = no_parts values
match_parts (p ∷ ps) values =
    let rest = match_parts ps in
    if str_eq p double_star
    then at_some_end rest values
    else elim values [ [] ↦ false | v ∷ vs ↦ match_segment p v && rest vs ]

unfoldable pub match_slash_glob : Str → Str → Bool
unfolding split_slash match_parts
match_slash_glob pattern' value = match_parts (split_slash pattern') (split_slash value)

glob_test : match_slash_glob (bytes "**/*.pem") (bytes "a/b/key.pem") ≡ true
unfolding match_slash_glob str_eq
glob_test = refl

-- A pattern matches a path or its base name.
unfoldable pub matches_path : Str → Str → Bool
unfolding match_slash_glob base
matches_path pattern' path = match_slash_glob pattern' path || match_slash_glob pattern' (base path)

unfoldable pub first_match : Str → List Str → Option Str
unfolding matches_path
first_match path [] = none
first_match path (p ∷ rest) = if matches_path p path then some p else first_match path rest

abbrev or_empty : Option Str → Str
or_empty none = []
or_empty (some p) = p

-- The empty text where no pattern excludes the path.
unfoldable pub exclude_pattern : Str → List Str → Str
unfolding first_match
exclude_pattern path excludes = or_empty (first_match path excludes)

abbrev is_some : Option Str → Bool
is_some none = false
is_some (some p) = true

unfoldable pub include_path : Str → List Str → Bool
unfolding first_match
include_path path includes = no_parts includes || is_some (first_match path includes)

-- defaultSensitivePatterns
abbrev pub default_sensitive_patterns : List Str
default_sensitive_patterns =
    bytes ".env"
    ∷ bytes ".env.*"
    ∷ bytes "**/.env"
    ∷ bytes "**/.env.*"
    ∷ bytes "*.pem"
    ∷ bytes "**/*.pem"
    ∷ bytes "*.key"
    ∷ bytes "**/*.key"
    ∷ bytes "*.p12"
    ∷ bytes "**/*.p12"
    ∷ bytes "*.pfx"
    ∷ bytes "**/*.pfx"
    ∷ bytes "id_rsa"
    ∷ bytes "id_dsa"
    ∷ bytes "id_ecdsa"
    ∷ bytes "id_ed25519"
    ∷ bytes "**/id_rsa"
    ∷ bytes "**/id_dsa"
    ∷ bytes "**/id_ecdsa"
    ∷ bytes "**/id_ed25519"
    ∷ bytes "**/secrets.*"
    ∷ bytes "**/*secret*"
    ∷ bytes "**/*password*"
    ∷ bytes "**/*credential*"
    ∷ bytes "**/*token*"
    ∷ []

-- The loop of IsSensitivePath: a pattern is trimmed, and an empty one is skipped.
unfoldable pub first_sensitive : Str → List Str → Option Str
unfolding matches_path
first_sensitive path [] = none
first_sensitive path (p ∷ rest) =
    let pattern' = trim_space p in
    if not (is_empty pattern') && matches_path pattern' path
    then some pattern'
    else first_sensitive path rest

-- The pattern that makes a path sensitive.
unfoldable pub sensitive_pattern : Str → List Str → Option Str
unfolding clean is_parent_slash_path first_sensitive
sensitive_pattern s patterns =
    let path = clean s in
    if str_eq path dot || is_parent_slash_path path
    then none
    else first_sensitive path (if no_parts patterns then default_sensitive_patterns else patterns)

sensitive_test : sensitive_pattern (bytes "conf/./.env") [] ≡ some (bytes ".env")
unfolding sensitive_pattern str_eq trim_space
sensitive_test = refl
