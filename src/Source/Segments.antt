-- ===== src/Source/Segments.antt =====
-- What internal/source/path.go uses of the packages strings, path and unicode/utf8, on a system whose
-- separator is the slash: Split, Trim, Base, Clean and the decoding of a rune.
use manu.Base.{
  ◌≡◌, refl, ℕ, ◌==◌, Bool, true, false, ◌||◌, List, [], ◌∷◌, ◌++◌, reverse, Str, str_eq, is_empty,
  bytes, if◌then◌else◌,
}

abbrev pub slash : ℕ
slash = 47

abbrev pub dot : Str
dot = bytes "."

abbrev pub dots : Str
dots = bytes ".."

abbrev pub cons_head : ℕ → List Str → List Str
cons_head c [] = (c ∷ []) ∷ []
cons_head c (part ∷ parts) = (c ∷ part) ∷ parts

-- strings.Split(s, "/")
unfoldable pub split : Str → List Str
split [] = [] ∷ []
split (c ∷ s) = if c == slash then [] ∷ split s else cons_head c (split s)

-- strings.Join(parts, "/")
unfoldable pub join : List Str → Str
join [] = []
join (part ∷ []) = part
join (part ∷ next ∷ parts) = part ++ slash ∷ join (next ∷ parts)

trim_left : Str → Str
trim_left [] = []
trim_left (c ∷ s) = if c == slash then trim_left s else c ∷ s

-- strings.Trim(s, "/")
unfoldable pub trim_slashes : Str → Str
unfolding trim_left
trim_slashes s = reverse (trim_left (reverse (trim_left s)))

abbrev last_of : Str → List Str → Str
last_of part [] = part
last_of part (next ∷ parts) = last_of next parts

abbrev last_part : List Str → Str
last_part [] = []
last_part (part ∷ parts) = last_of part parts

-- path.Base
unfoldable pub base : Str → Str
unfolding split trim_left
base s =
    if is_empty s
    then dot
    else let stripped = reverse (trim_left (reverse s)) in
      if is_empty stripped then slash ∷ [] else last_part (split stripped)

abbrev pub is_rooted : Str → Bool
is_rooted [] = false
is_rooted (c ∷ s) = c == slash

-- The parts that path.Clean keeps, the last first: an empty part and a dot are dropped, and two dots take
-- back the part before them, where there is one.
unfoldable pub step_back : Bool → List Str → List Str
step_back true [] = []
step_back false [] = dots ∷ []
step_back rooted (part ∷ kept) = if str_eq part dots then dots ∷ part ∷ kept else kept

unfoldable pub clean_parts : Bool → List Str → List Str → List Str
unfolding step_back
clean_parts rooted kept [] = kept
clean_parts rooted kept (part ∷ parts) =
    if is_empty part || str_eq part dot
    then clean_parts rooted kept parts
    else clean_parts rooted (if str_eq part dots then step_back rooted kept else part ∷ kept) parts

abbrev pub clean_text : Bool → List Str → Str
clean_text true parts = slash ∷ join parts
clean_text false [] = dot
clean_text false (part ∷ parts) = join (part ∷ parts)

-- path.Clean
unfoldable pub clean : Str → Str
unfolding split clean_parts join
clean s = clean_text (is_rooted s) (reverse (clean_parts (is_rooted s) [] (split s)))

clean_test : clean (bytes "a/./b//../c") ≡ bytes "a/c"
unfolding clean str_eq
clean_test = refl

base_test : base (bytes "a/b//") ≡ bytes "b"
unfolding base
base_test = refl
