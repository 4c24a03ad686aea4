-- ===== src/Source/Patterns.antt =====
-- What it means that a pattern of segments matches a path, and that matchSlashGlob decides it.
use manu.Base.{
  ◌≡◌, refl, sym, subst, ◌↔◌, Bool, true, false, ◌&&◌, Bool-cases, List, [], ◌∷◌, inl, inr, Str,
  str_eq, str_eq_iff, str_eq_refl, ◌∙◌, arith, and→left, and→right,
}
use manu.Source.Match.{at_some_end, match_segment}
use manu.Source.Glob.{double_star, split_slash, match_parts, match_slash_glob}

-- A double star stands for any number of segments, none included; any other segment of the pattern for
-- one segment, by path.Match.
pub data Covers : List Str → List Str → Type 0 where
  both_ended : Covers [] []
  no_more : {ps vs : List Str} → Covers ps vs → Covers (double_star ∷ ps) vs
  one_more :
      {ps vs : List Str} {v : Str}
      → Covers (double_star ∷ ps) vs
      → Covers (double_star ∷ ps) (v ∷ vs)
  segment :
      {ps vs : List Str} {p v : Str}
      → str_eq p double_star ≡ false
      → match_segment p v ≡ true
      → Covers ps vs
      → Covers (p ∷ ps) (v ∷ vs)

star_sound :
    (ps vs : List Str)
    → ((ws : List Str) → match_parts ps ws ≡ true → Covers ps ws)
    → at_some_end (match_parts ps) vs ≡ true
    → Covers (double_star ∷ ps) vs
unfolding at_some_end
star_sound ps [] sound h = no_more (sound [] h)
star_sound ps (v ∷ vs) sound h = elim (Bool-cases (match_parts ps (v ∷ vs))) [
  | inl here ↦ no_more (sound (v ∷ vs) here)
  | inr later ↦ one_more (star_sound ps vs sound (rw later at h))
]

-- What a segment of the pattern that is not a double star asks.
abbrev plain_step : Str → (List Str → Bool) → List Str → Bool
plain_step p rest [] = false
plain_step p rest (v ∷ vs) = match_segment p v && rest vs

plain_sound :
    (p : Str) (ps vs : List Str)
    → str_eq p double_star ≡ false
    → ((ws : List Str) → match_parts ps ws ≡ true → Covers ps ws)
    → plain_step p (match_parts ps) vs ≡ true
    → Covers (p ∷ ps) vs
plain_sound p ps [] plain sound h = absurd (ground (arith, h))
plain_sound p ps (v ∷ vs) plain sound h =
    segment plain (and→left _ _ h) (sound vs (and→right _ _ h))

match_parts-Covers : (ps vs : List Str) → match_parts ps vs ≡ true → Covers ps vs
unfolding match_parts
match_parts-Covers [] [] h = both_ended
match_parts-Covers [] (v ∷ vs) h = absurd (ground (arith, h))
match_parts-Covers (p ∷ ps) vs h = elim (Bool-cases (str_eq p double_star)) [
  | inl star ↦
      subst (λ q. Covers (q ∷ ps) vs) (sym ((str_eq_iff p double_star).0 star))
        (star_sound ps vs (match_parts-Covers ps) (rw star at h))
  | inr plain ↦ plain_sound p ps vs plain (match_parts-Covers ps) (rw plain at h)
]

some_end-here :
    (test : List Str → Bool) (vs : List Str) → test vs ≡ true → at_some_end test vs ≡ true
unfolding at_some_end
some_end-here test [] h = h
some_end-here test (v ∷ vs) h = rw h refl

some_end-later :
    (test : List Str → Bool) (v : Str) (vs : List Str)
    → at_some_end test vs ≡ true
    → at_some_end test (v ∷ vs) ≡ true
unfolding at_some_end
some_end-later test v vs h = ground (arith, h)

match_parts-star :
    (ps vs : List Str) → match_parts (double_star ∷ ps) vs ≡ at_some_end (match_parts ps) vs
unfolding match_parts
match_parts-star ps vs = rw (str_eq_refl double_star) refl

Covers-match_parts : {ps vs : List Str} → Covers ps vs → match_parts ps vs ≡ true
unfolding match_parts
Covers-match_parts both_ended = refl
Covers-match_parts (no_more {ps} {vs} d) =
    match_parts-star ps vs ∙ some_end-here (match_parts ps) vs (Covers-match_parts d)
Covers-match_parts (one_more {ps} {vs} {v} d) =
    match_parts-star ps (v ∷ vs)
    ∙ some_end-later (match_parts ps) v vs (sym (match_parts-star ps vs) ∙ Covers-match_parts d)
Covers-match_parts (segment plain matches d) = rw (plain, matches) (Covers-match_parts d)

-- A pattern matches a value exactly where its segments cover those of the value: a double star any number
-- of them, none included, and any other segment one of them, as path.Match says.
pub match_slash_glob_iff :
    (pattern' value : Str)
    → (match_slash_glob pattern' value ≡ true) ↔ Covers (split_slash pattern') (split_slash value)
unfolding match_slash_glob
match_slash_glob_iff pattern' value =
    (match_parts-Covers (split_slash pattern') (split_slash value), Covers-match_parts)
