-- ===== src/Query/Selection/Flagged.antt =====
-- The candidates that the loop of SelectContext has flagged as included, and sums over them.
use manu.Base.{
  ◌≡◌, refl, sym, ◌∙◌, ap, subst, ℕ, zero, suc, ◌+◌, ◌≤◌, true, false, Bool-cases, List, [], ◌∷◌,
  Str, inl, inr, All, if◌then◌else◌, arith, total, occurrences,
}
use manu.Query.Context.{mem_str}
use manu.Query.Candidate.{ContextSelectionCandidate, costs_or_none}
use manu.Query.Greedy.{Prepared, Best, Selecting, fits_selection_budget, mark, take_best}
use manu.Query.Selection.Pass.{IsKept, Kept, At}

pub mem_str-occurrences :
    (id : Str) (l : List Str) → mem_str id l ≡ false → occurrences (λ s. s) id l ≡ 0
mem_str-occurrences id [] h = refl
mem_str-occurrences id (x ∷ l) h = ground (arith, mem_str-occurrences id l)

pub occurrences-mem_str :
    (id : Str) (l : List Str) → occurrences (λ s. s) id l ≡ 0 → mem_str id l ≡ false
occurrences-mem_str id [] h = refl
occurrences-mem_str id (x ∷ l) h = ground (arith, occurrences-mem_str id l)

pub mem_str-counted :
    (id : Str) (l : List Str) → mem_str id l ≡ true → 1 ≤ occurrences (λ s. s) id l
mem_str-counted id [] h = absurd (ground arith)
mem_str-counted id (x ∷ l) h = ground (arith, mem_str-counted id l)

pub counted-mem_str :
    (id : Str) (l : List Str) → 1 ≤ occurrences (λ s. s) id l → mem_str id l ≡ true
counted-mem_str id l h = elim (Bool-cases (mem_str id l)) [
  | inl found ↦ found
  | inr missing ↦ absurd (omega (arith, h, mem_str-occurrences id l missing))
]

module _ {W : Type 0} where
  abbrev pub each : (ContextSelectionCandidate W → ℕ) → List (Prepared W) → ℕ
  each m = total (λ p. m p.candidate)

  abbrev pub flag_part : (ContextSelectionCandidate W → ℕ) → Prepared W → ℕ
  flag_part m p = if p.is_included then m p.candidate else 0

  -- The same sum, over those whose flag is set.
  abbrev pub flagged : (ContextSelectionCandidate W → ℕ) → List (Prepared W) → ℕ
  flagged m = total (flag_part m)

  -- The costs that stand in an entry are its candidate's.
  pub record IsPriced (p : Prepared W) : Type 0 where
    pub tokens : p.tokens ≡ (costs_or_none p.candidate).tokens
    pub characters : p.characters ≡ (costs_or_none p.candidate).characters
    pub bytes : p.bytes ≡ (costs_or_none p.candidate).bytes

  pub Kept-each :
      (m : ContextSelectionCandidate W → ℕ) (cs ds : List (Prepared W))
      → Kept cs ds
      → each m ds ≡ each m cs
  Kept-each m [] [] h = refl
  Kept-each m [] (d ∷ ds) h = absurd h
  Kept-each m (c ∷ cs) [] h = absurd h
  Kept-each m (c ∷ cs) (d ∷ ds) h = omega (arith, ap m h.0.candidate, Kept-each m cs ds h.1)

  kept-flag :
      (m : ContextSelectionCandidate W → ℕ) (c d : Prepared W)
      → IsKept c d
      → flag_part m d ≡ flag_part m c
  kept-flag m c d h =
      ap (λ b. if b then m d.candidate else 0) h.flag
      ∙ ap (λ e. if c.is_included then m e else 0) h.candidate

  pub Kept-flagged :
      (m : ContextSelectionCandidate W → ℕ) (cs ds : List (Prepared W))
      → Kept cs ds
      → flagged m ds ≡ flagged m cs
  Kept-flagged m [] [] h = refl
  Kept-flagged m [] (d ∷ ds) h = absurd h
  Kept-flagged m (c ∷ cs) [] h = absurd h
  Kept-flagged m (c ∷ cs) (d ∷ ds) h = omega (arith, kept-flag m c d h.0, Kept-flagged m cs ds h.1)

  pub Kept-All :
      (P Q : Prepared W → Type 0)
      → ((c d : Prepared W) → IsKept c d → P c → Q d)
      → (cs ds : List (Prepared W)) → Kept cs ds
      → All P cs
      → All Q ds
  Kept-All P Q carry [] [] h k = tt
  Kept-All P Q carry [] (d ∷ ds) h k = absurd h
  Kept-All P Q carry (c ∷ cs) [] h k = absurd h
  Kept-All P Q carry (c ∷ cs) (d ∷ ds) h k = (carry c d h.0 k.0, Kept-All P Q carry cs ds h.1 k.1)

  pub kept-IsPriced : (c d : Prepared W) → IsKept c d → IsPriced c → IsPriced d
  kept-IsPriced c d h k = record {
    tokens = h.tokens ∙ k.tokens ∙ ap (λ e. (costs_or_none e).tokens) (sym h.candidate);
    characters =
        h.characters ∙ k.characters ∙ ap (λ e. (costs_or_none e).characters) (sym h.candidate);
    bytes = h.bytes ∙ k.bytes ∙ ap (λ e. (costs_or_none e).bytes) (sym h.candidate);
  }

  pub mark-each :
      (m : ContextSelectionCandidate W → ℕ) (n : ℕ) (cs : List (Prepared W))
      → each m (mark n cs) ≡ each m cs
  unfolding mark
  mark-each m n [] = refl
  mark-each m zero (c ∷ cs) = refl
  mark-each m (suc n) (c ∷ cs) = omega (arith, mark-each m n cs)

  pub mark-flagged :
      (m : ContextSelectionCandidate W → ℕ) (n : ℕ) (cs : List (Prepared W)) (e : Prepared W)
      → At n cs e
      → e.is_included ≡ false
      → flagged m (mark n cs) ≡ m e.candidate + flagged m cs
  unfolding mark
  mark-flagged m n [] e h k = absurd h
  mark-flagged m zero (c ∷ cs) e h k =
      let unset : c.is_included ≡ false = ap (λ x. x.is_included) h ∙ k in
      let same : m c.candidate ≡ m e.candidate = ap (λ x. m x.candidate) h in
      ground (arith, unset, same)
  mark-flagged m (suc n) (c ∷ cs) e h k = omega (arith, mark-flagged m n cs e h k)

  pub mark-All :
      (P : Prepared W → Type 0)
      → ((c : Prepared W)
          → P c
          → P (record c { is_included = true; decision = manu.Query.Greedy.included }))
      → (n : ℕ) (cs : List (Prepared W)) → All P cs
      → All P (mark n cs)
  unfolding mark
  mark-All P carry n [] h = tt
  mark-All P carry zero (c ∷ cs) h = (carry c h.0, h.1)
  mark-All P carry (suc n) (c ∷ cs) h = (h.0, mark-All P carry n cs h.1)

  pub All-At :
      (P : Prepared W → Type 0) (n : ℕ) (cs : List (Prepared W)) (e : Prepared W)
      → At n cs e
      → All P cs
      → P e
  All-At P n [] e h k = absurd h
  All-At P zero (c ∷ cs) e h k = subst P h k.0
  All-At P (suc n) (c ∷ cs) e h k = All-At P n cs e h k.1
