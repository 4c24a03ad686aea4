-- ===== src/Query/Selection/Tracked.antt =====
-- What the loop of SelectContext keeps: its counters are the costs of what is selected, within the
-- limits, the flags say what is selected, and no two selected candidates share a redundancy key.
use manu.Base.{
  ◌≡◌, sym, ◌∙◌, ap, subst, ℕ, ◌+◌, ◌≤◌, pos, ltb_ℤ, true, false, Bool-cases, List, [], ◌∷◌, length,
  length-append, Str, str_eq, str_eq_iff, inl, inr, All, All-append, arith, one, total,
  total-append, occurrences,
}
use manu.Query.Context.{ContextLimits, Owners, mem_str}
use manu.Query.Utility.{Float, ContextUtilityConfiguration, finite}
use manu.Query.Candidate.{ContextSelectionCandidate, costs_or_none, redundancy_key}
use manu.Query.Greedy.{Prepared, Best, Selecting, fits_selection_budget, take_best}
use manu.Query.Selection.Pass.{Kept, At, IsEligible}
use manu.Query.Selection.Flagged.{
  mem_str-occurrences, each, flagged, IsPriced, Kept-each, Kept-flagged, Kept-All, kept-IsPriced,
  mark-each, mark-flagged, mark-All, All-At,
}

abbrev pub token_price : {W : Type 0} → ContextSelectionCandidate W → ℕ
token_price c = (costs_or_none c).tokens

abbrev pub character_price : {W : Type 0} → ContextSelectionCandidate W → ℕ
character_price c = (costs_or_none c).characters

abbrev pub byte_price : {W : Type 0} → ContextSelectionCandidate W → ℕ
byte_price c = (costs_or_none c).bytes

module _ {W : Type 0} ⦃f : Float W⦄ (limits : ContextLimits)
    (P : ContextSelectionCandidate W → Type 0) (first : List (Prepared W)) where
  pub record IsTracked (s : Selecting W) : Type 0 where
    pub same : (m : ContextSelectionCandidate W → ℕ) → each m s.prepared ≡ each m first
    pub counted : (m : ContextSelectionCandidate W → ℕ) → total m s.selected ≡ flagged m s.prepared
    pub tokens : s.token_count ≡ total token_price s.selected
    pub characters : s.character_count ≡ total character_price s.selected
    pub bytes : s.byte_count ≡ total byte_price s.selected
    pub priced : All IsPriced s.prepared
    pub numbers : All (λ p. finite p.last_gain ≡ true) s.prepared
    pub admitted : All (λ p. P p.candidate) s.prepared
    pub chosen : All P s.selected
    pub keys :
        (key : Str)
        → occurrences redundancy_key key s.selected ≡ occurrences (λ k. k) key s.redundancy
    pub apart : (key : Str) → occurrences redundancy_key key s.selected ≤ 1
    pub item_limit : ltb_ℤ limits.max_items (pos (length s.selected)) ≡ false
    pub token_limit : ltb_ℤ limits.max_tokens (pos s.token_count) ≡ false
    pub character_limit : ltb_ℤ limits.max_characters (pos s.character_count) ≡ false
    pub byte_limit : ltb_ℤ limits.max_bytes (pos s.byte_count) ≡ false

  pub pass-IsTracked :
      (s : Selecting W) (ds : List (Prepared W))
      → Kept s.prepared ds
      → (All (λ p. finite p.last_gain ≡ true) s.prepared → All (λ p. finite p.last_gain ≡ true) ds)
      → IsTracked s
      → IsTracked (record s { prepared = ds })
  pass-IsTracked s ds kept numbers t = record {
    tokens = t.tokens;
    characters = t.characters;
    bytes = t.bytes;
    chosen = t.chosen;
    keys = t.keys;
    apart = t.apart;
    item_limit = t.item_limit;
    token_limit = t.token_limit;
    character_limit = t.character_limit;
    byte_limit = t.byte_limit;
    same = λ m. Kept-each m s.prepared ds kept ∙ t.same m;
    counted = λ m. t.counted m ∙ sym (Kept-flagged m s.prepared ds kept);
    priced = Kept-All IsPriced IsPriced kept-IsPriced s.prepared ds kept t.priced;
    numbers = numbers t.numbers;
    admitted =
        Kept-All (λ p. P p.candidate) (λ p. P p.candidate) (λ c d h k. subst P (sym h.candidate) k)
          s.prepared ds kept t.admitted;
  }

  -- A key that is new meets no key of what is selected.
  key_apart :
      (s : Selecting W) (c : ContextSelectionCandidate W) (key : Str)
      → IsTracked s
      → mem_str (redundancy_key c) s.redundancy ≡ false
      → occurrences redundancy_key key s.selected + one (str_eq (redundancy_key c) key) ≤ 1
  key_apart s c key t fresh = elim (Bool-cases (str_eq (redundancy_key c) key)) [
    | inr other ↦ omega (arith, t.apart key, ap one other)
    | inl here ↦
        let equal = (str_eq_iff (redundancy_key c) key).0 here in
        let none_before : occurrences (λ k. k) key s.redundancy ≡ 0 =
          mem_str-occurrences key s.redundancy
            (subst (λ k. mem_str k s.redundancy ≡ false) equal fresh) in
        omega (arith, t.keys key, ap one here, none_before)
  ]

  pub take-IsTracked :
      (owners : Owners) (hash : ContextUtilityConfiguration W → Str)
      (configuration : ContextUtilityConfiguration W) (s : Selecting W) (b : Best W)
      (ds : List (Prepared W))
      → IsTracked (record s { prepared = ds })
      → At b.position ds b.entry
      → IsEligible owners hash limits configuration s b.entry
      → IsTracked (take_best b ds s)
  unfolding take_best fits_selection_budget
  take-IsTracked owners hash configuration s b ds t at ok =
      let c = b.entry.candidate in
      let price = All-At IsPriced b.position ds b.entry at t.priced in
      let last = λ (m : ContextSelectionCandidate W → ℕ). total-append m s.selected (c ∷ []) in
      record {
        same = λ m. mark-each m b.position ds ∙ t.same m;
        counted = λ m.
            omega (arith, last m, t.counted m, mark-flagged m b.position ds b.entry at ok.waiting);
        tokens = omega (arith, last token_price, t.tokens, price.tokens);
        characters = omega (arith, last character_price, t.characters, price.characters);
        bytes = omega (arith, last byte_price, t.bytes, price.bytes);
        priced =
            mark-All IsPriced
              (λ p h. record { tokens = h.tokens; characters = h.characters; bytes = h.bytes })
              b.position ds t.priced;
        numbers = mark-All (λ p. finite p.last_gain ≡ true) (λ p h. h) b.position ds t.numbers;
        admitted = mark-All (λ p. P p.candidate) (λ p h. h) b.position ds t.admitted;
        chosen =
            All-append P s.selected (c ∷ []) t.chosen
              (All-At (λ p. P p.candidate) b.position ds b.entry at t.admitted, tt);
        keys = λ key. omega (
          arith,
          total-append (λ x. one (str_eq (redundancy_key x) key)) s.selected (c ∷ []),
          t.keys key,
        );
        apart = λ key. omega (
          arith,
          total-append (λ x. one (str_eq (redundancy_key x) key)) s.selected (c ∷ []),
          key_apart (record s { prepared = ds }) c key t ok.fresh,
        );
        item_limit = ground (arith, ok.fits, length-append s.selected (c ∷ []));
        token_limit = ground (arith, ok.fits);
        character_limit = ground (arith, ok.fits);
        byte_limit = ground (arith, ok.fits);
      }
