-- ===== src/Query/Greedy.antt =====
-- The greedy loop of SelectContext in internal/query/context_selection.go: the marginal utility of a
-- candidate, the pass over what is left, and the choice. A pointer to a candidate is its position in
-- the list of the prepared ones.
use manu.Base.{
  ℕ, zero, suc, ◌+◌, ltb, pos, ltb_ℤ, Bool, true, false, not, ◌&&◌, ◌||◌, Option, none, some, List,
  [], ◌∷◌, ◌++◌, length, Str, str_eq, str_lt, is_empty, bytes, if◌then◌else◌,
}
use manu.Query.Check.{
  Run, Check, require, ◌then◌, ensure, obtain, give, poll, ◌>>=◌, ◌>>◌, invalid_context,
}
use manu.Query.Context.{
  ContextItem, ContextItemKind, fact_item, entity_item, evidence_item, other_item, ContextLimits,
  Owners, mem_str,
}
use manu.Query.Context.Validate.{is_zero_locator, locator_for_validation}
use manu.Query.Utility.{Float, ContextUtilityConfiguration, finite, normalize}
use manu.Query.Candidate.{ContextSelectionCandidate, redundancy_key, validate_candidate}

-- The reasons that SelectContext gives; `policy` is another stage's.
pub data ContextSelectionReason : Type 0 where
  included excluded_budget excluded_redundancy excluded_policy excluded_invalid excluded_scope :
      ContextSelectionReason

pub record Prepared (W : Type 0) : Type 0 where
  pub candidate : ContextSelectionCandidate W
  pub tokens : ℕ
  pub characters : ℕ
  pub bytes : ℕ
  pub last_gain : W
  pub last_ratio : W
  pub decision : ContextSelectionReason
  pub is_included : Bool

-- The variables best, bestGain and bestRatio of a pass, once there is a best.
pub record Best (W : Type 0) : Type 0 where
  pub position : ℕ
  pub entry : Prepared W
  pub gain : W
  pub ratio : W

-- The variables of the loop. `selected` holds the candidates in the order of their choice.
pub record Selecting (W : Type 0) : Type 0 where
  pub prepared : List (Prepared W)
  pub selected : List (ContextSelectionCandidate W)
  pub redundancy : List Str
  pub token_count : ℕ
  pub character_count : ℕ
  pub byte_count : ℕ

unfoldable pub same_item_kind : ContextItemKind → ContextItemKind → Bool
same_item_kind fact_item fact_item = true
same_item_kind entity_item entity_item = true
same_item_kind evidence_item evidence_item = true
same_item_kind (other_item s) (other_item t) = str_eq s t
same_item_kind _ _ = false

unfoldable pub artifact_key : ContextItem → Str
unfolding is_zero_locator locator_for_validation
artifact_key item =
    let l = if is_zero_locator item.locator then locator_for_validation item else item.locator in
    if not (is_empty l.artifact_id)
    then bytes "artifact:" ++ l.artifact_id
    else if not (is_empty l.path)
    then bytes "path:" ++ l.path
    else if not (is_empty l.uri)
    then bytes "uri:" ++ l.uri
    else if not (is_empty l.member)
    then bytes "member:" ++ l.member
    else if not (is_empty l.source_id)
    then bytes "source:" ++ l.source_id
    else bytes "item:" ++ item.id

-- How many of the aspects no selected candidate has.
unfoldable pub count_new : List Str → List Str → ℕ
count_new [] seen = 0
count_new (aspect ∷ rest) seen =
    if mem_str aspect seen then count_new rest seen else suc (count_new rest seen)

module _ {W : Type 0} where
  unfoldable pub covered : List (ContextSelectionCandidate W) → List Str
  covered [] = []
  covered (c ∷ rest) = c.aspects ++ covered rest

  unfoldable pub has_kind : ContextItemKind → List (ContextSelectionCandidate W) → Bool
  unfolding same_item_kind
  has_kind kind [] = false
  has_kind kind (c ∷ rest) = same_item_kind c.item.kind kind || has_kind kind rest

  unfoldable pub has_artifact : Str → List (ContextSelectionCandidate W) → Bool
  unfolding artifact_key
  has_artifact key [] = false
  has_artifact key (c ∷ rest) = str_eq (artifact_key c.item) key || has_artifact key rest

  -- The number of selected items is an argument, as in the source.
  unfoldable pub fits_selection_budget : Prepared W → ℕ → ℕ → ℕ → ℕ → ContextLimits → Bool
  fits_selection_budget c tokens characters bytes items limits =
      ltb_ℤ (pos items) limits.max_items
      && not (ltb_ℤ limits.max_tokens (pos (tokens + c.tokens)))
      && not (ltb_ℤ limits.max_characters (pos (characters + c.characters)))
      && not (ltb_ℤ limits.max_bytes (pos (bytes + c.bytes)))

  -- The assignment to best.included and best.decision.
  unfoldable pub mark : ℕ → List (Prepared W) → List (Prepared W)
  mark n [] = []
  mark zero (c ∷ rest) = record c { is_included = true; decision = included } ∷ rest
  mark (suc n) (c ∷ rest) = c ∷ mark n rest

  -- What follows the choice of the best.
  unfoldable pub take_best : Best W → List (Prepared W) → Selecting W → Selecting W
  unfolding mark redundancy_key
  take_best best prepared s = record {
    prepared = mark best.position prepared;
    selected = s.selected ++ best.entry.candidate ∷ [];
    redundancy = redundancy_key best.entry.candidate ∷ s.redundancy;
    token_count = s.token_count + best.entry.tokens;
    character_count = s.character_count + best.entry.characters;
    byte_count = s.byte_count + best.entry.bytes;
  }

module _ {W : Type 0} ⦃f : Float W⦄ where
  unfoldable pub better_selection_choice : Prepared W → W → W → Best W → Bool
  better_selection_choice c gain ratio best =
      if not (f.eq ratio best.ratio)
      then f.lt best.ratio ratio
      else if not (f.eq gain best.gain)
      then f.lt best.gain gain
      else if ltb_ℤ c.candidate.rank best.entry.candidate.rank
      then true
      else if ltb_ℤ best.entry.candidate.rank c.candidate.rank
      then false
      else str_lt c.candidate.item.id best.entry.candidate.item.id

  unfoldable pub choose : Best W → Option (Best W) → Option (Best W)
  unfolding better_selection_choice
  choose new none = some new
  choose new (some best) =
      if better_selection_choice new.entry new.gain new.ratio best then some new else some best

  -- What a pass does with a candidate whose utility is known.
  unfoldable pub weigh : ℕ → Prepared W → W → Option (Best W) → Prepared W × Option (Best W)
  unfolding choose
  weigh n c gain best =
      let ratio = f.div gain (f.of_nat (if ltb 1 c.tokens then c.tokens else 1)) in
      let scored = record c { last_gain = gain; last_ratio = ratio } in
      if f.le gain (f.of_nat 0) then (record scored { decision = excluded_redundancy }, best) else (
        scored,
        choose (record { position = n; entry = scored; gain = gain; ratio = ratio }) best,
      )

module _ {W : Type 0} ⦃f : Float W⦄ (owners : Owners) where
  unfoldable pub each_valid : List (ContextSelectionCandidate W) → Check
  unfolding validate_candidate
  each_valid [] = none
  each_valid (c ∷ rest) = validate_candidate owners c then each_valid rest

  -- The utility, before the test of its result.
  unfoldable pub utility_sum :
      ContextSelectionCandidate W
      → List (ContextSelectionCandidate W)
      → ContextUtilityConfiguration W
      → W
  unfolding covered count_new has_kind has_artifact
  utility_sum c selected weights =
      let fresh = f.of_nat (count_new c.aspects (covered selected)) in
      let kind = f.of_nat (if has_kind c.item.kind selected then 0 else 1) in
      let artifact = f.of_nat (if has_artifact (artifact_key c.item) selected then 0 else 1) in
      f.add
        (f.add
          (f.add (f.mul weights.relevance_weight c.relevance) (f.mul weights.aspect_weight fresh))
          (f.mul weights.kind_diversity_weight kind))
        (f.mul weights.artifact_diversity_weight artifact)

  module _ (hash : ContextUtilityConfiguration W → Str) where
    unfoldable pub marginal_utility :
        ContextSelectionCandidate W
        → List (ContextSelectionCandidate W)
        → ContextUtilityConfiguration W
        → Run W
    unfolding validate_candidate normalize each_valid utility_sum finite
    marginal_utility c selected configuration =
        ensure (validate_candidate owners c)
        >> (obtain (normalize hash configuration) invalid_context >>= λ weights.
            ensure (each_valid selected)
            >> (let utility = utility_sum c selected weights in
                ensure (require (finite utility && not (f.lt utility (f.of_nat 0))) invalid_context)
                >> give utility))

    module _ (limits : ContextLimits) (configuration : ContextUtilityConfiguration W) where
      unfoldable pub consider :
          Selecting W → ℕ → Prepared W → Option (Best W) → Run (Prepared W × Option (Best W))
      unfolding redundancy_key fits_selection_budget marginal_utility weigh
      consider s n c best =
          if c.is_included
          then give (c, best)
          else if mem_str (redundancy_key c.candidate) s.redundancy
          then give (record c { decision = excluded_redundancy }, best)
          else if not (
              fits_selection_budget c s.token_count s.character_count s.byte_count
                (length s.selected) limits)
          then give (record c { decision = excluded_budget }, best)
          else marginal_utility c.candidate s.selected configuration >>= λ gain.
              give (weigh n c gain best)

      unfoldable pub scan :
          Selecting W
          → ℕ
          → List (Prepared W)
          → Option (Best W)
          → Run (List (Prepared W) × Option (Best W))
      unfolding consider
      scan s n [] best = give ([], best)
      scan s n (c ∷ rest) best = consider s n c best >>= λ (c', best').
          scan s (suc n) rest best' >>= λ (rest', last). give (c' ∷ rest', last)

      -- One round of the loop: the pass, then the choice. The flag says whether one was made.
      unfoldable pub round : Selecting W → Run (Bool × Selecting W)
      unfolding scan take_best
      round s =
          poll
          >> (scan s 0 s.prepared none >>= λ (prepared, best). elim best [
            | none ↦ give (false, record s { prepared = prepared })
            | some b ↦ give (true, take_best b prepared s)
          ])

      -- The loop, on fuel.
      unfoldable pub select_loop : ℕ → Selecting W → Run (Selecting W)
      unfolding round
      select_loop zero s = give s
      select_loop (suc fuel) s =
          if ltb_ℤ (pos (length s.selected)) limits.max_items
          then (round s >>= λ (chosen, s'). (if chosen then select_loop fuel s' else give s'))
          else give s
