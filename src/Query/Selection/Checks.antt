-- ===== src/Query/Selection/Checks.antt =====
-- The loops of Validate and ValidateAgainst pass over items and decisions that are right one by one and
-- have distinct identifiers.
use manu.Base.{
  ◌≡◌, refl, sym, ap, subst, ℕ, ◌+◌, ◌≤◌, true, false, Bool-cases, not, ◌||◌, none, some, List, [],
  ◌∷◌, length, Str, str_eq_refl, inl, inr, All, arith, one, total, occurrences, lookup, Map,
  if◌then◌else◌,
}
use manu.Query.Check.{◌then◌}
use manu.Query.Context.{Scope, Owners, mem_str}
use manu.Query.Context.Validate.{same_scope, validate_item}
use manu.Query.Utility.{Float}
use manu.Query.Candidate.{ContextSelectionCandidate}
use manu.Query.Result.{
  ContextSelectionAudit, Tally, item_ids, audit_ids, all_among, items_valid, validate_audit,
  audits_valid, is_expected, same_costs, costs_at, count_audit, tally, items_expected, same_answer,
}
use manu.Query.Selection.{items_of, any_budget}
use manu.Query.Selection.Flagged.{occurrences-mem_str}
use manu.Query.Selection.Identity.{id_of}

pub all_among-none :
    (l ids : List Str) → All (λ id. mem_str id ids ≡ true) l → all_among l ids ≡ none
unfolding all_among
all_among-none [] ids h = refl
all_among-none (id ∷ l) ids h = rw h.0 (all_among-none l ids h.1)

module _ {W : Type 0} where
  abbrev pub audit_id : ContextSelectionAudit W → Str
  audit_id a = a.item_id

  pub items-occurrences :
      (id : Str) (cs : List (ContextSelectionCandidate W))
      → occurrences (λ s. s) id (item_ids (items_of cs)) ≡ occurrences id_of id cs
  items-occurrences id [] = refl
  items-occurrences id (c ∷ cs) = omega (arith, items-occurrences id cs)

  pub audits-occurrences :
      (id : Str) (l : List (ContextSelectionAudit W))
      → occurrences (λ s. s) id (audit_ids l) ≡ occurrences audit_id id l
  audits-occurrences id [] = refl
  audits-occurrences id (a ∷ l) = omega (arith, audits-occurrences id l)

  -- The sums that the loop of ValidateAgainst comes to.
  abbrev pub included_part : (ContextSelectionAudit W → ℕ) → ContextSelectionAudit W → ℕ
  included_part m a = if a.is_included then m a else 0

  -- What the tests of one decision ask of it, for the selected identifiers and the candidates.
  pub record IsSettled ⦃f : Float W⦄ (owners : Owners) (ids : List Str)
      (expected : Map (ContextSelectionCandidate W)) (a : ContextSelectionAudit W) : Type 0 where
    pub valid : validate_audit owners a ≡ none
    pub selected : same_answer a.is_included (mem_str a.item_id ids) ≡ true
    pub found : is_expected (lookup a.item_id expected) ≡ true
    pub costs : (not a.is_included || same_costs a (costs_at (lookup a.item_id expected))) ≡ true

  -- No identifier comes twice in the list and what was seen before it.
  abbrev pub Once : (seen : List Str) → List (ContextSelectionAudit W) → Type 0
  Once seen l = (id : Str) → occurrences audit_id id l + occurrences (λ s. s) id seen ≤ 1

  unseen :
      (seen : List Str) (a : ContextSelectionAudit W) (l : List (ContextSelectionAudit W))
      → Once seen (a ∷ l)
      → mem_str a.item_id seen ≡ false
  unseen seen a l once =
      occurrences-mem_str a.item_id seen
        (omega (arith, once a.item_id, ap one (str_eq_refl a.item_id)))

  seen_next :
      (seen : List Str) (a : ContextSelectionAudit W) (l : List (ContextSelectionAudit W))
      → Once seen (a ∷ l)
      → Once (a.item_id ∷ seen) l
  seen_next seen a l once = λ id. omega (arith, once id)

  pub items_expected-none :
      (scope : Scope) (expected : Map (ContextSelectionCandidate W))
      (cs : List (ContextSelectionCandidate W))
      → All
          (λ c.
            (same_scope c.item.scope scope ≡ true)
            × (is_expected (lookup (id_of c) expected) ≡ true))
          cs
      → items_expected scope expected (items_of cs) ≡ none
  unfolding items_expected
  items_expected-none scope expected [] h = refl
  items_expected-none scope expected (c ∷ cs) h =
      rw (h.0.0, h.0.1) (items_expected-none scope expected cs h.1)

  pub items_valid-none :
      (owners : Owners) (seen : List Str) (cs : List (ContextSelectionCandidate W))
      → All (λ c. validate_item owners c.item ≡ none) cs
      → ((id : Str) → occurrences id_of id cs + occurrences (λ s. s) id seen ≤ 1)
      → items_valid owners seen (items_of cs) ≡ none
  unfolding items_valid
  items_valid-none owners seen [] h once = refl
  items_valid-none owners seen (c ∷ cs) h once =
      let fresh : mem_str (id_of c) seen ≡ false =
        occurrences-mem_str (id_of c) seen
          (omega (arith, once (id_of c), ap one (str_eq_refl (id_of c)))) in
      rw (h.0, fresh)
        (items_valid-none owners (id_of c ∷ seen) cs h.1 (λ id. omega (arith, once id)))

module _ {W : Type 0} ⦃f : Float W⦄ (owners : Owners) (ids : List Str)
    (expected : Map (ContextSelectionCandidate W)) where
  pub audits_valid-none :
      (seen : List Str) (l : List (ContextSelectionAudit W))
      → All (IsSettled owners ids expected) l
      → Once seen l
      → audits_valid owners ids seen l ≡ none
  unfolding audits_valid
  audits_valid-none seen [] h once = refl
  audits_valid-none seen (a ∷ l) h once =
      rw (h.0.valid, unseen seen a l once, h.0.selected)
        (audits_valid-none (a.item_id ∷ seen) l h.1 (seen_next seen a l once))

  pub record IsTallied (t : Tally) (l : List (ContextSelectionAudit W)) (t' : Tally) : Type 0 where
    pub seen : length t'.seen ≡ length t.seen + length l
    pub count : t'.included_count ≡ t.included_count + total (included_part (λ a. 1)) l
    pub tokens :
        t'.included_tokens ≡ t.included_tokens + total (included_part (λ a. a.token_estimate)) l
    pub characters :
        t'.included_characters ≡ t.included_characters + total (included_part (λ a. a.characters)) l
    pub bytes : t'.included_bytes ≡ t.included_bytes + total (included_part (λ a. a.bytes)) l
    pub budget : t'.budget_audit ≡ (t.budget_audit || any_budget l)

  count-Tallied :
      (t : Tally) (a : ContextSelectionAudit W) (l : List (ContextSelectionAudit W)) (t' : Tally)
      → IsTallied (count_audit a t) l t'
      → IsTallied t (a ∷ l) t'
  unfolding count_audit any_budget
  count-Tallied t a l t' h = elim (Bool-cases a.is_included) [
    | inl yes' ↦ record {
      seen = ground (arith, yes', h.seen);
      count = ground (arith, yes', h.count);
      tokens = ground (arith, yes', h.tokens);
      characters = ground (arith, yes', h.characters);
      bytes = ground (arith, yes', h.bytes);
      budget = ground (arith, yes', h.budget);
    }
    | inr no' ↦ record {
      seen = ground (arith, no', h.seen);
      count = ground (arith, no', h.count);
      tokens = ground (arith, no', h.tokens);
      characters = ground (arith, no', h.characters);
      bytes = ground (arith, no', h.bytes);
      budget = ground (arith, no', h.budget);
    }
  ]

  -- The loop goes through all the decisions, and its variables end as the sums over them.
  pub tally-IsTallied :
      (t : Tally) (l : List (ContextSelectionAudit W))
      → All (IsSettled owners ids expected) l
      → Once t.seen l
      → (t' : Tally) × (tally expected t l ≡ some t') × IsTallied t l t'
  unfolding tally count_audit any_budget
  tally-IsTallied t [] h once = (
    t,
    refl,
    record {
      seen = omega arith;
      count = omega arith;
      tokens = omega arith;
      characters = omega arith;
      bytes = omega arith;
      budget = ground arith;
    },
  )
  tally-IsTallied t (a ∷ l) h once =
      let next : (count_audit a t).seen ≡ a.item_id ∷ t.seen = ground arith in
      let (t', ends, sums) =
        tally-IsTallied (count_audit a t) l h.1
          (subst (λ seen. Once seen l) (sym next) (seen_next t.seen a l once)) in
      (t', rw (h.0.found, unseen t.seen a l once, h.0.costs) ends, count-Tallied t a l t' sums)
