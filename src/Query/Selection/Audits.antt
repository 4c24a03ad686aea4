-- ===== src/Query/Selection/Audits.antt =====
-- The audits of a finished selection: each passes the tests of ValidateAgainst, and their identifiers
-- and sums are those of the candidates and of what is selected.
use manu.Base.{
  ◌≡◌, refl, ◌∙◌, ap, ℕ, ◌+◌, ◌≤◌, Bool, true, false, Bool-cases, not, ◌||◌, Option, none, some,
  List, ◌++◌, map, length, Str, str_eq, str_eq_refl, inl, inr, All, All-map, All-append, All-mapped,
  All-both, All-sorted, All-every, arith, one, total, total-append, total-map, total-sorted,
  total_bounds, total_congr, total_two, total_one, total_zero, occurrences, Map, if◌then◌else◌,
  and→right, str_lt, sorted,
}
use manu.Query.Context.{Scope, ContextLimits, Owners, mem_str}
use manu.Query.Utility.{Float, finite}
use manu.Query.Candidate.{
  ContextSelectionCandidate, Costs, costs, costs_or_none, or_no_costs, bounded, metadata_valid,
}
use manu.Query.Greedy.{Prepared, Selecting, included}
use manu.Query.Result.{
  ContextSelectionAudit, item_ids, validate_audit, is_expected, same_costs, costs_at, same_answer,
  says_included,
}
use manu.Query.Selection.{final_reason, audit_of, items_of}
use manu.Query.Selection.Tracked.{IsTracked}
use manu.Query.Selection.Flagged.{
  each, flag_part, flagged, IsPriced, mem_str-occurrences, occurrences-mem_str,
}
use manu.Query.Selection.Identity.{id_of, Distinct}
use manu.Query.Selection.Preparation.{IsAdmitted, IsRefused, IsDivided, metadata_parts}
use manu.Query.Selection.Checks.{audit_id, items-occurrences, IsSettled, included_part}

pub bounded-some : (o : Option Costs) → bounded o ≡ true → o ≡ some (or_no_costs o)
bounded-some none h = absurd (ground arith)
bounded-some (some k) h = refl

or_true : (b : Bool) → (b || true) ≡ true
or_true b = ground arith

module _ {W : Type 0} where
  -- An audit of a candidate that was not chosen does not say that it was.
  final_reason_left_out :
      (keys : List Str) (p : Prepared W) → says_included (final_reason keys p) ≡ false
  unfolding final_reason
  final_reason_left_out keys p = ground arith

  reason_agrees :
      (keys : List Str) (p : Prepared W)
      → same_answer p.is_included
          (says_included (if p.is_included then included else final_reason keys p))
        ≡ true
  reason_agrees keys p = ground (arith, final_reason_left_out keys p)

  costs_agree :
      (c : ContextSelectionCandidate W)
      → bounded (costs c) ≡ true
      → costs c ≡ some (costs_or_none c)
  unfolding costs_or_none
  costs_agree c h = bounded-some (costs c) h

  same_costs-priced :
      (keys : List Str) (p : Prepared W)
      → IsPriced p
      → bounded (costs p.candidate) ≡ true
      → same_costs (audit_of keys p) (costs p.candidate) ≡ true
  unfolding same_costs audit_of
  same_costs-priced keys p price fit =
      rw (costs_agree p.candidate fit) (ground (arith, price.tokens, price.characters, price.bytes))

  -- How often an identifier stands among the prepared candidates.
  abbrev pub same_id : Str → ContextSelectionCandidate W → ℕ
  same_id id c = one (str_eq (id_of c) id)

  abbrev unflag_part : (ContextSelectionCandidate W → ℕ) → Prepared W → ℕ
  unflag_part m p = if p.is_included then 0 else m p.candidate

  -- What is chosen of an identifier and what is not are all that is prepared of it.
  chosen_or_not :
      (id : Str) (ps : List (Prepared W))
      → flagged (same_id id) ps + total (unflag_part (same_id id)) ps ≤ each (same_id id) ps
  chosen_or_not id ps =
      total_two (flag_part (same_id id)) (unflag_part (same_id id)) (λ p. same_id id p.candidate) ps
        (All-every (λ p. ground arith) ps)

costs_bounded :
    {W : Type 0} ⦃f : Float W⦄ (owners : Owners) (c : ContextSelectionCandidate W)
    → metadata_valid owners c ≡ true
    → bounded (costs c) ≡ true
unfolding metadata_valid
costs_bounded owners c h = and→right _ _ h

module _ {W : Type 0} ⦃f : Float W⦄ (owners : Owners) (scope : Scope) (limits : ContextLimits)
    (expected : Map (ContextSelectionCandidate W)) (cs : List (ContextSelectionCandidate W))
    (distinct : Distinct cs) (first : List (Prepared W)) (refused : List (ContextSelectionAudit W))
    (divided : IsDivided owners scope expected cs first refused) (s : Selecting W)
    (tracked : IsTracked limits (IsAdmitted owners scope expected) first s) where
  abbrev pub selected_ids : List Str
  selected_ids = item_ids (items_of s.selected)

  selected_count :
      (id : Str) → occurrences (λ k. k) id selected_ids ≡ flagged (same_id id) s.prepared
  selected_count id = items-occurrences id s.selected ∙ tracked.counted (same_id id)

  prepared_once : (id : Str) → each (same_id id) s.prepared + occurrences audit_id id refused ≤ 1
  prepared_once id = omega (arith, tracked.same (same_id id), divided.identities id, distinct id)

  -- The flag of a prepared candidate says whether its item is selected.
  flag_agrees :
      (p : Prepared W)
      → flag_part (same_id (id_of p.candidate)) p ≤ flagged (same_id (id_of p.candidate)) s.prepared
      → unflag_part (same_id (id_of p.candidate)) p
        ≤ total (unflag_part (same_id (id_of p.candidate))) s.prepared
      → same_answer p.is_included (mem_str (id_of p.candidate) selected_ids) ≡ true
  flag_agrees p here there =
      let id = id_of p.candidate in
      let self : same_id id p.candidate ≡ 1 = ap one (str_eq_refl id) in
      elim (Bool-cases p.is_included) [
        | inl taken ↦ elim (Bool-cases (mem_str id selected_ids)) [
          | inl found ↦ ground (arith, taken, found)
          | inr missing ↦
              let nowhere = mem_str-occurrences id selected_ids missing in
              let counts : 1 ≤ flagged (same_id id) s.prepared =
                omega
                  (arith, here, ap (λ b. if b then same_id id p.candidate else 0) taken, self) in
              absurd (omega (arith, nowhere, selected_count id, counts))
        ]
        | inr left ↦
            let counts : 1 ≤ total (unflag_part (same_id id)) s.prepared =
              omega (arith, there, ap (λ b. if b then 0 else same_id id p.candidate) left, self) in
            let nowhere : occurrences (λ k. k) id selected_ids ≡ 0 =
              omega
                (arith, selected_count id, chosen_or_not id s.prepared, prepared_once id, counts) in
            ground (arith, left, occurrences-mem_str id selected_ids nowhere)
      ]

  prepared-Settled :
      (p : Prepared W)
      → IsPriced p
      → finite p.last_gain ≡ true
      → IsAdmitted owners scope expected p.candidate
      → same_answer p.is_included (mem_str (id_of p.candidate) selected_ids) ≡ true
      → IsSettled owners selected_ids expected (audit_of s.redundancy p)
  unfolding audit_of validate_audit same_costs costs_at
  prepared-Settled p price number ok agrees =
      let (names, _) = metadata_parts owners scope expected p.candidate ok.metadata in
      record {
        valid = rw (names, number, reason_agrees s.redundancy p) refl;
        selected = agrees;
        found = ap is_expected ok.found;
        costs =
            rw
              (
                ok.found,
                same_costs-priced s.redundancy p price
                    (costs_bounded owners p.candidate ok.metadata),
              )
              (or_true (not p.is_included));
      }

  -- An identifier that was refused is not selected.
  refused_elsewhere :
      (a : ContextSelectionAudit W)
      → one (str_eq (audit_id a) (audit_id a)) ≤ occurrences audit_id (audit_id a) refused
      → mem_str (audit_id a) selected_ids ≡ false
  refused_elsewhere a here =
      let id = audit_id a in
      let nowhere : occurrences (λ k. k) id selected_ids ≡ 0 = omega (
        arith,
        selected_count id,
        chosen_or_not id s.prepared,
        prepared_once id,
        here,
        ap one (str_eq_refl id),
      ) in
      occurrences-mem_str id selected_ids nowhere

  refused-Settled :
      (a : ContextSelectionAudit W)
      → IsRefused owners scope expected a
      → one (str_eq (audit_id a) (audit_id a)) ≤ occurrences audit_id (audit_id a) refused
      → IsSettled owners selected_ids expected a
  refused-Settled a r here = record {
    valid = r.valid;
    selected = ground (arith, r.flag, refused_elsewhere a here);
    found = r.found;
    costs = ground (arith, r.flag);
  }

  abbrev pub Settled : ContextSelectionAudit W → Type 0
  Settled = IsSettled owners selected_ids expected

  prepared-All : All (λ p. Settled (audit_of s.redundancy p)) s.prepared
  prepared-All =
      let flags =
        All-map
          (λ p (bound : (m : Prepared W → ℕ) → m p ≤ total m s.prepared).
            flag_agrees p (bound (flag_part (same_id (id_of p.candidate))))
              (bound (unflag_part (same_id (id_of p.candidate)))))
          s.prepared (total_bounds s.prepared) in
      All-map (λ p h. prepared-Settled p h.0.0 h.0.1 h.1.0 h.1.1) s.prepared
        (All-both _ _ s.prepared (All-both _ _ s.prepared tracked.priced tracked.numbers)
          (All-both _ _ s.prepared tracked.admitted flags))

  refused-All : All Settled refused
  refused-All =
      All-map (λ a h. refused-Settled a h.0 (h.1 (λ b. one (str_eq (audit_id b) (audit_id a)))))
        refused
        (All-both (IsRefused owners scope expected)
          (λ a. (m : ContextSelectionAudit W → ℕ) → m a ≤ total m refused) refused divided.refused
          (total_bounds refused))

  -- All audits, in the order of their identifiers.
  abbrev pub all_audits : List (ContextSelectionAudit W)
  all_audits =
      sorted (λ l r. str_lt l.item_id r.item_id) (refused ++ map (audit_of s.redundancy) s.prepared)

  pub audits-Settled : All Settled all_audits
  audits-Settled =
      All-sorted (λ l r. str_lt l.item_id r.item_id) Settled
        (refused ++ map (audit_of s.redundancy) s.prepared)
        (All-append Settled refused (map (audit_of s.redundancy) s.prepared) refused-All
          (All-mapped Settled (audit_of s.redundancy) s.prepared prepared-All))

  -- A sum over the audits is one over the refused and one over the prepared candidates.
  pub audits-total :
      (m : ContextSelectionAudit W → ℕ)
      → total m all_audits ≡ total m refused + total (λ p. m (audit_of s.redundancy p)) s.prepared
  audits-total m =
      total-sorted m (λ l r. str_lt l.item_id r.item_id)
        (refused ++ map (audit_of s.redundancy) s.prepared)
      ∙ total-append m refused (map (audit_of s.redundancy) s.prepared)
      ∙ ap (λ n. total m refused + n) (total-map m (audit_of s.redundancy) s.prepared)

  -- Each candidate has exactly one audit.
  pub audits-occurrences_id :
      (id : Str) → occurrences audit_id id all_audits ≡ occurrences id_of id cs
  unfolding audit_of
  audits-occurrences_id id = omega (
    arith,
    audits-total (λ a. one (str_eq (audit_id a) id)),
    tracked.same (same_id id),
    divided.identities id,
  )

  pub length-audits : length all_audits ≡ length cs
  length-audits = omega (
    arith,
    total_one all_audits,
    audits-total (λ a. 1),
    total_one refused,
    tracked.same (λ c. 1),
    total_one first,
    divided.sizes,
  )

  included_refused : (m : ContextSelectionAudit W → ℕ) → total (included_part m) refused ≡ 0
  included_refused m =
      total_congr (included_part m) (λ a. 0) refused
        (All-map (λ a r. ap (λ b. if b then m a else 0) r.flag) refused divided.refused)
      ∙ total_zero refused

  -- The costs of the included audits are those of the selected candidates.
  pub audits-included :
      (m : ContextSelectionAudit W → ℕ) (price : ContextSelectionCandidate W → ℕ)
      → All (λ p. m (audit_of s.redundancy p) ≡ price p.candidate) s.prepared
      → total (included_part m) all_audits ≡ total price s.selected
  unfolding audit_of
  audits-included m price priced =
      let parts =
        total_congr (λ p. included_part m (audit_of s.redundancy p)) (flag_part price) s.prepared
          (All-map (λ p h. ap (λ n. if p.is_included then n else 0) h) s.prepared priced) in
      omega
        (arith, audits-total (included_part m), included_refused m, parts, tracked.counted price)
