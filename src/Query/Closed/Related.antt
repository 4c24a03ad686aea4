-- ===== src/Query/Closed/Related.antt =====
-- The relations of a support closure pass the loop over them in ContextSupportClosureResult.Validate
-- (internal/query/context_support_closure.go).
use manu.Base.{
  ◌≡◌, refl, ap, subst, ◌+◌, ◌≤◌, true, false, Bool-cases, ◌&&◌, none, List, [], ◌∷◌, Str, str_eq,
  str_eq_iff, str_eq_refl, ◌⊎◌, inl, inr, All, All-map, arith, one, occurrences, and→left,
  and→right, Map, lookup, insert, lookup-insert,
}
use manu.Query.Check.{
  then_iff, require-then, invalid_context_reference, invalid_context, invalid_context_scope,
}
use manu.Query.Context.{Scope, ContextItem, Owners, mem_str, max_context_items}
use manu.Query.Context.Validate.{
  valid_knowledge_kind, equal_fold, scope_valid, same_scope, valid_context_id, validate_context_ids,
  validate_provenance,
}
use manu.Query.Candidate.{ContextSelectionCandidate}
use manu.Query.Result.{
  ContextSelectionResult, item_ids, candidates_by_id, is_expected, items_expected,
}
use manu.Query.Selection.Flagged.{occurrences-mem_str}
use manu.Query.Relation.{
  ContextRelation, max_context_path_nodes, all_members, joins, some_support, validate_relation,
  validate_own, required_ids,
}
use manu.Query.ClosureResult.{has_scope, relations_valid}
use manu.Query.Closed.{candidate_ids}
use manu.Query.Closed.Support.Required.{All-front, required_ids-All}
use manu.Query.Closed.Support.Steps.{Has}
use manu.Query.Closed.Support.Outcomes.{IsOwn}

equal_fold_join :
    (s t u : Str) → equal_fold s u ≡ true → equal_fold t u ≡ true → equal_fold s t ≡ true
unfolding equal_fold
equal_fold_join [] [] [] h k = refl
equal_fold_join (a ∷ s) (b ∷ t) (c ∷ u) h k =
    let rest_s : equal_fold s u ≡ true = ground (arith, h) in
    let rest_t : equal_fold t u ≡ true = ground (arith, k) in
    ground (arith, equal_fold_join s t u rest_s rest_t)
equal_fold_join [] (b ∷ t) [] h k = absurd (ground (arith, k))
equal_fold_join (a ∷ s) t [] h k = absurd (ground (arith, h))
equal_fold_join [] t (c ∷ u) h k = absurd (ground (arith, h))
equal_fold_join (a ∷ s) [] (c ∷ u) h k = absurd (ground (arith, k))

-- Two scopes that are the same as a third are the same.
same_scope_join :
    (s t u : Scope) → same_scope s u ≡ true → same_scope t u ≡ true → same_scope s t ≡ true
unfolding same_scope
same_scope_join s t u h k =
    let organization =
      equal_fold_join s.organization_id t.organization_id u.organization_id
        (and→left _ _ (and→left _ _ h)) (and→left _ _ (and→left _ _ k)) in
    let source =
      equal_fold_join s.source_id t.source_id u.source_id (and→right _ _ (and→left _ _ h))
        (and→right _ _ (and→left _ _ k)) in
    rw (organization, source)
      (equal_fold_join s.snapshot_id t.snapshot_id u.snapshot_id (and→right _ _ h)
        (and→right _ _ k))

all_members-All :
    (ids l : List Str) → All (λ id. mem_str id l ≡ true) ids → all_members ids l ≡ true
all_members-All [] l h = refl
all_members-All (id ∷ ids) l h = rw h.0 (all_members-All ids l h.1)

-- A relation that is valid by itself is valid among any identifiers that hold what it needs.
validate_own-relation :
    (owners : Owners) (r : ContextRelation) (ids : List Str)
    → validate_own owners r ≡ none
    → All (λ id. mem_str id ids ≡ true) (required_ids r)
    → validate_relation owners r ids ≡ none
unfolding validate_own validate_relation
validate_own-relation owners r ids h needs =
    let (from, (to, rest)) = required_ids-All (λ id. mem_str id ids ≡ true) r needs in
    let (path, supports) = All-front (λ id. mem_str id ids ≡ true) r.path r.support_ids rest in
    let (first, h1) =
      require-then (valid_context_id owners r.id && valid_knowledge_kind r.origin)
        invalid_context_reference _ h in
    let (scope, h2) = require-then (scope_valid r.scope) invalid_context_scope _ h1 in
    let (predicate, h3) =
      require-then (owners.predicate_valid r.predicate) invalid_context_reference _ h2 in
    let (provenance, h4) = (then_iff (validate_provenance owners r.provenance r.scope) _).0 h3 in
    let (ends, h5) =
      require-then (valid_context_id owners r.from_id && valid_context_id owners r.to_id)
        invalid_context_reference _ h4 in
    let (_, h6) = require-then _ invalid_context_reference _ h5 in
    let (given, h7) =
      require-then
        (some_support r.support_ids && validate_context_ids owners r.support_ids max_context_items)
        invalid_context_reference _ h6 in
    let (_, h8) = require-then _ invalid_context_reference _ h7 in
    let (steps, h9) =
      require-then (validate_context_ids owners r.path max_context_path_nodes)
        invalid_context_reference _ h8 in
    let (joined, _) =
      require-then (joins r.path r.from_id r.to_id) invalid_context_reference _ h9 in
    rw
      (
        first,
        scope,
        predicate,
        provenance,
        ends,
        from,
        to,
        given,
        all_members-All r.support_ids ids supports,
        steps,
        joined,
        all_members-All r.path ids path,
      )
      refl

module _ {W : Type 0} where
  expected-candidate :
      (id : Str) (cs : List (ContextSelectionCandidate W)) (m : Map (ContextSelectionCandidate W))
      → is_expected (lookup id (candidates_by_id cs m)) ≡ true
      → (mem_str id (candidate_ids cs) ≡ true) ⊎ (is_expected (lookup id m) ≡ true)
  unfolding candidates_by_id
  expected-candidate id [] m h = inr h
  expected-candidate id (c ∷ cs) m h = elim (Bool-cases (str_eq c.item.id id)) [
    | inl here ↦ inl (rw here refl)
    | inr away ↦ elim (expected-candidate id cs (insert c.item.id c m) h) [
      | inl later ↦ inl (rw later (ground arith))
      | inr before ↦ inr (rw (lookup-insert c.item.id id c m, away) at before)
    ]
  ]

  -- The items that a check expects are candidates, of the scope.
  expected-All :
      (scope : Scope) (cs : List (ContextSelectionCandidate W)) (items : List ContextItem)
      → items_expected scope (candidates_by_id cs []) items ≡ none
      → All
          (λ i. (same_scope i.scope scope ≡ true) × (mem_str i.id (candidate_ids cs) ≡ true))
          items
  unfolding items_expected lookup
  expected-All scope cs [] h = tt
  expected-All scope cs (i ∷ items) h =
      let (near, h1) = require-then (same_scope i.scope scope) invalid_context_scope _ h in
      let (there, h2) =
        require-then (is_expected (lookup i.id (candidates_by_id cs []))) invalid_context _ h1 in
      let candidate : mem_str i.id (candidate_ids cs) ≡ true =
        elim (expected-candidate i.id cs [] there) [
          | inl yes' ↦ yes'
          | inr no' ↦ absurd (ground (arith, no'))
        ] in
      ((near, candidate), expected-All scope cs items h2)

no_candidate-item :
    (id : Str) (ids : List Str) (items : List ContextItem)
    → mem_str id ids ≡ false
    → All (λ i. mem_str i.id ids ≡ true) items
    → mem_str id (item_ids items) ≡ false
no_candidate-item id ids [] away h = refl
no_candidate-item id ids (i ∷ items) away h = elim (Bool-cases (str_eq i.id id)) [
  | inl same ↦
      let there = subst (λ x. mem_str x ids ≡ true) ((str_eq_iff i.id id).0 same) h.0 in
      absurd (ground (arith, there, away))
  | inr other ↦ rw other (no_candidate-item id ids items away h.1)
]

has_scope-same :
    (scope relation_scope : Scope) (items : List ContextItem)
    → All (λ i. same_scope i.scope scope ≡ true) items
    → same_scope relation_scope scope ≡ true
    → has_scope items relation_scope ≡ true
unfolding has_scope
has_scope-same scope relation_scope [] h k = refl
has_scope-same scope relation_scope (i ∷ items) h k =
    same_scope_join relation_scope i.scope scope k h.0

module _ {W : Type 0} (owners : Owners) (scope : Scope) (selection : ContextSelectionResult W)
    (cs : List (ContextSelectionCandidate W)) where
  pub relations_valid-none :
      (seen : List Str) (relations : List ContextRelation)
      → items_expected scope (candidates_by_id cs []) selection.items ≡ none
      → All (IsOwn owners scope) relations
      → All (λ r. All (Has selection) (required_ids r)) relations
      → All (λ r. mem_str r.id (candidate_ids cs) ≡ false) relations
      → ((id : Str) → occurrences (λ r. r.id) id relations + occurrences (λ s. s) id seen ≤ 1)
      → relations_valid owners selection.items seen relations ≡ none
  unfolding relations_valid
  relations_valid-none seen [] expected own needs away once = refl
  relations_valid-none seen (r ∷ relations) expected own needs away once =
      let items = expected-All scope cs selection.items expected in
      let valid = validate_own-relation owners r (item_ids selection.items) own.0.valid needs.0 in
      let near =
        has_scope-same scope r.scope selection.items (All-map (λ i h. h.0) selection.items items)
          own.0.in_scope in
      let fresh =
        occurrences-mem_str r.id seen (omega (arith, once r.id, ap one (str_eq_refl r.id))) in
      let apart =
        no_candidate-item r.id (candidate_ids cs) selection.items away.0
          (All-map (λ i h. h.1) selection.items items) in
      rw (valid, near, fresh, apart)
        (relations_valid-none (r.id ∷ seen) relations expected own.1 needs.1 away.1
          (λ id. omega (arith, once id)))
