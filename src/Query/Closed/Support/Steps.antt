-- ===== src/Query/Closed/Support/Steps.antt =====
-- What one relation does to the selection in CloseContextSupport (internal/query/context_support_closure.go).
use manu.Base.{
  sym, if◌then◌else◌, ◌≡◌, refl, ◌∙◌, ap, subst, true, Bool-cases, some, Option-cases, List, [],
  ◌∷◌, ◌++◌, Str, str_eq, inl, inr, All, All-map, All-append, arith,
}
use mathlib.Core.List.{append-nil}
use manu.Query.Context.{mem_str}
use manu.Query.Candidate.{ContextSelectionCandidate, costs_or_none}
use manu.Query.Result.{ContextSelectionResult, item_ids}
use manu.Query.Selection.{items_of}
use manu.Query.Relation.{ContextRelation, ContextRelationCandidate, required_ids}
use manu.Query.ClosureResult.{relation_ids}
use manu.Query.Closure.{
  relation_audit_of, include_audit, add_item, add_items, leave_out, take_relation,
}
use manu.Query.ClosureState.{ContextRelationAuditReason, ContextRelationAudit, Closing}
use manu.Query.Closed.Support.Lookup.{mem_str-left, mem_str-right, item_ids-append}

relation_ids-append :
    (l m : List ContextRelation) → relation_ids (l ++ m) ≡ relation_ids l ++ relation_ids m
relation_ids-append [] m = refl
relation_ids-append (r ∷ l) m = ap (λ ids. r.id ∷ ids) (relation_ids-append l m)

module _ {W : Type 0} where
  abbrev pub Has : ContextSelectionResult W → Str → Type 0
  Has s id = mem_str id (item_ids s.items) ≡ true

  -- Each relation has all that it needs among the selected items.
  abbrev pub IsSupported : ContextSelectionResult W → List ContextRelation → Type 0
  IsSupported s relations = All (λ r. All (Has s) (required_ids r)) relations

  -- The relations that the audits are about.
  abbrev pub audited_ids : List (ContextRelationAudit W) → List Str
  audited_ids [] = []
  audited_ids (a ∷ rest) = a.relation_id ∷ audited_ids rest

  -- The relations that the audits call included.
  abbrev pub included_ids : List (ContextRelationAudit W) → List Str
  included_ids [] = []
  included_ids (a ∷ rest) =
      if a.is_included then a.relation_id ∷ included_ids rest else included_ids rest

  abbrev pub relation_ids_of : List (ContextRelationCandidate W) → List Str
  relation_ids_of [] = []
  relation_ids_of (c ∷ rest) = c.relation.id ∷ relation_ids_of rest

  audited_ids-append :
      (l m : List (ContextRelationAudit W)) → audited_ids (l ++ m) ≡ audited_ids l ++ audited_ids m
  audited_ids-append [] m = refl
  audited_ids-append (a ∷ l) m = ap (λ ids. a.relation_id ∷ ids) (audited_ids-append l m)

  included_ids-append :
      (l m : List (ContextRelationAudit W))
      → included_ids (l ++ m) ≡ included_ids l ++ included_ids m
  included_ids-append [] m = refl
  included_ids-append (a ∷ l) m = elim (Bool-cases a.is_included) [
    | inl yes' ↦ rw yes' (ap (λ ids. a.relation_id ∷ ids) (included_ids-append l m))
    | inr no' ↦ rw no' (included_ids-append l m)
  ]

  -- The relations are those that the audits call included, in their order.
  abbrev pub Agrees : List ContextRelation → List (ContextRelationAudit W) → Type 0
  Agrees relations audits = relation_ids relations ≡ included_ids audits

  -- The step of the candidates `cs` keeps what is selected, and the support of what is added.
  pub record IsStep (cs : List (ContextRelationCandidate W)) (s s' : Closing W) : Type 0 where
    pub audited : audited_ids s'.audits ≡ audited_ids s.audits ++ relation_ids_of cs
    pub agrees : Agrees s.relations s.audits → Agrees s'.relations s'.audits
    pub kept : (id : Str) → Has s.selection id → Has s'.selection id
    pub supported : IsSupported s.selection s.relations → IsSupported s'.selection s'.relations

  pub leave_out-IsStep :
      (c : ContextRelationCandidate W) (reason : ContextRelationAuditReason) (ids : List Str)
      (s : Closing W)
      → IsStep (c ∷ []) s (leave_out c reason ids s)
  unfolding leave_out relation_audit_of
  leave_out-IsStep c reason ids s = record {
    audited = audited_ids-append s.audits _;
    agrees =
        λ h. h ∙ sym (append-nil (included_ids s.audits)) ∙ sym (included_ids-append s.audits _);
    kept = λ id h. h;
    supported = λ h. h;
  }

  add_item-items :
      (c : ContextSelectionCandidate W) (s t : ContextSelectionResult W)
      → add_item c s ≡ some t
      → t.items ≡ s.items ++ c.item ∷ []
  unfolding add_item
  add_item-items c s t h = elim (Option-cases (include_audit c.item.id (costs_or_none c) s.audit)) [
    | inl absent ↦ absurd (ground (arith, rw (absent, add_item) at h))
    | inr (audits, found) ↦ ground (arith, rw (found, add_item) at h)
  ]

  pub add_items-Has :
      (cs : List (ContextSelectionCandidate W)) (s t : ContextSelectionResult W)
      → add_items cs s ≡ some t
      → ((id : Str) → Has s id → Has t id)
        × ((id : Str) → mem_str id (item_ids (items_of cs)) ≡ true → Has t id)
  unfolding add_items
  add_items-Has [] s t h =
      let same : s.items ≡ t.items = ground (arith, h) in
      (
        λ id k. subst (λ l. mem_str id (item_ids l) ≡ true) same k,
        λ id k. absurd (ground (arith, k)),
      )
  add_items-Has (c ∷ cs) s t h = elim (Option-cases (add_item c s)) [
    | inl absent ↦ absurd (ground (arith, rw (absent, add_items) at h))
    | inr (u, added) ↦
        let (kept, new) = add_items-Has cs u t (rw (added, add_items) at h) in
        let items = add_item-items c s u added in
        let ids : item_ids u.items ≡ item_ids s.items ++ c.item.id ∷ [] =
          ap item_ids items ∙ item_ids-append s.items (c.item ∷ []) in
        (
          λ id k.
              kept id (ap (mem_str id) ids ∙ mem_str-left id (item_ids s.items) (c.item.id ∷ []) k),
          λ id k. elim (Bool-cases (str_eq c.item.id id)) [
            | inl here ↦ kept id (
                ap (mem_str id) ids
                ∙ mem_str-right id (item_ids s.items) (c.item.id ∷ []) (rw here refl))
            | inr away ↦ new id (rw away at k)
          ],
        )
  ]

  pub take_relation-IsStep :
      (c : ContextRelationCandidate W) (t : ContextSelectionResult W) (s : Closing W)
      → ((id : Str) → Has s.selection id → Has t id)
      → All (Has t) (required_ids c.relation)
      → IsStep (c ∷ []) s (take_relation c t s)
  unfolding take_relation relation_audit_of
  take_relation-IsStep c t s kept needs = record {
    audited = audited_ids-append s.audits _;
    agrees = λ h.
        relation_ids-append s.relations (c.relation ∷ [])
        ∙ ap (λ ids. ids ++ c.relation.id ∷ []) h
        ∙ sym (included_ids-append s.audits _);
    kept = kept;
    supported = λ h.
        All-append (λ r. All (Has t) (required_ids r)) s.relations (c.relation ∷ [])
          (All-map (λ r k. All-map kept (required_ids r) k) s.relations h) (needs, tt);
  }
