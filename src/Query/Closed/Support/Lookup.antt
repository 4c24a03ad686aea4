-- ===== src/Query/Closed/Support/Lookup.antt =====
-- What the loops of CloseContextSupport (internal/query/context_support_closure.go) find missing.
use manu.Base.{
  ◌≡◌, refl, ◌∙◌, ap, subst, true, false, Bool-cases, not, ◌||◌, some, Option-cases, List, [], ◌∷◌,
  ◌++◌, Str, str_eq_refl, ◌⊎◌, inl, inr, All, arith, Map, lookup, insert, lookup-insert-cases,
}
use manu.Base.Run.{done, done-value, then-done}
use manu.Query.Check.{Polls, is_nil}
use manu.Query.Context.{Scope, ContextItem, Owners, mem_str}
use manu.Query.Context.Validate.{scope_valid, same_scope, validate_item}
use manu.Query.Utility.{Float}
use manu.Query.Candidate.{ContextSelectionCandidate}
use manu.Query.Result.{item_ids, candidates_by_id}
use manu.Query.Selection.{items_of}
use manu.Query.Closure.{look_for, look_for_all}
use manu.Query.ClosureState.{Missing}

pub mem_str-left : (id : Str) (l m : List Str) → mem_str id l ≡ true → mem_str id (l ++ m) ≡ true
mem_str-left id [] m h = absurd (ground arith)
mem_str-left id (x ∷ l) m h = ground (arith, mem_str-left id l m)

pub mem_str-right : (id : Str) (l m : List Str) → mem_str id m ≡ true → mem_str id (l ++ m) ≡ true
mem_str-right id [] m h = h
mem_str-right id (x ∷ l) m h = ground (arith, mem_str-right id l m h)

pub item_ids-append : (l m : List ContextItem) → item_ids (l ++ m) ≡ item_ids l ++ item_ids m
item_ids-append [] m = refl
item_ids-append (i ∷ l) m = ap (λ ids. i.id ∷ ids) (item_ids-append l m)

pub no_entry_named :
    {W : Type 0} (id : Str) (d : ContextSelectionCandidate W)
    → lookup id [] ≡ some d
    → d.item.id ≡ id
unfolding lookup
no_entry_named id d h = absurd (ground (arith, h))

module _ {W : Type 0} where
  abbrev pub ids_of : List (ContextSelectionCandidate W) → List Str
  ids_of cs = item_ids (items_of cs)

  items_of-append :
      (l m : List (ContextSelectionCandidate W)) → items_of (l ++ m) ≡ items_of l ++ items_of m
  items_of-append [] m = refl
  items_of-append (c ∷ l) m = ap (λ items. c.item ∷ items) (items_of-append l m)

  ids_of-append :
      (l m : List (ContextSelectionCandidate W)) → ids_of (l ++ m) ≡ ids_of l ++ ids_of m
  ids_of-append l m = ap item_ids (items_of-append l m) ∙ item_ids-append (items_of l) (items_of m)

  still_there :
      (id : Str) (c : ContextSelectionCandidate W) (l : List (ContextSelectionCandidate W))
      → mem_str id (ids_of l) ≡ true
      → mem_str id (ids_of (l ++ c ∷ [])) ≡ true
  still_there id c l h =
      ap (mem_str id) (ids_of-append l (c ∷ [])) ∙ mem_str-left id (ids_of l) (c.item.id ∷ []) h

  now_there :
      (c : ContextSelectionCandidate W) (l : List (ContextSelectionCandidate W))
      → mem_str c.item.id (ids_of (l ++ c ∷ [])) ≡ true
  now_there c l =
      ap (mem_str c.item.id) (ids_of-append l (c ∷ []))
      ∙ mem_str-right c.item.id (ids_of l) (c.item.id ∷ []) (rw (str_eq_refl c.item.id) refl)

  -- A candidate stands in the map under its own identifier.
  pub lookup-named :
      (cs : List (ContextSelectionCandidate W)) (m : Map (ContextSelectionCandidate W)) (id : Str)
      (c : ContextSelectionCandidate W)
      → ((d : ContextSelectionCandidate W) → lookup id m ≡ some d → d.item.id ≡ id)
      → lookup id (candidates_by_id cs m) ≡ some c
      → c.item.id ≡ id
  unfolding candidates_by_id
  lookup-named [] m id c named h = named c h
  lookup-named (x ∷ cs) m id c named h =
      lookup-named cs (insert x.item.id x m) id c
        (λ d k. elim (lookup-insert-cases x.item.id id x m k) [
          | inl (same, equal) ↦ subst (λ e. e.item.id ≡ id) equal same
          | inr before ↦ named d before
        ])
        h

  -- What is needed is selected, or among the items that are missing.
  abbrev pub Covered : List Str → Missing W → Str → Type 0
  Covered selected m id = (mem_str id selected ≡ true) ⊎ (mem_str id (ids_of m.items) ≡ true)

  pub record Extends (m r : Missing W) : Type 0 where
    pub support : r.support ≡ false → m.support ≡ false
    pub outside : r.outside ≡ false → m.outside ≡ false
    pub items : (id : Str) → mem_str id (ids_of m.items) ≡ true → mem_str id (ids_of r.items) ≡ true

  Extends-refl : (m : Missing W) → Extends m m
  Extends-refl m = record { support = λ h. h; outside = λ h. h; items = λ id h. h }

module _ {W : Type 0} ⦃f : Float W⦄ (owners : Owners) (scope : Scope)
    (candidates : Map (ContextSelectionCandidate W)) (selected : List Str) where
  record Looked (id : Str) (m r : Missing W) : Type 0 where
    extends : Extends m r
    covers : r.support ≡ false → r.outside ≡ false → Covered selected r id

  look_for-Looked :
      (id : Str) (m : Missing W)
      → ((c : ContextSelectionCandidate W) → lookup id candidates ≡ some c → c.item.id ≡ id)
      → Looked id m (look_for owners scope candidates selected id m)
  unfolding look_for
  look_for-Looked id m named = elim (Bool-cases (mem_str id selected)) [
    | inl here ↦ rw here (record { extends = Extends-refl m; covers = λ h k. inl here })
    | inr away ↦ elim (Option-cases (lookup id candidates)) [
      | inl absent ↦
          rw (away, absent)
            (record {
              extends = record {
                support = λ h. absurd (ground (arith, h));
                outside = λ h. h;
                items = λ id' h. h;
              };
              covers = λ h k. absurd (ground (arith, h));
            })
      | inr (c, found) ↦
          elim (Bool-cases
            (not (scope_valid c.item.scope) || not (same_scope c.item.scope scope))) [
              | inl far ↦
                  rw (away, found, far)
                    (record {
                      extends = record {
                        support = λ h. h;
                        outside = λ h. absurd (ground (arith, h));
                        items = λ id' h. h;
                      };
                      covers = λ h k. absurd (ground (arith, k));
                    })
              | inr near ↦ elim (Bool-cases (is_nil (validate_item owners c.item))) [
                | inr invalid ↦
                    rw (away, found, near, invalid)
                      (record {
                        extends = record {
                          support = λ h. absurd (ground (arith, h));
                          outside = λ h. h;
                          items = λ id' h. h;
                        };
                        covers = λ h k. absurd (ground (arith, h));
                      })
                | inl valid ↦
                    rw (away, found, near, valid)
                      (record {
                        extends = record {
                          support = λ h. h;
                          outside = λ h. h;
                          items = λ id' h. still_there id' c m.items h;
                        };
                        covers = λ h k. inr (
                            subst (λ x. mem_str x (ids_of (m.items ++ c ∷ [])) ≡ true)
                              (named c found) (now_there c m.items));
                      })
              ]
            ]
    ]
  ]

  pub record AllLooked (ids : List Str) (m r : Missing W) : Type 0 where
    pub extends : Extends m r
    pub covers : r.support ≡ false → r.outside ≡ false → All (Covered selected r) ids

  pub look_for_all-AllLooked :
      (ids : List Str) (m : Missing W) (p : Polls) {q : Polls} {r : Missing W}
      → ((id : Str) (c : ContextSelectionCandidate W)
          → lookup id candidates ≡ some c
          → c.item.id ≡ id)
      → look_for_all owners scope candidates selected ids m p ≡ done r q
      → AllLooked ids m r
  unfolding look_for_all
  look_for_all-AllLooked [] m p named h =
      subst (AllLooked [] m) (done-value h)
        (record { extends = Extends-refl m; covers = λ k l. tt })
  look_for_all-AllLooked (id ∷ ids) m p {r = r} named h =
      let (_, p1, _, h1) = then-done _ _ p h in
      let first = look_for-Looked id m (named id) in
      let rest =
        look_for_all-AllLooked ids (look_for owners scope candidates selected id m) p1 named h1 in
      record {
        extends = record {
          support = λ k. first.extends.support (rest.extends.support k);
          outside = λ k. first.extends.outside (rest.extends.outside k);
          items = λ x k. rest.extends.items x (first.extends.items x k);
        };
        covers = λ k l. (
          elim (first.covers (rest.extends.support k) (rest.extends.outside l)) [
            | inl here ↦ inl here
            | inr there ↦ inr (rest.extends.items id there)
          ],
          rest.covers k l,
        );
      }
