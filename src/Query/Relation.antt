-- ===== src/Query/Relation.antt =====
-- ContextRelation of internal/query/context.go and the relation candidates of
-- context_support_closure.go, with their validation and their order.
use manu.Base.{
  ℕ, ℤ, pos, is_negative, ltb_ℤ, Bool, true, false, not, ◌&&◌, Option, none, some, List, [], ◌∷◌,
  ◌++◌, Str, str_eq, str_lt, if◌then◌else◌, sorted,
}
use manu.Query.Check.{
  Check, require, ◌then◌, invalid_context, invalid_context_scope, invalid_context_reference,
}
use manu.Query.Context.{
  Scope, Reference, ContextProvenance, ContextKnowledgeKind, observed, derived, generated, curated,
  other_origin, Owners, mem_str, max_context_items,
}
use manu.Query.Context.Validate.{
  scope_valid, valid_knowledge_kind, valid_context_id, validate_context_ids, validate_provenance,
}
use manu.Query.Utility.{Float, finite}
use manu.Query.Candidate.{
  Costs, three, resolve_selection_cost, bounded, max_context_selection_candidates,
  max_context_selection_score,
}

pub record ContextRelation : Type 0 where
  pub id : Str
  pub predicate : Str
  pub origin : ContextKnowledgeKind
  pub scope : Scope
  pub from_id : Str
  pub to_id : Str
  pub path : List Str
  pub support_ids : List Str
  pub provenance : ContextProvenance

abbrev pub max_context_relations : ℕ
max_context_relations = 10000

abbrev pub max_context_path_nodes : ℕ
max_context_path_nodes = 1024

abbrev pub all_members : List Str → List Str → Bool
all_members [] ids = true
all_members (id ∷ rest) ids = mem_str id ids && all_members rest ids

abbrev ends_at : Str → List Str → Str → Bool
ends_at part [] id = str_eq part id
ends_at part (next ∷ parts) id = ends_at next parts id

-- A path, where there is one, leads from the one end to the other.
abbrev pub joins : List Str → Str → Str → Bool
joins [] from to = true
joins (first ∷ rest) from to = str_eq first from && ends_at first rest to

abbrev pub some_support : List Str → Bool
some_support [] = false
some_support (id ∷ ids) = true

module _ (owners : Owners) where
  unfoldable pub validate_relation : ContextRelation → List Str → Check
  unfolding valid_context_id scope_valid validate_provenance validate_context_ids
  validate_relation r ids =
      require (valid_context_id owners r.id && valid_knowledge_kind r.origin)
        invalid_context_reference
      then require (scope_valid r.scope) invalid_context_scope
      then require (owners.predicate_valid r.predicate) invalid_context_reference
      then validate_provenance owners r.provenance r.scope
      then require (valid_context_id owners r.from_id && valid_context_id owners r.to_id)
          invalid_context_reference
      then require (mem_str r.from_id ids && mem_str r.to_id ids) invalid_context_reference
      then require
          (some_support r.support_ids
            && validate_context_ids owners r.support_ids max_context_items)
          invalid_context_reference
      then require (all_members r.support_ids ids) invalid_context_reference
      then require (validate_context_ids owners r.path max_context_path_nodes)
          invalid_context_reference
      then require (joins r.path r.from_id r.to_id) invalid_context_reference
      then require (all_members r.path ids) invalid_context_reference

  -- The relation by itself: what it names is taken to be there.
  unfoldable pub validate_own : ContextRelation → Check
  unfolding validate_relation
  validate_own r = validate_relation r (r.from_id ∷ r.to_id ∷ r.path ++ r.support_ids)

-- relationRequiredIDs: what a relation needs, each once, in the order in which it names it.
abbrev pub add_required : List Str → List Str → List Str
add_required required [] = required
add_required required (id ∷ rest) =
    add_required (if mem_str id required then required else required ++ id ∷ []) rest

unfoldable pub required_ids : ContextRelation → List Str
required_ids r = add_required [] (r.from_id ∷ r.to_id ∷ r.path ++ r.support_ids)

pub record ContextRelationCandidate (W : Type 0) : Type 0 where
  pub relation : ContextRelation
  pub score : W
  pub rank : ℤ
  pub token_cost : ℤ
  pub character_cost : ℤ
  pub byte_cost : ℤ
  pub tokens : ℤ
  pub characters : ℤ
  pub bytes : ℤ

unfoldable pub relation_costs : {W : Type 0} → ContextRelationCandidate W → Option Costs
unfolding resolve_selection_cost
relation_costs c =
    three (resolve_selection_cost c.token_cost c.tokens)
      (resolve_selection_cost c.character_cost c.characters)
      (resolve_selection_cost c.byte_cost c.bytes)

abbrev pub rank_valid : ℤ → Bool
rank_valid rank = not (is_negative rank) && not (ltb_ℤ (pos max_context_selection_candidates) rank)

module _ {W : Type 0} ⦃f : Float W⦄ where
  unfoldable pub score_valid : W → Bool
  unfolding finite
  score_valid w =
      finite w && not (f.lt w (f.of_nat 0)) && not (f.lt (f.of_nat max_context_selection_score) w)

  unfoldable pub relation_metadata : Owners → ContextRelationCandidate W → Check
  unfolding valid_context_id relation_costs score_valid
  relation_metadata owners c =
      require (valid_context_id owners c.relation.id) invalid_context_reference
      then require (score_valid c.score && rank_valid c.rank && bounded (relation_costs c))
          invalid_context

  unfoldable pub validate_relation_candidate : Owners → ContextRelationCandidate W → Check
  unfolding relation_metadata validate_own
  validate_relation_candidate owners c =
      relation_metadata owners c then validate_own owners c.relation

  unfoldable pub relation_before : ContextRelationCandidate W → ContextRelationCandidate W → Bool
  relation_before l r =
      if not (f.eq l.score r.score)
      then f.lt r.score l.score
      else if ltb_ℤ l.rank r.rank
      then true
      else if ltb_ℤ r.rank l.rank
      then false
      else str_lt l.relation.id r.relation.id

  -- sortedRelationCandidates
  unfoldable pub sorted_relations :
      List (ContextRelationCandidate W) → List (ContextRelationCandidate W)
  unfolding sorted relation_before
  sorted_relations = sorted relation_before

-- reflect.DeepEqual on relations.
abbrev pub same_texts : List Str → List Str → Bool
same_texts [] [] = true
same_texts (s ∷ ss) (t ∷ ts) = str_eq s t && same_texts ss ts
same_texts _ _ = false

abbrev pub same_option : Option Str → Option Str → Bool
same_option none none = true
same_option (some s) (some t) = str_eq s t
same_option _ _ = false

abbrev pub same_references : List Reference → List Reference → Bool
same_references [] [] = true
same_references (r ∷ rs) (s ∷ ss) =
    str_eq r.id s.id && str_eq r.content s.content && same_references rs ss
same_references _ _ = false

abbrev pub same_origin : ContextKnowledgeKind → ContextKnowledgeKind → Bool
same_origin observed observed = true
same_origin derived derived = true
same_origin generated generated = true
same_origin curated curated = true
same_origin (other_origin s) (other_origin t) = str_eq s t
same_origin _ _ = false

unfoldable pub same_relation : ContextRelation → ContextRelation → Bool
same_relation l r =
    str_eq l.id r.id
    && str_eq l.predicate r.predicate
    && same_origin l.origin r.origin
    && str_eq l.scope.organization_id r.scope.organization_id
    && str_eq l.scope.source_id r.scope.source_id
    && str_eq l.scope.snapshot_id r.scope.snapshot_id
    && str_eq l.from_id r.from_id
    && str_eq l.to_id r.to_id
    && same_texts l.path r.path
    && same_texts l.support_ids r.support_ids
    && same_option l.provenance.producer r.provenance.producer
    && same_option l.provenance.lineage r.provenance.lineage
    && same_references l.provenance.evidence r.provenance.evidence
