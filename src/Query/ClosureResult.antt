-- ===== src/Query/ClosureResult.antt =====
-- The result of CloseContextSupport in internal/query/context_support_closure.go, and its checks without
-- the request.
use manu.Base.{
  ℕ, suc, ◌+◌, leb, ◌==◌, Bool, true, false, not, ◌&&◌, ◌||◌, none, List, [], ◌∷◌, length, Str,
  if◌then◌else◌,
}
use manu.Query.Check.{
  Check, require, ◌then◌, invalid_context, invalid_context_scope, invalid_context_reference,
}
use manu.Query.Context.{
  Scope, ContextItem, Owners, mem_str, max_context_items, max_context_tokens,
  max_context_characters, max_context_bytes,
}
use manu.Query.Context.Validate.{same_scope, valid_context_id, validate_context_ids}
use manu.Query.Utility.{Float, ContextUtilityConfiguration}
use manu.Query.Result.{ContextSelectionResult, same_answer, item_ids, validate_result}
use manu.Query.Relation.{
  ContextRelation, max_context_relations, rank_valid, score_valid, validate_relation,
}
use manu.Query.ClosureState.{
  ContextRelationAuditReason, relation_included, missing_support, over_relation_budget, undecided,
  ContextRelationAudit, ContextSupportClosureResult, Closing,
}

abbrev pub says_included : ContextRelationAuditReason → Bool
says_included relation_included = true
says_included _ = false

abbrev pub is_decided : ContextRelationAuditReason → Bool
is_decided undecided = false
is_decided _ = true

abbrev pub says_missing : ContextRelationAuditReason → Bool
says_missing missing_support = true
says_missing _ = false

abbrev pub says_over : ContextRelationAuditReason → Bool
says_over over_relation_budget = true
says_over _ = false

abbrev pub no_ids : List Str → Bool
no_ids [] = true
no_ids (id ∷ ids) = false

abbrev pub relation_ids : List ContextRelation → List Str
relation_ids [] = []
relation_ids (r ∷ rest) = r.id ∷ relation_ids rest

-- The sums over the included audits and what the others say.
pub record RelationTally : Type 0 where
  pub included_count : ℕ
  pub tokens : ℕ
  pub characters : ℕ
  pub bytes : ℕ
  pub incomplete : Bool
  pub exhausted : Bool

abbrev pub first_tally : Bool → RelationTally
first_tally exhausted = record {
  included_count = 0;
  tokens = 0;
  characters = 0;
  bytes = 0;
  incomplete = false;
  exhausted = exhausted;
}

unfoldable pub has_scope : List ContextItem → Scope → Bool
unfolding same_scope
has_scope [] scope = true
has_scope (i ∷ rest) scope = same_scope scope i.scope

module _ {W : Type 0} where
  unfoldable pub count_relation : RelationTally → ContextRelationAudit W → RelationTally
  count_relation t a =
      if a.is_included
      then record t {
        included_count = suc t.included_count;
        tokens = t.tokens + a.token_cost;
        characters = t.characters + a.character_cost;
        bytes = t.bytes + a.byte_cost;
      }
      else record t {
        incomplete = t.incomplete || says_missing a.reason;
        exhausted = t.exhausted || says_over a.reason;
      }

  unfoldable pub relation_tally : RelationTally → List (ContextRelationAudit W) → RelationTally
  unfolding count_relation
  relation_tally t [] = t
  relation_tally t (a ∷ rest) = relation_tally (count_relation t a) rest

  -- The result, of the selection and the loop's end. Its costs are those of the items and of the
  -- relations.
  unfoldable pub closure_result :
      Closing W → ContextSelectionResult W → ContextSupportClosureResult W
  unfolding relation_tally
  closure_result s selection =
      let t = relation_tally (first_tally false) s.audits in
      record {
        selection = selection;
        relations = s.relations;
        relation_audit = s.audits;
        item_count = length selection.items;
        relation_count = length s.relations;
        total_count = length selection.items + length s.relations;
        token_estimate = selection.token_estimate + t.tokens;
        characters_used = selection.characters_used + t.characters;
        bytes_used = selection.bytes_used + t.bytes;
        support_incomplete = t.incomplete;
        budget_exhausted = t.exhausted || selection.budget_exhausted;
      }

module _ (owners : Owners) where
  -- Each relation is supported by the items, of their scope, and of an identifier of its own.
  unfoldable pub relations_valid : List ContextItem → List Str → List ContextRelation → Check
  unfolding validate_relation has_scope
  relations_valid items seen [] = none
  relations_valid items seen (r ∷ rest) =
      validate_relation owners r (item_ids items)
      then require (has_scope items r.scope) invalid_context_scope
      then require (not (mem_str r.id seen)) invalid_context
      then require (not (mem_str r.id (item_ids items))) invalid_context
      then relations_valid items (r.id ∷ seen) rest

module _ {W : Type 0} ⦃f : Float W⦄ (owners : Owners) where
  unfoldable pub validate_relation_audit : ContextRelationAudit W → Check
  unfolding valid_context_id validate_context_ids score_valid
  validate_relation_audit a =
      require
        (valid_context_id owners a.relation_id
          && rank_valid a.rank
          && score_valid a.score
          && leb a.token_cost max_context_tokens
          && leb a.character_cost max_context_characters
          && leb a.byte_cost max_context_bytes)
        invalid_context_reference
      then require (validate_context_ids owners a.missing_ids max_context_items)
          invalid_context_reference
      then require (same_answer a.is_included (says_included a.reason)) invalid_context_reference
      then require (not (says_included a.reason) || no_ids a.missing_ids) invalid_context_reference
      then require (is_decided a.reason) invalid_context_reference

  unfoldable pub relation_audits_valid : List Str → List Str → List (ContextRelationAudit W) → Check
  unfolding validate_relation_audit
  relation_audits_valid ids seen [] = none
  relation_audits_valid ids seen (a ∷ rest) =
      validate_relation_audit a
      then require (not (mem_str a.relation_id seen)) invalid_context
      then require (same_answer a.is_included (mem_str a.relation_id ids)) invalid_context
      then relation_audits_valid ids (a.relation_id ∷ seen) rest

  module _ (hash : ContextUtilityConfiguration W → Str) where
    unfoldable pub validate_closure : ContextSupportClosureResult W → Check
    unfolding validate_result relations_valid relation_audits_valid relation_tally
    validate_closure r =
        let t = relation_tally (first_tally r.selection.budget_exhausted) r.relation_audit in
        validate_result owners hash r.selection
        then require
            (leb (length r.relations) max_context_relations
              && leb (length r.relation_audit) max_context_relations)
            invalid_context
        then require
            (r.item_count == length r.selection.items
              && r.relation_count == length r.relations
              && r.total_count == r.item_count + r.relation_count)
            invalid_context
        then relations_valid owners r.selection.items [] r.relations
        then relation_audits_valid (relation_ids r.relations) [] r.relation_audit
        then require (t.included_count == length r.relations) invalid_context
        then require
            (same_answer r.support_incomplete t.incomplete
              && same_answer r.budget_exhausted t.exhausted)
            invalid_context
        then require
            (r.token_estimate == r.selection.token_estimate + t.tokens
              && r.characters_used == r.selection.characters_used + t.characters
              && r.bytes_used == r.selection.bytes_used + t.bytes)
            invalid_context
