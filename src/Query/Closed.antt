-- ===== src/Query/Closed.antt =====
-- The request of a support closure, the check of a result against it, and the whole of
-- CloseContextSupport in internal/query/context_support_closure.go.
pub mod Support
pub mod Aligned
pub mod Audited
pub mod Agreed
pub mod Related
pub mod SelfCheck
pub mod Composed
mod Examples
use manu.Base.{
  ℕ, suc, ◌+◌, ltb, leb, ◌==◌, ℤ, pos, ltb_ℤ, Bool, true, false, not, ◌&&◌, ◌||◌, Option, none,
  some, List, [], ◌∷◌, ◌++◌, length, Str, str_eq, if◌then◌else◌, Map, lookup, insert, is_negative,
}
use manu.Query.Check.{
  Run, Check, require, ◌then◌, ensure, give, poll, ◌>>=◌, ◌>>◌, invalid_context,
  invalid_context_budget, invalid_context_scope, invalid_context_reference,
}
use manu.Query.Context.{
  Scope, ContextItem, ContextLimits, Owners, mem_str, max_context_items, max_context_tokens,
  max_context_characters, max_context_bytes,
}
use manu.Query.Context.Validate.{same_scope, valid_context_id, validate_context_ids}
use manu.Query.Utility.{Float, ContextUtilityConfiguration}
use manu.Query.Candidate.{
  ContextSelectionCandidate, ContextSelectionRequest, Costs, or_no_costs, validate_request,
}
use manu.Query.Result.{
  ContextSelectionResult, same_answer, item_ids, validate_result, validate_against,
}
use manu.Query.Selection.{any_budget}
use manu.Query.Relation.{
  ContextRelation, ContextRelationCandidate, max_context_relations, rank_valid, score_valid,
  relation_costs, relation_metadata, validate_relation, sorted_relations, same_relation,
}
use manu.Query.Closure.{close_relations}
use manu.Query.ClosureState.{
  ContextSupportClosureRequest, ContextRelationAuditReason, relation_included, missing_support,
  over_relation_budget, undecided, ContextRelationAudit, ContextSupportClosureResult, Closing,
}
use manu.Query.ClosureResult.{first_tally, no_ids, relation_ids, closure_result, validate_closure}

unfoldable pub find_relation : Str → List ContextRelation → Option ContextRelation
find_relation id [] = none
find_relation id (r ∷ rest) = if str_eq r.id id then some r else find_relation id rest

unfoldable pub is_same : Option ContextRelation → ContextRelation → Bool
unfolding same_relation
is_same none r = false
is_same (some found) r = same_relation found r

abbrev pub no_relations : List ContextRelation → Bool
no_relations [] = true
no_relations (r ∷ rest) = false

abbrev pub starts_with : Str → List ContextRelation → Bool
starts_with id [] = false
starts_with id (r ∷ rest) = str_eq r.id id

abbrev pub rest_of : List ContextRelation → List ContextRelation
rest_of [] = []
rest_of (r ∷ rest) = rest

abbrev pub same_costs : {W : Type 0} → ContextRelationAudit W → Option Costs → Bool
same_costs a none = false
same_costs a (some k) =
    a.token_cost == k.tokens && a.character_cost == k.characters && a.byte_cost == k.bytes

abbrev pub candidate_ids : {W : Type 0} → List (ContextSelectionCandidate W) → List Str
candidate_ids [] = []
candidate_ids (c ∷ rest) = c.item.id ∷ candidate_ids rest

module _ {W : Type 0} ⦃f : Float W⦄ (owners : Owners)
    (hash : ContextUtilityConfiguration W → Str) where
  -- The relation candidates, with what the request's items and the earlier ones are called.
  unfoldable pub relation_candidates_valid :
      List Str → List Str → List (ContextRelationCandidate W) → Check
  unfolding relation_metadata
  relation_candidates_valid ids seen [] = none
  relation_candidates_valid ids seen (c ∷ rest) =
      relation_metadata owners c
      then require (not (mem_str c.relation.id seen)) invalid_context
      then require (not (mem_str c.relation.id ids)) invalid_context
      then relation_candidates_valid ids (c.relation.id ∷ seen) rest

  unfoldable pub validate_closure_request : ContextSupportClosureRequest W → Check
  unfolding validate_request validate_against relation_candidates_valid
  validate_closure_request r =
      validate_request owners hash r.request
      then validate_against owners hash r.base r.request
      then require (leb (length r.relations) max_context_relations) invalid_context
      then relation_candidates_valid (candidate_ids r.request.candidates) [] r.relations

  -- The audits against the ordered candidates, each at its place. `next` are the relations of the
  -- result that no included audit has met.
  unfoldable pub relation_audits_agree :
      List ContextRelation
      → List ContextRelation
      → List Str
      → List (ContextRelationCandidate W)
      → List (ContextRelationAudit W)
      → Check
  unfolding relation_costs is_same find_relation
  relation_audits_agree all next seen [] [] = require (no_relations next) invalid_context
  relation_audits_agree all next seen (c ∷ ordered) (a ∷ audits) =
      require (str_eq a.relation_id c.relation.id && not (mem_str a.relation_id seen))
        invalid_context
      then require
          (same_costs a (relation_costs c)
            && not (ltb_ℤ a.rank c.rank)
            && not (ltb_ℤ c.rank a.rank)
            && f.eq a.score c.score)
          invalid_context
      then (if a.is_included
          then require
              (starts_with c.relation.id next
                && is_same (find_relation c.relation.id all) c.relation
                && no_ids a.missing_ids)
              invalid_context
          else require (not (mem_str c.relation.id (relation_ids all))) invalid_context)
      then relation_audits_agree all (if a.is_included then rest_of next else next)
          (a.relation_id ∷ seen) ordered audits
  relation_audits_agree all next seen _ _ = some invalid_context

  unfoldable pub validate_closure_against :
      ContextSupportClosureResult W → ContextSupportClosureRequest W → Check
  unfolding validate_closure_request validate_closure validate_against sorted_relations
      relation_audits_agree
  validate_closure_against r request =
      let limits = request.request.limits in
      validate_closure_request request
      then validate_closure owners hash r
      then validate_against owners hash r.selection request.request
      then require
          (not (ltb_ℤ limits.max_items (pos r.item_count))
            && not (ltb_ℤ limits.max_tokens (pos r.token_estimate))
            && not (ltb_ℤ limits.max_characters (pos r.characters_used))
            && not (ltb_ℤ limits.max_bytes (pos r.bytes_used)))
          invalid_context_budget
      then relation_audits_agree r.relations r.relations [] (sorted_relations request.relations)
          r.relation_audit

  -- All but the check of the result.
  unfoldable pub closure : ContextSupportClosureRequest W → Run (ContextSupportClosureResult W)
  unfolding validate_closure_request sorted_relations close_relations validate_against
      closure_result any_budget
  closure request =
      poll
      >> (ensure (validate_closure_request request)
          >> (close_relations owners request.request (sorted_relations request.relations)
                (record { selection = request.base; relations = []; audits = [] })
              >>= λ s.
                  (let selection = record s.selection {
                    budget_exhausted = any_budget s.selection.audit;
                  } in
                    ensure (validate_against owners hash selection request.request)
                    >> give (closure_result s selection))))

  unfoldable pub close_context_support :
      ContextSupportClosureRequest W → Run (ContextSupportClosureResult W)
  unfolding closure validate_closure_against
  close_context_support request =
      closure request >>= λ result. ensure (validate_closure_against result request) >> give result
