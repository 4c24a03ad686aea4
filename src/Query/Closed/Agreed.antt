-- ===== src/Query/Closed/Agreed.antt =====
-- The audits and relations of a support closure pass the loop over them in
-- ContextSupportClosureResult.ValidateAgainst (internal/query/context_support_closure.go).
use manu.Base.{
  ◌≡◌, refl, ap, ◌+◌, ◌≤◌, ltb_ℤ, ℤ, true, false, Option, none, some, List, [], ◌∷◌, Str, str_eq,
  str_eq_refl, str_eq_symm, All, All-map, All-both, arith, one, total_bounds, occurrences,
}
use manu.Query.Context.{
  Scope, Owners, Reference, ContextKnowledgeKind, observed, derived, generated, curated,
  other_origin,
}
use manu.Query.Utility.{Float, IsFloat, finite, ContextUtilityConfiguration}
use manu.Query.Candidate.{bounded, or_no_costs}
use manu.Query.Selection.Flagged.{occurrences-mem_str}
use manu.Query.Selection.Audits.{bounded-some}
use manu.Query.Relation.{
  ContextRelation, ContextRelationCandidate, relation_costs, score_valid, same_relation, same_texts,
  same_option, same_references, same_origin,
}
use manu.Query.ClosureState.{ContextRelationAudit}
use manu.Query.Closure.{relation_audit_of}
use manu.Query.ClosureResult.{relation_ids}
use manu.Query.Closed.{find_relation, is_same, same_costs, relation_audits_agree}
use manu.Query.Closed.Aligned.{
  left_audit, taken_audit, Aligned, nothing, left, took, relation_id, relations-among,
}
use manu.Query.Closed.Audited.{IsFit, metadata-IsMeasured}

same_texts_refl : (l : List Str) → same_texts l l ≡ true
same_texts_refl [] = refl
same_texts_refl (s ∷ l) = rw (str_eq_refl s) (same_texts_refl l)

same_option_refl : (o : Option Str) → same_option o o ≡ true
same_option_refl none = refl
same_option_refl (some s) = str_eq_refl s

same_references_refl : (l : List Reference) → same_references l l ≡ true
same_references_refl [] = refl
same_references_refl (r ∷ l) = rw (str_eq_refl r.id, str_eq_refl r.content) (same_references_refl l)

same_origin_refl : (o : ContextKnowledgeKind) → same_origin o o ≡ true
same_origin_refl observed = refl
same_origin_refl derived = refl
same_origin_refl generated = refl
same_origin_refl curated = refl
same_origin_refl (other_origin s) = str_eq_refl s

same_relation_refl : (r : ContextRelation) → same_relation r r ≡ true
unfolding same_relation
same_relation_refl r =
    rw
      (
        str_eq_refl r.id,
        str_eq_refl r.predicate,
        same_origin_refl r.origin,
        str_eq_refl r.scope.organization_id,
        str_eq_refl r.scope.source_id,
        str_eq_refl r.scope.snapshot_id,
        str_eq_refl r.from_id,
        str_eq_refl r.to_id,
        same_texts_refl r.path,
        same_texts_refl r.support_ids,
        same_option_refl r.provenance.producer,
        same_option_refl r.provenance.lineage,
        same_references_refl r.provenance.evidence,
      )
      refl

ltb_ℤ_irrefl : (x : ℤ) → ltb_ℤ x x ≡ false
ltb_ℤ_irrefl x = ground arith

-- Each of the relations is found under its identifier, which no other has.
pub find_relation-All :
    (l : List ContextRelation)
    → ((id : Str) → occurrences (λ r. r.id) id l ≤ 1)
    → All (λ r. find_relation r.id l ≡ some r) l
unfolding find_relation
find_relation-All [] once = tt
find_relation-All (x ∷ l) once = (
  rw (str_eq_refl x.id) refl,
  All-map
      (λ r h.
        let away : str_eq r.id x.id ≡ false =
          ground (arith, h.0 (λ y. one (str_eq y.id x.id)), once x.id, ap one (str_eq_refl x.id)) in
        rw (str_eq_symm x.id r.id, away) h.1)
      l (All-both _ _ l (total_bounds l) (find_relation-All l (λ id. omega (arith, once id)))),
)

module _ {W : Type 0} ⦃f : Float W⦄ where
  score-number : (w : W) → score_valid w ≡ true → f.is_nan w ≡ false
  unfolding score_valid finite
  score-number w h = ground (arith, h)

  same_costs_own :
      (c : ContextRelationCandidate W) (a : ContextRelationAudit W)
      → bounded (relation_costs c) ≡ true
      → a.token_cost ≡ (or_no_costs (relation_costs c)).tokens
      → a.character_cost ≡ (or_no_costs (relation_costs c)).characters
      → a.byte_cost ≡ (or_no_costs (relation_costs c)).bytes
      → same_costs a (relation_costs c) ≡ true
  same_costs_own c a h t k b = rw (bounded-some (relation_costs c) h) (ground (arith, t, k, b))

  module _ (laws : IsFloat W) (owners : Owners) (hash : ContextUtilityConfiguration W → Str)
      (scope : Scope) (all : List ContextRelation) where
    -- `seen` are the identifiers of the audits before, `next` the relations after.
    pub relation_audits_agree-none :
        (seen : List Str) (cs : List (ContextRelationCandidate W))
        (audits : List (ContextRelationAudit W)) (next : List ContextRelation)
        → Aligned owners scope cs audits next
        → All (IsFit owners) cs
        → All (λ r. find_relation r.id all ≡ some r) next
        → ((id : Str) → occurrences relation_id id cs + occurrences (λ s. s) id seen ≤ 1)
        → ((id : Str)
            → occurrences (λ s. s) id (relation_ids all)
              ≤ occurrences (λ r. r.id) id next + occurrences (λ s. s) id seen)
        → relation_audits_agree owners hash all next seen cs audits ≡ none
    unfolding relation_audits_agree relation_audit_of is_same
    relation_audits_agree-none seen cs audits next nothing fit found once high = refl
    relation_audits_agree-none seen (c ∷ cs) audits next (left d reason ids out valid rest) fit
          found once high =
        let m = metadata-IsMeasured owners c fit.0.metadata in
        let self = ap one (str_eq_refl c.relation.id) in
        let fresh =
          occurrences-mem_str c.relation.id seen (omega (arith, once c.relation.id, self)) in
        let away = occurrences-mem_str c.relation.id (relation_ids all) (
          omega (
            arith,
            once c.relation.id,
            self,
            high c.relation.id,
            relations-among owners scope cs _ next rest (λ r. one (str_eq r.id c.relation.id)),
          )) in
        let costs = same_costs_own c (left_audit c reason ids) m.priced refl refl refl in
        let score = laws.eq_refl c.score (score-number c.score m.scored) in
        rw (str_eq_refl c.relation.id, fresh, costs, ltb_ℤ_irrefl c.rank, score, away)
          (relation_audits_agree-none (c.relation.id ∷ seen) cs _ next rest fit.1 found
            (λ id. omega (arith, once id)) (λ id. omega (arith, high id)))
    relation_audits_agree-none seen (c ∷ cs) audits next (took d own rest) fit found once high =
        let m = metadata-IsMeasured owners c fit.0.metadata in
        let self = ap one (str_eq_refl c.relation.id) in
        let fresh =
          occurrences-mem_str c.relation.id seen (omega (arith, once c.relation.id, self)) in
        let costs = same_costs_own c (taken_audit c) m.priced refl refl refl in
        let score = laws.eq_refl c.score (score-number c.score m.scored) in
        rw
          (
            str_eq_refl c.relation.id,
            fresh,
            costs,
            ltb_ℤ_irrefl c.rank,
            score,
            found.0,
            same_relation_refl c.relation,
          )
          (relation_audits_agree-none (c.relation.id ∷ seen) cs _ _ rest fit.1 found.1
            (λ id. omega (arith, once id)) (λ id. omega (arith, high id)))
