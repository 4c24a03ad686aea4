-- ===== src/Query/Closed/Audited.antt =====
-- The audits of a support closure pass the tests of ContextRelationAudit.Validate and of the loop over them in
-- ContextSupportClosureResult.Validate (internal/query/context_support_closure.go).
use manu.Base.{
  ◌≡◌, refl, ap, ◌+◌, ◌≤◌, leb, true, false, ◌&&◌, Option, none, some, List, ◌∷◌, length, Str,
  str_eq, str_eq_refl, All, arith, one, occurrences, and→left, and→right,
}
use manu.Query.Check.{require_iff, require-then, invalid_context_reference, invalid_context}
use manu.Query.Context.{
  Scope, Owners, max_context_items, max_context_tokens, max_context_characters, max_context_bytes,
}
use manu.Query.Context.Validate.{valid_context_id, validate_context_ids}
use manu.Query.Utility.{Float}
use manu.Query.Candidate.{Costs, bounded, or_no_costs}
use manu.Query.Selection.Flagged.{occurrences-mem_str, counted-mem_str}
use manu.Query.Relation.{
  ContextRelation, ContextRelationCandidate, required_ids, relation_costs, rank_valid, score_valid,
  relation_metadata,
}
use manu.Query.ClosureState.{ContextRelationAuditReason, ContextRelationAudit}
use manu.Query.Closure.{relation_audit_of}
use manu.Query.ClosureResult.{
  says_included, is_decided, validate_relation_audit, relation_audits_valid,
}
use manu.Query.Closed.Support.Outcomes.{leaves_out}
use manu.Query.Closed.Aligned.{
  left_audit, taken_audit, Aligned, nothing, left, took, relation_id, relations-among,
}

record IsBounded (k : Costs) : Type 0 where
  tokens : leb k.tokens max_context_tokens ≡ true
  characters : leb k.characters max_context_characters ≡ true
  bytes : leb k.bytes max_context_bytes ≡ true

costs-IsBounded : (o : Option Costs) → bounded o ≡ true → IsBounded (or_no_costs o)
costs-IsBounded none h = absurd (ground arith)
costs-IsBounded (some k) h = record {
  tokens = ground arith;
  characters = ground arith;
  bytes = ground arith;
}

left_out_reason :
    (reason : ContextRelationAuditReason)
    → leaves_out reason ≡ true
    → (says_included reason ≡ false) × (is_decided reason ≡ true)
left_out_reason reason h = ground arith

module _ {W : Type 0} ⦃f : Float W⦄ (owners : Owners) where
  -- What the request's validation says of a candidate, and that it needs no more than an audit may name.
  pub record IsFit (c : ContextRelationCandidate W) : Type 0 where
    pub metadata : relation_metadata owners c ≡ none
    pub few : leb (length (required_ids c.relation)) max_context_items ≡ true

  pub record IsMeasured (c : ContextRelationCandidate W) : Type 0 where
    pub named : valid_context_id owners c.relation.id ≡ true
    pub scored : score_valid c.score ≡ true
    pub ranked : rank_valid c.rank ≡ true
    pub priced : bounded (relation_costs c) ≡ true

  pub metadata-IsMeasured :
      (c : ContextRelationCandidate W) → relation_metadata owners c ≡ none → IsMeasured c
  unfolding relation_metadata
  metadata-IsMeasured c h =
      let (named, h1) =
        require-then (valid_context_id owners c.relation.id) invalid_context_reference _ h in
      let all =
        (require_iff (score_valid c.score && rank_valid c.rank && bounded (relation_costs c))
            invalid_context).0
          h1 in
      record {
        named = named;
        scored = and→left _ _ (and→left _ _ all);
        ranked = and→right _ _ (and→left _ _ all);
        priced = and→right _ _ all;
      }

  -- Either audit of a measured candidate is valid.
  left-valid :
      (c : ContextRelationCandidate W) (reason : ContextRelationAuditReason) (ids : List Str)
      → IsMeasured c
      → leaves_out reason ≡ true
      → validate_context_ids owners ids max_context_items ≡ true
      → validate_relation_audit owners (left_audit c reason ids) ≡ none
  unfolding validate_relation_audit relation_audit_of
  left-valid c reason ids m out valid =
      let (not_included, decided) = left_out_reason reason out in
      let fit = costs-IsBounded (relation_costs c) m.priced in
      rw
        (
          m.named, m.ranked, m.scored, fit.tokens, fit.characters, fit.bytes, valid, not_included,
          decided,
        )
        refl

  taken-valid :
      (c : ContextRelationCandidate W)
      → IsMeasured c
      → validate_relation_audit owners (taken_audit c) ≡ none
  unfolding validate_relation_audit relation_audit_of validate_context_ids
  taken-valid c m =
      let fit = costs-IsBounded (relation_costs c) m.priced in
      rw (m.named, m.ranked, m.scored, fit.tokens, fit.characters, fit.bytes) refl

  -- The loop over the audits: `all` are the relations taken before, of the identifiers seen, and those that
  -- are aligned with the audits.
  pub relation_audits_valid-none :
      (scope : Scope) (all seen : List Str) (cs : List (ContextRelationCandidate W))
      (audits : List (ContextRelationAudit W)) (relations : List ContextRelation)
      → Aligned owners scope cs audits relations
      → All IsFit cs
      → ((id : Str) → occurrences relation_id id cs + occurrences (λ s. s) id seen ≤ 1)
      → ((id : Str) → occurrences (λ r. r.id) id relations ≤ occurrences (λ s. s) id all)
      → ((id : Str)
          → occurrences (λ s. s) id all
            ≤ occurrences (λ r. r.id) id relations + occurrences (λ s. s) id seen)
      → relation_audits_valid owners all seen audits ≡ none
  unfolding relation_audits_valid relation_audit_of
  relation_audits_valid-none scope all seen cs audits relations nothing fit once low high = refl
  relation_audits_valid-none scope all seen (c ∷ cs) audits relations
        (left d reason ids out valid rest) fit once low high =
      let m = metadata-IsMeasured c fit.0.metadata in
      let self = ap one (str_eq_refl c.relation.id) in
      let fresh =
        occurrences-mem_str c.relation.id seen (omega (arith, once c.relation.id, self)) in
      let away = occurrences-mem_str c.relation.id all (
        omega (
          arith,
          once c.relation.id,
          self,
          high c.relation.id,
          relations-among owners scope cs _ relations rest (λ r. one (str_eq r.id c.relation.id)),
        )) in
      rw (left-valid c reason ids m out (valid fit.0.few), fresh, away)
        (relation_audits_valid-none scope all (c.relation.id ∷ seen) cs _ relations rest fit.1
          (λ id. omega (arith, once id)) low (λ id. omega (arith, high id)))
  relation_audits_valid-none scope all seen (c ∷ cs) audits relations (took d own rest) fit once low
        high =
      let m = metadata-IsMeasured c fit.0.metadata in
      let self = ap one (str_eq_refl c.relation.id) in
      let fresh =
        occurrences-mem_str c.relation.id seen (omega (arith, once c.relation.id, self)) in
      let there = counted-mem_str c.relation.id all (omega (arith, low c.relation.id, self)) in
      rw (taken-valid c m, fresh, there)
        (relation_audits_valid-none scope all (c.relation.id ∷ seen) cs _ _ rest fit.1
          (λ id. omega (arith, once id)) (λ id. omega (arith, low id))
          (λ id. omega (arith, high id)))
