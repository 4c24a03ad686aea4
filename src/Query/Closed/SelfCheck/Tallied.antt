-- ===== src/Query/Closed/SelfCheck/Tallied.antt =====
-- The sums over the audits of a support closure (internal/query/context_support_closure.go).
use manu.Base.{◌≡◌, ap, suc, ◌+◌, Bool, Bool-cases, ◌||◌, List, [], ◌∷◌, length, inl, inr, arith}
use manu.Query.Context.{Scope, Owners}
use manu.Query.Relation.{ContextRelation, ContextRelationCandidate}
use manu.Query.ClosureState.{ContextRelationAudit}
use manu.Query.Closure.{relation_audit_of}
use manu.Query.ClosureResult.{
  RelationTally, count_relation, relation_tally, says_missing, says_over,
}
use manu.Query.Closed.Aligned.{taken_audit, Aligned, nothing, left, took}

-- A tally that began with a flag set, beside one that began without.
pub record IsTwin (flag : Bool) (t u : RelationTally) : Type 0 where
  pub included_count : u.included_count ≡ t.included_count
  pub tokens : u.tokens ≡ t.tokens
  pub characters : u.characters ≡ t.characters
  pub bytes : u.bytes ≡ t.bytes
  pub incomplete : u.incomplete ≡ t.incomplete
  pub exhausted : u.exhausted ≡ (t.exhausted || flag)

or_swap : (a b c d : Bool) → d ≡ (b || c) → (d || a) ≡ (b || a || c)
or_swap a b c d h = ground (arith, h)

module _ {W : Type 0} where
  count-IsTwin :
      (flag : Bool) (t u : RelationTally) (a : ContextRelationAudit W)
      → IsTwin flag t u
      → IsTwin flag (count_relation t a) (count_relation u a)
  unfolding count_relation
  count-IsTwin flag t u a h = elim (Bool-cases a.is_included) [
    | inl yes' ↦ rw yes' (record {
      included_count = ap suc h.included_count;
      tokens = omega (arith, h.tokens);
      characters = omega (arith, h.characters);
      bytes = omega (arith, h.bytes);
      incomplete = h.incomplete;
      exhausted = h.exhausted;
    })
    | inr no' ↦ rw no' (record {
      included_count = h.included_count;
      tokens = h.tokens;
      characters = h.characters;
      bytes = h.bytes;
      incomplete = ap (λ b. b || says_missing a.reason) h.incomplete;
      exhausted = or_swap (says_over a.reason) t.exhausted flag u.exhausted h.exhausted;
    })
  ]

  pub tally-IsTwin :
      (flag : Bool) (t u : RelationTally) (audits : List (ContextRelationAudit W))
      → IsTwin flag t u
      → IsTwin flag (relation_tally t audits) (relation_tally u audits)
  unfolding relation_tally
  tally-IsTwin flag t u [] h = h
  tally-IsTwin flag t u (a ∷ audits) h =
      tally-IsTwin flag (count_relation t a) (count_relation u a) audits (count-IsTwin flag t u a h)

  module _ (owners : Owners) (scope : Scope) where
    pub tally-count :
        (t : RelationTally) (cs : List (ContextRelationCandidate W))
        (audits : List (ContextRelationAudit W)) (relations : List ContextRelation)
        → Aligned owners scope cs audits relations
        → (relation_tally t audits).included_count ≡ t.included_count + length relations
    unfolding relation_tally count_relation relation_audit_of
    tally-count t cs audits relations nothing = omega arith
    tally-count t cs audits relations (left c reason ids out valid rest) =
        tally-count _ _ _ relations rest
    tally-count t cs audits relations (took c own rest) =
        omega (arith, tally-count (count_relation t (taken_audit c)) _ _ _ rest)
