-- ===== src/Query/Closed/Aligned.antt =====
-- What the loop of CloseContextSupport (internal/query/context_support_closure.go) leaves, candidate by
-- candidate: an audit, and the relation where it was taken.
use mathlib.Core.List.{append-nil, append_assoc}
use manu.Base.{
  ◌≡◌, refl, sym, ap, subst, ◌∙◌, ℕ, suc, ◌≤◌, leb, true, List, [], ◌∷◌, ◌++◌, length, Str, All,
  arith, one, total,
}
use manu.Base.Run.{done, done-value, bind-done}
use manu.Query.Check.{Polls}
use manu.Query.Context.{Scope, Owners, max_context_items}
use manu.Query.Context.Validate.{validate_context_ids}
use manu.Query.Utility.{Float}
use manu.Query.Candidate.{ContextSelectionRequest}
use manu.Query.Relation.{ContextRelation, ContextRelationCandidate, required_ids}
use manu.Query.ClosureState.{
  ContextRelationAuditReason, relation_included, ContextRelationAudit, Closing,
}
use manu.Query.Closure.{relation_audit_of, leave_out, take_relation, close_relations}
use manu.Query.Closed.Support.Outcomes.{
  leaves_out, IsOwn, Outcome, left_out, taken, close_relation-Outcome,
}

module _ {W : Type 0} where
  -- The two audits of a candidate.
  abbrev pub left_audit :
      ContextRelationCandidate W → ContextRelationAuditReason → List Str → ContextRelationAudit W
  left_audit c reason ids = record (relation_audit_of c) { reason = reason; missing_ids = ids }

  abbrev pub taken_audit : ContextRelationCandidate W → ContextRelationAudit W
  taken_audit c = record (relation_audit_of c) { is_included = true; reason = relation_included }

  abbrev pub relation_id : ContextRelationCandidate W → Str
  relation_id c = c.relation.id

module _ {W : Type 0} (owners : Owners) (scope : Scope) where
  pub data Aligned
      : List (ContextRelationCandidate W)
        → List (ContextRelationAudit W)
        → List ContextRelation
        → Type 0 where
    nothing : Aligned [] [] []
    left :
        (c : ContextRelationCandidate W) (reason : ContextRelationAuditReason) (ids : List Str)
        {cs : List (ContextRelationCandidate W)} {audits : List (ContextRelationAudit W)}
        {relations : List ContextRelation}
        → leaves_out reason ≡ true
        → (leb (length (required_ids c.relation)) max_context_items ≡ true
            → validate_context_ids owners ids max_context_items ≡ true)
        → Aligned cs audits relations
        → Aligned (c ∷ cs) (left_audit c reason ids ∷ audits) relations
    took :
        (c : ContextRelationCandidate W) {cs : List (ContextRelationCandidate W)}
        {audits : List (ContextRelationAudit W)} {relations : List ContextRelation}
        → IsOwn owners scope c.relation
        → Aligned cs audits relations
        → Aligned (c ∷ cs) (taken_audit c ∷ audits) (c.relation ∷ relations)

  -- The loop appends what is aligned with its candidates.
  pub record Appends (cs : List (ContextRelationCandidate W)) (s s' : Closing W) : Type 0 where
    pub audits : List (ContextRelationAudit W)
    pub relations : List ContextRelation
    pub aligned : Aligned cs audits relations
    pub all_audits : s'.audits ≡ s.audits ++ audits
    pub all_relations : s'.relations ≡ s.relations ++ relations

  Outcome-Appends :
      (c : ContextRelationCandidate W) (cs : List (ContextRelationCandidate W))
      (s s1 s' : Closing W)
      → Outcome owners scope c s s1
      → Appends cs s1 s'
      → Appends (c ∷ cs) s s'
  unfolding leave_out take_relation
  Outcome-Appends c cs s s1 s' (left_out reason ids out valid e) rest = record {
    audits = left_audit c reason ids ∷ rest.audits;
    relations = rest.relations;
    aligned = left c reason ids out valid rest.aligned;
    all_audits =
        rest.all_audits
        ∙ sym (ap (λ x. x.audits ++ rest.audits) e)
        ∙ append_assoc s.audits (left_audit c reason ids ∷ []) rest.audits;
    all_relations = rest.all_relations ∙ sym (ap (λ x. x.relations ++ rest.relations) e);
  }
  Outcome-Appends c cs s s1 s' (taken t kept needs own e) rest = record {
    audits = taken_audit c ∷ rest.audits;
    relations = c.relation ∷ rest.relations;
    aligned = took c own rest.aligned;
    all_audits =
        rest.all_audits
        ∙ sym (ap (λ x. x.audits ++ rest.audits) e)
        ∙ append_assoc s.audits (taken_audit c ∷ []) rest.audits;
    all_relations =
        rest.all_relations
        ∙ sym (ap (λ x. x.relations ++ rest.relations) e)
        ∙ append_assoc s.relations (c.relation ∷ []) rest.relations;
  }

module _ {W : Type 0} ⦃f : Float W⦄ (owners : Owners) (request : ContextSelectionRequest W) where
  pub close_relations-Appends :
      (cs : List (ContextRelationCandidate W)) (s : Closing W) (p : Polls) {q : Polls}
      {s' : Closing W}
      → close_relations owners request cs s p ≡ done s' q
      → Appends owners request.scope cs s s'
  unfolding close_relations
  close_relations-Appends [] s p h =
      subst (Appends owners request.scope [] s) (done-value h) (record {
        audits = [];
        relations = [];
        aligned = nothing;
        all_audits = sym (append-nil s.audits);
        all_relations = sym (append-nil s.relations);
      })
  close_relations-Appends (c ∷ cs) s p {s' = s'} h =
      let (s1, p1, one, h1) = bind-done _ _ p h in
      Outcome-Appends owners request.scope c cs s s1 s'
        (close_relation-Outcome owners request c s p one) (close_relations-Appends cs s1 p1 h1)

module _ {W : Type 0} (owners : Owners) (scope : Scope) where
  -- However they are counted, the relations taken are among the candidates.
  pub relations-among :
      (cs : List (ContextRelationCandidate W)) (audits : List (ContextRelationAudit W))
      (relations : List ContextRelation)
      → Aligned owners scope cs audits relations
      → (n : ContextRelation → ℕ) → total n relations ≤ total (λ c. n c.relation) cs
  relations-among cs audits relations nothing n = omega arith
  relations-among cs audits relations (left c reason ids out valid rest) n =
      omega (arith, relations-among _ _ relations rest n)
  relations-among cs audits relations (took c own rest) n =
      omega (arith, relations-among _ _ _ rest n)

  pub length-audits :
      (cs : List (ContextRelationCandidate W)) (audits : List (ContextRelationAudit W))
      (relations : List ContextRelation)
      → Aligned owners scope cs audits relations
      → length audits ≡ length cs
  length-audits cs audits relations nothing = refl
  length-audits cs audits relations (left c reason ids out valid rest) =
      ap suc (length-audits _ _ relations rest)
  length-audits cs audits relations (took c own rest) = ap suc (length-audits _ _ _ rest)

  pub Aligned-IsOwn :
      (cs : List (ContextRelationCandidate W)) (audits : List (ContextRelationAudit W))
      (relations : List ContextRelation)
      → Aligned owners scope cs audits relations
      → All (IsOwn owners scope) relations
  Aligned-IsOwn cs audits relations nothing = tt
  Aligned-IsOwn cs audits relations (left c reason ids out valid rest) =
      Aligned-IsOwn _ _ relations rest
  Aligned-IsOwn cs audits relations (took c own rest) = (own, Aligned-IsOwn _ _ _ rest)

  -- What holds of the candidates holds of the relations taken.
  pub Aligned-All :
      (P : ContextRelation → Type 0) (cs : List (ContextRelationCandidate W))
      (audits : List (ContextRelationAudit W)) (relations : List ContextRelation)
      → Aligned owners scope cs audits relations
      → All (λ c. P c.relation) cs
      → All P relations
  Aligned-All P cs audits relations nothing h = tt
  Aligned-All P cs audits relations (left c reason ids out valid rest) h =
      Aligned-All P _ _ relations rest h.1
  Aligned-All P cs audits relations (took c own rest) h = (h.0, Aligned-All P _ _ _ rest h.1)
