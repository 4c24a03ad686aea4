-- ===== src/Query/Closed/SelfCheck/Requested.antt =====
-- What ContextSupportClosureRequest.Validate (internal/query/context_support_closure.go) says of the relation
-- candidates.
use manu.Base.{
  ◌≡◌, ap, subst, ◌+◌, ◌≤◌, Bool, true, false, Bool-cases, not, none, List, [], ◌∷◌, Str, str_eq,
  str_eq_iff, inl, inr, All, arith, one, occurrences,
}
use manu.Query.Check.{then_iff, require-then, invalid_context}
use manu.Query.Context.{Owners, mem_str}
use manu.Query.Utility.{Float, ContextUtilityConfiguration}
use manu.Query.Selection.Flagged.{mem_str-occurrences}
use manu.Query.Relation.{ContextRelationCandidate, relation_metadata}
use manu.Query.Closed.{relation_candidates_valid}
use manu.Query.Closed.Aligned.{relation_id}

not-true : (b : Bool) → not b ≡ true → b ≡ false
not-true b h = ground arith

add_once :
    (a x : Str) (seen : List Str)
    → mem_str a seen ≡ false
    → occurrences (λ s. s) x seen ≤ 1
    → occurrences (λ s. s) x (a ∷ seen) ≤ 1
add_once a x seen away once = elim (Bool-cases (str_eq a x)) [
  | inl same ↦
      let before =
        subst (λ y. occurrences (λ s. s) y seen ≡ 0) ((str_eq_iff a x).0 same)
          (mem_str-occurrences a seen away) in
      omega (arith, before, ap one same)
  | inr other ↦ omega (arith, once, ap one other)
]

module _ {W : Type 0} ⦃f : Float W⦄ (owners : Owners)
    (hash : ContextUtilityConfiguration W → Str) where
  -- What the validation of a request says of its relation candidates.
  pub candidates-All :
      (ids seen : List Str) (cs : List (ContextRelationCandidate W))
      → relation_candidates_valid owners hash ids seen cs ≡ none
      → All (λ c. (relation_metadata owners c ≡ none) × (mem_str c.relation.id ids ≡ false)) cs
  unfolding relation_candidates_valid
  candidates-All ids seen [] h = tt
  candidates-All ids seen (c ∷ cs) h =
      let (metadata, h1) = (then_iff (relation_metadata owners c) _).0 h in
      let (_, h2) = require-then (not (mem_str c.relation.id seen)) invalid_context _ h1 in
      let (apart, h3) = require-then (not (mem_str c.relation.id ids)) invalid_context _ h2 in
      (
        (metadata, not-true (mem_str c.relation.id ids) apart),
        candidates-All ids (c.relation.id ∷ seen) cs h3,
      )

  pub candidates_once :
      (ids seen : List Str) (cs : List (ContextRelationCandidate W))
      → relation_candidates_valid owners hash ids seen cs ≡ none
      → ((id : Str) → occurrences (λ s. s) id seen ≤ 1)
      → (id : Str) → occurrences relation_id id cs + occurrences (λ s. s) id seen ≤ 1
  unfolding relation_candidates_valid
  candidates_once ids seen [] h once id = omega (arith, once id)
  candidates_once ids seen (c ∷ cs) h once id =
      let (_, h1) = (then_iff (relation_metadata owners c) _).0 h in
      let (fresh, h2) = require-then (not (mem_str c.relation.id seen)) invalid_context _ h1 in
      let (_, h3) = require-then (not (mem_str c.relation.id ids)) invalid_context _ h2 in
      omega (
        arith,
        candidates_once ids (c.relation.id ∷ seen) cs h3
            (λ x.
              add_once c.relation.id x seen (not-true (mem_str c.relation.id seen) fresh) (once x))
            id,
      )
