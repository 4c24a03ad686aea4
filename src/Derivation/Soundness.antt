-- ===== src/Derivation/Soundness.antt =====
-- What a result of DeriveWithLimits stands for.
use manu.Base.{
  ℕ, ◌<◌, ◌≡◌, refl, sym, ap, subst, ◌∙◌, true, false, not, Option, none, some, List, [], Map,
  length, arith, Bool-cases, inl, inr, All, pos_part, is_positive,
}
use manu.Derivation.Run.{
  Polls, done, bind-done, then-done, poll, check, check-done, input_exceeds_fact_limit,
}
use manu.Derivation.Facts.{Scope, CanonicalFact, FactPackage, ordered_facts}
use manu.Derivation.Batch.{DerivationLimits, any_code, exceeds, validate_limits}
use manu.Derivation.Executor.{
  RegisteredRule, Progress, DerivationResult, first_scope, prepare_inputs, derive_loop, started,
  make_derivation_result, valid_result, derive_with_limits,
}
use manu.Derivation.Growth.{Grown, derive_loop-Grown}
use manu.Derivation.Growth.Limits.{Fits, derive_loop-Fits}
use manu.Derivation.FixedPoint.{derive_loop_settles}
use manu.Derivation.FixedPoint.Silence.{Silent}
use manu.Derivation.Ending.{derive_loop-Ends}

abbrev pub no_scope : Scope
no_scope = record { organization_id = []; source_id = []; snapshot_id = [] }

module _ (facts : FactPackage) (rules : List RegisteredRule) (limits : DerivationLimits) where
  -- The result lists facts that grew from the prepared inputs, within the fact limit; where it
  -- reports no limit and there was an input, they are a fixed point of the rules; and it passes its
  -- own checks.
  pub record Sound (inputs : List CanonicalFact) (r : DerivationResult) : Type 0 where
    pub scope : Option Scope
    pub prepared : Map CanonicalFact
    pub before : Polls
    pub after : Polls
    pub accepted : prepare_inputs facts none [] inputs before ≡ done (scope, prepared) after
    pub known : Map CanonicalFact
    pub grown : Grown (first_scope scope no_scope) prepared known
    pub fits : Fits limits known
    pub listed : r.facts ≡ ordered_facts known
    pub settled : any_code r.codes ≡ false → 0 < length inputs → All (Silent known) rules
    pub valid : valid_result facts r.facts ≡ true

  make-done :
      (last : Option Progress) (r : DerivationResult) (p q : Polls)
      → make_derivation_result facts last p ≡ done (some r) q
      → (st : Progress) × (last ≡ some st)
        × (r.facts ≡ ordered_facts st.known)
        × (r.codes ≡ st.codes)
        × (valid_result facts r.facts ≡ true)
  make-done none r p q h = absurd (ground arith)
  make-done (some st) r p q h = elim (Bool-cases (valid_result facts (ordered_facts st.known))) [
    | inr bad ↦ absurd (ground arith)
    | inl good ↦
        let made : record { facts = ordered_facts st.known; codes = st.codes } ≡ r = ground arith in
        (
          st,
          refl,
          ap (λ (x : DerivationResult). x.facts) (sym made),
          ap (λ (x : DerivationResult). x.codes) (sym made),
          subst (λ (x : DerivationResult). valid_result facts x.facts ≡ true) made good,
        )
  ]

  -- Where DeriveWithLimits returns a result, whatever the rules and the polls of the context, it
  -- lists in order what is known at the end: the prepared inputs, and further facts of their scope
  -- whose lineage names known facts, no more in all than the fact limit admits. If the result
  -- reports no limit and there was an input, each rule succeeds on what is known and returns no fact
  -- that is not known. The result passes the facts' part of its own Validate.
  pub derive_with_limits-Sound :
      (fuel : ℕ) (inputs : List CanonicalFact) (r : DerivationResult) (p q : Polls)
      → derive_with_limits facts fuel rules inputs limits p ≡ done (some r) q
      → Sound inputs r
  unfolding derive_with_limits
  derive_with_limits-Sound fuel inputs r p q h =
      let (_, p₁, _, h₁) = then-done poll _ p h in
      let (_, p₂, _, h₂) = then-done (validate_limits limits) _ p₁ h₁ in
      let (start, p₃, prepared, h₃) = bind-done (prepare_inputs facts none [] inputs) _ p₂ h₂ in
      let (_, p₄, small, h₄) =
        then-done (check (not (exceeds (length start.1) limits.max_facts)) input_exceeds_fact_limit)
          _ p₃ h₃ in
      let scope = first_scope start.0 no_scope in
      let begun = started start.1 (length inputs) in
      let (last, p₅, looped, h₅) =
        bind-done (derive_loop facts fuel rules scope limits 0 begun) _ p₄ h₄ in
      let (_, p₆, _, h₆) = then-done poll _ p₅ h₅ in
      let (st, ended, listed, codes, valid) = make-done last r p₆ q h₆ in
      let looped' : derive_loop facts fuel rules scope limits 0 begun p₄ ≡ done (some st) p₅ =
        looped ∙ ap (λ x. done x p₅) ended in
      record {
        scope = start.0;
        prepared = start.1;
        before = p₂;
        after = p₃;
        accepted = prepared;
        known = st.known;
        grown = derive_loop-Grown facts scope limits fuel rules 0 begun st p₄ p₅ looped';
        fits =
            derive_loop-Fits facts scope limits fuel rules 0 begun st p₄ p₅
              (ground (arith, check-done _ input_exceeds_fact_limit p₃ small)) looped';
        listed = listed;
        settled = λ clear some_input.
            derive_loop_settles facts rules scope limits fuel 0 begun st p₄ p₅ looped'
              (ap any_code (sym codes) ∙ clear) some_input;
        valid = valid;
      }

  -- Where the iterations are limited, a derivation with fuel for one more never runs out of it.
  pub derive_with_limits_ends :
      (fuel : ℕ) (inputs : List CanonicalFact) (p q : Polls)
      → is_positive limits.max_iterations ≡ true
      → pos_part limits.max_iterations < fuel
      → ¬ (derive_with_limits facts fuel rules inputs limits p ≡ done none q)
  unfolding derive_with_limits
  derive_with_limits_ends fuel inputs p q limited enough h =
      let (_, p₁, _, h₁) = then-done poll _ p h in
      let (_, p₂, _, h₂) = then-done (validate_limits limits) _ p₁ h₁ in
      let (start, p₃, _, h₃) = bind-done (prepare_inputs facts none [] inputs) _ p₂ h₂ in
      let (_, p₄, _, h₄) =
        then-done (check (not (exceeds (length start.1) limits.max_facts)) input_exceeds_fact_limit)
          _ p₃ h₃ in
      let scope = first_scope start.0 no_scope in
      let begun = started start.1 (length inputs) in
      let (last, p₅, looped, h₅) =
        bind-done (derive_loop facts fuel rules scope limits 0 begun) _ p₄ h₄ in
      let (_, p₆, _, h₆) = then-done poll _ p₅ h₅ in
      derive_loop-Ends facts rules scope limits fuel 0 begun p₄ p₅ limited (omega arith)
        (omega arith) (looped ∙ ap (λ x. done x p₅) (make_none last p₆ q h₆))
    where
      make_none :
          (last : Option Progress) (p q : Polls)
          → make_derivation_result facts last p ≡ done none q
          → last ≡ none
      make_none none p q h = refl
      make_none (some st) p q h = absurd (ground arith)
