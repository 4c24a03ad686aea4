-- ===== src/Derivation/FixedPoint/Silence.antt =====
-- An iteration that accepts nothing and meets no limit found every rule silent.
use manu.Base.{
  ◌≡◌, refl, sym, ap, subst, ◌∙◌, true, false, some, List, [], ◌∷◌, map, Map, arith, Bool-cases,
  inl, inr, All, Option-cases, ◌<◌,
}
use manu.Derivation.Run.{Polls, done, bind-done, then-done, done-value, poll}
use manu.Derivation.Facts.{Scope, CanonicalFact, FactPackage, is_known, clone_fact, ordered_facts}
use manu.Derivation.Batch.{
  DerivationLimits, LimitCodes, RuleVersion, any_code, fresh_facts, within_limits, limits_reached,
  accept_candidate_batch,
}
use manu.Derivation.Growth.Limits.{batch-within_limits}
use manu.Derivation.Executor.{
  RegisteredRule, Progress, add_facts, advance, invoke_rule, apply_rules,
}
use manu.Derivation.FixedPoint.Known.{fresh_facts_none, with_keys-Old, clone_fact-Old}

-- The rule succeeds on the known facts, and what it returns is known.
pub record Silent (known : Map CanonicalFact) (rule : RegisteredRule) : Type 0 where
  pub candidates : List CanonicalFact
  pub applied : rule.apply (ordered_facts known) ≡ some candidates
  pub old : All (λ f. is_known known f.id ≡ true) candidates

within_limits_none :
    (limits : DerivationLimits) (known : Map CanonicalFact) (fresh : List CanonicalFact)
    → (within_limits limits known fresh).0 ≡ []
    → any_code (within_limits limits known fresh).1 ≡ false
    → fresh ≡ []
unfolding within_limits limits_reached
within_limits_none limits known fresh h clear =
    elim (Bool-cases (any_code (limits_reached limits known fresh))) [
      | inl over ↦ absurd (ground arith)
      | inr fits ↦ rw fits at h
    ]

advance_idle :
    (st : Progress) (known : Map CanonicalFact) (accepted : List CanonicalFact)
    (skipped : LimitCodes)
    → (advance st known accepted skipped).accepted ≡ false
    → (st.accepted ≡ false) × (accepted ≡ [])
unfolding advance
advance_idle st known [] skipped h = (ground arith, refl)
advance_idle st known (f ∷ rest) skipped h = absurd (ground arith)

advance_clear :
    (st : Progress) (known : Map CanonicalFact) (accepted : List CanonicalFact)
    (skipped : LimitCodes)
    → any_code (advance st known accepted skipped).codes ≡ false
    → (any_code st.codes ≡ false) × (any_code skipped ≡ false)
unfolding advance
advance_clear st known accepted skipped h = ground arith

advance-known :
    (st : Progress) (known : Map CanonicalFact) (accepted : List CanonicalFact)
    (skipped : LimitCodes)
    → (advance st known accepted skipped).known ≡ known
unfolding advance
advance-known st known accepted skipped = refl

advance_waits :
    (st : Progress) (known : Map CanonicalFact) (accepted : List CanonicalFact)
    (skipped : LimitCodes)
    → (st.accepted ≡ true → 0 < st.pending)
    → (advance st known accepted skipped).accepted ≡ true
    → 0 < (advance st known accepted skipped).pending
unfolding advance
advance_waits st known accepted skipped waits busy = ground arith

add_facts_none :
    (accepted : List CanonicalFact) (known later : Map CanonicalFact) (p q : Polls)
    → accepted ≡ []
    → add_facts accepted known p ≡ done later q
    → later ≡ known
unfolding add_facts
add_facts_none [] known later p q e h = sym (done-value h)
add_facts_none (f ∷ rest) known later p q e h = absurd (ground arith)

invoke_rule-done :
    (rule : RegisteredRule) (view : List CanonicalFact) (p q : Polls)
    (candidates : List CanonicalFact)
    → invoke_rule rule view p ≡ done candidates q
    → rule.apply view ≡ some candidates
invoke_rule-done rule view p q candidates h = elim (Option-cases (rule.apply view)) [
  | inl nothing ↦ absurd (ground arith)
  | inr (found, e) ↦ e ∙ ap some (ground arith)
]

module _ (facts : FactPackage) (scope : Scope) (limits : DerivationLimits) where
  batch-Old :
      (version : RuleVersion) (known : Map CanonicalFact) (candidates : List CanonicalFact)
      (batch : List CanonicalFact × LimitCodes) (p q : Polls)
      → accept_candidate_batch facts candidates scope version known limits p ≡ done batch q
      → batch.0 ≡ []
      → any_code batch.1 ≡ false
      → All (λ f. is_known known f.id ≡ true) candidates
  batch-Old version known candidates batch p q h empty clear =
      elim (batch-within_limits facts scope limits version known candidates batch p q h) [
        | inl (nothing, _) ↦ subst (All (λ f. is_known known f.id ≡ true)) (sym nothing) tt
        | inr (keyed, r, s, keys, e) ↦ clone_fact-Old known candidates (
            with_keys-Old known facts (map clone_fact candidates) keyed r s keys (
              fresh_facts_none known keyed (
                within_limits_none limits known (fresh_facts known keyed) (rw e at empty)
                  (rw e at clear))))
      ]

  -- What an iteration that accepted nothing, and met no limit, has left.
  pub record Quiet (rules : List RegisteredRule) (st next : Progress) : Type 0 where
    pub same : next.known ≡ st.known
    pub idle : st.accepted ≡ false
    pub clear : any_code st.codes ≡ false
    pub silent : All (Silent st.known) rules

  pub apply_rules-Quiet :
      (rules : List RegisteredRule) (st next : Progress) (p q : Polls)
      → apply_rules facts rules scope limits st p ≡ done next q
      → next.accepted ≡ false
      → any_code next.codes ≡ false
      → Quiet rules st next
  unfolding apply_rules
  apply_rules-Quiet [] st next p q h idle clear =
      let e : st ≡ next = done-value h in
      record {
        same = ap (λ (x : Progress). x.known) (sym e);
        idle = ap (λ (x : Progress). x.accepted) e ∙ idle;
        clear = ap (λ (x : Progress). any_code x.codes) e ∙ clear;
        silent = tt;
      }
  apply_rules-Quiet (rule ∷ rest) st next p q h idle clear =
      let (_, p₁, _, h₁) = then-done poll _ p h in
      let (_, p₂, _, h₂) = then-done poll _ p₁ h₁ in
      let (candidates, p₃, invoked, h₃) =
        bind-done (invoke_rule rule (ordered_facts st.known)) _ p₂ h₂ in
      let (batch, p₄, taken, h₄) =
        bind-done (accept_candidate_batch facts candidates scope rule.version st.known limits) _ p₃
          h₃ in
      let (known, p₅, added, h₅) = bind-done (add_facts batch.0 st.known) _ p₄ h₄ in
      let later =
        apply_rules-Quiet rest (advance st known batch.0 batch.1) next p₅ q h₅ idle clear in
      let (idle_before, nothing) = advance_idle st known batch.0 batch.1 later.idle in
      let (clear_before, unlimited) = advance_clear st known batch.0 batch.1 later.clear in
      let same : known ≡ st.known = add_facts_none batch.0 st.known known p₄ p₅ nothing added in
      record {
        same = later.same ∙ advance-known st known batch.0 batch.1 ∙ same;
        idle = idle_before;
        clear = clear_before;
        silent = (
          record {
            candidates = candidates;
            applied = invoke_rule-done rule (ordered_facts st.known) p₂ p₃ candidates invoked;
            old = batch-Old rule.version st.known candidates batch p₃ p₄ taken nothing unlimited;
          },
          subst (λ m. All (Silent m) rest) (advance-known st known batch.0 batch.1 ∙ same)
              later.silent,
        );
      }

  -- After an iteration that accepted a fact, facts wait in the queue.
  pub apply_rules-waits :
      (rules : List RegisteredRule) (st next : Progress) (p q : Polls)
      → (st.accepted ≡ true → 0 < st.pending)
      → apply_rules facts rules scope limits st p ≡ done next q
      → next.accepted ≡ true
      → 0 < next.pending
  unfolding apply_rules
  apply_rules-waits [] st next p q waits h busy =
      let e : st ≡ next = done-value h in
      subst (λ (x : Progress). x.accepted ≡ true → 0 < x.pending) e waits busy
  apply_rules-waits (rule ∷ rest) st next p q waits h busy =
      let (_, p₁, _, h₁) = then-done poll _ p h in
      let (_, p₂, _, h₂) = then-done poll _ p₁ h₁ in
      let (candidates, p₃, _, h₃) = bind-done (invoke_rule rule (ordered_facts st.known)) _ p₂ h₂ in
      let (batch, p₄, _, h₄) =
        bind-done (accept_candidate_batch facts candidates scope rule.version st.known limits) _ p₃
          h₃ in
      let (known, p₅, _, h₅) = bind-done (add_facts batch.0 st.known) _ p₄ h₄ in
      apply_rules-waits rest (advance st known batch.0 batch.1) next p₅ q
        (advance_waits st known batch.0 batch.1 waits) h₅ busy
