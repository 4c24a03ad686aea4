-- ===== src/Derivation/Executor.antt =====
-- DeriveWithLimits of internal/derivation/executor.go, over a context and a registry that are not
-- nil. A rule is what its Apply returns on the facts that it sees, and fails by an error or a panic.
use manu.Base.{
  ℕ, zero, suc, ◌+◌, Bool, true, false, not, ◌&&◌, ◌||◌, Option, none, some, List, [], ◌∷◌, Str,
  str_eq, str_lt, Map, insert, if◌then◌else◌, ltb, length, all, ℤ, pos, pos_part, is_positive,
}
use manu.Derivation.Run.{
  Run, ◌>>=◌, ◌>>◌, give, refuse, check, poll, invalid_input, duplicate_fact,
  input_exceeds_fact_limit, invalid_output, rule_failed,
}
use manu.Derivation.Facts.{
  Scope, CanonicalFact, FactPackage, same_scope, clone_fact, is_known, ordered_facts,
}
use manu.Derivation.Batch.{
  RuleVersion, DerivationLimits, LimitCodes, no_codes, join, exceeds, validate_limits,
  accept_candidate_batch,
}

pub record RegisteredRule : Type 0 where
  pub version : RuleVersion
  pub apply : List CanonicalFact → Option (List CanonicalFact)

-- The known facts, how many of them wait in the queue, the limits reached, and whether the
-- iteration has accepted a fact. Which fact the queue gives out does not matter: it is dropped.
pub record Progress : Type 0 where
  pub known : Map CanonicalFact
  pub pending : ℕ
  pub codes : LimitCodes
  pub accepted : Bool

-- The codes stand for the gaps that name them, and for the coverage, incomplete where there is one.
pub record DerivationResult : Type 0 where
  pub facts : List CanonicalFact
  pub codes : LimitCodes

abbrev pub first_scope : Option Scope → Scope → Scope
first_scope none scope = scope
first_scope (some first) scope = first

abbrev pub agrees : Option Scope → Scope → Bool
agrees none scope = true
agrees (some first) scope = same_scope scope first

unfoldable pub add_facts : List CanonicalFact → Map CanonicalFact → Run (Map CanonicalFact)
unfolding ◌>>◌ poll
add_facts [] known = give known
add_facts (f ∷ rest) known = do poll; add_facts rest (insert f.id f known)

-- What a rule's batch does to the progress.
unfoldable pub advance : Progress → Map CanonicalFact → List CanonicalFact → LimitCodes → Progress
advance st known accepted skipped = record {
  known = known;
  pending = st.pending + length accepted;
  codes = join st.codes skipped;
  accepted = st.accepted || ltb 0 (length accepted);
}

abbrev pub invoke_rule : RegisteredRule → List CanonicalFact → Run (List CanonicalFact)
invoke_rule rule view = elim (rule.apply view) [
  | none ↦ refuse rule_failed
  | some candidates ↦ give candidates
]

abbrev pub exhausted : ℕ → ℤ → Bool
exhausted iterations limit = is_positive limit && not (ltb iterations (pos_part limit))

abbrev pub with_iteration_limit : LimitCodes → LimitCodes
with_iteration_limit codes = record codes { iteration_limit = true }

-- Each identifier is below the next.
unfoldable pub increasing : List CanonicalFact → Bool
increasing [] = true
increasing (a ∷ []) = true
increasing (a ∷ b ∷ rest) = str_lt a.id b.id && increasing (b ∷ rest)

unfoldable pub lists : List CanonicalFact → Str → Bool
lists [] id = false
lists (f ∷ rest) id = str_eq f.id id || lists rest id

unfoldable pub support_listed : List CanonicalFact → CanonicalFact → Bool
unfolding lists
support_listed found f = elim f.lineage [
  | none ↦ true
  | some l ↦ all (lists found) l.input_fact_ids
]

abbrev pub started : Map CanonicalFact → ℕ → Progress
started known waiting = record {
  known = known;
  pending = waiting;
  codes = no_codes;
  accepted = false;
}

module _ (facts : FactPackage) where
  unfoldable pub prepare_inputs :
      Option Scope → Map CanonicalFact → List CanonicalFact → Run (Option Scope × Map CanonicalFact)
  unfolding ◌>>◌ clone_fact
  prepare_inputs scope known [] = give (scope, known)
  prepare_inputs scope known (candidate ∷ rest) = do
    check (facts.fact_valid candidate) invalid_input
    check (agrees scope candidate.scope) invalid_input
    check (not (is_known known candidate.id)) duplicate_fact
    prepare_inputs (some (first_scope scope candidate.scope))
        (insert candidate.id (clone_fact candidate) known) rest

  -- The rules of one iteration, each on all facts known so far.
  unfoldable pub apply_rules :
      List RegisteredRule → Scope → DerivationLimits → Progress → Run Progress
  unfolding ◌>>=◌ ◌>>◌ poll ordered_facts accept_candidate_batch add_facts advance
  apply_rules [] scope limits st = give st
  apply_rules (rule ∷ rest) scope limits st = do
    poll
    -- This call of ctx.Err() follows that of the rule, whose failure is looked at later.
    poll
    candidates ← invoke_rule rule (ordered_facts st.known)
    batch ← accept_candidate_batch facts candidates scope rule.version st.known limits
    known ← add_facts batch.0 st.known
    apply_rules rest scope limits (advance st known batch.0 batch.1)

  -- One turn of the loop, by how many facts wait in the queue.
  module _ (continue : Progress → Run (Option Progress)) (rules : List RegisteredRule)
      (scope : Scope) (limits : DerivationLimits) where
    abbrev pub after_iteration : Progress → Bool → Run (Option Progress)
    after_iteration next true = continue next
    after_iteration next false = give (some next)

    unfoldable pub within_iterations : Progress → ℕ → Bool → Run (Option Progress)
    unfolding ◌>>=◌ apply_rules
    within_iterations st waiting true =
        give (some (record st { codes = with_iteration_limit st.codes }))
    within_iterations st waiting false = do
      next ← apply_rules rules scope limits (record st { pending = waiting; accepted = false })
      after_iteration next next.accepted

    unfoldable pub iterate : ℕ → Progress → ℕ → Run (Option Progress)
    unfolding ◌>>◌ poll within_iterations
    iterate iterations st zero = give (some st)
    iterate iterations st (suc waiting) = do
      poll
      within_iterations st waiting (exhausted iterations limits.max_iterations)

  -- `none` where the fuel runs out before the loop ends.
  unfoldable pub derive_loop :
      ℕ → List RegisteredRule → Scope → DerivationLimits → ℕ → Progress → Run (Option Progress)
  unfolding iterate
  derive_loop zero rules scope limits iterations st = give none
  derive_loop (suc fuel) rules scope limits iterations st =
      iterate (λ next. derive_loop fuel rules scope limits (iterations + 1) next) rules scope limits
        iterations st st.pending

  -- The facts' part of DerivationResult.Validate.
  unfoldable pub valid_result : List CanonicalFact → Bool
  unfolding increasing support_listed
  valid_result found =
      all facts.fact_valid found && increasing found && all (support_listed found) found

  abbrev pub make_derivation_result : Option Progress → Run (Option DerivationResult)
  make_derivation_result none = give none
  make_derivation_result (some st) =
      if valid_result (ordered_facts st.known)
      then give (some (record { facts = ordered_facts st.known; codes = st.codes }))
      else refuse invalid_output

  unfoldable pub derive_with_limits :
      ℕ
      → List RegisteredRule
      → List CanonicalFact
      → DerivationLimits
      → Run (Option DerivationResult)
  unfolding ◌>>=◌ ◌>>◌ poll validate_limits prepare_inputs derive_loop valid_result ordered_facts
  derive_with_limits fuel rules inputs limits = do
    poll
    validate_limits limits
    prepared ← prepare_inputs none [] inputs
    check (not (exceeds (length prepared.1) limits.max_facts)) input_exceeds_fact_limit
    st ←
        derive_loop fuel rules
          (first_scope prepared.0
            (record { organization_id = []; source_id = []; snapshot_id = [] }))
          limits 0 (started prepared.1 (length inputs))
    poll
    make_derivation_result st

  -- Derive: no limit, and the facts alone.
  unfoldable pub derive :
      ℕ → List RegisteredRule → List CanonicalFact → Run (Option (List CanonicalFact))
  unfolding ◌>>=◌ derive_with_limits
  derive fuel rules inputs = do
    result ←
        derive_with_limits fuel rules inputs
          (record { max_iterations = pos 0; max_facts = pos 0; max_fanout = pos 0 })
    give (elim result [ none ↦ none | some r ↦ some r.facts ])
