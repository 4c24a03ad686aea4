-- ===== src/Ingestion/Store/Lease/Oldest.antt =====
-- Claim serves the oldest job that it may serve, and reports no work only where there is none.
use manu.Base.{
  ℕ, ◌<◌, ◌≡◌, refl, ap, ◌∙◌, ◌↔◌, true, false, Option, none, some, Str, lookup, insert, keys,
  mem-keys, ℤ, arith, Bool-cases, inl, inr, Option-cases, str_eq_refl,
}
use manu.Ingestion.Result.{Result, ok, err, Passed, Context}
use manu.Ingestion.Job.{Job, pending, valid_state, valid_stage}
use manu.Ingestion.Job.Validate.{validate, validate_switch, validate_details, validate_times}
use manu.Ingestion.Job.Validate.Parts.{IsValid, validate→IsValid}
use manu.Ingestion.Store.{MemoryStore, Outcome, checked}
use manu.Ingestion.Store.Selection.{before, claimable, eligible, select}
use manu.Ingestion.Store.Selection.Choice.{Found, select-Found}
use manu.Ingestion.Store.Selection.Least.{select-AtMost}
use manu.Ingestion.Store.Lease.{check_claim, claim, claim_selected, claimed_job}

checked-Passed :
    {A : Type 0} (check : Result (Unit {0})) (next : Outcome A) (s : MemoryStore)
    → Passed check
    → checked check next s ≡ next
checked-Passed (err e) next s h = ground arith
checked-Passed (ok tt) next s h = refl

-- The job is stored and eligible, and no stored eligible job comes before it.
pub record IsOldest (organization : Str) (now : ℕ) (s : MemoryStore) (k : Job) : Type 0 where
  pub found : Found organization now s.jobs k
  pub first :
      (l : Str) (j : Job)
      → lookup l s.jobs ≡ some j
      → eligible organization now j ≡ true
      → before j k ≡ false

-- A claim with valid arguments, where some stored job is eligible, returns the claimed form of the
-- oldest eligible job (by creation time, then identifier) and writes exactly that at its identifier.
pub claim_takes-IsOldest :
    (ctx : Context) (organization owner : Str) (lease : ℤ) (now : ℕ) (s : MemoryStore) (l : Str)
    (j : Job)
    → Passed (check_claim ctx organization owner lease)
    → lookup l s.jobs ≡ some j
    → eligible organization now j ≡ true
    → (k : Job) × IsOldest organization now s k
      × (claim ctx organization owner lease now s ≡ (
        ok (some (claimed_job owner lease now k)),
        record s { jobs = insert k.id (claimed_job owner lease now k) s.jobs },
      ))
unfolding claim claim_selected
claim_takes-IsOldest ctx organization owner lease now s l j passed at fits =
    let covers = λ (l : Str) (j : Job) (at : lookup l s.jobs ≡ some j). mem-keys l j s.jobs at in
    let least = select-AtMost organization now s.jobs (keys s.jobs) j l covers at fits in
    elim (Option-cases (select organization now s.jobs (keys s.jobs))) [
      | inl e ↦ absurd (rw e at least)
      | inr (k, e) ↦ (
        k,
        record {
          found = select-Found organization now s.jobs (keys s.jobs) k e;
          first = λ l' j' at' fits'.
              rw e at (select-AtMost organization now s.jobs (keys s.jobs) j' l' covers at' fits');
        },
        checked-Passed (check_claim ctx organization owner lease) _ s passed
            ∙ ap (λ x. claim_selected owner lease now x s) e,
      )
    ]

served_not_idle : {A : Type 0} (r : Result (Option A)) (x : A) → r ≡ ok none → r ≡ ok (some x) → ⊥
served_not_idle r x idle served = ground (arith, idle, served)

-- A claim with valid arguments reports that no work is available, and changes nothing, exactly
-- where no stored job is eligible.
pub claim_idle :
    (ctx : Context) (organization owner : Str) (lease : ℤ) (now : ℕ) (s : MemoryStore)
    → Passed (check_claim ctx organization owner lease)
    → (claim ctx organization owner lease now s ≡ (ok none, s))
      ↔ ((l : Str) (j : Job) → lookup l s.jobs ≡ some j → eligible organization now j ≡ false)
unfolding claim claim_selected
claim_idle ctx organization owner lease now s passed = (
  λ none_found l j at. elim (Bool-cases (eligible organization now j)) [
    | inr unfit ↦ unfit
    | inl fits ↦
        let (k, oldest, served) =
          claim_takes-IsOldest ctx organization owner lease now s l j passed at fits in
        absurd (
          served_not_idle _ (claimed_job owner lease now k)
            (ap (λ (x : Result (Option Job) × MemoryStore). x.0) none_found)
            (ap (λ (x : Result (Option Job) × MemoryStore). x.0) served))
  ],
  λ idle. elim (Option-cases (select organization now s.jobs (keys s.jobs))) [
    | inl e ↦
        checked-Passed (check_claim ctx organization owner lease) _ s passed
        ∙ ap (λ x. claim_selected owner lease now x s) e
    | inr (k, e) ↦
        let f = select-Found organization now s.jobs (keys s.jobs) k e in
        absurd (ground (arith, idle f.at k f.stored, f.fits))
  ],
)

started_too_early :
    (owner : Str) (lease : ℤ) (now : ℕ) (j : Job)
    → j.started_at ≡ none
    → now < j.created_at
    → ¬ Passed (validate_times (claimed_job owner lease now j))
unfolding claimed_job validate_times valid_state valid_stage
started_too_early owner lease now j fresh ahead h = ground arith

pending_facts :
    (j : Job) → IsValid j → j.state ≡ pending → (j.started_at ≡ none) × (j.cancel_requested ≡ false)
unfolding validate_switch validate_details
pending_facts j v waiting = ground (arith, v.switch, v.details)

-- Claim does not compare the clock with the creation time. A valid pending job whose creation time
-- lies ahead of the clock is eligible all the same, and the job that Claim then writes is refused
-- by Job.Validate, because it started before it was created.
pub claim_ahead_of_clock_invalid :
    (owner : Str) (lease : ℤ) (now : ℕ) (j : Job)
    → Passed (validate j)
    → j.state ≡ pending
    → now < j.created_at
    → (eligible j.organization_id now j ≡ true)
      × ¬ Passed (validate (claimed_job owner lease now j))
unfolding eligible claimable
claim_ahead_of_clock_invalid owner lease now j valid waiting ahead =
    let (fresh, wanted) = pending_facts j (validate→IsValid j valid) waiting in
    (
      ground (arith, str_eq_refl j.organization_id),
      λ bad.
          started_too_early owner lease now j fresh ahead
            (validate→IsValid (claimed_job owner lease now j) bad).times,
    )
