-- ===== src/Ingestion/Executor/Workers.antt =====
-- The loop of one worker in internal/ingestion/executor.go, round by round.
use manu.Base.{
  ℕ, ◌≡◌, refl, true, false, Bool, Option, none, some, List, [], ◌∷◌, Str, ◌⊎◌, All, arith,
  if◌then◌else◌,
}
use manu.Ingestion.Result.{Error, Context}
use manu.Ingestion.Executor.{JobStore, Turn, run_once_as, is_job_level_error}
use manu.Ingestion.Executor.Options.{ExecutorOptions}

-- What a round meets: ctx.Err() at its start, the claim's context and instant, the turn of the job
-- that may be claimed, and what waitForPoll returns where the round waits.
pub record Round (S : Type 0) : Type 0 where
  pub begins : Option Error
  pub claim_context : Context
  pub claim_at : ℕ
  pub turn : Turn S
  pub waited : Option Error

-- The error that ends the loop after a round with this outcome, if one does.
abbrev pub stops : Bool → Option Error → Option Error → Option Error
stops claimed (some e) waited = if is_job_level_error e then waited else some e
stops true none waited = none
stops false none waited = waited

abbrev pub is_job_error : Option Error → Bool
is_job_error none = false
is_job_error (some e) = is_job_level_error e

-- The round's context ends, if it does, with no error of a job.
abbrev pub EndsAsContext : {S : Type 0} → Round S → Type 0
EndsAsContext round = (is_job_error round.begins ≡ false) × (is_job_error round.waited ≡ false)

module _ {S : Type 0} (store : JobStore S) (options : ExecutorOptions) (owner : Str) where
  -- `none` where the worker still runs after these rounds.
  unfoldable pub worker : List (Round S) → S → Option Error × S
  worker [] s = (none, s)
  worker (round ∷ rest) s = elim round.begins [
    | some e ↦ (some e, s)
    | none ↦
        let ((claimed, failure), s') =
          run_once_as store options round.claim_context round.claim_at owner round.turn s in
        elim (stops claimed failure round.waited) [ some e ↦ (some e, s') | none ↦ worker rest s' ]
  ]

  stops_no_job_error :
      (claimed : Bool) (failure waited : Option Error)
      → is_job_error waited ≡ false
      → is_job_error (stops claimed failure waited) ≡ false
  stops_no_job_error claimed failure waited h = ground arith

  -- Where the context ends with no error of a job, neither does the worker.
  worker_ends_no_job_error :
      (rounds : List (Round S)) (s : S)
      → All EndsAsContext rounds
      → is_job_error (worker rounds s).0 ≡ false
  unfolding worker
  worker_ends_no_job_error [] s h = refl
  worker_ends_no_job_error (round ∷ rest) s h =
      let ((claimed, failure), s') =
        run_once_as store options round.claim_context round.claim_at owner round.turn s in
      ground (
        arith,
        stops_no_job_error claimed failure round.waited h.0.1,
        h.0.0,
        worker_ends_no_job_error rest s' h.1,
      )

  abbrev pub outcome : Round S → S → (Bool × Option Error) × S
  outcome round s = run_once_as store options round.claim_context round.claim_at owner round.turn s

  -- The store once runOnce has been called for each of these rounds in turn.
  abbrev pub store_after : List (Round S) → S → S
  store_after [] s = s
  store_after (round ∷ rest) s = store_after rest (outcome round s).1

  -- No round meets the end of the context, and runOnce reports nothing but errors of jobs.
  abbrev pub MeetsJobErrorsOnly : List (Round S) → S → Type 0
  MeetsJobErrorsOnly [] s = Unit
  MeetsJobErrorsOnly (round ∷ rest) s =
      ((round.begins ≡ none)
        × (round.waited ≡ none)
        × (((outcome round s).0.1 ≡ none) ⊎ (is_job_error (outcome round s).0.1 ≡ true)))
      × MeetsJobErrorsOnly rest (outcome round s).1
