-- ===== src/Ingestion/Executor.antt =====
-- The executor of internal/ingestion/executor.go: workers that claim jobs and process them. The
-- store and the handler are ports; what others do to the store in the meantime is an argument.
pub mod Options
pub mod Outcome
pub mod Recorded
pub mod Workers
pub mod Pool
use manu.Base.{
  ℕ, Bool, true, false, not, Option, none, some, List, [], ◌∷◌, Str, bytes, if◌then◌else◌, ℤ,
}
use manu.Ingestion.Result.{
  Error, Result, ok, err, Context, job_not_found, job_state, job_lease_lost, job_cancelled,
  job_store, job_processing, job_partial, context_canceled, foreign, ◌>>◌, check_context,
}
use manu.Ingestion.Job.{Job, JobCounts, Diagnostic, is_running, is_partial, is_failed}
use manu.Ingestion.Executor.Options.{ExecutorOptions}

-- JobStore, as far as the executor calls it, over the state that its calls change.
pub record JobStore (S : Type 0) : Type 0 where
  pub claim : Context → Str → Str → ℤ → ℕ → S → Result (Option Job) × S
  pub heartbeat : Context → Str → Str → Str → ℤ → ℕ → S → Result Job × S
  pub fail : Context → Str → Str → Str → Diagnostic → ℕ → S → Result Job × S
  pub get : Context → Str → Str → S → Result Job
  pub complete : Context → Str → Str → Str → JobCounts → ℕ → S → Result Job × S

unfoldable pub is_job_level_error : Error → Bool
is_job_level_error job_processing = true
is_job_level_error job_lease_lost = true
is_job_level_error job_cancelled = true
is_job_level_error job_partial = true
is_job_level_error job_state = true
is_job_level_error job_not_found = true
is_job_level_error _ = false

-- Of an error that is not nil.
unfoldable pub normalize_job_error : Error → Error
normalize_job_error foreign = job_store
normalize_job_error e = e

-- What happens to the store while a handler works: the heartbeat ticks, or somebody else acts.
pub data Event (S : Type 0) : Type 0 where
  tick : Context → ℕ → Event S
  others : (S → S) → Event S

-- One call of process: what happens during it, what the handler returns, what ctx.Err() is then,
-- and the contexts and instants of the calls that follow.
pub record Turn (S : Type 0) : Type 0 where
  pub during : List (Event S)
  pub handled : Option Error
  pub after : Option Error
  pub cleanup_context : Context
  pub fail_at : ℕ
  pub get_context : Context
  pub between : S → S
  pub complete_context : Context
  pub complete_at : ℕ

abbrev pub processing_failed : Diagnostic
processing_failed = record {
  code = bytes "processing_failed";
  message = bytes "job processing failed";
}

-- `heartbeatErr != nil && !errors.Is(heartbeatErr, context.Canceled)`
abbrev pub lost : Option Error → Option Error
lost (some context_canceled) = none
lost beat = beat

abbrev pub is_partial_error : Error → Bool
is_partial_error job_partial = true
is_partial_error _ = false

abbrev pub stopped_error : Job → Error
stopped_error latest =
    if is_partial latest.state
    then job_partial
    else if is_failed latest.state
    then (if latest.cancel_requested then job_cancelled else job_state)
    else job_state

module _ {S : Type 0} (store : JobStore S) where
  -- The heartbeat stopped; the others go on.
  unfoldable pub elapse : List (Event S) → S → S
  elapse [] s = s
  elapse (tick ctx now ∷ rest) s = elapse rest s
  elapse (others act ∷ rest) s = elapse rest (act s)

  -- The heartbeat's error, if it sent one, and the store once the handler is done.
  unfoldable pub beat_during : ExecutorOptions → Str → Job → List (Event S) → S → Option Error × S
  unfolding elapse normalize_job_error
  beat_during options owner job [] s = (none, s)
  beat_during options owner job (others act ∷ rest) s = beat_during options owner job rest (act s)
  beat_during options owner job (tick ctx now ∷ rest) s =
      let (answer, s') =
        store.heartbeat ctx job.organization_id job.id owner options.lease_duration now s in
      elim answer [
        | err e ↦ (some (normalize_job_error e), elapse rest s')
        | ok renewed ↦ beat_during options owner job rest s'
      ]

  unfoldable pub record_failure : Str → Job → Turn S → Error → S → Option Error × S
  unfolding normalize_job_error
  record_failure owner job turn failure s =
      if is_partial_error failure
      then (some job_partial, s)
      else let (answer, s') =
          store.fail turn.cleanup_context job.organization_id job.id owner processing_failed
            turn.fail_at s in
        elim answer [
          | err e ↦ (some (normalize_job_error e), s')
          | ok ended ↦ (some job_processing, s')
        ]

  unfoldable pub publish : Str → Job → Turn S → S → Option Error × S
  unfolding normalize_job_error
  publish owner job turn s = elim (store.get turn.get_context job.organization_id job.id s) [
    | err e ↦ (some (normalize_job_error e), s)
    | ok latest ↦
        if not (is_running latest.state)
        then (some (stopped_error latest), s)
        else let (answer, s') =
            store.complete turn.complete_context latest.organization_id latest.id owner
              latest.counts turn.complete_at (turn.between s) in
          elim answer [ err e ↦ (some (normalize_job_error e), s') | ok done ↦ (none, s') ]
  ]

  -- What process does after the handler and the heartbeat have ended.
  unfoldable pub conclude : Str → Job → Turn S → Option Error → S → Option Error × S
  unfolding record_failure publish
  conclude owner job turn beat s = elim turn.after [
    | some e ↦ (some e, s)
    | none ↦ elim (lost beat) [
      | some e ↦ (some e, s)
      | none ↦ elim turn.handled [
        | some failure ↦ record_failure owner job turn failure s
        | none ↦ publish owner job turn s
      ]
    ]
  ]

  -- The error that process returns, or none where it returns nil.
  unfoldable pub process : ExecutorOptions → Str → Job → Turn S → S → Option Error × S
  unfolding beat_during conclude
  process options owner job turn s =
      let (beat, s') = beat_during options owner job turn.during s in
      conclude owner job turn beat s'

  -- The flag tells that a job was claimed.
  unfoldable pub run_once_as :
      ExecutorOptions → Context → ℕ → Str → Turn S → S → (Bool × Option Error) × S
  unfolding process
  run_once_as options ctx now owner turn s =
      let (answer, s') =
        store.claim ctx options.organization_id owner options.lease_duration now s in
      elim answer [
        | err e ↦ ((false, some e), s')
        | ok found ↦ elim found [
          | none ↦ ((false, none), s')
          | some job ↦
              let (failure, s'') = process options owner job turn s' in ((true, failure), s'')
        ]
      ]

  -- RunOnce on an executor that is configured.
  unfoldable pub run_once : ExecutorOptions → Context → ℕ → Turn S → S → (Bool × Option Error) × S
  unfolding run_once_as check_context
  run_once options ctx now turn s = elim (check_context ctx) [
    | err e ↦ ((false, some e), s)
    | ok passed ↦ run_once_as options ctx now options.owner turn s
  ]
