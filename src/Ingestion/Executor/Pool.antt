-- ===== src/Ingestion/Executor/Pool.antt =====
-- Run of internal/ingestion/executor.go: what it returns, by what its select finds first.
use manu.Base.{◌≡◌, subst, false, Option, none, some, List, [], ◌∷◌, All, arith, inl, inr}
use mathlib.Core.List.{Memᴰ}
use manu.Ingestion.Result.{Error, Context, ok, err, Result-cases, check_context, context_canceled}
use manu.Ingestion.Executor.Workers.{is_job_error}

-- What a worker's goroutine puts into the channel when the worker ends.
abbrev pub forwarded : Option Error → Option Error
forwarded (some context_canceled) = none
forwarded result = result

-- The caller's context ended, a worker's error came, or all workers have ended, with what
-- ctx.Err() is then.
pub data Ending : Type 0 where
  caller_ended : Error → Ending
  worker_failed : Error → Ending
  all_finished : Option Error → Ending

abbrev pub finish : Ending → Option Error
finish (caller_ended e) = some e
finish (worker_failed e) = some e
finish (all_finished after) = after

-- Run of an executor that is configured: nil, or the error.
unfoldable pub run : Context → Ending → Option Error
unfolding check_context
run ctx ending = elim (check_context ctx) [ err e ↦ some e | ok passed ↦ finish ending ]

-- The endings that are possible where the workers' results are these and a context ends with no
-- error of a job.
pub data Possible (results : List (Option Error)) : Ending → Type 0 where
  by_caller : (e : Error) → is_job_error (some e) ≡ false → Possible results (caller_ended e)
  by_worker :
      (e : Error) (result : Option Error)
      → Memᴰ result results
      → forwarded result ≡ some e
      → Possible results (worker_failed e)
  by_all :
      (after : Option Error) → is_job_error after ≡ false → Possible results (all_finished after)

result_no_job_error :
    (results : List (Option Error)) (r : Option Error)
    → All (λ x. is_job_error x ≡ false) results
    → Memᴰ r results
    → is_job_error r ≡ false
result_no_job_error [] r h m = elim m [ ]
result_no_job_error (x ∷ xs) r h (Memᴰ.head e) = rw e h.0
result_no_job_error (x ∷ xs) r h (Memᴰ.tail m) = result_no_job_error xs r h.1 m

forwarded_same : (r : Option Error) (e : Error) → forwarded r ≡ some e → r ≡ some e
forwarded_same r e h = ground arith

finish_no_job_error :
    (results : List (Option Error)) (ending : Ending)
    → All (λ r. is_job_error r ≡ false) results
    → Possible results ending
    → is_job_error (finish ending) ≡ false
finish_no_job_error results (caller_ended c) h (by_caller e calm) = calm
finish_no_job_error results (all_finished c) h (by_all after calm) = calm
finish_no_job_error results (worker_failed c) h (by_worker e r m sent) =
    subst (λ x. is_job_error x ≡ false) (forwarded_same r e sent)
      (result_no_job_error results r h m)

-- Run reports no error of a job: where the contexts end with none, and no worker's result is one,
-- neither is what Run returns.
run_survives_jobs :
    (ctx : Context) (results : List (Option Error)) (ending : Ending)
    → ((e : Error) → check_context ctx ≡ err e → is_job_error (some e) ≡ false)
    → All (λ r. is_job_error r ≡ false) results
    → Possible results ending
    → is_job_error (run ctx ending) ≡ false
unfolding run
run_survives_jobs ctx results ending calm h p = elim (Result-cases (check_context ctx)) [
  | inr (e, over) ↦ rw (over, run) (calm e over)
  | inl (passed, goes) ↦ rw (goes, run) (finish_no_job_error results ending h p)
]
