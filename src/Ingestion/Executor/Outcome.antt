-- ===== src/Ingestion/Executor/Outcome.antt =====
-- What a processed job has gone through, whatever the store.
use manu.Base.{◌≡◌, inl, inr, Option, none, Str, Bool-cases, Option-cases, arith}
use manu.Ingestion.Result.{Error, ok, Result-cases}
use manu.Ingestion.Job.{Job, running, is_running}
use manu.Ingestion.Executor.{
  JobStore, Turn, lost, beat_during, conclude, process, publish, record_failure,
}
use manu.Ingestion.Executor.Options.{ExecutorOptions}

-- How a processed job came to be completed: nothing went wrong, and Complete took it.
pub record Published {S : Type 0} (store : JobStore S) (owner : Str) (job : Job) (turn : Turn S)
    (beat : Option Error) (s s' : S) : Type 0 where
  pub calm : turn.after ≡ none
  pub kept : lost beat ≡ none
  pub handled : turn.handled ≡ none
  pub latest : Job
  pub found : store.get turn.get_context job.organization_id job.id s ≡ ok latest
  pub going : latest.state ≡ running
  pub done : Job
  pub completed :
      store.complete turn.complete_context latest.organization_id latest.id owner latest.counts
        turn.complete_at
        (turn.between s)
      ≡ (ok done, s')

module _ {S : Type 0} (store : JobStore S) (owner : Str) (job : Job) (turn : Turn S) where
  record_failure_fails :
      (failure : Error) (s s' : S) → ¬ (record_failure store owner job turn failure s ≡ (none, s'))
  unfolding record_failure
  record_failure_fails failure s s' h = ground arith

  publish_nil :
      (beat : Option Error) (s s' : S)
      → turn.after ≡ none
      → lost beat ≡ none
      → turn.handled ≡ none
      → publish store owner job turn s ≡ (none, s')
      → Published store owner job turn beat s s'
  unfolding publish
  publish_nil beat s s' calm kept handled h =
      elim (Result-cases (store.get turn.get_context job.organization_id job.id s)) [
        | inr (e, missing) ↦ absurd (ground arith)
        | inl (latest, found) ↦ elim (Bool-cases (is_running latest.state)) [
          | inr ended ↦ absurd (ground arith)
          | inl going ↦
              let answer =
                store.complete turn.complete_context latest.organization_id latest.id owner
                  latest.counts turn.complete_at (turn.between s) in
              let r = rw going at (rw (found, publish) at h) in
              elim (Result-cases answer.0) [
                | inr (e, refused) ↦ absurd (let q = rw refused at r in ground arith)
                | inl (done, completed) ↦ record {
                  calm = calm;
                  kept = kept;
                  handled = handled;
                  latest = latest;
                  found = found;
                  going = ground arith;
                  done = done;
                  completed = let q = rw completed at r in ground arith;
                }
              ]
        ]
      ]

  conclude_nil :
      (beat : Option Error) (s s' : S)
      → conclude store owner job turn beat s ≡ (none, s')
      → Published store owner job turn beat s s'
  unfolding conclude
  conclude_nil beat s s' h = elim (Option-cases turn.after) [
    | inr (e, over) ↦ absurd (ground arith)
    | inl calm ↦ elim (Option-cases (lost beat)) [
      | inr (e, gone) ↦ absurd (ground arith)
      | inl kept ↦ elim (Option-cases turn.handled) [
        | inl handled ↦ publish_nil beat s s' calm kept handled (ground arith)
        | inr (failure, failed) ↦ absurd (record_failure_fails failure s s' (ground arith))
      ]
    ]
  ]

  -- Where process returns nil, its context was still in force, the heartbeat kept the lease, the
  -- handler returned nil, the store found the job running, and Complete took it with the counters
  -- found.
  pub process_nil :
      (options : ExecutorOptions) (s s' : S)
      → process store options owner job turn s ≡ (none, s')
      → Published store owner job turn
          (beat_during store options owner job turn.during s).0
          (beat_during store options owner job turn.during s).1
          s'
  unfolding process
  process_nil options s s' h =
      conclude_nil (beat_during store options owner job turn.during s).0
        (beat_during store options owner job turn.during s).1 s' h
