-- ===== src/Ingestion/Store/Steps/Moves.antt =====
-- The job that an operation of MemoryStore writes follows from the stored one by a transition.
use manu.Base.{
  Option, ℕ, ◌≡◌, refl, [], ◌∷◌, inl, inr, some, Str, str_eq_iff, lookup, ℤ, arith, Option-cases,
  trim_space, not, ◌&&◌,
}
use manu.Ingestion.Result.{
  Result, ok, Passed, Context, then-eq-ok, guard-eq-ok, job_state, bind-eq-ok, check_context,
}
use manu.Ingestion.Job.{Job, is_partial, is_embedding_projection}
use manu.Ingestion.Text.{validate_identifier}
use manu.Ingestion.Store.{MemoryStore, find}
use manu.Ingestion.Store.Lease.{
  validate_lease, require_lease, resumed_job, heartbeat_job, resume_partial_job,
}
use manu.Ingestion.Store.Progress.{running_job}
use manu.Ingestion.Store.Steps.{Holds, Asks, Change, actor, Transition, renew, resume}

pub find-eq-ok :
    (organization id : Str) (s : MemoryStore) (j : Job)
    → find organization id s ≡ ok j
    → (lookup id s.jobs ≡ some j) × (j.organization_id ≡ organization)
unfolding find
find-eq-ok organization id s j h = elim (Option-cases (lookup id s.jobs)) [
  | inl e ↦ ground arith
  | inr (old, e) ↦ ground (arith, str_eq_iff old.organization_id organization)
]

pub require_lease-Holds :
    (j : Job) (owner : Str) (now : ℕ) → Passed (require_lease j owner now) → Holds owner now j
unfolding require_lease
require_lease-Holds j owner now h = elim (Option-cases j.lease_expires_at) [
  | inl e ↦ absurd (ground arith)
  | inr (at, e) ↦ record {
    is_running = ground arith;
    owned = ground (arith, str_eq_iff j.lease_owner owner);
    named = ground (arith, str_eq_iff j.lease_owner owner);
    until = at;
    leased = e;
    in_time = ground arith;
  }
]

pub validate_lease-Asks :
    (owner : Str) (lease : ℤ) → Passed (validate_lease owner lease) → Asks owner lease
unfolding validate_lease trim_space
validate_lease-Asks [] lease h = absurd (ground arith)
validate_lease-Asks (c ∷ owner) lease h = record { named = refl; positive = ground arith }

-- A transition that `owner` makes.
pub record Moved (now : ℕ) (owner : Str) (old new : Job) : Type 0 where
  pub by_transition : Transition now old new
  pub acted : actor by_transition ≡ some owner

-- Where an operation writes what `r` holds, it makes a change or it returns an error.
abbrev pub Changes : ℕ → Str → Option Str → MemoryStore → Str → Result Job → Type 0
Changes now organization worker s id r =
    (new : Job) → r ≡ ok new → Change now organization worker s id new

pub running_job-Changes :
    (organization id owner : Str) (now : ℕ) (update : Job → Result Job) (s : MemoryStore)
    → ((old new : Job) → Holds owner now old → update old ≡ ok new → Moved now owner old new)
    → Changes now organization (some owner) s id (running_job organization id owner now update s)
unfolding running_job
running_job-Changes organization id owner now update s moves new h =
    let (old, found, rest) = bind-eq-ok (find organization id s) _ h in
    let (held, updated) = then-eq-ok (require_lease old owner now) _ rest in
    let (stored, scoped) = find-eq-ok organization id s old found in
    let made = moves old new (require_lease-Holds old owner now held) updated in
    record {
      old = old;
      stored = stored;
      scoped = scoped;
      moved = made.by_transition;
      acted = made.acted;
    }

pub heartbeat-Changes :
    (ctx : Context) (organization id owner : Str) (lease : ℤ) (now : ℕ) (s : MemoryStore)
    → Changes now organization
        (some owner)
        s
        id
        (heartbeat_job ctx organization id owner lease now s)
unfolding heartbeat_job
heartbeat-Changes ctx organization id owner lease now s new h =
    let (_, h₁) = then-eq-ok (check_context ctx) _ h in
    let (asked, h₂) = then-eq-ok (validate_lease owner lease) _ h₁ in
    let (old, found, h₃) = bind-eq-ok (find organization id s) _ h₂ in
    let (held, e) = then-eq-ok (require_lease old owner now) _ h₃ in
    let (stored, scoped) = find-eq-ok organization id s old found in
    record {
      old = old;
      stored = stored;
      scoped = scoped;
      moved =
          renew owner lease (validate_lease-Asks owner lease asked)
            (require_lease-Holds old owner now held) (cc e);
      acted = refl {a = some owner};
    }

pub resume_partial-Changes :
    (ctx : Context) (organization id owner : Str) (lease : ℤ) (now : ℕ) (s : MemoryStore)
    → Changes now organization
        (some owner)
        s
        id
        (resume_partial_job ctx organization id owner lease now s)
unfolding resume_partial_job
resume_partial-Changes ctx organization id owner lease now s new h =
    let (_, h₁) = then-eq-ok (check_context ctx) _ h in
    let (_, h₂) = then-eq-ok (validate_identifier organization) _ h₁ in
    let (_, h₃) = then-eq-ok (validate_identifier id) _ h₂ in
    let (asked, h₄) = then-eq-ok (validate_lease owner lease) _ h₃ in
    let (old, found, h₅) = bind-eq-ok (find organization id s) _ h₄ in
    let (ready, e) =
      guard-eq-ok
        (is_partial old.state && is_embedding_projection old.stage && not old.cancel_requested)
        job_state (ok (resumed_job owner lease now old)) h₅ in
    let (stored, scoped) = find-eq-ok organization id s old found in
    record {
      old = old;
      stored = stored;
      scoped = scoped;
      moved =
          resume owner lease (validate_lease-Asks owner lease asked) (ground arith) (ground arith)
            (ground arith) (cc e);
      acted = refl {a = some owner};
    }
