-- ===== src/Ingestion/Executor/Options.antt =====
-- NewExecutor and workerOwner of internal/ingestion/executor.go, over the options of a store and a
-- handler that are not nil. Durations are nanoseconds.
use manu.Base.{
  ℕ, zero, suc, ◌+◌, ◌/◌, ◌≤◌, ◌<◌, ◌≡◌, refl, subst, not, ◌&&◌, Option, none, some, List, [], ◌∷◌,
  ◌++◌, reverse, ◌==◌, Str, bytes, is_empty, trim_space, has_control, length, leb, if◌then◌else◌, ℤ,
  pos, negsuc, is_zero, is_positive, ltb_ℤ, pos_part, arith,
}
use manu.Ingestion.Result.{
  Result, ok, ◌>>◌, Passed, live, guard, invalid_job, then-eq-ok, guard-eq-ok,
}
use manu.Ingestion.Text.{validate_identifier, new_uuid, max_job_identifier_length}
use manu.Ingestion.Store.Lease.{check_claim}

pub record ExecutorOptions : Type 0 where
  pub organization_id : Str
  pub workers : ℤ
  pub lease_duration : ℤ
  pub heartbeat_interval : ℤ
  pub poll_interval : ℤ
  pub owner : Str

abbrev pub millisecond : ℕ
millisecond = 1_000_000

unfoldable pub default_executor_options : Option (List ℕ) → ExecutorOptions
default_executor_options random = record {
  organization_id = bytes "";
  workers = pos 1;
  lease_duration = pos 30_000_000_000;
  heartbeat_interval = pos 10_000_000_000;
  poll_interval = pos 100_000_000;
  owner = elim (new_uuid random) [ none ↦ bytes "executor" | some id ↦ id ];
}

abbrev opposite : ℕ → ℤ
opposite zero = pos 0
opposite (suc n) = negsuc n

-- Go's division of an int64 by 3 rounds towards zero.
abbrev third : ℤ → ℤ
third (pos n) = pos (n / 3)
third (negsuc n) = opposite ((n + 1) / 3)

abbrev or_default : ℤ → ℤ → ℤ
or_default given default = if is_zero given then default else given

unfoldable pub with_executor_defaults : ExecutorOptions → ExecutorOptions → ExecutorOptions
with_executor_defaults defaults options =
    let lease = or_default options.lease_duration defaults.lease_duration in
    record options {
      workers = or_default options.workers defaults.workers;
      lease_duration = lease;
      heartbeat_interval =
          if is_zero options.heartbeat_interval
          then or_default (third lease) defaults.heartbeat_interval
          else options.heartbeat_interval;
      poll_interval = or_default options.poll_interval defaults.poll_interval;
      owner = if is_empty (trim_space options.owner) then defaults.owner else options.owner;
    }

unfoldable pub check_options : ExecutorOptions → Result (Unit {0})
check_options options = do
  guard
      (is_positive options.workers
        && is_positive options.lease_duration
        && is_positive options.heartbeat_interval
        && ltb_ℤ options.heartbeat_interval options.lease_duration
        && not (ltb_ℤ options.poll_interval (pos millisecond)))
      invalid_job
  guard (not (has_control options.owner) && leb (length options.owner) max_job_identifier_length)
      invalid_job

unfoldable pub new_executor : Option (List ℕ) → ExecutorOptions → Result ExecutorOptions
unfolding default_executor_options with_executor_defaults check_options
new_executor random options = do
  validate_identifier options.organization_id
  let filled = with_executor_defaults (default_executor_options random) options
  check_options filled
  ok filled

-- What an executor's options satisfy.
pub record IsBounded (e : ExecutorOptions) : Type 0 where
  pub workers : 1 ≤ pos_part e.workers
  pub beats : 1 ≤ pos_part e.heartbeat_interval
  pub in_lease : pos_part e.heartbeat_interval < pos_part e.lease_duration
  pub polls : millisecond ≤ pos_part e.poll_interval
  pub short : length e.owner ≤ 256

check_options-IsBounded : (e : ExecutorOptions) → Passed (check_options e) → IsBounded e
unfolding check_options
check_options-IsBounded e h =
    let (times, h₁) =
      guard-eq-ok
        (is_positive e.workers
          && is_positive e.lease_duration
          && is_positive e.heartbeat_interval
          && ltb_ℤ e.heartbeat_interval e.lease_duration
          && not (ltb_ℤ e.poll_interval (pos millisecond)))
        invalid_job _ h in
    record {
      workers = ground (arith, times);
      beats = ground (arith, times);
      in_lease = ground (arith, times);
      polls = ground (arith, times);
      short = ground (arith, h₁);
    }

-- An executor that NewExecutor makes has a worker, polls at intervals of a millisecond at least,
-- has an owner of at most 256 bytes, and beats within the lease, at a positive interval.
new_executor-IsBounded :
    (random : Option (List ℕ)) (options e : ExecutorOptions)
    → new_executor random options ≡ ok e
    → IsBounded e
unfolding new_executor check_options
new_executor-IsBounded random options e h =
    let (_, h₁) = then-eq-ok (validate_identifier options.organization_id) _ h in
    let filled = with_executor_defaults (default_executor_options random) options in
    let (checked, same) = then-eq-ok (check_options filled) (ok filled) h₁ in
    subst IsBounded (cc same) (check_options-IsBounded filled checked)

-- The next number, from its decimal digits in ASCII, the last digit first.
abbrev next_digits : List ℕ → List ℕ
next_digits [] = b'1' ∷ []
next_digits (d ∷ ds) =
    let carried = next_digits ds in if d == b'9' then b'0' ∷ carried else (d + 1) ∷ ds

abbrev digits_of : ℕ → List ℕ
digits_of zero = b'0' ∷ []
digits_of (suc n) = next_digits (digits_of n)

-- The name under which a worker of Run claims jobs.
unfoldable pub worker_owner : ExecutorOptions → ℕ → Str
worker_owner e worker = e.owner ++ b'/' ∷ reverse (digits_of worker)

worker_owner_test : (e : ExecutorOptions) → e.owner ≡ bytes "w" → worker_owner e 120 ≡ bytes "w/120"
unfolding worker_owner
worker_owner_test e h = rw h refl

-- What an executor claims with, under some name.
abbrev ClaimPasses : ExecutorOptions → Str → Type 0
ClaimPasses e owner = Passed (check_claim live e.organization_id owner e.lease_duration)
