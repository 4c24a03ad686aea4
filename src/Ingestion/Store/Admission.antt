-- ===== src/Ingestion/Store/Admission.antt =====
-- A job that NewJob makes is one that Create takes.
use manu.Base.{
  ℕ, ◌≡◌, refl, ◌∙◌, ap, false, none, List, Option, lookup, arith, trim_space, ◌==◌, subst, sym,
  pos,
}
use manu.Ingestion.Result.{
  Result, ok, err, Passed, live, then_ok, invalid_job, then-eq-ok, bind-eq-ok, check_context, guard,
}
use manu.Ingestion.Job.{Job, pending, validation}
use manu.Ingestion.Job.Validate.{validate, validate_times}
use manu.Ingestion.Job.Validate.Parts.{validate→IsValid}
use manu.Ingestion.Job.New.{NewJobInput, choose_id, pending_job, new_job}
use manu.Ingestion.Store.{
  MemoryStore, Outcome, checked, create, with_defaults, check_new, insert_new, add_job,
  identity_key,
}

-- What NewJob returns.
pub record IsNew (j : Job) : Type 0 where
  pub valid : Passed (validate j)
  pub waiting : j.state ≡ pending
  pub first : j.stage ≡ validation
  pub untried : j.attempt_count ≡ pos 0

pub new_job-IsNew :
    (random : Option (List ℕ)) (now : ℕ) (input : NewJobInput) (j : Job)
    → new_job random now input ≡ ok j
    → IsNew j
unfolding new_job
new_job-IsNew random now input j h =
    let (id, _, h₁) = bind-eq-ok (choose_id random (trim_space input.id)) _ h in
    let (valid, e) =
      then-eq-ok (validate (pending_job now input id)) (ok (pending_job now input id)) h₁ in
    let same : pending_job now input id ≡ j = cc e in
    subst IsNew same (record {
      valid = valid;
      waiting = unfold pending_job in refl;
      first = unfold pending_job in refl;
      untried = unfold pending_job in refl;
    })

with_defaults-IsNew : (now : ℕ) (j : Job) → IsNew j → with_defaults now j ≡ j
unfolding with_defaults validate_times
with_defaults-IsNew now j n =
    let dated : (j.created_at == 0) ≡ false = ground (arith, (validate→IsValid j n.valid).times) in
    ground (arith, n.waiting, n.first, dated)

check_new-new_job : (j : Job) → IsNew j → Passed (check_new live j)
unfolding check_new check_context
check_new-new_job j n =
    then_ok (guard _ invalid_job) (validate j) (ground (arith, n.waiting, n.first, n.untried))
      n.valid

checked_ok :
    {A : Type 0} (m : Result (Unit {0})) (next : Outcome A) (s : MemoryStore)
    → Passed m
    → checked m next s ≡ next
checked_ok (ok tt) next s h = refl
checked_ok (err e) next s h = ground arith

create_filled :
    (now : ℕ) (j : Job) (s : MemoryStore)
    → with_defaults now j ≡ j
    → Passed (check_new live j)
    → create live now j s ≡ insert_new j s
unfolding create
create_filled now j s same passed =
    checked_ok (check_new live (with_defaults now j)) (insert_new (with_defaults now j) s) s
      (subst (λ k. Passed (check_new live k)) (sym same) passed)
    ∙ ap (λ k. insert_new k s) same

insert_unknown :
    (j : Job) (s : MemoryStore)
    → lookup j.id s.jobs ≡ none
    → lookup (identity_key j) s.by_key ≡ none
    → insert_new j s ≡ (ok j, add_job j s)
unfolding insert_new
insert_unknown j s fresh new = ground (arith, fresh, new)

-- In a store that knows neither its identifier nor its factual identity, at any instant, Create
-- returns a job that NewJob made as it is, and adds it to the store under both.
pub create-new_job :
    (random : Option (List ℕ)) (now later : ℕ) (input : NewJobInput) (j : Job) (s : MemoryStore)
    → new_job random now input ≡ ok j
    → lookup j.id s.jobs ≡ none
    → lookup (identity_key j) s.by_key ≡ none
    → create live later j s ≡ (ok j, add_job j s)
create-new_job random now later input j s h fresh new =
    let n = new_job-IsNew random now input j h in
    create_filled later j s (with_defaults-IsNew later j n) (check_new-new_job j n)
    ∙ insert_unknown j s fresh new
