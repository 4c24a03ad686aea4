-- ===== src/Ingestion/Store/Creation.antt =====
-- Create: what was created is found, and creating it again changes nothing.
use manu.Base.{
  is_zero, ℕ, ◌<◌, ◌≡◌, refl, sym, ap, ◌∙◌, true, ◌&&◌, Option, none, some, Str, str_eq_refl,
  lookup, lookup-insert_self, arith, inl, inr, Option-cases, if◌then◌else◌, ◌==◌,
}
use manu.Ingestion.Result.{
  Result, ok, err, Passed, Context, live, invalid_job, then-eq-ok, guard-eq-ok, check_context,
}
use manu.Ingestion.Job.{Job, is_pending, is_validation}
use manu.Ingestion.Job.Validate.{
  validate, validate_times, validate_switch, validate_names, validate_references,
  validate_lease_fields, validate_details,
}
use manu.Ingestion.Job.Validate.Parts.{validate→IsValid, IsValid→validate}
use manu.Ingestion.Store.{
  MemoryStore, Outcome, checked, create, with_defaults, check_new, insert_new, reuse, add_job,
  identity_key, same_identity, find, get,
}
use manu.Ingestion.Store.Evolution.{IsNamed}

-- The outcome with a given result is that result at the store it leaves.
reuse-eq-ok :
    (found : Option Job) (job j : Job)
    → reuse found job ≡ ok j
    → (found ≡ some j) × (same_identity j job ≡ true)
unfolding reuse
reuse-eq-ok none job j h = ground arith
reuse-eq-ok (some existing) job j h = ground arith

-- How Create came to return `j`: it stands at its key, or it was added.
pub data Inserted (job : Job) (s : MemoryStore) (j : Job) (s' : MemoryStore) : Type 0 where
  by_id : lookup job.id s.jobs ≡ some j → same_identity j job ≡ true → s' ≡ s → Inserted job s j s'
  by_key :
      (id : Str)
      → lookup job.id s.jobs ≡ none
      → lookup (identity_key job) s.by_key ≡ some id
      → lookup id s.jobs ≡ some j
      → same_identity j job ≡ true
      → s' ≡ s
      → Inserted job s j s'
  as_new : j ≡ job → s' ≡ add_job job s → Inserted job s j s'

insert_new-Inserted :
    (job : Job) (s : MemoryStore) (j : Job) (s' : MemoryStore)
    → insert_new job s ≡ (ok j, s')
    → Inserted job s j s'
unfolding insert_new
insert_new-Inserted job s j s' h = elim (Option-cases (lookup job.id s.jobs)) [
  | inr (old, e) ↦
      let r = rw (e, insert_new) at h in
      let (found, same) = reuse-eq-ok (some old) job j (ap (λ x. x.0) r) in
      by_id (e ∙ found) same (sym (ap (λ x. x.1) r))
  | inl fresh ↦ elim (Option-cases (lookup (identity_key job) s.by_key)) [
    | inr (id, e) ↦
        let r = rw (fresh, e, insert_new) at h in
        let (found, same) = reuse-eq-ok (lookup id s.jobs) job j (ap (λ x. x.0) r) in
        by_key id fresh e found same (sym (ap (λ x. x.1) r))
    | inl new ↦
        let r = rw (fresh, new, insert_new) at h in as_new (ground arith) (sym (ap (λ x. x.1) r))
  ]
]

checked-eq-ok :
    {A : Type 0} (check : Result (Unit {0})) (next : Outcome A) (s s' : MemoryStore) (a : A)
    → checked check next s ≡ (ok a, s')
    → Passed check × (next ≡ (ok a, s'))
checked-eq-ok (err e) next s s' a h = absurd (ground arith)
checked-eq-ok (ok tt) next s s' a h = (refl, h)

Inserted-find :
    (job : Job) (s : MemoryStore) (j : Job) (s' : MemoryStore)
    → IsNamed s
    → Inserted job s j s'
    → lookup j.id s'.jobs ≡ some j
unfolding add_job
Inserted-find job s j s' named (by_id found same e) = cc (e, found, named job.id j found)
Inserted-find job s j s' named (by_key id fresh key found same e) = cc (e, found, named id j found)
Inserted-find job s j s' named (as_new new e) = rw (e, new) (lookup-insert_self job.id job s.jobs)

-- What Create returns as its result, be it the new job or one that was there, Get finds under its
-- identifier and organization in the store that Create leaves.
pub get-create :
    (ctx : Context) (now : ℕ) (job : Job) (s : MemoryStore) (j : Job) (s' : MemoryStore)
    → IsNamed s
    → create ctx now job s ≡ (ok j, s')
    → get live j.organization_id j.id s' ≡ ok j
unfolding create get find check_context
get-create ctx now job s j s' named h =
    let filled = with_defaults now job in
    let (_, inserted) = checked-eq-ok (check_new ctx filled) (insert_new filled s) s s' j h in
    rw (Inserted-find filled s j s' named (insert_new-Inserted filled s j s' inserted), find)
      (rw (str_eq_refl j.organization_id) refl)

same_identity_refl : (j : Job) → same_identity j j ≡ true
unfolding same_identity
same_identity_refl j = ground (
  arith,
  str_eq_refl j.organization_id,
  str_eq_refl j.source_external_id,
  str_eq_refl j.snapshot_external_id,
  str_eq_refl j.factual_digest,
  str_eq_refl j.analysis_configuration_id,
  str_eq_refl j.source_id,
  str_eq_refl j.snapshot_id,
  str_eq_refl j.organization_external_id,
  str_eq_refl j.organization_name,
)

-- The same job, dated otherwise.
abbrev redated : ℕ → Job → Job
redated t job = record job { created_at = t }

same_identity-redated :
    (t : ℕ) (j job : Job) → same_identity j (redated t job) ≡ same_identity j job
unfolding same_identity
same_identity-redated t j job = refl

insert_new_by_id :
    (job : Job) (s : MemoryStore) (j : Job)
    → lookup job.id s.jobs ≡ some j
    → same_identity j job ≡ true
    → insert_new job s ≡ (ok j, s)
unfolding insert_new reuse
insert_new_by_id job s j found same = rw (found, insert_new) (rw same refl)

insert_new_by_key :
    (job : Job) (s : MemoryStore) (j : Job) (id : Str)
    → lookup job.id s.jobs ≡ none
    → lookup (identity_key job) s.by_key ≡ some id
    → lookup id s.jobs ≡ some j
    → same_identity j job ≡ true
    → insert_new job s ≡ (ok j, s)
unfolding insert_new reuse
insert_new_by_key job s j id fresh key found same =
    rw (fresh, key, insert_new) (rw (found, reuse) (rw same refl))

Inserted-again :
    (t : ℕ) (job : Job) (s : MemoryStore) (j : Job) (s' : MemoryStore)
    → Inserted job s j s'
    → insert_new (redated t job) s' ≡ (ok j, s')
unfolding identity_key add_job
Inserted-again t job s j s' (by_id found same e) =
    insert_new_by_id (redated t job) s' j (rw e found) (same_identity-redated t j job ∙ same)
Inserted-again t job s j s' (by_key id fresh key found same e) =
    insert_new_by_key (redated t job) s' j id (rw e fresh) (rw e key) (rw e found)
      (same_identity-redated t j job ∙ same)
Inserted-again t job s j s' (as_new new e) =
    insert_new_by_id (redated t job) s' j (rw (e, new) (lookup-insert_self job.id job s.jobs))
      (same_identity-redated t j job ∙ rw new (same_identity_refl job))

check_new-redated :
    (ctx : Context) (t : ℕ) (job : Job)
    → 0 < t
    → Passed (check_new ctx job)
    → Passed (check_new live (redated t job))
unfolding check_new check_context
check_new-redated ctx t job dated h =
    let (_, h₁) = then-eq-ok (check_context ctx) _ h in
    let (new, valid) =
      guard-eq-ok (is_pending job.state && is_validation job.stage && is_zero job.attempt_count)
        invalid_job (validate job) h₁ in
    let v = validate→IsValid job valid in
    rw new (
      IsValid→validate (redated t job) (record {
        names = unfold validate_names in v.names;
        references = unfold validate_references in v.references;
        times = unfold validate_times validate_switch in ground (arith, v.times, v.switch);
        lease = unfold validate_lease_fields in v.lease;
        switch = unfold validate_switch in ground (arith, v.switch);
        details = unfold validate_details in v.details;
      }))

-- Create is idempotent: where it returned a job, the same call at any later instant that is not the
-- zero time returns the same job and changes nothing.
pub create_again :
    (ctx : Context) (now later : ℕ) (job : Job) (s : MemoryStore) (j : Job) (s' : MemoryStore)
    → 0 < later
    → create ctx now job s ≡ (ok j, s')
    → create live later job s' ≡ (ok j, s')
unfolding create with_defaults
create_again ctx now later job s j s' dated h =
    let filled = with_defaults now job in
    let (passed, inserted) = checked-eq-ok (check_new ctx filled) (insert_new filled s) s s' j h in
    let t = if job.created_at == 0 then later else job.created_at in
    rw (check_new-redated ctx t filled (ground arith) passed)
      (Inserted-again t filled s j s' (insert_new-Inserted filled s j s' inserted))
