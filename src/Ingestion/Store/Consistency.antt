-- ===== src/Ingestion/Store/Consistency.antt =====
-- A consistent store of jobs, and the changes that leave it consistent.
use manu.Base.{
  ℕ, suc, ◌≤◌, ◌<◌, ◌≡◌, subst, inl, inr, ◌⊎◌, none, some, Option, Str, str_eq, str_eq_iff, lookup,
  insert, lookup-insert, lookup-insert_self, lookup-insert-cases, max_int64, arith, Bool-cases,
  true, false,
}
use manu.Ingestion.Job.{Job}
use manu.Ingestion.Job.Validate.{validate_switch}
use manu.Ingestion.Job.Validate.Parts.{IsValid, validate→IsValid}
use manu.Ingestion.Store.{MemoryStore, new_memory_store, identity_key, add_job}
use manu.Ingestion.Store.Steps.{Change, Addition}
use manu.Ingestion.Store.Steps.Validity.{Transition-IsSound}
use manu.Ingestion.Store.Steps.Soundness.{IsSound, By}
use manu.Ingestion.Store.Steps.Identity.{Keeps, Transition-Keeps, identity_key-Keeps}

-- After `n` operations, at the instant `t`: every job is sound and stands at its identifier, and
-- the index by factual identity names each job, and names nothing else.
pub record IsConsistent (n t : ℕ) (s : MemoryStore) : Type 0 where
  pub sound : (k : Str) (j : Job) → lookup k s.jobs ≡ some j → IsSound n t j
  pub named : (k : Str) (j : Job) → lookup k s.jobs ≡ some j → j.id ≡ k
  pub indexed :
      (k : Str) (j : Job) → lookup k s.jobs ≡ some j → lookup (identity_key j) s.by_key ≡ some k
  pub keyed :
      (key k : Str)
      → lookup key s.by_key ≡ some k
      → (j : Job) × (lookup k s.jobs ≡ some j) × (identity_key j ≡ key)

pub new_memory_store-IsConsistent : IsConsistent 0 0 new_memory_store
unfolding new_memory_store lookup
new_memory_store-IsConsistent = record {
  sound = λ k j h. absurd (ground arith);
  named = λ k j h. absurd (ground arith);
  indexed = λ k j h. absurd (ground arith);
  keyed = λ key k h. absurd (ground arith);
}

By-later : (t now : ℕ) (at : Option ℕ) → t ≤ now → By t at → By now at
By-later t now none later h = h
By-later t now (some at) later h = omega arith

IsSound-later : (n m t now : ℕ) (j : Job) → n ≤ m → t ≤ now → IsSound n t j → IsSound m now j
IsSound-later n m t now j more later s = record {
  valid = s.valid;
  created = omega arith;
  started = By-later t now j.started_at later s.started;
  attempts = omega arith;
}

pub unchanged-IsConsistent :
    (n t now : ℕ) (s : MemoryStore) → t ≤ now → IsConsistent n t s → IsConsistent (suc n) now s
unchanged-IsConsistent n t now s later c = record {
  sound = λ k j h. IsSound-later n (suc n) t now j (omega arith) later (c.sound k j h);
  named = c.named;
  indexed = c.indexed;
  keyed = c.keyed;
}

-- One job is written over the stored one that it follows from.
pub changed-IsConsistent :
    (n t now : ℕ) (s : MemoryStore) (organization : Str) (by_worker : Option Str) (id : Str)
    (new : Job)
    → t ≤ now
    → n < max_int64
    → IsConsistent n t s
    → Change now organization by_worker s id new
    → IsConsistent (suc n) now (record s { jobs = insert new.id new s.jobs })
changed-IsConsistent n t now s organization by_worker id new later few c change = record {
  sound = λ k j h. elim (lookup-insert-cases new.id k new s.jobs h) [
    | inl (at, e) ↦ subst (IsSound (suc n) now) e (
        Transition-IsSound n t now change.old new (c.sound id change.old change.stored) later few
          change.moved)
    | inr old ↦ IsSound-later n (suc n) t now j (omega arith) later (c.sound k j old)
  ];
  named = λ k j h. elim (lookup-insert-cases new.id k new s.jobs h) [
    | inl (at, e) ↦ cc
    | inr old ↦ c.named k j old
  ];
  indexed = λ k j h. elim (lookup-insert-cases new.id k new s.jobs h) [
    | inl (at, e) ↦ cc (
      same_key,
      kept.id,
      c.named id change.old change.stored,
      c.indexed id change.old change.stored,
    )
    | inr old ↦ c.indexed k j old
  ];
  keyed = λ key k h. rekey k key (c.keyed key k h) (Bool-cases (str_eq new.id k));
}
  where
    kept : Keeps change.old new
    kept = Transition-Keeps now change.old new change.moved

    same_key : identity_key new ≡ identity_key change.old
    same_key = identity_key-Keeps change.old new kept

    rekey :
        (k key : Str)
        → (j : Job) × (lookup k s.jobs ≡ some j) × (identity_key j ≡ key)
        → (str_eq new.id k ≡ true) ⊎ (str_eq new.id k ≡ false)
        → (j : Job) × (lookup k (insert new.id new s.jobs) ≡ some j) × (identity_key j ≡ key)
    rekey k key (j, stored, same) (inl here) =
        let at : new.id ≡ k = (str_eq_iff new.id k).0 here in
        (
          new,
          rw (← at) (lookup-insert_self new.id new s.jobs),
          cc (
            same_key,
            same,
            stored,
            at,
            kept.id,
            c.named id change.old change.stored,
            change.stored,
          ),
        )
    rekey k key (j, stored, same) (inr away) = (j, rw (lookup-insert, away) stored, same)

-- A job that Create adds.
pub added-IsConsistent :
    (n t now : ℕ) (s : MemoryStore) (job : Job)
    → t ≤ now
    → job.created_at ≤ now
    → IsConsistent n t s
    → Addition s job
    → IsConsistent (suc n) now (add_job job s)
unfolding add_job
added-IsConsistent n t now s job later dated c new = record {
  sound = λ k j h. elim (lookup-insert-cases job.id k job s.jobs h) [
    | inl (at, e) ↦ subst (IsSound (suc n) now) e fresh
    | inr old ↦ IsSound-later n (suc n) t now j (omega arith) later (c.sound k j old)
  ];
  named = λ k j h. elim (lookup-insert-cases job.id k job s.jobs h) [
    | inl (at, e) ↦ cc
    | inr old ↦ c.named k j old
  ];
  indexed = λ k j h. elim (lookup-insert-cases job.id k job s.jobs h) [
    | inl (at, e) ↦ rw (← e, ← at) (lookup-insert_self (identity_key job) job.id s.by_key)
    | inr old ↦ ground (
      arith,
      lookup-insert (identity_key job) (identity_key j) job.id s.by_key,
      str_eq_iff (identity_key job) (identity_key j),
      c.indexed k j old,
      new.fresh_key,
    )
  ];
  keyed = λ key k h. rekey k key h (Bool-cases (str_eq (identity_key job) key));
}
  where
    valid : IsValid job
    valid = validate→IsValid job new.valid

    fresh : IsSound (suc n) now job
    fresh = record {
      valid = valid;
      created = dated;
      started = unfold validate_switch in ground (arith, valid.switch, new.is_pending);
      attempts = unfold validate_switch in ground (arith, valid.switch, new.is_pending);
    }

    rekey :
        (k key : Str)
        → lookup key (insert (identity_key job) job.id s.by_key) ≡ some k
        → (str_eq (identity_key job) key ≡ true) ⊎ (str_eq (identity_key job) key ≡ false)
        → (j : Job) × (lookup k (insert job.id job s.jobs) ≡ some j) × (identity_key j ≡ key)
    rekey k key h (inl here) =
        let at : job.id ≡ k =
          ground (arith, lookup-insert (identity_key job) key job.id s.by_key) in
        (
          job,
          rw (← at) (lookup-insert_self job.id job s.jobs),
          (str_eq_iff (identity_key job) key).0 here,
        )
    rekey k key h (inr away) =
        let (j, stored, same) =
          c.keyed key k (ground (arith, lookup-insert (identity_key job) key job.id s.by_key)) in
        (
          j,
          ground (arith, lookup-insert job.id k job s.jobs, str_eq_iff job.id k, new.fresh_id),
          same,
        )
