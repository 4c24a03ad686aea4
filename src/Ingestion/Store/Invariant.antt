-- ===== src/Ingestion/Store/Invariant.antt =====
-- What holds of the store between two operations, and that every operation keeps it.
use manu.Base.{
  ℕ, suc, ◌+◌, ◌≤◌, ◌<◌, ◌≡◌, sym, subst, some, Option, List, [], ◌∷◌, Str, lookup, max_int64,
  arith, length,
}
use native.Mathlib.Nat.{add-zero, add-suc, suc-add}
use manu.Ingestion.Result.{Passed}
use manu.Ingestion.Job.{Job}
use manu.Ingestion.Job.Validate.{validate}
use manu.Ingestion.Job.Validate.Parts.{IsValid→validate}
use manu.Ingestion.Store.{MemoryStore, new_memory_store, identity_key}
use manu.Ingestion.Store.Steps.{
  Effect, unchanged, changed, added, Request, date, scope, worker, serve, serve_all,
}
use manu.Ingestion.Store.Steps.Effects.{serve-Effect}
use manu.Ingestion.Store.Consistency.{
  IsConsistent, new_memory_store-IsConsistent, unchanged-IsConsistent, changed-IsConsistent,
  added-IsConsistent,
}

-- The clock does not run back, and no job is created with a time ahead of it.
abbrev pub Timely : ℕ → List (ℕ × Request) → Type 0
Timely t [] = Unit
Timely t ((now, r) ∷ rest) = (t ≤ now) × (date now r ≤ now) × Timely now rest

Effect-IsConsistent :
    (n t now d : ℕ) (organization : Str) (by_worker : Option Str) (s s' : MemoryStore)
    → t ≤ now
    → d ≤ now
    → n < max_int64
    → IsConsistent n t s
    → Effect now d organization by_worker s s'
    → IsConsistent (suc n) now s'
Effect-IsConsistent n t now d organization by_worker s s' later dated few c (unchanged e) =
    subst (IsConsistent (suc n) now) (sym e) (unchanged-IsConsistent n t now s later c)
Effect-IsConsistent n t now d organization by_worker s s' later dated few c
      (changed id new change e) =
    subst (IsConsistent (suc n) now) (sym e)
      (changed-IsConsistent n t now s organization by_worker id new later few c change)
Effect-IsConsistent n t now d organization by_worker s s' later dated few c
      (added job addition at e) =
    subst (IsConsistent (suc n) now) (sym e)
      (added-IsConsistent n t now s job later (rw at dated) c addition)

-- The instant of the last request.
abbrev pub last_time : ℕ → List (ℕ × Request) → ℕ
last_time t [] = t
last_time t ((now, r) ∷ rest) = last_time now rest

pub serve_all-IsConsistent :
    (n t : ℕ) (requests : List (ℕ × Request)) (s : MemoryStore)
    → n + length requests ≤ max_int64
    → Timely t requests
    → IsConsistent n t s
    → IsConsistent (n + length requests) (last_time t requests) (serve_all requests s)
unfolding serve_all
serve_all-IsConsistent n t [] s few timely c = rw add-zero c
serve_all-IsConsistent n t ((now, r) ∷ rest) s few (later, dated, timely) c =
    rw (add-suc, ← suc-add)
      (serve_all-IsConsistent (suc n) now rest (serve now r s) (omega arith) timely (
        Effect-IsConsistent n t now (date now r) (scope r) (worker r) s (serve now r s) later dated
          (omega arith) c (serve-Effect now r s)))

-- After any list of requests on a new store, of at most 2^63 - 1 requests and at times that do not
-- run back, with no job created ahead of the clock: each stored job stands at its own identifier
-- and passes Job.Validate.
pub reachable_jobs_valid :
    (requests : List (ℕ × Request)) (k : Str) (j : Job)
    → length requests ≤ max_int64
    → Timely 0 requests
    → lookup k (serve_all requests new_memory_store).jobs ≡ some j
    → Passed (validate j) × (j.id ≡ k)
reachable_jobs_valid requests k j few timely at =
    let c =
      serve_all-IsConsistent 0 0 requests new_memory_store (omega arith) timely
        new_memory_store-IsConsistent in
    (IsValid→validate j (c.sound k j at).valid, c.named k j at)

-- After any list of requests on a new store, of at most 2^63 - 1 requests and at times that do not
-- run back, with no job created ahead of the clock, no two stored jobs have one factual identity
-- key: they are one job, at one identifier.
pub reachable_identity_unique :
    (requests : List (ℕ × Request)) (k l : Str) (i j : Job)
    → length requests ≤ max_int64
    → Timely 0 requests
    → lookup k (serve_all requests new_memory_store).jobs ≡ some i
    → lookup l (serve_all requests new_memory_store).jobs ≡ some j
    → identity_key i ≡ identity_key j
    → (k ≡ l) × (i ≡ j)
reachable_identity_unique requests k l i j few timely at_k at_l same =
    let c =
      serve_all-IsConsistent 0 0 requests new_memory_store (omega arith) timely
        new_memory_store-IsConsistent in
    let here : k ≡ l = cc (c.indexed k i at_k, c.indexed l j at_l, same) in
    (here, cc (here, at_k, at_l))
