-- ===== src/Ingestion/Store/Evolution.antt =====
-- What requests do to the stored jobs, one by one and along a list.
pub mod Leases
pub mod Lifecycle
pub mod Completion
use manu.Base.{
  ℕ, zero, suc, ◌≤◌, ◌≡◌, ◌≢◌, refl, sym, subst, ◌∙◌, inl, inr, ◌⊎◌, none, some, Option, List, [],
  ◌∷◌, Str, str_eq, str_eq_iff, lookup, insert, lookup-insert, lookup-insert_self,
  lookup-insert-cases, Bool-cases, ◌≤ℤ◌, arith, true, false, ◌<◌,
}
use manu.Ingestion.Job.{JobState, pending, running, completed, partial, failed, Job}
use manu.Ingestion.Job.Stage.{stage_index}
use manu.Ingestion.Store.{MemoryStore, new_memory_store, add_job}
use manu.Ingestion.Store.Steps.{
  Holds, Transition, take, renew, advance, finish, pause, resume, give_up, stop, actor, Change,
  Addition, Effect, unchanged, changed, added, Request, scope, worker, date, serve, serve_all,
}
use manu.Ingestion.Store.Steps.Effects.{serve-Effect}
use manu.Ingestion.Store.Steps.Identity.{Keeps, Transition-Keeps}
use manu.Ingestion.Store.Steps.Graph.{
  Follows, Transition-Follows, Progressed, Transition-Progressed,
}

-- Each job stands at its identifier.
abbrev pub IsNamed : MemoryStore → Type 0
IsNamed s = (k : Str) (j : Job) → lookup k s.jobs ≡ some j → j.id ≡ k

-- What a request of the organization, sent by the worker, may leave at the key of the job `j`.
pub data Outlives (now : ℕ) (organization : Str) (by_worker : Option Str) (j : Job)
    : Job → Type 0 where
  as_it_was : {j' : Job} → j' ≡ j → Outlives now organization by_worker j j'
  moved_on :
      {j' : Job} (t : Transition now j j')
      → j.organization_id ≡ organization
      → actor t ≡ by_worker
      → Outlives now organization by_worker j j'

Effect-Outlives :
    (now d : ℕ) (organization : Str) (by_worker : Option Str) (s s' : MemoryStore) (k : Str)
    (j : Job)
    → IsNamed s
    → lookup k s.jobs ≡ some j
    → Effect now d organization by_worker s s'
    → (j' : Job) × (lookup k s'.jobs ≡ some j') × Outlives now organization by_worker j j'
unfolding add_job
Effect-Outlives now d organization by_worker s s' k j named at (unchanged e) =
    (j, cc (e, at), as_it_was refl)
Effect-Outlives now d organization by_worker s s' k j named at (changed id new c e) =
    elim (Bool-cases (str_eq new.id k)) [
      | inl same ↦
          let here : new.id ≡ k = (str_eq_iff new.id k).0 same in
          let kept = Transition-Keeps now c.old new c.moved in
          let old : c.old ≡ j = ground (arith, kept.id, named id c.old c.stored, c.stored) in
          (
            new,
            rw (e, ← here) (lookup-insert_self new.id new s.jobs),
            subst (λ x. Outlives now organization by_worker x new) old
                (moved_on c.moved c.scoped c.acted),
          )
      | inr other ↦ (j, rw (e, lookup-insert, other) at, as_it_was refl)
    ]
Effect-Outlives now d organization by_worker s s' k j named at (added job a dated e) = (
  j,
  rw e (ground (arith, lookup-insert job.id k job s.jobs, str_eq_iff job.id k, a.fresh_id)),
  as_it_was refl,
)

pub serve-Outlives :
    (now : ℕ) (r : Request) (s : MemoryStore) (k : Str) (j : Job)
    → IsNamed s
    → lookup k s.jobs ≡ some j
    → (j' : Job) × (lookup k (serve now r s).jobs ≡ some j')
      × Outlives now (scope r) (worker r) j j'
serve-Outlives now r s k j named at =
    Effect-Outlives now (date now r) (scope r) (worker r) s (serve now r s) k j named at
      (serve-Effect now r s)

Effect-IsNamed :
    (now d : ℕ) (organization : Str) (by_worker : Option Str) (s s' : MemoryStore)
    → IsNamed s
    → Effect now d organization by_worker s s'
    → IsNamed s'
unfolding add_job
Effect-IsNamed now d organization by_worker s s' named (unchanged e) k j h = named k j (rw e at h)
Effect-IsNamed now d organization by_worker s s' named (changed id new c e) k j h =
    elim (lookup-insert-cases new.id k new s.jobs (rw e at h)) [
      | inl (at, same) ↦ cc
      | inr old ↦ named k j old
    ]
Effect-IsNamed now d organization by_worker s s' named (added job a dated e) k j h =
    elim (lookup-insert-cases job.id k job s.jobs (rw e at h)) [
      | inl (at, same) ↦ cc
      | inr old ↦ named k j old
    ]

pub serve-IsNamed : (now : ℕ) (r : Request) (s : MemoryStore) → IsNamed s → IsNamed (serve now r s)
serve-IsNamed now r s named =
    Effect-IsNamed now (date now r) (scope r) (worker r) s (serve now r s) named
      (serve-Effect now r s)

-- A chain of transitions, at any instants.
pub data Evolves : Job → Job → Type 0 where
  stay : {j j' : Job} → j' ≡ j → Evolves j j'
  step : {j j' j'' : Job} (now : ℕ) → Transition now j j' → Evolves j' j'' → Evolves j j''

Outlives-Evolves :
    (now : ℕ) (organization : Str) (by_worker : Option Str) (j j' j'' : Job)
    → Outlives now organization by_worker j j'
    → Evolves j' j''
    → Evolves j j''
Outlives-Evolves now organization by_worker j j' j'' (as_it_was e) rest =
    subst (λ x. Evolves x j'') e rest
Outlives-Evolves now organization by_worker j j' j'' (moved_on t scoped acted) rest =
    step now t rest

pub serve_all-Evolves :
    (requests : List (ℕ × Request)) (s : MemoryStore) (k : Str) (j : Job)
    → IsNamed s
    → lookup k s.jobs ≡ some j
    → (j' : Job) × (lookup k (serve_all requests s).jobs ≡ some j') × Evolves j j'
unfolding serve_all
serve_all-Evolves [] s k j named at = (j, at, stay refl)
serve_all-Evolves ((now, r) ∷ rest) s k j named at =
    let (j', at', outlives) = serve-Outlives now r s k j named at in
    let (j'', at'', evolves) =
      serve_all-Evolves rest (serve now r s) k j' (serve-IsNamed now r s named) at' in
    (j'', at'', Outlives-Evolves now (scope r) (worker r) j j' j'' outlives evolves)

pub Evolves-Progressed : (j j' : Job) → Evolves j j' → Progressed j j'
Evolves-Progressed j j' (stay e) = rw e (record {
  stage = omega arith;
  artifacts = omega arith;
  observations = omega arith;
  evidence = omega arith;
  failures = omega arith;
})
Evolves-Progressed j j' (step {j' = m} now t rest) =
    let p = Transition-Progressed now j m t in
    let q = Evolves-Progressed m j' rest in
    record {
      stage = omega (arith, p.stage, q.stage);
      artifacts = omega (arith, p.artifacts, q.artifacts);
      observations = omega (arith, p.observations, q.observations);
      evidence = omega (arith, p.evidence, q.evidence);
      failures = omega (arith, p.failures, q.failures);
    }

abbrev pub IsTerminal : Job → Type 0
IsTerminal j = (j.state ≡ completed) ⊎ (j.state ≡ failed)

not-Follows-IsTerminal : (a b : JobState) → Follows a b → (a ≢ completed) × (a ≢ failed)
not-Follows-IsTerminal a b Follows.claimed = (λ e. ground arith, λ e. ground arith)
not-Follows-IsTerminal a b Follows.withdrawn = (λ e. ground arith, λ e. ground arith)
not-Follows-IsTerminal a b Follows.kept = (λ e. ground arith, λ e. ground arith)
not-Follows-IsTerminal a b Follows.done = (λ e. ground arith, λ e. ground arith)
not-Follows-IsTerminal a b Follows.limited = (λ e. ground arith, λ e. ground arith)
not-Follows-IsTerminal a b Follows.broken = (λ e. ground arith, λ e. ground arith)
not-Follows-IsTerminal a b Follows.resumed = (λ e. ground arith, λ e. ground arith)

Evolves-IsTerminal : (j j' : Job) → IsTerminal j → Evolves j j' → j' ≡ j
Evolves-IsTerminal j j' over (stay e) = e
Evolves-IsTerminal j j' (inl e) (step {j' = m} now t rest) =
    absurd ((not-Follows-IsTerminal j.state m.state (Transition-Follows now j m t)).0 e)
Evolves-IsTerminal j j' (inr e) (step {j' = m} now t rest) =
    absurd ((not-Follows-IsTerminal j.state m.state (Transition-Follows now j m t)).1 e)

pub new_memory_store-IsNamed : IsNamed new_memory_store
unfolding new_memory_store lookup
new_memory_store-IsNamed k j h = absurd (ground arith)

pub serve_all-IsNamed :
    (requests : List (ℕ × Request)) (s : MemoryStore) → IsNamed s → IsNamed (serve_all requests s)
unfolding serve_all
serve_all-IsNamed [] s named = named
serve_all-IsNamed ((now, r) ∷ rest) s named =
    serve_all-IsNamed rest (serve now r s) (serve-IsNamed now r s named)
