-- ===== src/Ingestion/Store/Evolution/Leases.antt =====
-- Who may change a job: the worker that holds its lease, and no other organization.
use manu.Base.{
  ℕ, ◌≡◌, ◌≢◌, refl, sym, ◌⊎◌, inl, inr, false, none, some, Str, lookup, arith, ap, ◌∙◌,
}
use manu.Ingestion.Job.{Job}
use manu.Ingestion.Store.{MemoryStore}
use manu.Ingestion.Store.Selection.{claimable}
use manu.Ingestion.Store.Progress.{cancelled_job}
use manu.Ingestion.Store.Steps.{
  Holds, Transition, take, renew, advance, finish, pause, resume, give_up, stop, actor, Request,
  scope, worker, serve,
}
use manu.Ingestion.Store.Evolution.{IsNamed, as_it_was, moved_on, serve-Outlives}

Holds-unique : (a b : Str) (now : ℕ) (j : Job) → Holds a now j → Holds b now j → a ≡ b
Holds-unique a b now j h k = sym h.owned ∙ k.owned

not-claimable-Holds : (a : Str) (now : ℕ) (j : Job) → Holds a now j → claimable j now ≡ false
unfolding claimable
not-claimable-Holds a now j h = ground (arith, h.is_running, h.leased, h.in_time)

-- A transition of a leased job is made by the holder, or it is a cancellation.
actor-Holds :
    (a : Str) (now : ℕ) (j j' : Job) (t : Transition now j j')
    → Holds a now j
    → (actor t ≡ some a) ⊎ ((actor t ≡ none) × (j' ≡ cancelled_job now j))
actor-Holds a now j j' (take owner lease asks free kept e) h =
    absurd (ground (arith, not-claimable-Holds a now j h))
actor-Holds a now j j' (renew owner lease asks holds e) h =
    inl (ap some (Holds-unique owner a now j holds h))
actor-Holds a now j j' (advance owner stage counts holds valid allowed counted e) h =
    inl (ap some (Holds-unique owner a now j holds h))
actor-Holds a now j j' (finish owner counts holds at counted e) h =
    inl (ap some (Holds-unique owner a now j holds h))
actor-Holds a now j j' (pause owner stage diagnostic counts holds valid allowed safe counted e) h =
    inl (ap some (Holds-unique owner a now j holds h))
actor-Holds a now j j' (resume owner lease asks paused at kept e) h =
    absurd (ground (arith, h.is_running))
actor-Holds a now j j' (give_up owner diagnostic holds safe e) h =
    inl (ap some (Holds-unique owner a now j holds h))
actor-Holds a now j j' (stop open_state e) h = inr (refl, e)

-- While a worker holds the lease of a stored job, a request of another worker, whichever the
-- operation, leaves the job as it is; a request that no worker sends may only cancel it.
pub lease_protects :
    (now : ℕ) (r : Request) (s : MemoryStore) (k owner : Str) (j : Job)
    → IsNamed s
    → lookup k s.jobs ≡ some j
    → Holds owner now j
    → worker r ≢ some owner
    → (lookup k (serve now r s).jobs ≡ some j)
      ⊎ ((worker r ≡ none) × (lookup k (serve now r s).jobs ≡ some (cancelled_job now j)))
lease_protects now r s k owner j named at holds other =
    let (j', at', outlives) = serve-Outlives now r s k j named at in
    elim outlives [
      | as_it_was e ↦ inl (at' ∙ ap some e)
      | moved_on t scoped acted ↦ elim (actor-Holds owner now j j' t holds) [
        | inl mine ↦ absurd (other (sym acted ∙ mine))
        | inr (cancelled, e) ↦ inr (sym acted ∙ cancelled, at' ∙ ap some e)
      ]
    ]

-- A request for one organization leaves the jobs of every other as they are.
pub organizations_isolated :
    (now : ℕ) (r : Request) (s : MemoryStore) (k : Str) (j : Job)
    → IsNamed s
    → lookup k s.jobs ≡ some j
    → j.organization_id ≢ scope r
    → lookup k (serve now r s).jobs ≡ some j
organizations_isolated now r s k j named at other =
    let (j', at', outlives) = serve-Outlives now r s k j named at in
    elim outlives [
      | as_it_was e ↦ at' ∙ ap some e
      | moved_on t scoped acted ↦ absurd (other scoped)
    ]
