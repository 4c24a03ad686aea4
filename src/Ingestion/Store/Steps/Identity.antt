-- ===== src/Ingestion/Store/Steps/Identity.antt =====
-- What a transition leaves as it is: the identity of the job and its creation time.
use manu.Base.{ℕ, ◌≡◌, arith}
use manu.Ingestion.Job.{Job}
use manu.Ingestion.Store.{identity_key}
use manu.Ingestion.Store.Lease.{claimed_job, resumed_job}
use manu.Ingestion.Store.Progress.{completed_job, ended_job, cancelled_job}
use manu.Ingestion.Store.Steps.{
  Transition, take, renew, advance, finish, pause, resume, give_up, stop,
}

pub record Keeps (j j' : Job) : Type 0 where
  pub id : j'.id ≡ j.id
  pub organization_id : j'.organization_id ≡ j.organization_id
  pub source_external_id : j'.source_external_id ≡ j.source_external_id
  pub snapshot_external_id : j'.snapshot_external_id ≡ j.snapshot_external_id
  pub factual_digest : j'.factual_digest ≡ j.factual_digest
  pub created_at : j'.created_at ≡ j.created_at

pub Transition-Keeps : (now : ℕ) (j j' : Job) → Transition now j j' → Keeps j j'
unfolding claimed_job resumed_job completed_job ended_job cancelled_job
Transition-Keeps now j j' (take owner lease asks free kept e) = ground arith
Transition-Keeps now j j' (renew owner lease asks holds e) = ground arith
Transition-Keeps now j j' (advance owner stage counts holds valid allowed counted e) = ground arith
Transition-Keeps now j j' (finish owner counts holds at counted e) = ground arith
Transition-Keeps now j j' (pause owner stage diagnostic counts holds valid allowed safe counted e) =
    ground arith
Transition-Keeps now j j' (resume owner lease asks paused at kept e) = ground arith
Transition-Keeps now j j' (give_up owner diagnostic holds safe e) = ground arith
Transition-Keeps now j j' (stop open_state e) = ground arith

pub identity_key-Keeps : (j j' : Job) → Keeps j j' → identity_key j' ≡ identity_key j
unfolding identity_key
identity_key-Keeps j j' k =
    cc (k.organization_id, k.source_external_id, k.snapshot_external_id, k.factual_digest)
