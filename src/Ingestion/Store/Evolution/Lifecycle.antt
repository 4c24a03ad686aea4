-- ===== src/Ingestion/Store/Evolution/Lifecycle.antt =====
-- What a job can become, along any list of requests.
use manu.Base.{ℕ, ◌≡◌, some, List, Str, lookup, ap, ◌∙◌}
use manu.Ingestion.Job.{Job}
use manu.Ingestion.Store.{MemoryStore}
use manu.Ingestion.Store.Steps.{Request, serve_all}
use manu.Ingestion.Store.Steps.Graph.{Progressed}
use manu.Ingestion.Store.Evolution.{
  IsNamed, serve_all-Evolves, Evolves-Progressed, IsTerminal, Evolves-IsTerminal,
}

-- Along any list of requests a stored job stays stored, its stage does not go back, and none of its
-- four counters decreases.
pub progress_kept :
    (requests : List (ℕ × Request)) (s : MemoryStore) (k : Str) (j : Job)
    → IsNamed s
    → lookup k s.jobs ≡ some j
    → (j' : Job) × (lookup k (serve_all requests s).jobs ≡ some j') × Progressed j j'
progress_kept requests s k j named at =
    let (j', at', evolves) = serve_all-Evolves requests s k j named at in
    (j', at', Evolves-Progressed j j' evolves)

-- A completed or failed job is never changed again, whatever the requests.
pub terminal_absorbs :
    (requests : List (ℕ × Request)) (s : MemoryStore) (k : Str) (j : Job)
    → IsNamed s
    → lookup k s.jobs ≡ some j
    → IsTerminal j
    → lookup k (serve_all requests s).jobs ≡ some j
terminal_absorbs requests s k j named at over =
    let (j', at', evolves) = serve_all-Evolves requests s k j named at in
    at' ∙ ap some (Evolves-IsTerminal j j' over evolves)
