-- ===== src/Ingestion/Store/Selection/Choice.antt =====
-- What the loop of Claim finds: a job that is stored and eligible.
use manu.Base.{
  ℕ, ◌≡◌, true, Option, none, some, List, [], ◌∷◌, Str, Map, lookup, arith, Option-cases, inl, inr,
  ◌⊎◌,
}
use manu.Ingestion.Job.{Job}
use manu.Ingestion.Store.Selection.{eligible, better, visit, select_from, select}

module _ (organization : Str) (now : ℕ) (jobs : Map Job) where
  pub record Found (j : Job) : Type 0 where
    pub at : Str
    pub stored : lookup at jobs ≡ some j
    pub fits : eligible organization now j ≡ true

  visit-cases :
      (selected : Option Job) (j k : Job)
      → visit organization now selected (some j) ≡ some k
      → (selected ≡ some k) ⊎ ((j ≡ k) × (eligible organization now j ≡ true))
  unfolding visit better
  visit-cases none j k h = ground arith
  visit-cases (some i) j k h = ground arith

  visit-Found :
      (id : Str) (selected : Option Job) (k : Job)
      → visit organization now selected (lookup id jobs) ≡ some k
      → (selected ≡ some k) ⊎ Found k
  visit-Found id selected k h = elim (Option-cases (lookup id jobs)) [
    | inl e ↦ inl (unfold visit in rw e at h)
    | inr (j, e) ↦ elim (visit-cases selected j k (rw e at h)) [
      | inl old ↦ inl old
      | inr (same, fits) ↦ inr (record { at = id; stored = cc (e, same); fits = rw (← same) fits })
    ]
  ]

  select_from-Found :
      (ids : List Str) (selected : Option Job) (k : Job)
      → select_from organization now jobs ids selected ≡ some k
      → (selected ≡ some k) ⊎ Found k
  unfolding select_from
  select_from-Found [] selected k h = inl h
  select_from-Found (id ∷ ids) selected k h =
      elim (select_from-Found ids (visit organization now selected (lookup id jobs)) k h) [
        | inl e ↦ visit-Found id selected k e
        | inr found ↦ inr found
      ]

  pub select-Found :
      (ids : List Str) (k : Job) → select organization now jobs ids ≡ some k → Found k
  unfolding select
  select-Found ids k h = elim (select_from-Found ids none k h) [
    | inl e ↦ absurd (ground arith)
    | inr found ↦ found
  ]
