-- ===== src/Ingestion/Store/Selection/Snapshot.antt =====
-- Snapshot lists every job once, in the order of creation.
use manu.Base.{◌≡◌, true, false, List, [], ◌∷◌, Map, arith, Bool-cases, inl, inr}
use mathlib.Core.List.{Perm}
use mathlib.Core.List.Perm
use manu.Ingestion.Job.{Job}
use manu.Ingestion.Store.Selection.{before, insert_sorted, collect, sorted_jobs}
use manu.Ingestion.Store.Selection.Least.{before_irrefl, before_trans}

-- No job comes before the one that is listed above it.
abbrev pub IsOrdered : List Job → Type 0
IsOrdered [] = Unit
IsOrdered (x ∷ []) = Unit
IsOrdered (x ∷ y ∷ rest) = (before y x ≡ false) × IsOrdered (y ∷ rest)

-- The jobs of a map.
abbrev pub values : Map Job → List Job
values [] = []
values ((id, job) ∷ rest) = job ∷ values rest

before_asym : (a b : Job) → before a b ≡ true → before b a ≡ false
before_asym a b h = ground (arith, before_irrefl a, before_trans a b a)

insert_under :
    (x j : Job) (l : List Job)
    → IsOrdered (x ∷ l)
    → before j x ≡ false
    → IsOrdered (x ∷ insert_sorted j l)
unfolding insert_sorted
insert_under x j [] h later = (later, tt)
insert_under x j (y ∷ l) h later = elim (Bool-cases (before j y)) [
  | inl sooner ↦ rw sooner (later, (before_asym j y sooner, h.1))
  | inr after ↦ rw after (h.0, insert_under y j l h.1 after)
]

insert_sorted-IsOrdered : (j : Job) (l : List Job) → IsOrdered l → IsOrdered (insert_sorted j l)
unfolding insert_sorted
insert_sorted-IsOrdered j [] h = tt
insert_sorted-IsOrdered j (x ∷ l) h = elim (Bool-cases (before j x)) [
  | inl sooner ↦ rw sooner (before_asym j x sooner, h)
  | inr later ↦ rw later (insert_under x j l h later)
]

insert_sorted-perm : (j : Job) (l : List Job) → Perm (insert_sorted j l) (j ∷ l)
unfolding insert_sorted
insert_sorted-perm j [] = Perm.refl (j ∷ [])
insert_sorted-perm j (x ∷ l) = elim (Bool-cases (before j x)) [
  | inl sooner ↦ rw sooner (Perm.refl (j ∷ x ∷ l))
  | inr later ↦ rw later (Perm.trans (Perm.cons x (insert_sorted-perm j l)) (Perm.swap j x l))
]

-- Snapshot returns the stored jobs, each as often as it is stored, and no job stands below one that
-- it comes before.
pub snapshot-IsOrdered : (m : Map Job) → IsOrdered (sorted_jobs m) × Perm (sorted_jobs m) (values m)
unfolding sorted_jobs collect
snapshot-IsOrdered [] = (tt, Perm.refl [])
snapshot-IsOrdered ((id, job) ∷ rest) =
    let (ordered, same) = snapshot-IsOrdered rest in
    (
      insert_sorted-IsOrdered job (collect rest) ordered,
      Perm.trans (insert_sorted-perm job (collect rest)) (Perm.cons job same),
    )
