-- ===== src/Ingestion/Store/Selection/Least.antt =====
-- The loop of Claim ends on the least eligible job, whatever the order of its visits.
use manu.Base.{
  ℕ, ◌≡◌, ◌≢◌, refl, true, false, Option, none, some, List, [], ◌∷◌, Str, Map, lookup, arith, inl,
  inr, Bool-cases, str_lt_irrefl, str_lt_trans, str_lt_total,
}
use mathlib.Core.List.{Memᴰ}
use manu.Ingestion.Job.{Job}
use manu.Ingestion.Store.Selection.{before, eligible, better, visit, select_from, select}
use manu.Ingestion.Store.Selection.Choice.{select-Found}

pub before_irrefl : (a : Job) → before a a ≡ false
unfolding before
before_irrefl a = ground (arith, str_lt_irrefl a.id)

pub before_trans : (a b c : Job) → before a b ≡ true → before b c ≡ true → before a c ≡ true
unfolding before
before_trans a b c h k = ground (arith, str_lt_trans a.id b.id c.id)

pub before_total : (a b : Job) → before a b ≡ false → before b a ≡ false → a.id ≡ b.id
unfolding before
before_total a b h k = ground (arith, str_lt_total a.id b.id)

-- Something is selected, and `j` does not come before it.
abbrev pub AtMost : Job → Option Job → Type 0
AtMost j none = ⊥
AtMost j (some s) = before j s ≡ false

module _ (organization : Str) (now : ℕ) (jobs : Map Job) where
  visit-kept :
      (j : Job) (selected candidate : Option Job)
      → AtMost j selected
      → AtMost j (visit organization now selected candidate)
  unfolding visit better
  visit-kept j none candidate h = absurd h
  visit-kept j (some s) none h = h
  visit-kept j (some s) (some c) h = elim (Bool-cases (eligible organization now c)) [
    | inr out ↦ rw out h
    | inl fits ↦ rw fits (elim (Bool-cases (before c s)) [
      | inr later ↦ rw later h
      | inl sooner ↦ rw sooner (ground (arith, before_trans j c s))
    ])
  ]

  visit-seen :
      (j : Job) (selected : Option Job)
      → eligible organization now j ≡ true
      → AtMost j (visit organization now selected (some j))
  unfolding visit better
  visit-seen j none fits = rw fits (before_irrefl j)
  visit-seen j (some s) fits = rw fits (elim (Bool-cases (before j s)) [
    | inr later ↦ rw later later
    | inl sooner ↦ rw sooner (before_irrefl j)
  ])

  select_from-kept :
      (j : Job) (ids : List Str) (selected : Option Job)
      → AtMost j selected
      → AtMost j (select_from organization now jobs ids selected)
  unfolding select_from
  select_from-kept j [] selected h = h
  select_from-kept j (id ∷ ids) selected h =
      select_from-kept j ids (visit organization now selected (lookup id jobs))
        (visit-kept j selected (lookup id jobs) h)

  select_from-seen :
      (j : Job) (l : Str) (ids : List Str) (selected : Option Job)
      → lookup l jobs ≡ some j
      → eligible organization now j ≡ true
      → Memᴰ l ids
      → AtMost j (select_from organization now jobs ids selected)
  unfolding select_from
  select_from-seen j l [] selected at fits m = elim m [ ]
  select_from-seen j l (id ∷ ids) selected at fits (Memᴰ.head e) =
      select_from-kept j ids (visit organization now selected (lookup id jobs))
        (rw (← e, at) (visit-seen j selected fits))
  select_from-seen j l (id ∷ ids) selected at fits (Memᴰ.tail m) =
      select_from-seen j l ids (visit organization now selected (lookup id jobs)) at fits m

  -- The ids that the loop visits leave no job out.
  abbrev pub Covers : List Str → Type 0
  Covers ids = (l : Str) (j : Job) → lookup l jobs ≡ some j → Memᴰ l ids

  pub select-AtMost :
      (ids : List Str) (j : Job) (l : Str)
      → Covers ids
      → lookup l jobs ≡ some j
      → eligible organization now j ≡ true
      → AtMost j (select organization now jobs ids)
  unfolding select
  select-AtMost ids j l covers at fits = select_from-seen j l ids none at fits (covers l j at)

  select-none :
      (ids ids' : List Str) (k : Job)
      → Covers ids
      → select organization now jobs ids' ≡ some k
      → select organization now jobs ids ≢ none
  select-none ids ids' k covers h e =
      let f = select-Found organization now jobs ids' k h in
      rw e at (select-AtMost ids k f.at covers f.stored f.fits)

  -- Go visits the keys of a map in any order. Two visits that leave no job out select the same job,
  -- where each job stands at its own identifier.
  pub select_order_irrelevant :
      (ids ids' : List Str)
      → Covers ids
      → Covers ids'
      → ((k : Str) (j : Job) → lookup k jobs ≡ some j → j.id ≡ k)
      → select organization now jobs ids ≡ select organization now jobs ids'
  select_order_irrelevant ids ids' covers covers' named =
      same (select organization now jobs ids) (select organization now jobs ids') refl refl
    where
      same :
          (a b : Option Job)
          → select organization now jobs ids ≡ a
          → select organization now jobs ids' ≡ b
          → a ≡ b
      same none none p q = refl
      same none (some k) p q = absurd (select-none ids ids' k covers q p)
      same (some k) none p q = absurd (select-none ids' ids k covers' p q)
      same (some k) (some k') p q =
          let f = select-Found organization now jobs ids k p in
          let f' = select-Found organization now jobs ids' k' q in
          let le : before k k' ≡ false =
            rw q at (select-AtMost ids' k f.at covers' f.stored f.fits) in
          let ge : before k' k ≡ false =
            rw p at (select-AtMost ids k' f'.at covers f'.stored f'.fits) in
          cc (
            before_total k k' le ge,
            named f.at k f.stored,
            named f'.at k' f'.stored,
            f.stored,
            f'.stored,
          )
