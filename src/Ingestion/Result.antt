-- ===== src/Ingestion/Result.antt =====
-- The error values of internal/ingestion/jobs.go and a result that carries one. What `fmt.Errorf`
-- adds to an error is text for a reader, and is left out.
use manu.Base.{◌⊎◌, inl, inr, ◌≡◌, refl, Bool, true, false, arith}

pub data Error : Type 0 where
  invalid_job job_not_found job_conflict job_state job_lease_lost job_cancelled : Error
  job_store job_processing job_partial : Error
  context_canceled deadline_exceeded : Error
  -- An error that wraps none of these: a handler's, or another store's.
  foreign : Error

pub data Result {ℓ} (A : Type ℓ) : Type ℓ where
  err : Error → Result A
  ok : A → Result A

-- `if err != nil { return err }` after a call that also returns a value, and after one that does not.
infixl 5 ◌>>◌ ◌>>=◌
abbrev pub ◌>>◌ {ℓ} : {B : Type ℓ} → Result (Unit {0}) → Result B → Result B
err failure >> next = err failure
ok done >> next = next

abbrev pub ◌>>=◌ {ℓ κ} : {A : Type ℓ} {B : Type κ} → Result A → (A → Result B) → Result B
err failure >>= next = err failure
ok value >>= next = next value

-- A condition that must hold, or else an early return of the sentinel.
abbrev pub guard : Bool → Error → Result (Unit {0})
guard false sentinel = err sentinel
guard true sentinel = ok tt

-- A context.Context as an operation finds it: nil, in force, or ended by its error.
pub data Context : Type 0 where
  nil : Context
  live : Context
  ended : Error → Context

unfoldable pub check_context : Context → Result (Unit {0})
check_context nil = err invalid_job
check_context live = ok tt
check_context (ended e) = err e

abbrev pub Passed : Result (Unit {0}) → Type 0
Passed m = m ≡ ok tt

pub then-eq-ok {ℓ} :
    {B : Type ℓ} (m : Result (Unit {0})) (k : Result B) {b : B}
    → (m >> k) ≡ ok b
    → (m ≡ ok tt) × (k ≡ ok b)
then-eq-ok (ok tt) k h = (refl, h)
then-eq-ok (err e) k h = ground arith

-- What a chain that succeeds went through.
pub bind-eq-ok {ℓ κ} :
    {A : Type ℓ} {B : Type κ} (first : Result A) (next : A → Result B) {result : B}
    → (first >>= next) ≡ ok result
    → (value : A) × (first ≡ ok value) × (next value ≡ ok result)
bind-eq-ok (err failure) next h = ground arith
bind-eq-ok (ok value) next h = (value, refl, h)

pub guard-eq-ok {ℓ} :
    {B : Type ℓ} (passed : Bool) (e : Error) (k : Result B) {b : B}
    → (guard passed e >> k) ≡ ok b
    → (passed ≡ true) × (k ≡ ok b)
guard-eq-ok true e k h = (refl, h)
guard-eq-ok false e k h = ground arith

pub then_ok {ℓ} :
    {B : Type ℓ} (m : Result (Unit {0})) (k : Result B) {b : B}
    → m ≡ ok tt
    → k ≡ ok b
    → (m >> k) ≡ ok b
then_ok (ok tt) k h e = e
then_ok (err x) k h e = ground arith

pub Result-cases {ℓ} :
    {A : Type ℓ} (r : Result A) → ((a : A) × (r ≡ ok a)) ⊎ ((e : Error) × (r ≡ err e))
Result-cases (ok a) = inl (a, refl)
Result-cases (err e) = inr (e, refl)
