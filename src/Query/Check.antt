-- ===== src/Query/Check.antt =====
-- The errors of internal/query/context.go, the checks that return one of them or nil, and the runs of
-- the package, which end with the context.
use manu.Base.{
  ◌≡◌, refl, ap, ◌↔◌, ◌⊎◌, inl, inr, if◌then◌else◌, Bool, true, false, Option, none, some, List, [],
  ◌∷◌, arith,
}
use manu.Base.Run.{failed, done, poll_with, done-value}
pub use manu.Base.Run.{Polls, give, refuse, bind-done, then-done}
unfoldable pub use manu.Base.Run.{◌>>=◌, ◌>>◌}

pub data Error : Type 0 where
  invalid_context invalid_context_budget invalid_context_scope invalid_context_reference : Error
  context_ended : Error

abbrev pub Run : Type 0 → Type 0
Run A = manu.Base.Run.Run Error A

abbrev pub poll : Run (Unit {0})
poll = poll_with context_ended

-- What a function that returns an error returns; `none` is nil.
abbrev pub Check : Type 0
Check = Option Error

abbrev pub is_nil : Check → Bool
is_nil none = true
is_nil (some e) = false

abbrev pub require : Bool → Error → Check
require true e = none
require false e = some e

infixr 6 ◌then◌
abbrev pub ◌then◌ : Check → Check → Check
none then next = next
some e then next = some e

abbrev pub ensure : Check → Run (Unit {0})
ensure none polls = done tt polls
ensure (some e) polls = failed e

-- A value or an error that is the same in each case.
abbrev pub obtain : {A : Type 0} → Option A → Error → Run A
obtain none e polls = failed e
obtain (some a) e polls = done a polls

pub then_iff : (c next : Check) → (c then next ≡ none) ↔ ((c ≡ none) × (next ≡ none))
then_iff none next = (λ h. (refl, h), λ h. h.1)
then_iff (some e) next = (λ h. absurd (ground arith), λ h. absurd (ground (arith, h.0)))

pub require_iff : (b : Bool) (e : Error) → (require b e ≡ none) ↔ (b ≡ true)
require_iff true e = (λ h. refl, λ h. refl)
require_iff false e = (λ h. absurd (ground arith), λ h. absurd (ground arith))

-- What a chain that is nil says of its first test.
pub require-then :
    (b : Bool) (e : Error) (next : Check)
    → (require b e then next) ≡ none
    → (b ≡ true) × (next ≡ none)
require-then true e next h = (refl, h)
require-then false e next h = absurd (ground arith)

pub is_nil-none : (c : Check) → is_nil c ≡ true → c ≡ none
is_nil-none none h = refl
is_nil-none (some e) h = absurd (ground arith)

-- A check that a run passes is nil, and the value that a run obtains is there.
pub ensure-done :
    (c : Check) (p : Polls) {q : Polls} {u : Unit {0}} → ensure c p ≡ done u q → c ≡ none
ensure-done none p h = refl
ensure-done (some e) p h = absurd (ground arith)

pub obtain-done :
    {A : Type 0} (o : Option A) (e : Error) (p : Polls) {q : Polls} {a : A}
    → obtain o e p ≡ done a q
    → o ≡ some a
obtain-done none e p h = absurd (ground arith)
obtain-done (some a) e p h = ap some (done-value h)

-- A run of a conditional is a run of one of its branches.
pub if-done :
    {A : Type 0} (b : Bool) (m n : Run A) (p : Polls) {q : Polls} {a : A}
    → (if b then m else n) p ≡ done a q
    → ((b ≡ true) × (m p ≡ done a q)) ⊎ ((b ≡ false) × (n p ≡ done a q))
if-done true m n p h = inl (refl, h)
if-done false m n p h = inr (refl, h)
