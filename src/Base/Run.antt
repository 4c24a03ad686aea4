-- ===== src/Base/Run.antt =====
-- A run fails, or it goes on while its context is in force. What ctx.Err() answers, call by call, is a
-- list; after its end the context stays in force.
use manu.Base.{◌≡◌, refl, ◌⊎◌, inl, inr, Bool, true, false, List, [], ◌∷◌, arith}

abbrev pub Polls : Type 0
Polls = List Bool

pub data Result (E A : Type 0) : Type 0 where
  failed : E → Result E A
  done : A → Polls → Result E A

abbrev pub Run : Type 0 → Type 0 → Type 0
Run E A = Polls → Result E A

abbrev proceed : {E A B : Type 0} → Result E A → (A → Run E B) → Result E B
proceed (failed e) next = failed e
proceed (done a rest) next = next a rest

infixl 5 ◌>>◌ ◌>>=◌
unfoldable pub ◌>>=◌ : {E A B : Type 0} → Run E A → (A → Run E B) → Run E B
(m >>= next) polls = proceed (m polls) next

unfoldable pub ◌>>◌ : {E A B : Type 0} → Run E A → Run E B → Run E B
unfolding ◌>>=◌
m >> next = m >>= (λ a. next)

abbrev pub give : {E A : Type 0} → A → Run E A
give a polls = done a polls

abbrev pub refuse : {E A : Type 0} → E → Run E A
refuse e polls = failed e

abbrev pub check : {E : Type 0} → Bool → E → Run E (Unit {0})
check true e polls = done tt polls
check false e polls = failed e

-- `if err := ctx.Err(); err != nil { return err }`, for what that error is.
abbrev pub poll_with : {E : Type 0} → E → Run E (Unit {0})
poll_with ended [] = done tt []
poll_with ended (true ∷ rest) = failed ended
poll_with ended (false ∷ rest) = done tt rest

proceed-done :
    {E A B : Type 0} (r : Result E A) (next : A → Run E B) {q : Polls} {b : B}
    → proceed r next ≡ done b q
    → (a : A) × (rest : Polls) × (r ≡ done a rest) × (next a rest ≡ done b q)
proceed-done (failed e) next h = absurd (ground arith)
proceed-done (done a rest) next h = (a, rest, refl, h)

-- What a chain that is done went through.
pub bind-done :
    {E A B : Type 0} (m : Run E A) (next : A → Run E B) (p : Polls) {q : Polls} {b : B}
    → (m >>= next) p ≡ done b q
    → (a : A) × (r : Polls) × (m p ≡ done a r) × (next a r ≡ done b q)
unfolding ◌>>=◌
bind-done m next p h = proceed-done (m p) next h

pub then-done :
    {E A B : Type 0} (m : Run E A) (next : Run E B) (p : Polls) {q : Polls} {b : B}
    → (m >> next) p ≡ done b q
    → (a : A) × (r : Polls) × (m p ≡ done a r) × (next r ≡ done b q)
unfolding ◌>>◌
then-done m next p h = bind-done m (λ a. next) p h

pub check-done :
    {E : Type 0} (b : Bool) (e : E) (p : Polls) {q : Polls} {u : Unit {0}}
    → check b e p ≡ done u q
    → b ≡ true
check-done true e p h = refl
check-done false e p h = absurd (ground arith)

pub done-value :
    {E A : Type 0} {a b : A} {p q : Polls} → ◌≡◌ {A = Result E A} (done a p) (done b q) → a ≡ b
done-value h = ground arith

pub Result-cases :
    {E A : Type 0} (r : Result E A)
    → ((e : E) × (r ≡ failed e)) ⊎ ((a : A) × (q : Polls) × (r ≡ done a q))
Result-cases (failed e) = inl (e, refl)
Result-cases (done a q) = inr (a, q, refl)
