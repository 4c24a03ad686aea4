-- ===== src/Derivation/Registry/Sorting.antt =====
-- The sorted rules of a registry, and the rules that its registrations bring.
use manu.Base.{
  place, sorted, All-place, All-sorted, ◌≡◌, ◌≢◌, refl, inl, inr, true, false, Option, none, some,
  List, [], ◌∷◌, ◌++◌, Str, str_eq_iff, str_lt, str_lt_irrefl, str_lt_trans, str_lt_total, All,
  All-map, arith, Bool-cases,
}
use mathlib.Core.List.{Perm}
use mathlib.Core.List.Perm
use manu.Derivation.Facts.{CanonicalFact}
use manu.Derivation.Executor.{RegisteredRule}
use manu.Derivation.Registry.{Registration, identity, rule_before, registered}

abbrev pub key : RegisteredRule → Str
key rule = identity rule.version

-- Each identity is below all that follow it.
abbrev pub Strict : List RegisteredRule → Type 0
Strict [] = Unit
Strict (rule ∷ rest) = All (λ r. rule_before rule r ≡ true) rest × Strict rest

before_trans :
    (a b c : RegisteredRule)
    → rule_before a b ≡ true
    → rule_before b c ≡ true
    → rule_before a c ≡ true
unfolding rule_before
before_trans a b c h k = str_lt_trans (key a) (key b) (key c) h k

before_total :
    (a b : RegisteredRule) → key a ≢ key b → rule_before b a ≡ false → rule_before a b ≡ true
unfolding rule_before
before_total a b other h = elim (Bool-cases (str_lt (key a) (key b))) [
  | inl below ↦ below
  | inr above ↦ absurd (other (str_lt_total (key a) (key b) above h))
]

place-Strict :
    (rule : RegisteredRule) (l : List RegisteredRule)
    → All (λ r. key rule ≢ key r) l
    → Strict l
    → Strict (place rule_before rule l)
unfolding place
place-Strict rule [] fresh h = (tt, tt)
place-Strict rule (r ∷ rest) fresh h = elim (Bool-cases (rule_before r rule)) [
  | inl below ↦ rw below (
    All-place rule_before (λ x. rule_before r x ≡ true) rule rest below h.0,
    place-Strict rule rest fresh.1 h.1,
  )
  | inr above ↦
      let first = before_total rule r fresh.0 above in
      rw above ((first, All-map (λ x later. before_trans rule r x first later) rest h.0), h)
]

before_distinct : (a b : RegisteredRule) → rule_before a b ≡ true → key a ≢ key b
unfolding rule_before
before_distinct a b below same = ground (arith, str_lt_irrefl (key b), same, below)

All-append :
    (P : RegisteredRule → Type 0) (l : List RegisteredRule) (last : RegisteredRule)
    → All P l
    → P last
    → All P (l ++ (last ∷ []))
All-append P [] last h p = (p, tt)
All-append P (r ∷ rest) last h p = (h.0, All-append P rest last h.1 p)

-- No identity comes twice.
abbrev Distinct : List RegisteredRule → Type 0
Distinct [] = Unit
Distinct (rule ∷ rest) = All (λ r. key rule ≢ key r) rest × Distinct rest

pub sorted-Strict : (l : List RegisteredRule) → Distinct l → Strict (sorted rule_before l)
unfolding sorted
sorted-Strict [] h = tt
sorted-Strict (rule ∷ rest) h =
    place-Strict rule (sorted rule_before rest)
      (All-sorted rule_before (λ r. key rule ≢ key r) rest h.0) (sorted-Strict rest h.1)

pub Distinct-append :
    (l : List RegisteredRule) (rule : RegisteredRule)
    → Strict l
    → registered (key rule) l ≡ false
    → Distinct (l ++ (rule ∷ []))
unfolding registered
Distinct-append [] rule h fresh = (tt, tt)
Distinct-append (r ∷ rest) rule h fresh = (
  All-append (λ x. key r ≢ key x) rest rule
      (All-map (λ x below same. before_distinct r x below same) rest h.0)
      (λ same. ground (arith, str_eq_iff (key r) (key rule), same, fresh)),
  Distinct-append rest rule h.1 (ground arith),
)

place-perm :
    (rule : RegisteredRule) (l : List RegisteredRule) → Perm (place rule_before rule l) (rule ∷ l)
unfolding place
place-perm rule [] = Perm.refl (rule ∷ [])
place-perm rule (r ∷ rest) = elim (Bool-cases (rule_before r rule)) [
  | inr above ↦ rw above (Perm.refl (rule ∷ r ∷ rest))
  | inl below ↦ rw below (Perm.trans (Perm.cons r (place-perm rule rest)) (Perm.swap rule r rest))
]

pub sorted-perm : (l : List RegisteredRule) → Perm (sorted rule_before l) l
unfolding sorted
sorted-perm [] = Perm.refl []
sorted-perm (rule ∷ rest) =
    Perm.trans (place-perm rule (sorted rule_before rest)) (Perm.cons rule (sorted-perm rest))

-- The rules that the registrations bring.
abbrev pub entries : List Registration → List RegisteredRule
entries [] = []
entries (r ∷ rest) = elim r.rule [
  | none ↦ entries rest
  | some apply ↦ record { version = r.version; apply = apply } ∷ entries rest
]

pub entries-some :
    (r : Registration) (rest : List Registration)
    (apply : List CanonicalFact → Option (List CanonicalFact))
    → r.rule ≡ some apply
    → entries (r ∷ rest) ≡ record { version = r.version; apply = apply } ∷ entries rest
entries-some r rest apply given = rw given refl
