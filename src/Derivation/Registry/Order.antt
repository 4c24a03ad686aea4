-- ===== src/Derivation/Registry/Order.antt =====
-- The order of a registry does not depend on the order of the registrations.
use manu.Base.{
  sorted, ◌≡◌, ◌⊎◌, refl, sym, inl, inr, Bool, true, false, Option, some, List, [], ◌∷◌, ◌++◌, map,
  Str, str_lt, str_lt_irrefl, str_lt_trans, str_lt_total, All, arith, Option-cases, subst,
}
use mathlib.Core.List.{Perm, Mem, Memᴰ, perm_append_singleton, perm_middle}
use mathlib.Core.List.Perm
use mathlib.Core.Logic.{∥∥₁_elim}
use mathlib.Core.HLevel.{⊥_prop}
use manu.Derivation.Run.{Error}
use manu.Derivation.Facts.{CanonicalFact}
use manu.Derivation.Executor.{RegisteredRule}
use manu.Derivation.Registry.{
  Registration, identity, rule_before, registered, register, register_all, new_registry,
}
use manu.Derivation.Registry.Sorting.{
  key, Strict, sorted-Strict, Distinct-append, sorted-perm, entries, entries-some,
}

module _ (valid_identifier : Str → Bool) where
  register-inr :
      (rules : List RegisteredRule) (r : Registration) (more : List RegisteredRule)
      → register valid_identifier rules r ≡ inr more
      → (apply : List CanonicalFact → Option (List CanonicalFact)) × (r.rule ≡ some apply)
        × (registered (identity r.version) rules ≡ false)
        × (more
            ≡ sorted rule_before (rules ++ (record { version = r.version; apply = apply } ∷ [])))
  unfolding register
  register-inr rules r more taken = elim (Option-cases r.rule) [
    | inl missing ↦ absurd (ground arith)
    | inr (apply, given) ↦ (apply, given, ground arith, ground arith)
  ]

  -- A registry with further registrations holds its rules and theirs, in strict order.
  register_all-Strict :
      (rules : List RegisteredRule) (l : List Registration) (last : List RegisteredRule)
      → Strict rules
      → register_all valid_identifier rules l ≡ inr last
      → Strict last × Perm last (entries l ++ rules)
  unfolding register_all
  register_all-Strict rules [] last h taken =
      subst (λ x. Strict x × Perm x rules) {x = rules} {y = last} (ground arith)
        (h, Perm.refl rules)
  register_all-Strict rules (r ∷ rest) last h taken =
      elim (answer (register valid_identifier rules r)) [
        | inl (e, refused) ↦ absurd (ground arith)
        | inr (more, e) ↦
            let (apply, given, fresh, made) = register-inr rules r more e in
            let entry : RegisteredRule = record { version = r.version; apply = apply } in
            let strict : Strict more =
              subst Strict (sym made)
                (sorted-Strict (rules ++ (entry ∷ [])) (Distinct-append rules entry h fresh)) in
            let (ordered, same) = register_all-Strict more rest last strict (ground arith) in
            (
              ordered,
              rw (entries-some r rest apply given) (
                  Perm.trans same (
                    Perm.trans
                      (Perm.append (Perm.refl (entries rest)) (
                        Perm.trans
                          (subst (λ x. Perm x (rules ++ (entry ∷ []))) (sym made)
                            (sorted-perm (rules ++ (entry ∷ []))))
                          (perm_append_singleton entry rules)))
                      (perm_middle (entries rest) rules))),
            )
      ]
    where
      answer :
          (x : Error ⊎ List RegisteredRule)
          → ((e : Error) × (x ≡ inl e)) ⊎ ((rules : List RegisteredRule) × (x ≡ inr rules))
      answer (inl e) = inl (e, refl)
      answer (inr rules) = inr (rules, refl)

abbrev Ascending : List Str → Type 0
Ascending [] = Unit
Ascending (k ∷ rest) = All (λ l. str_lt k l ≡ true) rest × Ascending rest

Strict-Ascending : (l : List RegisteredRule) → Strict l → Ascending (map key l)
unfolding rule_before
Strict-Ascending [] h = tt
Strict-Ascending (r ∷ rest) h = (below r rest h.0, Strict-Ascending rest h.1)
  where
    below :
        (r : RegisteredRule) (l : List RegisteredRule)
        → All (λ x. rule_before r x ≡ true) l
        → All (λ k. str_lt (key r) k ≡ true) (map key l)
    below r [] h = tt
    below r (x ∷ l) h = (h.0, below r l h.1)

-- The head of an ascending list stands below no member.
Ascending-least :
    (x y : Str) (ys : List Str) → Ascending (y ∷ ys) → Mem x (y ∷ ys) → str_lt x y ≡ true → ⊥
Ascending-least x y ys h m below = ∥∥₁_elim m ⊥_prop (λ d. at y ys h d below)
  where
    later :
        (y : Str) (ys : List Str) → All (λ l. str_lt y l ≡ true) ys → Memᴰ x ys → str_lt y x ≡ true
    later y [] h m = elim m [ ]
    later y (k ∷ ks) h (Memᴰ.head e) = rw e h.0
    later y (k ∷ ks) h (Memᴰ.tail m) = later y ks h.1 m

    at : (y : Str) (ys : List Str) → Ascending (y ∷ ys) → Memᴰ x (y ∷ ys) → str_lt x y ≡ true → ⊥
    at y ys h (Memᴰ.head e) below = ground (arith, e, str_lt_irrefl y, below)
    at y ys h (Memᴰ.tail m) below =
        ground (arith, str_lt_irrefl x, str_lt_trans x y x below (later y ys h.0 m))

Ascending-unique : (a b : List Str) → Ascending a → Ascending b → Perm a b → a ≡ b
Ascending-unique [] b h k p = Perm.nil-eq p
Ascending-unique (x ∷ a) [] h k p = Perm.eq-nil p
Ascending-unique (x ∷ a) (y ∷ b) h k p =
    let same : x ≡ y =
      str_lt_total x y
        (false_of _ (Ascending-least x y b k ((Perm.mem_iff p).0 ∣ Memᴰ.head refl ∣₁)))
        (false_of _ (Ascending-least y x a h ((Perm.mem_iff p).1 ∣ Memᴰ.head refl ∣₁))) in
    cc (
      same,
      Ascending-unique a b h.1 k.1 (Perm.cons_inv (subst (λ z. Perm (x ∷ a) (z ∷ b)) (sym same) p)),
    )
  where
    false_of : (b : Bool) → (b ≡ true → ⊥) → b ≡ false
    false_of true never = absurd (never refl)
    false_of false never = refl

-- NewRegistry, given the same registrations in whatever order, makes registries that list the same
-- rules, and in the same order of identities.
pub new_registry_order_irrelevant :
    (valid_identifier : Str → Bool) (l l' : List Registration) (rules rules' : List RegisteredRule)
    → Perm (entries l) (entries l')
    → new_registry valid_identifier l ≡ inr rules
    → new_registry valid_identifier l' ≡ inr rules'
    → Perm rules rules' × (map key rules ≡ map key rules')
unfolding new_registry
new_registry_order_irrelevant valid_identifier l l' rules rules' same h h' =
    let (strict, p) = register_all-Strict valid_identifier [] l rules tt h in
    let (strict', p') = register_all-Strict valid_identifier [] l' rules' tt h' in
    let q : Perm rules rules' =
      Perm.trans p (Perm.trans (Perm.append same (Perm.refl [])) (Perm.symm p')) in
    (
      q,
      Ascending-unique (map key rules) (map key rules') (Strict-Ascending rules strict)
          (Strict-Ascending rules' strict') (Perm.map key q),
    )
