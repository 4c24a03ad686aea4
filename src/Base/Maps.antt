-- ===== src/Base/Maps.antt =====
-- Go's maps with string keys as association lists. A loop over a map visits `keys`, each once.
use manu.Base.Tests.{if◌then◌else◌, Bool-cases}
use manu.Base.Text.{Str, str_eq, str_eq_iff, str_eq_refl}
use mathlib.Core.Path.{◌≡◌, refl, sym}
use mathlib.Core.Logic.{◌⊎◌, inl, inr}
use mathlib.Core.Option.{Option, none, some}
use mathlib.Core.List.{List, [], ◌∷◌, Memᴰ}
use native.Mathlib.Omega.{arith}

abbrev pub Map {ℓ} : Type ℓ → Type ℓ
Map V = List (Str × V)

module _ {ℓ} {V : Type ℓ} where
  unfoldable pub lookup : Str → Map V → Option V
  lookup k [] = none
  lookup k ((j, v) ∷ m) = if str_eq j k then some v else lookup k m

  unfoldable pub insert : Str → V → Map V → Map V
  insert k v [] = (k, v) ∷ []
  insert k v ((j, w) ∷ m) = if str_eq j k then (k, v) ∷ m else (j, w) ∷ insert k v m

  unfoldable pub keys : Map V → List Str
  keys [] = []
  keys ((k, v) ∷ m) = k ∷ keys m

  pub lookup-insert :
      (k j : Str) (v : V) (m : Map V)
      → lookup j (insert k v m) ≡ (if str_eq k j then some v else lookup j m)
  unfolding lookup insert
  lookup-insert k j v [] = refl
  lookup-insert k j v ((i, w) ∷ m) =
      ground (arith, str_eq_iff k j, str_eq_iff i k, str_eq_iff i j, lookup-insert k j v m)

  pub lookup-insert_self : (k : Str) (v : V) (m : Map V) → lookup k (insert k v m) ≡ some v
  lookup-insert_self k v m = ground (arith, lookup-insert k k v m, str_eq_refl k)

  -- What stands at a key after a write: the new value at its own key, else what stood there.
  pub lookup-insert-cases :
      (k j : Str) (v : V) (m : Map V) {w : V}
      → lookup j (insert k v m) ≡ some w
      → ((k ≡ j) × (v ≡ w)) ⊎ (lookup j m ≡ some w)
  lookup-insert-cases k j v m h = ground (arith, lookup-insert k j v m, str_eq_iff k j)

  -- A loop over `keys` visits every entry.
  pub mem-keys : (k : Str) (v : V) (m : Map V) → lookup k m ≡ some v → Memᴰ k (keys m)
  unfolding lookup keys
  mem-keys k v [] h = absurd (ground arith)
  mem-keys k v ((j, w) ∷ m) h = elim (Bool-cases (str_eq j k)) [
    | inl here ↦ Memᴰ.head (sym ((str_eq_iff j k).0 here))
    | inr away ↦ Memᴰ.tail (mem-keys k v m (rw away at h))
  ]
