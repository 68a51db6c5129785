-- ===== src/Base/GoMap.antt =====
-- A Go map with string keys, as an association list. A write keeps the place of a key that is
-- there; the order in which Go ranges over a map is unspecified, and here it is the list's.
use Prim.Native.Nat.{suc, ◌≤◌}
use Prim.Native.String.{String}
use mathlib.Core.Path.{◌≡◌, refl, ap}
use mathlib.Core.Logic.{◌⊎◌, inl, inr}
use mathlib.Core.Bool.{Bool, true, false, ◌||◌}
use mathlib.Core.Option.{Option, none, some}
use mathlib.Core.List.{List, [], ◌∷◌}
use native.Mathlib.Omega.{arith}
use text.Mathlib.Text.{◌==◌}
use text.Mathlib.TextEquality.{eq_iff}
use text.Mathlib.TextPositions.{eq_refl}
use plexd.Base.Tests.{if◌then◌else◌, String-cases, Bool-cases}
use plexd.Base.Lists.{length, contains}

abbrev pub GoMap {ℓ} : Type ℓ → Type ℓ
GoMap V = List (String × V)

module _ {ℓ} {V : Type ℓ} where
  -- `v, ok := m[k]`
  unfoldable pub find : String → GoMap V → Option V
  find k [] = none
  find k ((j, v) ∷ m) = if j == k then some v else find k m

  -- `_, ok := m[k]`
  unfoldable pub has : String → GoMap V → Bool
  has k [] = false
  has k ((j, v) ∷ m) = j == k || has k m

  -- `m[k] = v`
  unfoldable pub store : String → V → GoMap V → GoMap V
  store k v [] = (k, v) ∷ []
  store k v ((j, w) ∷ m) = if j == k then (k, v) ∷ m else (j, w) ∷ store k v m

  -- `delete(m, k)`
  unfoldable pub delete : String → GoMap V → GoMap V
  delete k [] = []
  delete k ((j, w) ∷ m) = let rest = delete k m in if j == k then rest else (j, w) ∷ rest

  unfoldable pub keys : GoMap V → List String
  keys [] = []
  keys ((k, v) ∷ m) = k ∷ keys m

  -- No key stands twice, as in every Go map.
  abbrev pub Distinct : GoMap V → Type 0
  Distinct [] = Unit
  Distinct ((k, v) ∷ m) = (has k m ≡ false) × Distinct m

  pub find-store :
      (k j : String) (v : V) (m : GoMap V)
      → find j (store k v m) ≡ (if k == j then some v else find j m)
  unfolding find store
  find-store k j v [] = refl
  find-store k j v ((i, w) ∷ m) =
      ground (arith, eq_iff k j, eq_iff i k, eq_iff i j, find-store k j v m)

  pub find-delete :
      (k j : String) (m : GoMap V) → find j (delete k m) ≡ (if k == j then none else find j m)
  unfolding find delete
  find-delete k j [] = ground arith
  find-delete k j ((i, w) ∷ m) =
      ground (arith, eq_iff k j, eq_iff i k, eq_iff i j, find-delete k j m)

  pub has-store : (k j : String) (v : V) (m : GoMap V) → has j (store k v m) ≡ (k == j || has j m)
  unfolding has store
  has-store k j v [] = ground arith
  has-store k j v ((i, w) ∷ m) =
      ground (arith, eq_iff k j, eq_iff i k, eq_iff i j, has-store k j v m)

  pub has-delete :
      (k j : String) (m : GoMap V) → has j (delete k m) ≡ (if k == j then false else has j m)
  unfolding has delete
  has-delete k j [] = ground arith
  has-delete k j ((i, w) ∷ m) = ground (arith, eq_iff k j, eq_iff i k, eq_iff i j, has-delete k j m)

  -- A key is there exactly when a lookup finds a value.
  pub has-false : (k : String) (m : GoMap V) → has k m ≡ false → find k m ≡ none
  unfolding has find
  has-false k [] h = refl
  has-false k ((j, v) ∷ m) h = ground (arith, has-false k m)

  pub has-true : (k : String) (m : GoMap V) → has k m ≡ true → (v : V) × (find k m ≡ some v)
  unfolding has find
  has-true k [] h = absurd (ground arith)
  has-true k ((j, v) ∷ m) h = elim (Bool-cases (j == k)) [
    | inl same ↦ (v, rw same)
    | inr other ↦ let (w, found) = has-true k m (ground arith) in (w, rw other found)
  ]

  pub has_of_find : (k : String) (m : GoMap V) (v : V) → find k m ≡ some v → has k m ≡ true
  unfolding has find
  has_of_find k [] v h = cc
  has_of_find k ((j, w) ∷ m) v h = ground (arith, has_of_find k m v)

  pub has_of_none : (k : String) (m : GoMap V) → find k m ≡ none → has k m ≡ false
  unfolding has find
  has_of_none k [] h = refl
  has_of_none k ((j, v) ∷ m) h = ground (arith, has_of_none k m)

  pub store-Distinct : (k : String) (v : V) (m : GoMap V) → Distinct m → Distinct (store k v m)
  unfolding store has
  store-Distinct k v [] d = (refl, tt)
  store-Distinct k v ((j, w) ∷ m) d = elim (String-cases j k) [
    | inl (same, e) ↦ rw same (ground arith)
    | inr (other, n) ↦
        rw other (ground (arith, has-store k j v m, eq_iff k j), store-Distinct k v m d.1)
  ]

  pub delete-Distinct : (k : String) (m : GoMap V) → Distinct m → Distinct (delete k m)
  unfolding delete has
  delete-Distinct k [] d = tt
  delete-Distinct k ((j, w) ∷ m) d = elim (Bool-cases (j == k)) [
    | inl same ↦ rw same (delete-Distinct k m d.1)
    | inr other ↦ rw other (ground (arith, has-delete k j m), delete-Distinct k m d.1)
  ]

  pub length-store_new :
      (k : String) (v : V) (m : GoMap V) → has k m ≡ false → length (store k v m) ≡ suc (length m)
  unfolding store has
  length-store_new k v [] h = refl
  length-store_new k v ((j, w) ∷ m) h = ground (arith, length-store_new k v m)

  pub length-store_old :
      (k : String) (v : V) (m : GoMap V) → has k m ≡ true → length (store k v m) ≡ length m
  unfolding store has
  length-store_old k v [] h = absurd (ground arith)
  length-store_old k v ((j, w) ∷ m) h = ground (arith, length-store_old k v m)

  pub length-delete-le : (k : String) (m : GoMap V) → length (delete k m) ≤ length m
  unfolding delete
  length-delete-le k [] = omega arith
  length-delete-le k ((j, w) ∷ m) = ground (arith, length-delete-le k m)

  pub delete_absent : (k : String) (m : GoMap V) → has k m ≡ false → delete k m ≡ m
  unfolding delete has
  delete_absent k [] h = refl
  delete_absent k ((j, w) ∷ m) h = ground (arith, delete_absent k m)

  pub length-delete :
      (k : String) (m : GoMap V)
      → Distinct m
      → has k m ≡ true
      → suc (length (delete k m)) ≡ length m
  unfolding delete has
  length-delete k [] d h = absurd (ground arith)
  length-delete k ((j, w) ∷ m) d h = elim (String-cases j k) [
    | inl (same, e) ↦ rw (same, delete) (ground (arith, delete_absent k m, ap (λ s. has s m) e))
    | inr (other, n) ↦ ground (arith, length-delete k m d.1)
  ]

  pub contains-keys : (k : String) (m : GoMap V) → contains k (keys m) ≡ has k m
  unfolding has keys
  contains-keys k [] = refl
  contains-keys k ((j, v) ∷ m) = ground (arith, contains-keys k m)

  pub find-delete_self : (k : String) (m : GoMap V) → find k (delete k m) ≡ none
  find-delete_self k m = rw (find-delete, eq_refl)

  pub find-store_self : (k : String) (v : V) (m : GoMap V) → find k (store k v m) ≡ some v
  find-store_self k v m = rw (find-store, eq_refl)

  pub find-store_cases :
      (k j : String) (v w : V) (m : GoMap V)
      → find j (store k v m) ≡ some w
      → ((k ≡ j) × (v ≡ w)) ⊎ (((k == j) ≡ false) × (find j m ≡ some w))
  find-store_cases k j v w m h = elim (String-cases k j) [
    | inl (same, e) ↦ inl (e, ground (arith, find-store k j v m))
    | inr (other, n) ↦ inr (other, ground (arith, find-store k j v m))
  ]

  pub find-delete_cases :
      (k j : String) (w : V) (m : GoMap V)
      → find j (delete k m) ≡ some w
      → ((k == j) ≡ false) × (find j m ≡ some w)
  find-delete_cases k j w m h = elim (Bool-cases (k == j)) [
    | inl same ↦ absurd (ground (arith, find-delete k j m))
    | inr other ↦ (other, ground (arith, find-delete k j m))
  ]

  pub find-store_other :
      (k j : String) (v : V) (m : GoMap V) → (k == j) ≡ false → find j (store k v m) ≡ find j m
  find-store_other k j v m other = rw (find-store, other)

  pub find-delete_other :
      (k j : String) (m : GoMap V) → (k == j) ≡ false → find j (delete k m) ≡ find j m
  find-delete_other k j m other = rw (find-delete, other)

pub ruleset map_laws = (find-store, find-delete, has-store, has-delete)
