-- ===== src/Base/Map.antt =====
-- `std::collections::HashMap` with number keys, as an association list. The calls of DashMap that
-- the source makes (`get`, `insert`, `remove`, `len`, `retain`) act on one shard each and are taken
-- to be those of a HashMap, each call atomic.
use Prim.Native.Nat.{ℕ, ◌+◌, ◌≤◌}
use mathlib.Core.Path.{◌≡◌, refl}
use mathlib.Core.List.{List, [], ◌∷◌}
use mathlib.Core.Option.{Option, none, some}
use mathlib.Core.Bool.{Bool}
use native.Mathlib.Omega.{arith}
use kafka_proxy.Base.Tests.{if◌then◌else◌, ◌==◌}
use kafka_proxy.Base.Lists.{length}

abbrev pub Map {ℓ} : Type ℓ → Type ℓ
Map V = List (ℕ × V)

module _ {ℓ} {V : Type ℓ} where
  unfoldable pub get : ℕ → Map V → Option V
  get k [] = none
  get k ((j, v) ∷ m) = if j == k then some v else get k m

  unfoldable pub insert : ℕ → V → Map V → Map V
  insert k v [] = (k, v) ∷ []
  insert k v ((j, w) ∷ m) = if j == k then (k, v) ∷ m else (j, w) ∷ insert k v m

  unfoldable pub remove : ℕ → Map V → Map V
  remove k [] = []
  remove k ((j, v) ∷ m) = if j == k then remove k m else (j, v) ∷ remove k m

  -- Keeps the entries whose value passes the test.
  unfoldable pub retain_values : (V → Bool) → Map V → Map V
  retain_values p [] = []
  retain_values p ((j, v) ∷ m) = if p v then (j, v) ∷ retain_values p m else retain_values p m

  -- No key twice.
  abbrev pub Distinct : Map V → Type ℓ
  Distinct [] = Unit {ℓ}
  Distinct ((j, v) ∷ m) = (get j m ≡ none) × Distinct m

  pub get-insert :
      (k j : ℕ) (v : V) (m : Map V) → get j (insert k v m) ≡ (if k == j then some v else get j m)
  unfolding get insert
  get-insert k j v [] = refl
  get-insert k j v ((i, w) ∷ m) = ground (arith, get-insert k j v m)

  pub get-remove : (k j : ℕ) (m : Map V) → get j (remove k m) ≡ (if k == j then none else get j m)
  unfolding get remove
  get-remove k j [] = ground arith
  get-remove k j ((i, w) ∷ m) = ground (arith, get-remove k j m)

  pub insert-Distinct : (k : ℕ) (v : V) (m : Map V) → Distinct m → Distinct (insert k v m)
  unfolding get insert
  insert-Distinct k v [] d = (refl, tt)
  insert-Distinct k v ((i, w) ∷ m) d = ground (arith, get-insert k i v m, insert-Distinct k v m d.1)

  pub remove-Distinct : (k : ℕ) (m : Map V) → Distinct m → Distinct (remove k m)
  unfolding get remove
  remove-Distinct k [] d = tt
  remove-Distinct k ((i, w) ∷ m) d = ground (arith, get-remove k i m, remove-Distinct k m d.1)

  pub length-insert_new :
      (k : ℕ) (v : V) (m : Map V) → get k m ≡ none → length (insert k v m) ≡ length m + 1
  unfolding get insert
  length-insert_new k v [] h = omega arith
  length-insert_new k v ((i, w) ∷ m) h = ground (arith, length-insert_new k v m)

  pub length-insert-le : (k : ℕ) (v : V) (m : Map V) → length (insert k v m) ≤ length m + 1
  unfolding insert
  length-insert-le k v [] = omega arith
  length-insert-le k v ((i, w) ∷ m) = ground (arith, length-insert-le k v m)

  pub remove_absent : (k : ℕ) (m : Map V) → get k m ≡ none → remove k m ≡ m
  unfolding get remove
  remove_absent k [] h = refl
  remove_absent k ((i, w) ∷ m) h = ground (arith, remove_absent k m)

  pub length-remove :
      (k : ℕ) (m : Map V) (v : V)
      → Distinct m
      → get k m ≡ some v
      → length (remove k m) + 1 ≡ length m
  unfolding get remove
  length-remove k [] v d h = cc
  length-remove k ((i, w) ∷ m) v d h = ground (arith, length-remove k m v d.1, remove_absent k m)

  pub length-retain_values-le : (p : V → Bool) (m : Map V) → length (retain_values p m) ≤ length m
  unfolding retain_values
  length-retain_values-le p [] = omega arith
  length-retain_values-le p ((i, w) ∷ m) = ground (arith, length-retain_values-le p m)

  pub get-retain_values-none :
      (p : V → Bool) (k : ℕ) (m : Map V) → get k m ≡ none → get k (retain_values p m) ≡ none
  unfolding get retain_values
  get-retain_values-none p k [] h = refl
  get-retain_values-none p k ((i, w) ∷ m) h = ground (arith, get-retain_values-none p k m)

  pub get-retain_values-some :
      (p : V → Bool) (k : ℕ) (v : V) (m : Map V)
      → Distinct m
      → get k m ≡ some v
      → get k (retain_values p m) ≡ (if p v then some v else none)
  unfolding get retain_values
  get-retain_values-some p k v [] d h = cc
  get-retain_values-some p k v ((i, w) ∷ m) d h =
      ground (arith, get-retain_values-some p k v m d.1, get-retain_values-none p i m)

  pub retain_values-Distinct :
      (p : V → Bool) (m : Map V) → Distinct m → Distinct (retain_values p m)
  unfolding retain_values
  retain_values-Distinct p [] d = tt
  retain_values-Distinct p ((i, w) ∷ m) d =
      ground (arith, get-retain_values-none p i m, retain_values-Distinct p m d.1)

  pub length-remove-le : (k : ℕ) (m : Map V) → length (remove k m) ≤ length m
  unfolding remove
  length-remove-le k [] = omega arith
  length-remove-le k ((i, w) ∷ m) = ground (arith, length-remove-le k m)
