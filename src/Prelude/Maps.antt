-- ===== src/Prelude/Maps.antt =====
-- Go's maps as association lists with one entry to a key. The order of the entries is not
-- observed, except where a definition ranges over a map.
use Prim.Native.Nat.{ℕ, ◌+◌, ◌≤◌, ◌<◌}
use mathlib.Core.Path.{◌≡◌, refl}
use mathlib.Core.Option.{Option, none, some}
use mathlib.Core.List.{List, [], ◌∷◌}
use native.Mathlib.Omega.{arith}
use analytics_core.Prelude.Tests.{Eq, if◌then◌else◌}
use analytics_core.Prelude.Lists.{length}

abbrev pub Dict {ℓ κ} : Type ℓ → Type κ → Type (ℓ ⊔ κ)
Dict K V = List (K × V)

abbrev pub weight_at {κ} : {V : Type κ} → (V → ℕ) → Option V → ℕ
weight_at f none = 0
weight_at f (some v) = f v

module _ {ℓ κ} {K : Type ℓ} {V : Type κ} ⦃e : Eq K⦄ where
  unfoldable pub lookup : K → Dict K V → Option V
  lookup k [] = none
  lookup k ((j, v) ∷ m) = if e.beq j k then some v else lookup k m

  -- `m[k] = v`
  unfoldable pub insert : K → V → Dict K V → Dict K V
  insert k v [] = (k, v) ∷ []
  insert k v ((j, w) ∷ m) = if e.beq j k then (k, v) ∷ m else (j, w) ∷ insert k v m

  -- `delete(m, k)`
  unfoldable pub delete : K → Dict K V → Dict K V
  delete k [] = []
  delete k ((j, v) ∷ m) = let rest = delete k m in if e.beq j k then rest else (j, v) ∷ rest

  pub lookup-insert :
      (k j : K) (v : V) (m : Dict K V)
      → lookup j (insert k v m) ≡ (if e.beq k j then some v else lookup j m)
  unfolding lookup insert
  lookup-insert k j v [] = refl
  lookup-insert k j v ((i, w) ∷ m) =
      ground (arith, e.beq_iff k j, e.beq_iff i k, e.beq_iff i j, lookup-insert k j v m)

  pub lookup-delete :
      (k j : K) (m : Dict K V) → lookup j (delete k m) ≡ (if e.beq k j then none else lookup j m)
  unfolding lookup delete
  lookup-delete k j [] = ground arith
  lookup-delete k j ((i, w) ∷ m) =
      ground (arith, e.beq_iff k j, e.beq_iff i k, e.beq_iff i j, lookup-delete k j m)

  pub length-delete-le : (k : K) (m : Dict K V) → length (delete k m) ≤ length m
  unfolding delete
  length-delete-le k [] = omega arith
  length-delete-le k ((j, v) ∷ m) = ground (arith, length-delete-le k m)

  -- Deleting a key that is there makes the map smaller.
  pub length-delete-lt :
      (k : K) (m : Dict K V) (v : V) → lookup k m ≡ some v → length (delete k m) < length m
  unfolding lookup delete
  length-delete-lt k [] v h = cc
  length-delete-lt k ((j, w) ∷ m) v h = ground (arith, length-delete-le k m, length-delete-lt k m v)

  -- No key has two entries.
  abbrev pub Unique : Dict K V → Type κ
  Unique [] = Unit
  Unique ((j, v) ∷ m) = (lookup j m ≡ none) × Unique m

  pub insert-Unique : (k : K) (v : V) (m : Dict K V) → Unique m → Unique (insert k v m)
  unfolding lookup insert
  insert-Unique k v [] u = (refl, tt)
  insert-Unique k v ((j, w) ∷ m) u =
      ground (arith, e.beq_iff j k, e.beq_iff k j, lookup-insert k j v m, insert-Unique k v m u.1)

  pub delete-Unique : (k : K) (m : Dict K V) → Unique m → Unique (delete k m)
  unfolding lookup delete
  delete-Unique k [] u = tt
  delete-Unique k ((j, w) ∷ m) u = ground (arith, lookup-delete k j m, delete-Unique k m u.1)

  -- The sum of a function over the values of a map, such as the number that pass a test.
  abbrev pub weight : (V → ℕ) → Dict K V → ℕ
  weight f [] = 0
  weight f ((j, v) ∷ m) = f v + weight f m

  pub weight-insert :
      (f : V → ℕ) (k : K) (v : V) (m : Dict K V)
      → weight f (insert k v m) + weight_at f (lookup k m) ≡ weight f m + f v
  unfolding lookup insert
  weight-insert f k v [] = omega arith
  weight-insert f k v ((j, w) ∷ m) = ground (arith, weight-insert f k v m)

  delete-of_none : (k : K) (m : Dict K V) → lookup k m ≡ none → delete k m ≡ m
  unfolding lookup delete
  delete-of_none k [] h = refl
  delete-of_none k ((j, w) ∷ m) h = ground (arith, delete-of_none k m)

  pub weight-delete :
      (f : V → ℕ) (k : K) (m : Dict K V)
      → Unique m
      → weight f (delete k m) + weight_at f (lookup k m) ≡ weight f m
  unfolding lookup delete
  weight-delete f k [] u = omega arith
  weight-delete f k ((j, w) ∷ m) u = ground (
    arith,
    e.beq_iff j k,
    e.beq_iff k j,
    delete-of_none k m,
    weight-delete f k m u.1,
    delete-of_none j m,
  )

  -- A map in which nothing is found is empty.
  pub empty_of_lookup : (m : Dict K V) → ((k : K) → lookup k m ≡ none) → m ≡ []
  unfolding lookup
  empty_of_lookup [] h = refl
  empty_of_lookup ((j, w) ∷ m) h = ground (arith, h j, e.beq_iff j j)
