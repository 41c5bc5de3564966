-- ===== src/Prelude/Dict.antt =====
-- Go's maps keyed by strings, as association lists whose keys are distinct.
use mathlib.Core.Path.{◌≡◌, refl}
use mathlib.Core.Bool.{Bool}
use mathlib.Core.List.{List, [], ◌∷◌}
use mathlib.Core.Option.{Option, none, some}
use native.Mathlib.Omega.{arith}
use cisco_socks_server.Prelude.Tests.{if◌then◌else◌, ◌>>=◌, keep_if}
use cisco_socks_server.Prelude.Text.{Bytes, str_eq, str_eq_iff}

module _ {ℓ} {V : Type ℓ} where
  unfoldable pub lookup : Bytes → List (Bytes × V) → Option V
  lookup k [] = none
  lookup k ((j, v) ∷ m) = if str_eq j k then some v else lookup k m

  -- `m[k] = v`
  unfoldable pub insert : Bytes → V → List (Bytes × V) → List (Bytes × V)
  insert k v [] = (k, v) ∷ []
  insert k v ((j, w) ∷ m) =
      let rest = insert k v m in if str_eq j k then (j, v) ∷ m else (j, w) ∷ rest

  -- `maps.DeleteFunc`, by the entries that stay.
  unfoldable pub retain : (Bytes → V → Bool) → List (Bytes × V) → List (Bytes × V)
  retain p [] = []
  retain p ((j, v) ∷ m) = let rest = retain p m in if p j v then (j, v) ∷ rest else rest

  -- No key stands twice.
  abbrev pub Distinct : List (Bytes × V) → Type ℓ
  Distinct [] = Unit
  Distinct ((k, v) ∷ m) = (lookup k m ≡ none) × Distinct m

  pub lookup-insert :
      (k j : Bytes) (v : V) (m : List (Bytes × V))
      → lookup j (insert k v m) ≡ (if str_eq k j then some v else lookup j m)
  unfolding lookup insert
  lookup-insert k j v [] = refl
  lookup-insert k j v ((i, w) ∷ m) =
      ground (arith, str_eq_iff k j, str_eq_iff i k, str_eq_iff i j, lookup-insert k j v m)

  pub insert-Distinct :
      (k : Bytes) (v : V) (m : List (Bytes × V)) → Distinct m → Distinct (insert k v m)
  unfolding lookup insert
  insert-Distinct k v [] d = (refl, tt)
  insert-Distinct k v ((i, w) ∷ m) d =
      ground
        (arith, str_eq_iff i k, str_eq_iff k i, lookup-insert k i v m, insert-Distinct k v m d.1)

  lookup-retain-none :
      (p : Bytes → V → Bool) (k : Bytes) (m : List (Bytes × V))
      → lookup k m ≡ none
      → lookup k (retain p m) ≡ none
  unfolding lookup retain
  lookup-retain-none p k [] h = refl
  lookup-retain-none p k ((i, w) ∷ m) h = ground (arith, lookup-retain-none p k m)

  pub lookup-retain :
      (p : Bytes → V → Bool) (k : Bytes) (m : List (Bytes × V))
      → Distinct m
      → lookup k (retain p m) ≡ (lookup k m >>= λ v. keep_if (p k v) v)
  unfolding lookup retain
  lookup-retain p k [] d = refl
  lookup-retain p k ((i, w) ∷ m) d =
      ground (arith, str_eq_iff i k, lookup-retain-none p i m, lookup-retain p k m d.1)

  pub retain-Distinct :
      (p : Bytes → V → Bool) (m : List (Bytes × V)) → Distinct m → Distinct (retain p m)
  unfolding retain
  retain-Distinct p [] d = tt
  retain-Distinct p ((i, w) ∷ m) d =
      ground (arith, lookup-retain-none p i m d.0, retain-Distinct p m d.1)

module _ {ℓ κ} {V : Type ℓ} {W : Type κ} (f : V → W) where
  -- Every value replaced, every key kept.
  unfoldable pub map_values : List (Bytes × V) → List (Bytes × W)
  map_values [] = []
  map_values ((k, v) ∷ m) = (k, f v) ∷ map_values m

  pub lookup-map_values :
      (k : Bytes) (m : List (Bytes × V))
      → lookup k (map_values m) ≡ (lookup k m >>= λ v. some (f v))
  unfolding lookup map_values
  lookup-map_values k [] = refl
  lookup-map_values k ((i, w) ∷ m) = ground (arith, lookup-map_values k m)

  pub map_values-Distinct : (m : List (Bytes × V)) → Distinct m → Distinct (map_values m)
  unfolding map_values
  map_values-Distinct [] d = tt
  map_values-Distinct ((i, w) ∷ m) d =
      ground (arith, lookup-map_values i m, map_values-Distinct m d.1)
