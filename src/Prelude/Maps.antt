-- ===== src/Prelude/Maps.antt =====
-- `std::unordered_map` as an association list with distinct keys: the program looks keys up and
-- inserts them, and never iterates, so the order of the entries is of no account.
use mathlib.Core.Path.{◌≡◌}
use mathlib.Core.Option.{Option, none, some}
use mathlib.Core.List.{List, [], ◌∷◌}
use native.Mathlib.Omega.{arith}
use s_size_store.Prelude.Tests.{if◌then◌else◌}
use s_size_store.Prelude.Equality.{Eq, ◌==◌, ==_iff}

-- The value that is there, or else another.
abbrev pub or_else {ℓ} : {V : Type ℓ} → Option V → V → Option V
or_else none v = some v
or_else (some w) v = some w

module _ {ℓ κ} {K : Type ℓ} {V : Type κ} ⦃e : Eq K⦄ where
  abbrev pub lookup : K → List (K × V) → Option V
  lookup k [] = none
  lookup k ((j, v) ∷ m) = if j == k then some v else lookup k m

  -- `emplace`: a key that is there keeps its value.
  abbrev pub emplace : K → V → List (K × V) → List (K × V)
  emplace k v [] = (k, v) ∷ []
  emplace k v ((j, w) ∷ m) = if j == k then (j, w) ∷ m else (j, w) ∷ emplace k v m

  -- `insert_or_assign`: a key that is there gets the new value.
  abbrev pub insert_or_assign : K → V → List (K × V) → List (K × V)
  insert_or_assign k v [] = (k, v) ∷ []
  insert_or_assign k v ((j, w) ∷ m) = if j == k then (j, v) ∷ m else (j, w) ∷ insert_or_assign k v m

  pub lookup-emplace :
      (k j : K) (v : V) (m : List (K × V))
      → lookup j (emplace k v m) ≡ (if k == j then or_else (lookup k m) v else lookup j m)
  lookup-emplace k j v [] = ground arith
  lookup-emplace k j v ((i, w) ∷ m) =
      ground (arith, ==_iff i k, ==_iff i j, ==_iff k j, lookup-emplace k j v m)

  pub lookup-insert_or_assign :
      (k j : K) (v : V) (m : List (K × V))
      → lookup j (insert_or_assign k v m) ≡ (if k == j then some v else lookup j m)
  lookup-insert_or_assign k j v [] = ground arith
  lookup-insert_or_assign k j v ((i, w) ∷ m) =
      ground (arith, ==_iff i k, ==_iff i j, ==_iff k j, lookup-insert_or_assign k j v m)
