-- ===== src/Prelude/Map.antt =====
-- `std::collections::HashMap` as an association list: a lookup reads the first entry of a key, and
-- the operations keep the keys distinct. The order of the list is the order of an iteration.
use mathlib.Core.Path.{◌≡◌, refl}
use mathlib.Core.Logic.{◌≢◌}
use mathlib.Core.List.{List, [], ◌∷◌}
use mathlib.Core.Option.{Option, none, some}
use native.Mathlib.Omega.{arith}
use consensus_bft.Prelude.Tests.{if◌then◌else◌}
use consensus_bft.Prelude.Equality.{Eq, ◌==◌}

abbrev pub Map : Type 0 → Type 0 → Type 0
Map K V = List (K × V)

module _ {K V : Type 0} ⦃e : Eq K⦄ where
  -- `map.get(&k)`
  abbrev pub get : K → Map K V → Option V
  get k [] = none
  get k ((j, v) ∷ m) = if j == k then some v else get k m

  -- `map.entry(k).or_insert(v)`: an entry that is there stays.
  abbrev pub or_insert : K → V → Map K V → Map K V
  or_insert k v [] = (k, v) ∷ []
  or_insert k v ((j, w) ∷ m) = if j == k then (j, w) ∷ m else (j, w) ∷ or_insert k v m

  -- `map.insert(k, v)`: the value is replaced.
  abbrev pub insert : K → V → Map K V → Map K V
  insert k v [] = (k, v) ∷ []
  insert k v ((j, w) ∷ m) = if j == k then (k, v) ∷ m else (j, w) ∷ insert k v m

  -- `map.remove(&k)`
  abbrev pub remove : K → Map K V → Map K V
  remove k [] = []
  remove k ((j, w) ∷ m) = if j == k then m else (j, w) ∷ remove k m

  -- No key stands twice.
  abbrev pub HasDistinctKeys : Map K V → Type 0
  HasDistinctKeys [] = Unit
  HasDistinctKeys ((j, w) ∷ m) = (get j m ≡ none) × HasDistinctKeys m

abbrev pub or_keep : {V : Type 0} → Option V → V → V
or_keep none v = v
or_keep (some w) v = w

module _ {K V : Type 0} ⦃e : Eq K⦄ where
  pub get-or_insert :
      (j k : K) (v : V) (m : Map K V)
      → get j (or_insert k v m) ≡ (if k == j then some (or_keep (get k m) v) else get j m)
  get-or_insert j k v [] = refl
  get-or_insert j k v ((i, w) ∷ m) =
      ground (arith, get-or_insert j k v m, e.beq_iff k j, e.beq_iff i k, e.beq_iff i j)

  pub get-insert :
      (j k : K) (v : V) (m : Map K V) → get j (insert k v m) ≡ (if k == j then some v else get j m)
  get-insert j k v [] = refl
  get-insert j k v ((i, w) ∷ m) =
      ground (arith, get-insert j k v m, e.beq_iff k j, e.beq_iff i k, e.beq_iff i j)

  pub get-remove_self : (k : K) (m : Map K V) → HasDistinctKeys m → get k (remove k m) ≡ none
  get-remove_self k [] h = refl
  get-remove_self k ((i, w) ∷ m) h = ground (arith, get-remove_self k m h.1, e.beq_iff i k)

  pub get-remove_ne : (j k : K) (m : Map K V) → j ≢ k → get j (remove k m) ≡ get j m
  get-remove_ne j k [] h = refl
  get-remove_ne j k ((i, w) ∷ m) h =
      ground (arith, get-remove_ne j k m h, e.beq_iff i k, e.beq_iff i j)

  pub or_insert-HasDistinctKeys :
      (k : K) (v : V) (m : Map K V) → HasDistinctKeys m → HasDistinctKeys (or_insert k v m)
  or_insert-HasDistinctKeys k v [] h = (refl, tt)
  or_insert-HasDistinctKeys k v ((i, w) ∷ m) h = ground (
    arith,
    or_insert-HasDistinctKeys k v m h.1,
    get-or_insert i k v m,
    e.beq_iff k i,
    e.beq_iff i k,
  )

  pub insert-HasDistinctKeys :
      (k : K) (v : V) (m : Map K V) → HasDistinctKeys m → HasDistinctKeys (insert k v m)
  insert-HasDistinctKeys k v [] h = (refl, tt)
  insert-HasDistinctKeys k v ((i, w) ∷ m) h =
      ground
        (arith, insert-HasDistinctKeys k v m h.1, get-insert i k v m, e.beq_iff k i, e.beq_iff i k)
