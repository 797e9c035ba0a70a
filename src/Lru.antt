-- ===== src/Lru.antt =====
-- The crate `lru-cache`, which src/collection.rs only calls, as an interface at the key type `u64`:
-- the operations that the code uses, and the laws that the crate documents.
pub mod Upsert
use consensus_bft.Prelude.{
  ℕ, ◌<◌, ◌≡◌, ◌≢◌, Bool, true, false, Option, none, some, List, [], ◌∷◌, ◌==◌, nat_eq, contains,
  take, if◌then◌else◌,
}

-- The keys without one of them.
abbrev pub without : ℕ → List ℕ → List ℕ
without k [] = []
without k (j ∷ js) = if j == k then without k js else j ∷ without k js

abbrev pub is_some : {V : Type 0} → Option V → Bool
is_some none = false
is_some (some v) = true

pub record LruCrate : Type 1 where
  pub Lru : Type 0 → Type 0
  -- `LruCache::new(capacity)`
  pub new : (V : Type 0) → ℕ → Lru V
  -- What `contains_key` tests and `get_mut` points to.
  pub get : {V : Type 0} → ℕ → Lru V → Option V
  -- A `get_mut` of a key that is there, with what is then written through the reference.
  pub update : {V : Type 0} → ℕ → V → Lru V → Lru V
  pub insert : {V : Type 0} → ℕ → V → Lru V → Lru V
  pub capacity : {V : Type 0} → Lru V → ℕ
  -- The keys, the most recently used one first.
  pub keys : {V : Type 0} → Lru V → List ℕ
  pub keys-new : (V : Type 0) (n : ℕ) → keys (new V n) ≡ []
  pub capacity-new : (V : Type 0) (n : ℕ) → capacity (new V n) ≡ n
  pub contains-keys : {V : Type 0} (k : ℕ) (c : Lru V) → contains (keys c) k ≡ is_some (get k c)
  -- A reference makes its key the most recently used one.
  pub keys-update :
      {V : Type 0} (k : ℕ) (v : V) (c : Lru V)
      → is_some (get k c) ≡ true
      → keys (update k v c) ≡ k ∷ without k (keys c)
  pub capacity-update :
      {V : Type 0} (k : ℕ) (v : V) (c : Lru V) → capacity (update k v c) ≡ capacity c
  pub get-update_self :
      {V : Type 0} (k : ℕ) (v : V) (c : Lru V)
      → is_some (get k c) ≡ true
      → get k (update k v c) ≡ some v
  pub get-update_ne :
      {V : Type 0} (j k : ℕ) (v : V) (c : Lru V) → j ≢ k → get j (update k v c) ≡ get j c
  -- An insertion makes its key the most recently used one, and drops the least recently used keys
  -- beyond the capacity.
  pub keys-insert :
      {V : Type 0} (k : ℕ) (v : V) (c : Lru V)
      → keys (insert k v c) ≡ take (capacity c) (k ∷ without k (keys c))
  pub capacity-insert :
      {V : Type 0} (k : ℕ) (v : V) (c : Lru V) → capacity (insert k v c) ≡ capacity c
  pub get-insert_self :
      {V : Type 0} (k : ℕ) (v : V) (c : Lru V) → 0 < capacity c → get k (insert k v c) ≡ some v
  pub get-insert_ne :
      {V : Type 0} (j k : ℕ) (v : V) (c : Lru V)
      → j ≢ k
      → contains (keys (insert k v c)) j ≡ true
      → get j (insert k v c) ≡ get j c
