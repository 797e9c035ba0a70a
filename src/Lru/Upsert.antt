-- ===== src/Lru/Upsert.antt =====
-- An entry of a cache that is written whether or not it was there: through a reference, or by an
-- insertion. Both branches of an `add` of src/collection.rs are of this form.
use consensus_bft.Prelude.{
  ℕ, zero, suc, ◌<◌, ◌≤◌, ◌≡◌, ◌≢◌, refl, ap, sym, ◌∙◌, true, none, some, List, [], ◌∷◌, nat_eq,
  contains, take, length, arith, Option-cases, inl, inr,
}
use consensus_bft.Lru.{LruCrate, without, is_some}

pub get-new : (lru : LruCrate) (V : Type 0) (n k : ℕ) → lru.get k (lru.new V n) ≡ none
get-new lru V n k = elim (Option-cases (lru.get k (lru.new V n))) [
  | inl e ↦ e
  | inr (v, e) ↦
      let there = lru.contains-keys k (lru.new V n) ∙ ap is_some e in
      cc (ap (λ (l : List ℕ). contains l k) (lru.keys-new V n), there)
]

module _ (lru : LruCrate) {V : Type 0} where
  unfoldable pub upsert : ℕ → V → lru.Lru V → lru.Lru V
  upsert k v c = elim (lru.get k c) [ some _ ↦ lru.update k v c | none ↦ lru.insert k v c ]

  pub capacity-upsert :
      (k : ℕ) (v : V) (c : lru.Lru V) → lru.capacity (upsert k v c) ≡ lru.capacity c
  unfolding upsert
  capacity-upsert k v c = elim (Option-cases (lru.get k c)) [
    | inl e ↦ rw (e, upsert) (lru.capacity-insert k v c)
    | inr (w, e) ↦ rw (e, upsert) (lru.capacity-update k v c)
  ]

  pub get-upsert_self :
      (k : ℕ) (v : V) (c : lru.Lru V) → 0 < lru.capacity c → lru.get k (upsert k v c) ≡ some v
  unfolding upsert
  get-upsert_self k v c h = elim (Option-cases (lru.get k c)) [
    | inl e ↦ rw (e, upsert) (lru.get-insert_self k v c h)
    | inr (w, e) ↦ rw (e, upsert) (lru.get-update_self k v c (ap is_some e))
  ]

  -- Another key either keeps its entry or loses it.
  pub get-upsert_ne :
      (j k : ℕ) (v : V) (c : lru.Lru V) (w : V)
      → j ≢ k
      → lru.get j (upsert k v c) ≡ some w
      → lru.get j c ≡ some w
  unfolding upsert
  get-upsert_ne j k v c w ne h = elim (Option-cases (lru.get k c)) [
    | inl e ↦
        let found : lru.get j (lru.insert k v c) ≡ some w = rw (e, upsert) at h in
        let there = lru.contains-keys j (lru.insert k v c) ∙ ap is_some found in
        sym (lru.get-insert_ne j k v c ne there) ∙ found
    | inr (u, e) ↦
        let found : lru.get j (lru.update k v c) ≡ some w = rw (e, upsert) at h in
        sym (lru.get-update_ne j k v c ne) ∙ found
  ]

  -- A key that is still there keeps its entry.
  pub get-upsert_kept :
      (j k : ℕ) (v : V) (c : lru.Lru V)
      → j ≢ k
      → contains (lru.keys (upsert k v c)) j ≡ true
      → lru.get j (upsert k v c) ≡ lru.get j c
  unfolding upsert
  get-upsert_kept j k v c ne h = elim (Option-cases (lru.get k c)) [
    | inl e ↦ rw (e, upsert) (lru.get-insert_ne j k v c ne (rw (e, upsert) at h))
    | inr (u, e) ↦ rw (e, upsert) (lru.get-update_ne j k v c ne)
  ]

length-without : (k : ℕ) (l : List ℕ) → length (without k l) ≤ length l
length-without k [] = omega arith
length-without k (j ∷ l) = ground (arith, length-without k l)

length-without_mem : (k : ℕ) (l : List ℕ) → contains l k ≡ true → length (without k l) < length l
length-without_mem k [] h = ground arith
length-without_mem k (j ∷ l) h = ground (arith, length-without_mem k l, length-without k l)

take_of_length-le : {A : Type 0} (n : ℕ) (xs : List A) → length xs ≤ n → take n xs ≡ xs
take_of_length-le zero [] h = refl
take_of_length-le zero (k ∷ ks) h = absurd (omega arith)
take_of_length-le (suc n) [] h = refl
take_of_length-le (suc n) (k ∷ ks) h = ap (◌∷◌ k) (take_of_length-le n ks (omega arith))

module _ (lru : LruCrate) {V : Type 0} where
  -- The key comes first, the others keep their order, and what is beyond the capacity goes.
  pub keys-upsert :
      (k : ℕ) (v : V) (c : lru.Lru V)
      → length (lru.keys c) ≤ lru.capacity c
      → lru.keys (upsert lru k v c) ≡ take (lru.capacity c) (k ∷ without k (lru.keys c))
  unfolding upsert
  keys-upsert k v c h = elim (Option-cases (lru.get k c)) [
    | inl e ↦ rw (e, upsert) (lru.keys-insert k v c)
    | inr (u, e) ↦
        let there = lru.contains-keys k c ∙ ap is_some e in
        rw (e, upsert)
          (lru.keys-update k v c (ap is_some e)
            ∙ sym (
                take_of_length-le (lru.capacity c) (k ∷ without k (lru.keys c))
                  (omega (arith, length-without_mem k (lru.keys c) there))))
  ]
