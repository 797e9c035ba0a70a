-- ===== src/Tests/LruCase.antt =====
-- An LRU cache that keeps the laws of the interface of `lru-cache`: a capacity, and the entries with
-- the most recently used one first.
use consensus_bft.Prelude.{
  ℕ, zero, suc, ◌<◌, ◌≡◌, ◌≢◌, refl, ap, ◌∙◌, true, Option, none, some, List, [], ◌∷◌, ◌==◌, nat_eq,
  contains, take, if◌then◌else◌, arith,
}
use consensus_bft.Lru.{LruCrate, without, is_some}

module _ {V : Type 0} where
  abbrev find : ℕ → List (ℕ × V) → Option V
  find k [] = none
  find k ((j, v) ∷ m) = if j == k then some v else find k m

  abbrev forget : ℕ → List (ℕ × V) → List (ℕ × V)
  forget k [] = []
  forget k ((j, v) ∷ m) = if j == k then forget k m else (j, v) ∷ forget k m

  abbrev keys_of : List (ℕ × V) → List ℕ
  keys_of [] = []
  keys_of ((j, v) ∷ m) = j ∷ keys_of m

  pub contains-keys_of : (k : ℕ) (m : List (ℕ × V)) → contains (keys_of m) k ≡ is_some (find k m)
  contains-keys_of k [] = refl
  contains-keys_of k ((j, v) ∷ m) = ground (arith, contains-keys_of k m)

  pub keys_of-forget : (k : ℕ) (m : List (ℕ × V)) → keys_of (forget k m) ≡ without k (keys_of m)
  keys_of-forget k [] = refl
  keys_of-forget k ((j, v) ∷ m) = ground (arith, keys_of-forget k m)

  pub find-forget : (j k : ℕ) (m : List (ℕ × V)) → j ≢ k → find j (forget k m) ≡ find j m
  find-forget j k [] ne = refl
  find-forget j k ((i, v) ∷ m) ne = ground (arith, find-forget j k m ne)

  pub keys_of-take : (n : ℕ) (m : List (ℕ × V)) → keys_of (take n m) ≡ take n (keys_of m)
  keys_of-take zero m = refl
  keys_of-take (suc n) [] = refl
  keys_of-take (suc n) ((j, v) ∷ m) = ap (◌∷◌ j) (keys_of-take n m)

  find-take :
      (j n : ℕ) (m : List (ℕ × V))
      → contains (keys_of (take n m)) j ≡ true
      → find j (take n m) ≡ find j m
  find-take j zero m p = absurd (cc)
  find-take j (suc n) [] p = refl
  find-take j (suc n) ((i, v) ∷ m) p = ground (arith, find-take j n m)

  pub find-entry : (k : ℕ) (v : V) (m : List (ℕ × V)) → find k ((k, v) ∷ m) ≡ some v
  find-entry k v m = ground arith

  pub find-entry_ne :
      (j k : ℕ) (v : V) (m : List (ℕ × V)) → j ≢ k → find j ((k, v) ∷ forget k m) ≡ find j m
  find-entry_ne j k v m ne = ground (arith, find-forget j k m ne)

  pub find-kept :
      (k n : ℕ) (v : V) (m : List (ℕ × V)) → 0 < n → find k (take n ((k, v) ∷ m)) ≡ some v
  find-kept k zero v m p = absurd (omega arith)
  find-kept k (suc n) v m p = ground arith

  pub find-other :
      (j k n : ℕ) (v : V) (m : List (ℕ × V))
      → j ≢ k
      → contains (keys_of (take n ((k, v) ∷ forget k m))) j ≡ true
      → find j (take n ((k, v) ∷ forget k m)) ≡ find j m
  find-other j k n v m ne p =
      find-take j n ((k, v) ∷ forget k m) p ∙ (ground (arith, find-forget j k m ne))

abbrev pub lru : LruCrate
lru = record {
  Lru = λ V. ℕ × List (ℕ × V);
  new = λ V n. (n, []);
  get = λ k c. find k c.1;
  update = λ k v c. (c.0, (k, v) ∷ forget k c.1);
  insert = λ k v c. (c.0, take c.0 ((k, v) ∷ forget k c.1));
  capacity = λ c. c.0;
  keys = λ c. keys_of c.1;
  keys-new = λ V n. refl;
  capacity-new = λ V n. refl;
  contains-keys = λ k c. contains-keys_of k c.1;
  keys-update = λ k v c _. ap (◌∷◌ k) (keys_of-forget k c.1);
  capacity-update = λ k v c. refl;
  get-update_self = λ k v c _. find-entry k v (forget k c.1);
  get-update_ne = λ j k v c ne. find-entry_ne j k v c.1 ne;
  keys-insert = λ k v c.
      keys_of-take c.0 ((k, v) ∷ forget k c.1) ∙ ap (λ z. take c.0 (k ∷ z)) (keys_of-forget k c.1);
  capacity-insert = λ k v c. refl;
  get-insert_self = λ k v c pos. find-kept k c.0 v (forget k c.1) pos;
  get-insert_ne = λ j k v c ne there. find-other j k c.0 v c.1 ne there;
}
