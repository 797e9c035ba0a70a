-- ===== src/Types/Codec/Canonical.antt =====
-- The order of a proof's votes on the wire: `sort` keeps the map, and depends on nothing else.
use consensus_bft.Prelude.{
  ◌≡◌, refl, sym, ◌∙◌, true, false, none, some, [], ◌∷◌, ◌==◌, arith, Bool-cases, inl, inr,
  if◌then◌else◌,
}
use consensus_bft.Prelude.Map.{Map, get, HasDistinctKeys}
use consensus_bft.Prelude.Order.{
  bytes_leb, bytes_leb_refl, bytes_leb_total, bytes_leb_trans, bytes_leb_antisymm,
}
use consensus_bft.Prelude.Words.{bytes_eq}
use consensus_bft.Types.{Address, Signature}
use consensus_bft.Types.Codec.{pair_leb, insert_sorted, sort}

abbrev pub Votes : Type 0
Votes = Map Address Signature

-- Two maps hold the same entries.
abbrev pub SameVotes : Votes → Votes → Type 0
SameVotes m n = (j : Address) → get j m ≡ get j n

pub get-insert_sorted :
    (j k : Address) (v : Signature) (m : Votes)
    → get k m ≡ none
    → get j (insert_sorted (k, v) m) ≡ (if k == j then some v else get j m)
unfolding insert_sorted
get-insert_sorted j k v [] h = refl
get-insert_sorted j k v ((i, w) ∷ m) h = ground (
  arith,
  get-insert_sorted j k v m,
  bytes_eq.beq_iff k j,
  bytes_eq.beq_iff i k,
  bytes_eq.beq_iff i j,
)

-- Sorting keeps every lookup.
pub get-sort : (j : Address) (m : Votes) → HasDistinctKeys m → get j (sort m) ≡ get j m
unfolding sort
get-sort j [] h = refl
get-sort j ((k, v) ∷ m) h =
    ground (arith, get-sort j m h.1, get-sort k m h.1, get-insert_sorted j k v (sort m))

pub insert_sorted-HasDistinctKeys :
    (k : Address) (v : Signature) (m : Votes)
    → get k m ≡ none
    → HasDistinctKeys m
    → HasDistinctKeys (insert_sorted (k, v) m)
unfolding insert_sorted
insert_sorted-HasDistinctKeys k v [] h d = (refl, tt)
insert_sorted-HasDistinctKeys k v ((i, w) ∷ m) h d = ground (
  arith,
  insert_sorted-HasDistinctKeys k v m,
  get-insert_sorted i k v m,
  bytes_eq.beq_iff i k,
  bytes_eq.beq_iff k i,
)

pub sort-HasDistinctKeys : (m : Votes) → HasDistinctKeys m → HasDistinctKeys (sort m)
unfolding sort
sort-HasDistinctKeys [] h = tt
sort-HasDistinctKeys ((k, v) ∷ m) h = ground (
  arith,
  sort-HasDistinctKeys m h.1,
  get-sort k m h.1,
  insert_sorted-HasDistinctKeys k v (sort m),
)

-- No key of `m` is before `k`.
abbrev IsBelow : Address → Votes → Type 0
IsBelow k m = (j : Address) (w : Signature) → get j m ≡ some w → bytes_leb k j ≡ true

abbrev IsSorted : Votes → Type 0
IsSorted [] = Unit
IsSorted ((k, v) ∷ m) = IsBelow k m × IsSorted m

leb-of-pair_leb :
    (k i : Address) (v w : Signature) → pair_leb (k, v) (i, w) ≡ true → bytes_leb k i ≡ true
leb-of-pair_leb k i v w h = ground (arith, bytes_eq.beq_iff k i, bytes_leb_refl k)

geb-of-pair_leb :
    (k i : Address) (v w : Signature) → pair_leb (k, v) (i, w) ≡ false → bytes_leb i k ≡ true
geb-of-pair_leb k i v w h =
    ground (arith, bytes_eq.beq_iff k i, bytes_leb_refl k, bytes_leb_total k i)

-- A bound on an entry and on the rest of the map is a bound on the whole.
IsBelow-cons :
    (k i : Address) (w : Signature) (m : Votes)
    → bytes_leb k i ≡ true
    → IsBelow i m
    → IsBelow k ((i, w) ∷ m)
IsBelow-cons k i w m h b j u p =
    ground (arith, bytes_eq.beq_iff i j, b j u, bytes_leb_trans k i j h)

IsBelow-insert_sorted :
    (i k : Address) (v : Signature) (m : Votes)
    → get k m ≡ none
    → bytes_leb i k ≡ true
    → IsBelow i m
    → IsBelow i (insert_sorted (k, v) m)
IsBelow-insert_sorted i k v m fresh h b j u p =
    ground (arith, get-insert_sorted j k v m fresh, bytes_eq.beq_iff k j, b j u)

insert_sorted-IsSorted :
    (k : Address) (v : Signature) (m : Votes)
    → get k m ≡ none
    → IsSorted m
    → IsSorted (insert_sorted (k, v) m)
unfolding insert_sorted
insert_sorted-IsSorted k v [] h s = ((λ j w p. cc), tt)
insert_sorted-IsSorted k v ((i, w) ∷ m) h s = elim (Bool-cases (pair_leb (k, v) (i, w))) [
  | inl first ↦ rw first (IsBelow-cons k i w m (leb-of-pair_leb k i v w first) s.0, s)
  | inr later ↦
      let fresh : get k m ≡ none = ground arith in
      rw later (
        IsBelow-insert_sorted i k v m fresh (geb-of-pair_leb k i v w later) s.0,
        insert_sorted-IsSorted k v m fresh s.1,
      )
]

sort-IsSorted : (m : Votes) → HasDistinctKeys m → IsSorted (sort m)
unfolding sort
sort-IsSorted [] h = tt
sort-IsSorted ((k, v) ∷ m) h =
    insert_sorted-IsSorted k v (sort m) (ground (arith, get-sort k m h.1)) (sort-IsSorted m h.1)

get-head : (k : Address) (v : Signature) (m : Votes) → get k ((k, v) ∷ m) ≡ some v
get-head k v m = ground (arith, bytes_eq.beq_iff k k)

-- The first keys of two sorted maps with the same entries are equal.
IsBelow-head :
    (k l : Address) (v w : Signature) (m n : Votes)
    → IsBelow k m
    → SameVotes ((k, v) ∷ m) ((l, w) ∷ n)
    → bytes_leb k l ≡ true
IsBelow-head k l v w m n b h = IsBelow-cons k k v m (bytes_leb_refl k) b l w (h l ∙ get-head l w n)

SameVotes-tail :
    (k l : Address) (v w : Signature) (m n : Votes)
    → k ≡ l
    → get k m ≡ none
    → get l n ≡ none
    → SameVotes ((k, v) ∷ m) ((l, w) ∷ n)
    → SameVotes m n
SameVotes-tail k l v w m n e fm fn h j =
    ground (arith, h j, bytes_eq.beq_iff k j, bytes_eq.beq_iff l j)

-- A sorted map is determined by its lookups.
sorted_unique :
    (m n : Votes)
    → IsSorted m
    → IsSorted n
    → HasDistinctKeys m
    → HasDistinctKeys n
    → SameVotes m n
    → m ≡ n
sorted_unique [] [] sm sn dm dn h = refl
sorted_unique [] ((l, w) ∷ n) sm sn dm dn h = cc (h l, get-head l w n)
sorted_unique ((k, v) ∷ m) [] sm sn dm dn h = cc (h k, get-head k v m)
sorted_unique ((k, v) ∷ m) ((l, w) ∷ n) sm sn dm dn h =
    let same_key : k ≡ l =
      bytes_leb_antisymm k l (IsBelow-head k l v w m n sm.0 h)
        (IsBelow-head l k w v n m sn.0 (λ j. sym (h j))) in
    let same_value : v ≡ w = ground (arith, h k, get-head k v m, get-head l w n) in
    let rest : m ≡ n =
      sorted_unique m n sm.1 sn.1 dm.1 dn.1 (SameVotes-tail k l v w m n same_key dm.0 dn.0 h) in
    cc

-- The order in which a map iterates does not reach the wire.
pub sort-SameVotes :
    (m n : Votes) → HasDistinctKeys m → HasDistinctKeys n → SameVotes m n → sort m ≡ sort n
sort-SameVotes m n dm dn h =
    sorted_unique (sort m) (sort n) (sort-IsSorted m dm) (sort-IsSorted n dn)
      (sort-HasDistinctKeys m dm) (sort-HasDistinctKeys n dn)
      (λ j. ground (arith, get-sort j m dm, get-sort j n dn, h j))
