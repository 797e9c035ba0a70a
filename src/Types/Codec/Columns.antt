-- ===== src/Types/Codec/Columns.antt =====
-- src/types.rs: a proof's votes are written as two columns, and zipped again into a map.
use consensus_bft.Prelude.{
  ◌≡◌, refl, ap, sym, ◌∙◌, ◌≢◌, true, none, [], ◌∷◌, ◌++◌, suc, ◌==◌, arith, map, length, nat_eq,
}
use mathlib.Core.List.{append_assoc}
use consensus_bft.Prelude.Map.{get, HasDistinctKeys, insert}
use consensus_bft.Prelude.Words.{bytes_eq}
use consensus_bft.Types.{Address, Signature}
use consensus_bft.Types.Codec.{zip, collect_onto}
use consensus_bft.Types.Codec.Canonical.{Votes}

-- `collect` of the two columns of a list with distinct keys is the list.
append-nil : (m : Votes) → m ++ [] ≡ m
append-nil [] = refl
append-nil (e ∷ m) = ap (◌∷◌ e) (append-nil m)

insert_absent :
    (k : Address) (v : Signature) (m : Votes) → get k m ≡ none → insert k v m ≡ m ++ (k, v) ∷ []
insert_absent k v [] h = refl
insert_absent k v ((i, w) ∷ m) h = ground (arith, insert_absent k v m)

-- Two maps have no key in common.
abbrev AreDisjoint : Votes → Votes → Type 0
AreDisjoint m [] = Unit
AreDisjoint m ((k, v) ∷ n) = (get k m ≡ none) × AreDisjoint m n

get-append_new :
    (j k : Address) (v : Signature) (m : Votes)
    → get j m ≡ none
    → j ≢ k
    → get j (m ++ (k, v) ∷ []) ≡ none
get-append_new j k v [] h ne = ground (arith, bytes_eq.beq_iff k j)
get-append_new j k v ((i, w) ∷ m) h ne = ground (arith, get-append_new j k v m)

AreDisjoint-append :
    (m n : Votes) (k : Address) (v : Signature)
    → get k n ≡ none
    → AreDisjoint m n
    → AreDisjoint (m ++ (k, v) ∷ []) n
AreDisjoint-append m [] k v h d = tt
AreDisjoint-append m ((j, w) ∷ n) k v h d =
    let other : j ≢ k = λ p. ground (arith, bytes_eq.beq_iff j k) in
    (
      get-append_new j k v m d.0 other,
      AreDisjoint-append m n k v (ground (arith, bytes_eq.beq_iff j k)) d.1,
    )

collect_onto-append :
    (m n : Votes) → HasDistinctKeys n → AreDisjoint m n → collect_onto m n ≡ m ++ n
unfolding collect_onto
collect_onto-append m [] h d = sym (append-nil m)
collect_onto-append m ((k, v) ∷ n) h d = rw (insert_absent k v m d.0) (
    collect_onto-append (m ++ (k, v) ∷ []) n h.1 (AreDisjoint-append m n k v h.0 d.1)
    ∙ append_assoc m ((k, v) ∷ []) n)

AreDisjoint-nil : (n : Votes) → AreDisjoint [] n
AreDisjoint-nil [] = tt
AreDisjoint-nil ((k, v) ∷ n) = (refl, AreDisjoint-nil n)

zip_columns : (m : Votes) → zip (map (λ e. e.0) m) (map (λ e. e.1) m) ≡ m
unfolding zip
zip_columns [] = refl
zip_columns ((k, v) ∷ m) = ap (◌∷◌ (k, v)) (zip_columns m)

pub collect_columns :
    (m : Votes)
    → HasDistinctKeys m
    → collect_onto [] (zip (map (λ e. e.0) m) (map (λ e. e.1) m)) ≡ m
collect_columns m h = rw zip_columns (collect_onto-append [] m h (AreDisjoint-nil m))

pub length-columns : (m : Votes) → (length (map (λ e. e.0) m) == length (map (λ e. e.1) m)) ≡ true
length-columns m = (nat_eq.beq_iff _ _).1 (lengths m)
  where
    lengths : (m : Votes) → length (map (λ e. e.0) m) ≡ length (map (λ e. e.1) m)
    lengths [] = refl
    lengths (e ∷ m) = ap suc (lengths m)
