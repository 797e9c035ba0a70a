-- ===== src/Tests/RlpCase.antt =====
-- A serialisation that keeps the laws of the interface of `rlp`: a tag, and the parts of a list each
-- under its length.
use consensus_bft.Prelude.{
  ℕ, zero, suc, ◌≡◌, refl, ap, ◌∙◌, Option, none, some, List, [], ◌∷◌, ◌++◌, Outcome, ok, err, take,
  drop, length, get_elem?, take-length-append, drop-length-append,
}
use consensus_bft.Prelude.Words.{Bytes}
use consensus_bft.Rlp
use consensus_bft.Rlp.{RlpCrate, Prototype, other, FitsU64}

abbrev chunks : List Bytes → Bytes
chunks [] = []
chunks (i ∷ is) = length i ∷ (i ++ chunks is)

abbrev unchunk : ℕ → Bytes → List Bytes
unchunk zero b = []
unchunk (suc n) [] = []
unchunk (suc n) (l ∷ b) = take l b ∷ unchunk n (drop l b)

pub unchunk-chunks : (is : List Bytes) → unchunk (length is) (chunks is) ≡ is
unchunk-chunks [] = refl
unchunk-chunks (i ∷ is) =
    rw
      (
        take-length-append (length i) i (chunks is) refl,
        drop-length-append (length i) i (chunks is) refl,
      )
      (ap (◌∷◌ i) (unchunk-chunks is))

abbrev list_item : List Bytes → Bytes
list_item is = 4 ∷ (length is) ∷ chunks is

abbrev items_of : Bytes → Outcome ℕ (List Bytes)
items_of (suc (suc (suc (suc zero))) ∷ n ∷ b) = ok (unchunk n b)
items_of _ = err 0

abbrev prototype_of : Bytes → Outcome ℕ Prototype
prototype_of (suc (suc (suc (suc zero))) ∷ n ∷ b) = ok (Rlp.list n)
prototype_of _ = ok other

abbrev uint_of : Bytes → Outcome ℕ ℕ
uint_of (zero ∷ n ∷ []) = ok n
uint_of _ = err 0

abbrev string_of : Bytes → Outcome ℕ Bytes
string_of (suc zero ∷ b) = ok b
string_of _ = err 0

abbrev option_item : Option ℕ → Bytes
option_item none = 2 ∷ []
option_item (some n) = 3 ∷ n ∷ []

abbrev option_of : Bytes → Outcome ℕ (Option ℕ)
option_of (suc (suc zero) ∷ []) = ok none
option_of (suc (suc (suc zero)) ∷ n ∷ []) = ok (some n)
option_of _ = err 0

abbrev found : Option Bytes → Outcome ℕ Bytes
found none = err 1
found (some i) = ok i

abbrev item_at : Outcome ℕ (List Bytes) → ℕ → Outcome ℕ Bytes
item_at (ok is) k = found (get_elem? is k)
item_at (err e) k = err e
item_at Outcome.panic k = err 0

pub option_of-option_item : (o : Option ℕ) → option_of (option_item o) ≡ ok o
option_of-option_item none = refl
option_of-option_item (some n) = refl

abbrev pub rlp : RlpCrate
rlp = record {
  Item = Bytes;
  DecoderError = ℕ;
  inconsistent_length_and_data = 0;
  incorrect_list_len = 1;
  uint = λ n. 0 ∷ n ∷ [];
  string = λ b. 1 ∷ b;
  option_u64 = option_item;
  list = list_item;
  to_bytes = λ i. i;
  of_bytes = λ b. b;
  prototype = prototype_of;
  at = λ i k. item_at (items_of i) k;
  as_u8 = uint_of;
  as_u64 = uint_of;
  as_string = string_of;
  as_option_u64 = option_of;
  as_items = items_of;
  of_bytes-to_bytes = λ i. refl;
  prototype-list = λ is. refl;
  at-list = λ is k i e. ap (λ z. found (get_elem? z k)) (unchunk-chunks is) ∙ ap found e;
  as_u8-uint = λ n _. refl;
  as_u64-uint = λ n _. refl;
  as_string-string = λ b. refl;
  as_option_u64-option_u64 = λ o _. option_of-option_item o;
  as_items-list = λ is. ap ok (unchunk-chunks is);
}
