-- ===== src/Rlp.antt =====
-- The crate `rlp`, which src/types.rs only calls, as an interface: the operations that the code
-- uses, and the laws that the crate documents. `Item` is a value as `RlpStream` appends it and `Rlp`
-- reads it.
use consensus_bft.Prelude.{ℕ, ◌<◌, ◌≡◌, Option, none, some, List, Outcome, ok, length, get_elem?}
use consensus_bft.Prelude.Words.{Bytes, u64_mod}

-- The cases of `Prototype` that the code tells apart.
pub data Prototype : Type 0 where
  list : ℕ → Prototype
  other : Prototype

abbrev pub FitsU64 : Option ℕ → Type 0
FitsU64 none = Unit
FitsU64 (some n) = n < u64_mod

pub record RlpCrate : Type 1 where
  pub Item : Type 0
  pub DecoderError : Type 0
  -- `DecoderError::RlpInconsistentLengthAndData`, `DecoderError::RlpIncorrectListLen`
  pub inconsistent_length_and_data : DecoderError
  pub incorrect_list_len : DecoderError
  -- `append` at `u8` and `u64`, at `Vec<u8>`, at `Option<u64>`, and `begin_list` with what follows
  pub uint : ℕ → Item
  pub string : Bytes → Item
  pub option_u64 : Option ℕ → Item
  pub list : List Item → Item
  -- `rlp_bytes`, and `Rlp::new`
  pub to_bytes : Item → Bytes
  pub of_bytes : Bytes → Item
  -- `prototype`, `at`, and `val_at` and `list_at` at each type
  pub prototype : Item → Outcome DecoderError Prototype
  pub at : Item → ℕ → Outcome DecoderError Item
  pub as_u8 : Item → Outcome DecoderError ℕ
  pub as_u64 : Item → Outcome DecoderError ℕ
  pub as_string : Item → Outcome DecoderError Bytes
  pub as_option_u64 : Item → Outcome DecoderError (Option ℕ)
  pub as_items : Item → Outcome DecoderError (List Item)
  -- what is read is what was appended
  pub of_bytes-to_bytes : (i : Item) → of_bytes (to_bytes i) ≡ i
  pub prototype-list : (is : List Item) → prototype (list is) ≡ ok (Prototype.list (length is))
  pub at-list :
      (is : List Item) (k : ℕ) (i : Item) → get_elem? is k ≡ some i → at (list is) k ≡ ok i
  pub as_u8-uint : (n : ℕ) → n < 256 → as_u8 (uint n) ≡ ok n
  pub as_u64-uint : (n : ℕ) → n < u64_mod → as_u64 (uint n) ≡ ok n
  pub as_string-string : (b : Bytes) → as_string (string b) ≡ ok b
  pub as_option_u64-option_u64 : (o : Option ℕ) → FitsU64 o → as_option_u64 (option_u64 o) ≡ ok o
  pub as_items-list : (is : List Item) → as_items (list is) ≡ ok is
