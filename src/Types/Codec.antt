-- ===== src/Types/Codec.antt =====
-- src/types.rs: the `Encodable` and `Decodable` instances, over the crate `rlp`. An `Item` is what
-- `rlp_append` puts on the stream; `rlp_bytes` and `rlp::decode` add the crate's `to_bytes` and
-- `of_bytes`.
pub mod Canonical
mod Columns
pub mod RoundTrip
use consensus_bft.Prelude.{
  ℕ, Bool, List, [], ◌∷◌, map, length, Outcome, ok, err, Eq, ◌==◌, nat_eq, if◌then◌else◌, not,
}
use consensus_bft.Prelude.Fallible.{◌>>=◌}
use consensus_bft.Prelude.Map.{Map, insert}
use consensus_bft.Prelude.Order.{bytes_leb}
use consensus_bft.Prelude.Words.{Bytes, bytes_eq}
use consensus_bft.Rlp.{RlpCrate, Prototype}
use consensus_bft.Types.{Address, Signature, Vote, SignedVote, Proof, Proposal, SignedProposal}
use consensus_bft.Types.Convert.{vote_type_of_u8, vote_type_to_u8}

-- The derived order of `(Address, Signature)`, and `key_values.sort()`.
abbrev pub pair_leb : Address × Signature → Address × Signature → Bool
pair_leb (a, s) (b, t) = if a == b then bytes_leb s t else bytes_leb a b

unfoldable pub insert_sorted :
    Address × Signature → List (Address × Signature) → List (Address × Signature)
insert_sorted e [] = e ∷ []
insert_sorted e (f ∷ m) = if pair_leb e f then e ∷ f ∷ m else f ∷ insert_sorted e m

unfoldable pub sort : List (Address × Signature) → List (Address × Signature)
unfolding insert_sorted
sort [] = []
sort (e ∷ m) = insert_sorted e (sort m)

-- `key_list.into_iter().zip(value_list.into_iter())`
unfoldable pub zip : List Address → List Signature → List (Address × Signature)
zip [] ss = []
zip (a ∷ rest) [] = []
zip (a ∷ rest) (s ∷ ss) = (a, s) ∷ zip rest ss

-- `collect::<HashMap<_, _>>()` from a map that is built already: a later entry replaces an earlier.
unfoldable pub collect_onto :
    Map Address Signature → List (Address × Signature) → Map Address Signature
collect_onto m [] = m
collect_onto m ((a, s) ∷ es) = collect_onto (insert a s m) es

module _ (rlp : RlpCrate) where
  open rlp use {
    Item, DecoderError, inconsistent_length_and_data, incorrect_list_len, uint, string, option_u64,
    list, prototype, at, as_u8, as_u64, as_string, as_option_u64, as_items,
  }

  -- `match r.prototype()? { Prototype::List(n) => body, _ => Err(..) }`
  abbrev pub expect_list : {A : Type 0} → ℕ → Item → Outcome DecoderError A → Outcome DecoderError A
  expect_list n r body = do
    p ← prototype r
    elim p [
      | Prototype.list m ↦ if m == n then body else err inconsistent_length_and_data
      | Prototype.other ↦ err inconsistent_length_and_data
    ]

  -- `r.val_at(i)?` and `r.list_at(i)?` at a type with the decoder `f`
  abbrev pub val_at :
      {A : Type 0} → (Item → Outcome DecoderError A) → Item → ℕ → Outcome DecoderError A
  val_at f r i = do item ← at r i; f item

  abbrev pub decode_all :
      {A : Type 0} → (Item → Outcome DecoderError A) → List Item → Outcome DecoderError (List A)
  decode_all f [] = ok []
  decode_all f (i ∷ is) = do a ← f i; rest ← decode_all f is; ok (a ∷ rest)

  abbrev pub list_at :
      {A : Type 0} → (Item → Outcome DecoderError A) → Item → ℕ → Outcome DecoderError (List A)
  list_at f r i = do item ← at r i; is ← as_items item; decode_all f is

  unfoldable pub encode_vote : Vote → Item
  unfolding vote_type_to_u8
  encode_vote v = list (
      uint (vote_type_to_u8 v.vote_type)
      ∷ uint v.height
      ∷ uint v.round
      ∷ string v.proposal
      ∷ string v.voter
      ∷ [])

  unfoldable pub decode_vote : Item → Outcome DecoderError Vote
  unfolding vote_type_of_u8
  decode_vote r = expect_list 5 r do
    number ← val_at as_u8 r 0
    vote_type ← vote_type_of_u8 number
    height ← val_at as_u64 r 1
    round ← val_at as_u64 r 2
    proposal ← val_at as_string r 3
    voter ← val_at as_string r 4
    ok (record {
      vote_type = vote_type;
      height = height;
      round = round;
      proposal = proposal;
      voter = voter;
    })

  unfoldable pub encode_signed_vote : SignedVote → Item
  encode_signed_vote sv = list (encode_vote sv.vote ∷ string sv.signature ∷ [])

  unfoldable pub decode_signed_vote : Item → Outcome DecoderError SignedVote
  decode_signed_vote r = expect_list 2 r do
    vote ← val_at decode_vote r 0
    signature ← val_at as_string r 1
    ok (record { vote = vote; signature = signature })

  unfoldable pub encode_proof : Proof → Item
  encode_proof p =
      let key_values = sort p.precommit_votes in
      list (
        uint p.height
        ∷ uint p.round
        ∷ string p.block_hash
        ∷ list (map (λ e. string e.0) key_values)
        ∷ list (map (λ e. string e.1) key_values)
        ∷ [])

  unfoldable pub decode_proof : Item → Outcome DecoderError Proof
  decode_proof r = expect_list 5 r do
    height ← val_at as_u64 r 0
    round ← val_at as_u64 r 1
    block_hash ← val_at as_string r 2
    key_list ← list_at as_string r 3
    value_list ← list_at as_string r 4
    if length key_list == length value_list
        then ok (record {
          block_hash = block_hash;
          height = height;
          round = round;
          precommit_votes = collect_onto [] (zip key_list value_list);
        })
        else err incorrect_list_len

  unfoldable pub encode_proposal : Proposal → Item
  encode_proposal p = list (
      uint p.height
      ∷ uint p.round
      ∷ string p.hash
      ∷ encode_proof p.proof
      ∷ option_u64 p.lock_round
      ∷ list (map encode_signed_vote p.lock_votes)
      ∷ string p.proposer
      ∷ [])

  unfoldable pub decode_proposal : Item → Outcome DecoderError Proposal
  decode_proposal r = expect_list 7 r do
    height ← val_at as_u64 r 0
    round ← val_at as_u64 r 1
    hash ← val_at as_string r 2
    proof ← val_at decode_proof r 3
    lock_round ← val_at as_option_u64 r 4
    lock_votes ← list_at decode_signed_vote r 5
    proposer ← val_at as_string r 6
    ok (record {
      height = height;
      round = round;
      hash = hash;
      proof = proof;
      lock_round = lock_round;
      lock_votes = lock_votes;
      proposer = proposer;
    })

  unfoldable pub encode_signed_proposal : SignedProposal → Item
  encode_signed_proposal sp = list (encode_proposal sp.proposal ∷ string sp.signature ∷ [])

  unfoldable pub decode_signed_proposal : Item → Outcome DecoderError SignedProposal
  decode_signed_proposal r = expect_list 2 r do
    proposal ← val_at decode_proposal r 0
    signature ← val_at as_string r 1
    ok (record { proposal = proposal; signature = signature })
