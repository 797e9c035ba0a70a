-- ===== src/Util/CheckProof.antt =====
-- src/util.rs: `check_proof`. The hash and the recovery of an address from a signature are the
-- caller's closures.
pub mod Laws
use consensus_bft.Prelude.{
  ℕ, Bool, true, false, Option, none, some, List, [], ◌∷◌, map, ◌==◌, nat_eq, contains, not, leb,
  if◌then◌else◌,
}
use consensus_bft.Prelude.Words.{Bytes, bytes_eq, add_u64, mul_u64}
use consensus_bft.Rlp.{RlpCrate}
use consensus_bft.Types.{Address, Signature, Hash, Node, Proof, Vote, precommit}
use consensus_bft.Types.Codec.{encode_vote}
use consensus_bft.Util.Weights.{into_addr_set, get_total_weight, get_votes_weight}

-- The precommit that a voter of the proof has signed.
abbrev pub precommit_of : Proof → Address → Vote
precommit_of proof sender = record {
  vote_type = precommit;
  height = proof.height;
  round = proof.round;
  proposal = proof.block_hash;
  voter = sender;
}

-- `Some(sender) == address`
abbrev pub is_sender : Address → Option Address → Bool
is_sender sender none = false
is_sender sender (some address) = sender == address

module _ (rlp : RlpCrate) (crypt_hash : Bytes → Bytes)
    (verify_signature : Bytes → Bytes → Option Address) where
  -- The loop over the votes.
  unfoldable pub all_signed : Proof → List Address → List (Address × Signature) → Bool
  all_signed proof addr_set [] = true
  all_signed proof addr_set ((sender, sig) ∷ votes) =
      let rest = all_signed proof addr_set votes in
      if contains addr_set sender
      then (let hash = crypt_hash (rlp.to_bytes (encode_vote rlp (precommit_of proof sender))) in
          if not (is_sender sender (verify_signature sig hash)) then false else rest)
      else false

  unfoldable pub check_proof : Proof → ℕ → List Node → Bool
  check_proof proof height authority =
      if height == 0
      then true
      else if not (height == add_u64 proof.height 1)
      then false
      else let vote_addresses = map (λ e. e.0) proof.precommit_votes in
        if leb (mul_u64 (get_votes_weight authority vote_addresses) 3)
          (mul_u64 (get_total_weight authority) 2)
        then false
        else all_signed proof (into_addr_set authority) proof.precommit_votes
