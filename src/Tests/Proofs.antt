-- ===== src/Tests/Proofs.antt =====
-- The proofs of src/util.rs and of src/types.rs on concrete data.
use consensus_bft.Prelude.{ℕ, ◌*◌, ◌<◌, ◌≡◌, refl, ◌↔◌, true, ◌&&◌, [], ◌∷◌, All, contains, arith}
use consensus_bft.Prelude.Words.{bytes_eq}
use consensus_bft.BftCore.{vote_eq}
use consensus_bft.Types.{vote_type_eq}
use consensus_bft.Types.Codec.{encode_proof, encode_vote}
use consensus_bft.Types.Codec.Canonical.{SameVotes}
use consensus_bft.Types.Codec.RoundTrip.{encode_proof-SameVotes}
use consensus_bft.Prelude.Words.{add_u64, mul_u64}
use consensus_bft.Util.Weights.{
  get_votes_weight, get_total_weight, voting_nodes, sum_u64, into_addr_set,
}
use consensus_bft.Types.Authority.{to_set, set_insert}
use consensus_bft.Types.Convert.{vote_type_to_u8}
use consensus_bft.Util.Weights.Laws.{weight_of, everyone}
use consensus_bft.Util.CheckProof.{check_proof, all_signed}
use consensus_bft.Util.CheckProof.Laws.{voters, IsSigned, check_proof_iff, check_proof-overlap}
use consensus_bft.Tests.RlpCase.{rlp}
use consensus_bft.Tests.NodeCase.{other_order, nodes, proof, recover}

check_proof_iff_example : (check_proof rlp (λ b. b) recover proof 5 nodes ≡ true) ↔ (
    ◌≡◌ {A = ℕ} 5 5
    × (weight_of everyone nodes * 2 < weight_of (contains (voters proof)) nodes * 3)
    × All (IsSigned rlp (λ b. b) recover proof nodes) proof.precommit_votes)
check_proof_iff_example =
    check_proof_iff rlp (λ b. b) recover proof 5 nodes (omega arith) (omega arith) (ground arith)

proof_accepted : check_proof rlp (λ b. b) recover proof 5 nodes ≡ true
unfolding check_proof all_signed encode_vote add_u64 mul_u64 get_votes_weight get_total_weight
    voting_nodes sum_u64 into_addr_set to_set set_insert vote_type_to_u8
proof_accepted = refl

check_proof-overlap_example :
    weight_of everyone nodes
    < weight_of (λ a. contains (voters proof) a && contains (voters proof) a) nodes * 3
check_proof-overlap_example =
    check_proof-overlap rlp (λ b. b) recover proof proof 5 5 nodes (omega arith) (omega arith)
      (omega arith) (omega arith) (ground arith) proof_accepted proof_accepted

same_votes : SameVotes proof.precommit_votes other_order
same_votes j =
    ground
      (arith, bytes_eq.beq_iff (1 ∷ []) j, bytes_eq.beq_iff (2 ∷ []) j, bytes_eq.beq_iff (3 ∷ []) j)

encode_proof-SameVotes_example :
    encode_proof rlp (record proof { precommit_votes = other_order }) ≡ encode_proof rlp proof
encode_proof-SameVotes_example =
    encode_proof-SameVotes rlp proof other_order (ground arith) (ground arith) same_votes
