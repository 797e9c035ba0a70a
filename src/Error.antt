-- ===== src/Error.antt =====
-- src/error.rs. A message that the source builds with `format!` from the debug text of a foreign
-- error keeps the fixed text in front of it.
use Prim.Native.String.{String}

pub data ConsensusError : Type 0 where
  block_verify_diff encode_err recv_msg_err bft_core_err proof_err : ConsensusError
  lose_block lose_signed_vote missing_proof missing_prev_hash no_voteset : ConsensusError
  signature_err obsolete_msg future_msg no_authority_list : ConsensusError
  invalid_proposer invalid_voter illegal_proposal_lock : ConsensusError
  decode_err send_msg_err support_err ser_json_err de_json_err save_wal_err :
      String → ConsensusError
