-- ===== src/Tests/Framing.antt =====
-- The framing, the codec and the records of the log on concrete data.
use consensus_bft.Prelude.{ℕ, ◌≡◌, List, [], ◌∷◌, ok, panic, arith}
use consensus_bft.Prelude.Words.{Bytes, bytes_eq, be_bytes, of_be_bytes, le_bytes}
use consensus_bft.BftCore.{vote_eq}
use consensus_bft.Types.{vote_type_eq}
use consensus_bft.Types.Codec.{
  encode_signed_vote, decode_signed_vote, encode_signed_proposal, decode_signed_proposal,
}
use consensus_bft.Types.Codec.Canonical.{SameVotes}
use consensus_bft.Types.Codec.RoundTrip.{
  canonical, signed_vote_round_trip, signed_proposal_round_trip,
}
use consensus_bft.Util.Framing.{combine, extract, encode_block, decode_block}
use consensus_bft.Util.Framing.Laws.{
  extract-combine, combine-extract, extract-panic, decode_block-encode_block, decode_block-panic,
}
use consensus_bft.Wal.Log.{read_frames}
use consensus_bft.Wal.Log.Frames.{frames, read_frames-frames}
use consensus_bft.Tests.RlpCase.{rlp}
use consensus_bft.Tests.NodeCase.{signed, proof, signed_proposal}

extract-combine_example : extract (combine (1 ∷ 2 ∷ []) (3 ∷ [])) ≡ ok (1 ∷ 2 ∷ [], 3 ∷ [])
extract-combine_example = extract-combine (1 ∷ 2 ∷ []) (3 ∷ []) (omega arith)

abbrev short_frame : Bytes
short_frame = 0 ∷ 0 ∷ 0 ∷ 0 ∷ 0 ∷ 0 ∷ 0 ∷ 1 ∷ 5 ∷ 6 ∷ []

combine-extract_example : combine (5 ∷ []) (6 ∷ []) ≡ short_frame
unfolding combine be_bytes
combine-extract_example =
    combine-extract short_frame (5 ∷ []) (6 ∷ []) (ground arith) (omega arith)
      (extract-combine (5 ∷ []) (6 ∷ []) (omega arith))

abbrev bad_frame : Bytes
bad_frame = 255 ∷ 255 ∷ 255 ∷ 255 ∷ 255 ∷ 255 ∷ 255 ∷ 255 ∷ []

extract-panic_example : extract bad_frame ≡ panic
unfolding of_be_bytes
extract-panic_example = extract-panic bad_frame (ground arith) (omega arith) (omega arith)

decode_block-encode_block_example :
    decode_block (encode_block 7 (1 ∷ []) (2 ∷ 3 ∷ [])) ≡ ok (7, 1 ∷ [], 2 ∷ 3 ∷ [])
decode_block-encode_block_example =
    decode_block-encode_block 7 (1 ∷ []) (2 ∷ 3 ∷ []) (omega arith) (omega arith)

decode_block-panic_example : decode_block (1 ∷ 2 ∷ 3 ∷ []) ≡ panic
decode_block-panic_example = decode_block-panic (1 ∷ 2 ∷ 3 ∷ []) (omega arith)

signed_vote_round_trip_example :
    decode_signed_vote rlp (rlp.of_bytes (rlp.to_bytes (encode_signed_vote rlp (signed 2))))
    ≡ ok (signed 2)
signed_vote_round_trip_example = signed_vote_round_trip rlp (signed 2) (omega arith, omega arith)

signed_proposal_round_trip_example :
    (decode_signed_proposal rlp
        (rlp.of_bytes (rlp.to_bytes (encode_signed_proposal rlp signed_proposal)))
      ≡ ok (record signed_proposal {
        proposal = record signed_proposal.proposal { proof = canonical proof };
      }))
    × SameVotes (canonical proof).precommit_votes proof.precommit_votes
signed_proposal_round_trip_example = signed_proposal_round_trip rlp signed_proposal (ground arith)

abbrev messages : List (ℕ × Bytes)
messages = (6, 1 ∷ 2 ∷ []) ∷ (7, 9 ∷ []) ∷ []

read_frames-frames_example : read_frames 20 (frames messages) ≡ messages
unfolding le_bytes
read_frames-frames_example =
    read_frames-frames 20 messages (omega arith, (omega arith, tt)) (omega arith)
