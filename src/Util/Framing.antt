-- ===== src/Util/Framing.antt =====
-- src/util.rs: `combine`, `extract`, `encode_block` and `decode_block`. Lengths are those of a 64-bit
-- target, where `usize` is `u64`; a slice out of range panics.
pub mod Laws
use consensus_bft.Prelude.{
  ℕ, Bool, List, ◌++◌, Outcome, ok, err, panic, ltb, leb, if◌then◌else◌, length, take, drop,
}
use consensus_bft.Prelude.Fallible.{◌>>=◌}
use consensus_bft.Prelude.Words.{Bytes, add_u64, be_bytes, of_be_bytes}
use consensus_bft.Error.{ConsensusError, decode_err}
use consensus_bft.Types.{Hash}

-- `slice.split_at(mid)`
unfoldable pub split_at : ℕ → Bytes → Outcome ConsensusError (Bytes × Bytes)
split_at mid s = if leb mid (length s) then ok (take mid s, drop mid s) else panic

unfoldable pub combine : Bytes → Bytes → Bytes
combine first second = be_bytes 8 (length first) ++ (first ++ second)

unfoldable pub encode_block : ℕ → Bytes → Bytes → Bytes
encode_block height block block_hash = be_bytes 8 height ++ combine block_hash block

unfoldable pub extract : Bytes → Outcome ConsensusError (Bytes × Bytes)
extract encode =
    if ltb (length encode) 8
    then err (decode_err "Bytes is too short")
    else let first_len = of_be_bytes (take 8 encode) in
      if ltb (length encode) (add_u64 first_len 8)
      then err (decode_err "Bytes is too short")
      else do
        (combined, two) ← split_at (add_u64 first_len 8) encode
        (_, one) ← split_at 8 combined
        ok (one, two)

unfoldable pub decode_block : Bytes → Outcome ConsensusError (ℕ × Bytes × Hash)
decode_block encode = do
  (h, combined) ← split_at 8 encode
  (block_hash, block) ← extract combined
  ok (of_be_bytes h, block, block_hash)
