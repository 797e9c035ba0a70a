-- ===== src/Tests/StatusLog.antt =====
-- A node with a log: the file of height 5 holds a status of height 4 and a message of another type. A
-- status is read from its first byte, which is its height.
use consensus_bft.Prelude.{
  ℕ, ◌≡◌, refl, subst, true, Option, none, some, some_eq, List, [], ◌∷◌, ok, arith, All, nat_eq,
}
use consensus_bft.Prelude.Exec.{◌>>=◌}
use consensus_bft.Prelude.Words.{Bytes, bytes_eq, add_u64, le_bytes, of_le_bytes}
use consensus_bft.BftCore as bft
use consensus_bft.Types
use consensus_bft.Types.{Status}
use consensus_bft.Types.Convert.{to_bft_status}
use consensus_bft.Types.Codec.{encode_signed_vote}
use consensus_bft.Wal.Disk.{read_file, seek}
use consensus_bft.Wal.Log
use consensus_bft.Wal.Log.{Wal, load_files, read_frames}
use consensus_bft.Wal.Log.Frames.{frames}
use consensus_bft.Wal.Log.Append.{NeverFails}
use consensus_bft.Consensus.Outside.{Outside}
use consensus_bft.Consensus.State.{Consensus}
use consensus_bft.Consensus.Handlers.{handle_rich_status}
use consensus_bft.Consensus.Process.{Event, from_core, from_outside}
use consensus_bft.Consensus.Replay.{start, new_consensus}
use consensus_bft.Consensus.Steps.{CommitsGive, Gives, LogGives, Brings}
use consensus_bft.Consensus.Effects.RichStatus.{installed, handle_rich_status_works}
use consensus_bft.Consensus.Invariants.Height.{HeightFits}
use consensus_bft.Consensus.Invariants.Authority.{AuthorityFits, start-AuthorityFits}
use consensus_bft.Tests.NodeCase.{outside, empty_disk, log, status_at, signed}

abbrev read_status : Bytes → Option Status
read_status [] = none
read_status (h ∷ rest) = some (status_at h)

abbrev logging : Outside Bytes
logging = record outside {
  wal_on = true;
  json_status = record { to_string = λ rs. some (rs.height ∷ []); from_slice = read_status };
}

abbrev messages : List (ℕ × Bytes)
messages = (3, 4 ∷ []) ∷ (7, 9 ∷ []) ∷ []

abbrev status_log : Wal
status_log = record log {
  height_fs = (5, 53 ∷ []) ∷ [];
  current_height = 5;
  disk = record empty_disk { files = (53 ∷ [], frames messages) ∷ [] };
}

works : NeverFails status_log.disk.device
works = record { fails = λ n. refl; leaves_out = λ n. refl }

abbrev at_start : Consensus logging
at_start = new_consensus logging (1 ∷ []) status_log

abbrev events : List (Event logging)
events =
    from_outside (Types.ConsensusInput.status (status_at 5))
    ∷ from_outside (Types.ConsensusInput.signed_vote (encode_signed_vote logging.rlp (signed 2)))
    ∷ from_core (bft.CoreOutput.get_proposal_request 6)
    ∷ []

events_fit : All (Brings logging HeightFits) events
events_fit = (omega arith, (tt, (tt, tt)))

commits_give : CommitsGive logging HeightFits
commits_give n c rs e = subst HeightFits (some_eq e) (omega arith)

loaded : (Log.load status_log).0 ≡ ok messages
unfolding Log.load load_files read_frames seek read_file ◌>>=◌ le_bytes of_le_bytes
loaded = refl

-- The first message holds the status of height 4; the second is of another type.
messages_give : All (Gives logging HeightFits) messages
messages_give = (
  λ rs t e. subst HeightFits (some_eq e) (omega arith),
  (λ rs t e. absurd (omega (arith, t)), tt),
)

log_gives : LogGives logging HeightFits status_log
log_gives msgs e =
    let same : messages ≡ msgs = ground (arith, loaded, e) in
    subst (All (Gives logging HeightFits)) same messages_give

start-AuthorityFits_example :
    let t = (start logging events at_start).1 in AuthorityFits t.height t.authority
start-AuthorityFits_example =
    start-AuthorityFits logging (1 ∷ []) events status_log events_fit commits_give log_gives

handle_rich_status_works_example :
    let s : Consensus logging = record at_start { height = 5 } in
    let (r, t) = handle_rich_status logging (status_at 5) true s in
    (r ≡ ok (to_bft_status (status_at 5)))
    × (t ≡ record (installed logging s (status_at 5)) { wal_log = t.wal_log })
    × (t.wal_log.current_height ≡ 6)
unfolding new_consensus add_u64
handle_rich_status_works_example =
    handle_rich_status_works logging (status_at 5) true (record at_start { height = 5 }) (5 ∷ [])
      works refl
