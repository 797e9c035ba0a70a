-- ===== src/Consensus/Steps/Frame.antt =====
-- src/consensus.rs: most steps leave the height, the authorities, the votes and the power as they
-- are. An invariant over these needs the other steps only.
use Prim.Native.String.{String}
use consensus_bft.Prelude.{ℕ, ◌≡◌, refl, Bool, true, false, List, [], ◌∷◌, arith}
use consensus_bft.Prelude.Exec.{Exec, modify}
use consensus_bft.Prelude.Exec.Keeps.{Keeps, Keeps-modify, keeps_rules}
use consensus_bft.Prelude.Words.{Bytes, bytes_eq}
use consensus_bft.BftCore as bft
use consensus_bft.Error.{ConsensusError}
use consensus_bft.Types
use consensus_bft.Types.{Hash, Address, Proof, Status, Commit, AsyncMsg, ConsensusOutput}
use consensus_bft.Wal.Disk.{IoError}
use consensus_bft.Wal.Log.{Wal}
use consensus_bft.Consensus.Outside.{Outside}
use consensus_bft.Consensus.State
use consensus_bft.Consensus.State.{Consensus, Method, save_json, log_json}
use consensus_bft.Consensus.Checks
use consensus_bft.Consensus.Checks.{vote_hash}
use consensus_bft.Consensus.Handlers
use consensus_bft.Consensus.Handlers.Core
use consensus_bft.Consensus.Process
use consensus_bft.Consensus.Process.{Event, from_core, from_outside, from_queue}
use consensus_bft.Consensus.Replay
use consensus_bft.Consensus.Steps.{is_power, Verifies, Signs, own_vote, Steps}
use consensus_bft.Prelude.{Bool-cases, inl, inr, ◌++◌, ◌∙◌}

-- Whether the core runs after these messages, if it ran or not before them.
unfoldable pub running : Bool → List bft.CoreInput → Bool
running b [] = b
running b (bft.CoreInput.start ∷ msgs) = running true msgs
running b (bft.CoreInput.pause ∷ msgs) = running false msgs
running b (_ ∷ msgs) = running b msgs

pub running-append :
    (b : Bool) (l m : List bft.CoreInput) → running b (l ++ m) ≡ running (running b l) m
unfolding running
running-append b [] m = refl
running-append b (bft.CoreInput.start ∷ l) m = running-append true l m
running-append b (bft.CoreInput.pause ∷ l) m = running-append false l m
running-append b (bft.CoreInput.proposal a ∷ l) m = running-append b l m
running-append b (bft.CoreInput.vote a ∷ l) m = running-append b l m
running-append b (bft.CoreInput.feed a ∷ l) m = running-append b l m
running-append b (bft.CoreInput.verify_resp a ∷ l) m = running-append b l m
running-append b (bft.CoreInput.status a ∷ l) m = running-append b l m

running_same : (b : Bool) (msg : bft.CoreInput) → is_power msg ≡ false → running b (msg ∷ []) ≡ b
unfolding running
running_same b (bft.CoreInput.proposal a) p = refl
running_same b (bft.CoreInput.vote a) p = refl
running_same b (bft.CoreInput.feed a) p = refl
running_same b (bft.CoreInput.verify_resp a) p = refl
running_same b (bft.CoreInput.status a) p = refl
running_same b bft.CoreInput.start p = cc
running_same b bft.CoreInput.pause p = cc

module _ {F : Type 0} (x : Outside F) where
  -- The two states have the same height, authorities, votes and power, and the core runs in both or
  -- in neither.
  pub record Agree (s t : Consensus x) : Type 0 where
    pub height : t.height ≡ s.height
    pub authority : t.authority ≡ s.authority
    pub votes : t.votes ≡ s.votes
    pub power : t.consensus_power ≡ s.consensus_power
    pub runs : running false t.sent ≡ running false s.sent

  abbrev pub Respects : (Consensus x → Type 0) → Type 0
  Respects P = (s t : Consensus x) → Agree s t → P s → P t

  pub Agree-refl : (s : Consensus x) → Agree s s
  Agree-refl s = record { height = refl; authority = refl; votes = refl; power = refl; runs = refl }

  pub Agree-trans : (s t u : Consensus x) → Agree s t → Agree t u → Agree s u
  Agree-trans s t u a b = record {
    height = cc (a.height, b.height);
    authority = cc (a.authority, b.authority);
    votes = cc (a.votes, b.votes);
    power = cc (a.power, b.power);
    runs = cc (a.runs, b.runs);
  }

  Agree-send :
      (msg : bft.CoreInput) (name : String) (s : Consensus x)
      → is_power msg ≡ false
      → Agree s (State.send_bft_msg x msg name s).1
  unfolding State.send_bft_msg
  Agree-send msg name s p = elim (Bool-cases (x.core_takes s.calls msg)) [
    | inl e ↦
        rw (e, State.send_bft_msg)
          (record {
            height = refl;
            authority = refl;
            votes = refl;
            power = refl;
            runs =
                running-append false s.sent (msg ∷ []) ∙ running_same (running false s.sent) msg p;
          })
    | inr e ↦
        rw (e, State.send_bft_msg)
          (record { height = refl; authority = refl; votes = refl; power = refl; runs = refl })
  ]

  Agree-on_wal :
      {A : Type 0} (m : Exec Wal IoError A) (name : String) (s : Consensus x)
      → Agree s (State.on_wal x m name s).1
  unfolding State.on_wal
  Agree-on_wal m name s = ground arith

  Agree-transmit :
      (msg : ConsensusOutput F) (e : ConsensusError) (s : Consensus x)
      → Agree s (State.transmit x msg e s).1
  unfolding State.transmit
  Agree-transmit msg e s = ground arith

  Agree-sign : (h : Bytes) (name : String) (s : Consensus x) → Agree s (State.sign x h name s).1
  unfolding State.sign
  Agree-sign h name s = ground arith

  Agree-commit :
      (c : Commit F) (e : ConsensusError) (s : Consensus x) → Agree s (State.commit x c e s).1
  unfolding State.commit
  Agree-commit c e s = ground arith

  Agree-load : (s : Consensus x) → Agree s (Replay.load_log x s).1
  unfolding Replay.load_log
  Agree-load s = ground arith

  -- A method that ends in a state that agrees with the one it starts from.
  pub Keeps-agree :
      {A : Type 0} {P : Consensus x → Type 0} (m : Method x A)
      → Respects P
      → ((s : Consensus x) → Agree s (m s).1)
      → Keeps P m
  Keeps-agree m resp agree = record { at = λ s h. resp s (m s).1 (agree s) h }

  unchanged :
      {P : Consensus x → Type 0} (f : Consensus x → Consensus x)
      → Respects P
      → ((s : Consensus x) → Agree s (f s))
      → Keeps P (modify {E = ConsensusError} f)
  unchanged f resp agree = Keeps-modify f (λ s h. resp s (f s) (agree s) h)

  -- The steps that an invariant over the agreed parts has to be shown for.
  pub record Inner (Q : Status → Type 0) (P : Consensus x → Type 0) : Type 1 where
    pub respects : Respects P
    pub reads : (h r : ℕ) (t : Types.VoteType) → Keeps P (Core.read_vote_set x h r t)
    pub own :
        (v : bft.Vote) (sig : Bytes)
        → Signs x (own_vote v sig)
        → Keeps P (Core.add_own_vote x v (own_vote v sig))
    pub prevote :
        (h r : ℕ) (sv : Types.SignedVote) → Verifies x sv → Keeps P (Checks.add_prevote x h r sv)
    pub vote : (sv : Types.SignedVote) → Verifies x sv → Keeps P (Handlers.add_to_votes x sv)
    pub power : (b : Bool) → Keeps P (Process.switch_power x b)
    pub rich_status : (rs : Status) (b : Bool) → Q rs → Keeps P (Handlers.handle_rich_status x rs b)

  pub steps_of : {Q : Status → Type 0} {P : Consensus x → Type 0} → Inner Q P → Steps x Q P
  unfolding State.check_proposal Handlers.add_to_proposals Checks.set_proof Process.note_verdict
      Process.note_block Process.note_proposal Handlers.cache_vote Process.drop_proposals
      Process.drop_votes Process.note_call Process.enqueue
  steps_of i = record {
    send = λ msg name p. Keeps-agree _ i.respects (λ s. Agree-send msg name s p);
    transmits = λ msg e. Keeps-agree _ i.respects (Agree-transmit msg e);
    signs = λ h name. Keeps-agree _ i.respects (Agree-sign h name);
    commits = λ c e. Keeps-agree _ i.respects (Agree-commit c e);
    checks = λ h f sh is_lock is_by_self. Keeps-agree _ i.respects (λ s. ground arith);
    logs = λ m name. Keeps-agree _ i.respects (Agree-on_wal m name);
    loads = Keeps-agree _ i.respects Agree-load;
    reads = i.reads;
    own = i.own;
    prevote = i.prevote;
    vote = i.vote;
    proposal = λ h r sp. unchanged _ i.respects (λ s. ground arith);
    proof = λ p. unchanged _ i.respects (λ s. ground arith);
    verdict = λ h b. unchanged _ i.respects (λ s. ground arith);
    block = λ h f. unchanged _ i.respects (λ s. ground arith);
    future_proposal = λ h e. unchanged _ i.respects (λ s. ground arith);
    future_vote = λ h sv. unchanged _ i.respects (λ s. ground arith);
    drop_proposals = λ h. unchanged _ i.respects (λ s. ground arith);
    drop_votes = λ h. unchanged _ i.respects (λ s. ground arith);
    call = unchanged _ i.respects (λ s. ground arith);
    enqueue = λ m. unchanged _ i.respects (λ s. ground arith);
    power = i.power;
    rich_status = i.rich_status;
  }

  -- The power, for an invariant that it plays no part in.
  pub Keeps-switch_power :
      {P : Consensus x → Type 0} (b : Bool)
      → ((c : Bool) → Keeps P (Process.set_power x c))
      → ((msg : bft.CoreInput) (name : String) → Keeps P (State.send_bft_msg x msg name))
      → Keeps P (Process.switch_power x b)
  unfolding Process.switch_power
  Keeps-switch_power b set send = search (keeps_rules, set, send) depth 16
