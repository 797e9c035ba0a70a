-- ===== src/Tests/NodeCase.antt =====
-- A node with four authorities: a hash that is the message, a signature that is the address before
-- the message, and a log in memory.
use consensus_bft.Prelude.{
  ℕ, true, false, Option, none, some, List, [], ◌∷◌, ◌==◌, nat_eq, if◌then◌else◌,
}
use consensus_bft.Prelude.Map.{Map}
use consensus_bft.Prelude.Words.{Bytes, bytes_eq}
use consensus_bft.Types.{
  Address, Node, Status, Vote, SignedVote, Proof, Proposal, SignedProposal, prevote, precommit,
}
use consensus_bft.Util.CheckProof.{precommit_of}
use consensus_bft.Wal.Disk.{Disk}
use consensus_bft.Wal.Log.{Wal}
use consensus_bft.Consensus.Outside.{ConsensusSupport, Json, Outside}
use consensus_bft.Consensus.State.{Consensus}
use consensus_bft.BftCore as bft
use consensus_bft.Collection.{add_vote, new_vote_collector, new_proposal_collector}
use consensus_bft.Consensus.Checks.{vote_hash}
use consensus_bft.Consensus.Handlers.{proposal_hash}
use consensus_bft.Tests.RlpCase.{rlp}
use consensus_bft.Tests.LruCase.{lru}

-- The address of a signature is its first byte, if the rest is the message.
abbrev pub recover : Bytes → Bytes → Option Address
recover [] hash = none
recover (a ∷ rest) hash = if rest == hash then some (a ∷ []) else none

abbrev pub node : ℕ → Node
node n = record { address = n ∷ []; proposal_weight = 1; vote_weight = 1 }

abbrev pub nodes : List Node
nodes = node 1 ∷ node 2 ∷ node 3 ∷ node 4 ∷ []

abbrev pub status_at : ℕ → Status
status_at h = record { height = h; interval = none; authority_list = nodes }

abbrev pub support : ConsensusSupport Bytes
support = record {
  get_content = λ n h. some (h ∷ []);
  transmit = λ n msg. true;
  check_proposal = λ n h f sh is_lock is_by_self. true;
  commit = λ n c. some (status_at 0);
  sign = λ n hash. some (1 ∷ hash);
  verify_signature = recover;
  hash = λ b. b;
}

abbrev no_json : {A : Type 0} → Json A
no_json = record { to_string = λ a. some []; from_slice = λ b. none }

abbrev pub outside : Outside Bytes
outside = record {
  wal_on = false;
  rlp = rlp;
  lru = lru;
  support = support;
  content = record { encode = λ b. some b; decode = λ b. some b; hash = λ b. b };
  core_takes = λ n msg. true;
  json_signed_proposal = no_json;
  json_signed_vote = no_json;
  json_status = no_json;
  json_feed = no_json;
  json_verify_resp = no_json;
  json_bft_proposal = no_json;
  json_bft_vote = no_json;
  json_bft_commit = no_json;
}

abbrev pub empty_disk : Disk
empty_disk = record {
  device = record { fails = λ n. false; leaves_out = λ n. 0 };
  tick = 0;
  has_dir = true;
  files = [];
}

abbrev pub log : Wal
log = record { height_fs = []; dir = []; current_height = 0; ifile = []; disk = empty_disk }

-- The state of node 1 at height 5, with the four authorities for two heights.
abbrev pub state : Consensus outside
state = record {
  height = 5;
  block = none;
  verified_block = [];
  address = 1 ∷ [];
  authority = record {
    authorities = nodes;
    address_set = (1 ∷ []) ∷ (2 ∷ []) ∷ (3 ∷ []) ∷ (4 ∷ []) ∷ [];
    authorities_old = nodes;
    address_set_old = (1 ∷ []) ∷ (2 ∷ []) ∷ (3 ∷ []) ∷ (4 ∷ []) ∷ [];
    authority_h_old = 4;
  };
  votes = new_vote_collector lru;
  proposals = new_proposal_collector lru;
  proof = none;
  wal_log = log;
  block_origin_cache = (7 ∷ [], 7 ∷ []) ∷ [];
  proposal_cache = [];
  vote_cache = [];
  consensus_power = true;
  calls = 0;
  sent = [];
  transmitted = [];
  committed = [];
  async_queue = [];
}

-- The vote of a node for block 7 at height 5, with its signature.
abbrev pub vote_of : ℕ → Vote
vote_of n = record { vote_type = prevote; height = 5; round = 0; proposal = 7 ∷ []; voter = n ∷ [] }

abbrev pub signed : ℕ → SignedVote
signed n = record { vote = vote_of n; signature = n ∷ vote_hash outside (vote_of n) }

-- A proof of block 6 at height 4 by three authorities.
abbrev no_votes : Proof
no_votes = record { block_hash = 6 ∷ []; height = 4; round = 0; precommit_votes = [] }

abbrev entry : ℕ → Bytes × Bytes
entry n = (n ∷ [], n ∷ vote_hash outside (precommit_of no_votes (n ∷ [])))

-- Its entries in another order.
abbrev pub other_order : Map Bytes Bytes
other_order = entry 2 ∷ entry 3 ∷ entry 1 ∷ []

abbrev pub proof : Proof
proof = record no_votes { precommit_votes = entry 1 ∷ entry 2 ∷ entry 3 ∷ [] }

-- The proposal of node 2 for block 7 at height 5, locked by three votes.
abbrev pub proposal : Proposal
proposal = record {
  height = 5;
  round = 0;
  hash = 7 ∷ [];
  proof = proof;
  lock_round = some 0;
  lock_votes = signed 1 ∷ signed 2 ∷ signed 3 ∷ [];
  proposer = 2 ∷ [];
}

abbrev pub signed_proposal : SignedProposal
signed_proposal = record { proposal = proposal; signature = 2 ∷ proposal_hash outside proposal }

-- The precommits of the nodes for block 7 at height 5, two of them stored.
abbrev pub precommit_at : ℕ → Vote
precommit_at n = record {
  vote_type = precommit;
  height = 5;
  round = 0;
  proposal = 7 ∷ [];
  voter = n ∷ [];
}

abbrev pub bft_precommit : ℕ → bft.Vote
bft_precommit n = record {
  vote_type = bft.VoteType.precommit;
  height = 5;
  round = 0;
  proposal = 7 ∷ [];
  voter = n ∷ [];
}

abbrev pub signed_precommit : ℕ → SignedVote
signed_precommit n = record {
  vote = precommit_at n;
  signature = n ∷ vote_hash outside (precommit_at n);
}

abbrev pub two_votes : Consensus outside
two_votes = record state {
  votes =
      (add_vote lru
        (add_vote lru state.votes 5 0 precommit (bft_precommit 1) (signed_precommit 1)).0 5 0
        precommit (bft_precommit 2) (signed_precommit 2)).0;
}

abbrev pub bft_commit : bft.Commit
bft_commit = record {
  height = 5;
  round = 0;
  proposal = 7 ∷ [];
  lock_votes = bft_precommit 1 ∷ bft_precommit 2 ∷ [];
  address = 2 ∷ [];
}
