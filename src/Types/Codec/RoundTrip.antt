-- ===== src/Types/Codec/RoundTrip.antt =====
-- src/types.rs: what is decoded is what was encoded, for every message whose numbers fit in `u64`.
use consensus_bft.Prelude.{
  ℕ, ◌<◌, ◌≡◌, refl, ap, some, List, [], ◌∷◌, arith, map, length, All, ok, Outcome, get_elem?,
  nat_eq,
}
use consensus_bft.Prelude.Map.{HasDistinctKeys}
use consensus_bft.Prelude.Words.{Bytes, bytes_eq, u64_mod}
use consensus_bft.Rlp.{RlpCrate, FitsU64}
use consensus_bft.Types.{
  VoteType, Vote, SignedVote, Proof, Proposal, SignedProposal, prevote, precommit,
}
use consensus_bft.Types.Convert.{vote_type_of_u8, vote_type_to_u8}
use consensus_bft.Types.Codec.{
  sort, expect_list, val_at, list_at, decode_all, encode_vote, decode_vote, encode_signed_vote,
  decode_signed_vote, encode_proof, decode_proof, encode_proposal, decode_proposal,
  encode_signed_proposal, decode_signed_proposal,
}
use consensus_bft.Types.Codec.Columns.{collect_columns, length-columns}
use consensus_bft.Types.Codec.Canonical.{
  Votes, SameVotes, get-sort, sort-SameVotes, sort-HasDistinctKeys,
}

-- The numbers of a vote fit in `u64`.
abbrev pub VoteFits : Vote → Type 0
VoteFits v = (v.height < u64_mod) × (v.round < u64_mod)

-- The numbers fit in `u64`, and the map has no key twice.
abbrev pub ProofFits : Proof → Type 0
ProofFits p = (p.height < u64_mod) × (p.round < u64_mod) × HasDistinctKeys p.precommit_votes

abbrev pub ProposalFits : Proposal → Type 0
ProposalFits p =
    (p.height < u64_mod)
    × (p.round < u64_mod)
    × ProofFits p.proof
    × FitsU64 p.lock_round
    × All (λ sv. VoteFits sv.vote) p.lock_votes

-- The decoded proof lists its votes in the order of the wire.
unfoldable pub canonical : Proof → Proof
canonical p = record p { precommit_votes = sort p.precommit_votes }

module _ (rlp : RlpCrate) where
  open rlp use {
    Item, DecoderError, uint, string, option_u64, list, prototype-list, at-list, as_u8-uint,
    as_u64-uint, as_string-string, as_option_u64-option_u64, as_items-list,
  }

  -- `expect_list` lets a list of the right length through.
  expect_list-list :
      {A : Type 0} (n : ℕ) (is : List Item) (body : Outcome DecoderError A)
      → length is ≡ n
      → expect_list rlp n (list is) body ≡ body
  expect_list-list n is body h = rw prototype-list (ground arith)

  val_at-list :
      {A : Type 0} (f : Item → Outcome DecoderError A) (is : List Item) (k : ℕ) (i : Item)
      → get_elem? is k ≡ some i
      → val_at rlp f (list is) k ≡ f i
  val_at-list f is k i h = rw (at-list is k i h)

  vote_type-round_trip :
      (t : VoteType) → vote_type_of_u8 {E = DecoderError} (vote_type_to_u8 t) ≡ ok t
  unfolding vote_type_of_u8 vote_type_to_u8
  vote_type-round_trip prevote = refl
  vote_type-round_trip precommit = refl

  vote_type_to_u8-lt : (t : VoteType) → vote_type_to_u8 t < 256
  unfolding vote_type_to_u8
  vote_type_to_u8-lt prevote = omega arith
  vote_type_to_u8-lt precommit = omega arith

  decode_vote-encode_vote : (v : Vote) → VoteFits v → decode_vote rlp (encode_vote rlp v) ≡ ok v
  unfolding decode_vote encode_vote
  decode_vote-encode_vote v h =
      let t = vote_type_to_u8 v.vote_type in
      let is : List Item =
        uint t ∷ uint v.height ∷ uint v.round ∷ string v.proposal ∷ string v.voter ∷ [] in
      rw (
        prototype-list is,
        at-list is 0 (uint t) refl,
        as_u8-uint t (vote_type_to_u8-lt v.vote_type),
        vote_type-round_trip v.vote_type,
        at-list is 1 (uint v.height) refl,
        as_u64-uint v.height h.0,
        at-list is 2 (uint v.round) refl,
        as_u64-uint v.round h.1,
        at-list is 3 (string v.proposal) refl,
        as_string-string v.proposal,
        at-list is 4 (string v.voter) refl,
        as_string-string v.voter,
      )

  decode_signed_vote-encode_signed_vote :
      (sv : SignedVote)
      → VoteFits sv.vote
      → decode_signed_vote rlp (encode_signed_vote rlp sv) ≡ ok sv
  unfolding decode_signed_vote encode_signed_vote
  decode_signed_vote-encode_signed_vote sv h =
      let is : List Item = encode_vote rlp sv.vote ∷ string sv.signature ∷ [] in
      rw (
        prototype-list is,
        at-list is 0 (encode_vote rlp sv.vote) refl,
        decode_vote-encode_vote sv.vote h,
        at-list is 1 (string sv.signature) refl,
        as_string-string sv.signature,
      )

  decode_all-map :
      {A B : Type 0} (f : Item → Outcome DecoderError A) (g : B → Item) (k : B → A) (bs : List B)
      → All (λ b. f (g b) ≡ ok (k b)) bs
      → decode_all rlp f (map g bs) ≡ ok (map k bs)
  decode_all-map f g k [] h = refl
  decode_all-map f g k (b ∷ bs) h = rw (h.0, decode_all-map f g k bs h.1)

  list_at-map :
      {A B : Type 0} (f : Item → Outcome DecoderError A) (g : B → Item) (k : B → A) (bs : List B)
      (is : List Item) (n : ℕ)
      → get_elem? is n ≡ some (list (map g bs))
      → All (λ b. f (g b) ≡ ok (k b)) bs
      → list_at rlp f (list is) n ≡ ok (map k bs)
  list_at-map f g k bs is n at_n h =
      rw (at-list is n (list (map g bs)) at_n, as_items-list (map g bs)) (decode_all-map f g k bs h)

  strings-All :
      {B : Type 0} (k : B → Bytes) (bs : List B)
      → All (λ b. rlp.as_string (string (k b)) ≡ ok (k b)) bs
  strings-All k [] = tt
  strings-All k (b ∷ bs) = (as_string-string (k b), strings-All k bs)

  pub decode_proof-encode_proof :
      (p : Proof) → ProofFits p → decode_proof rlp (encode_proof rlp p) ≡ ok (canonical p)
  unfolding decode_proof encode_proof canonical
  decode_proof-encode_proof p h =
      let votes = sort p.precommit_votes in
      let keys = list (map (λ e. string e.0) votes) in
      let values = list (map (λ e. string e.1) votes) in
      let is : List Item =
        uint p.height ∷ uint p.round ∷ string p.block_hash ∷ keys ∷ values ∷ [] in
      rw (
        prototype-list is,
        at-list is 0 (uint p.height) refl,
        as_u64-uint p.height h.0,
        at-list is 1 (uint p.round) refl,
        as_u64-uint p.round h.1,
        at-list is 2 (string p.block_hash) refl,
        as_string-string p.block_hash,
        list_at-map rlp.as_string (λ e. string e.0) (λ e. e.0) votes is 3 refl
            (strings-All (λ e. e.0) votes),
        list_at-map rlp.as_string (λ e. string e.1) (λ e. e.1) votes is 4 refl
            (strings-All (λ e. e.1) votes),
        length-columns votes,
        collect_columns votes (sort-HasDistinctKeys p.precommit_votes h.2),
      )

  lock_votes-All :
      (svs : List SignedVote)
      → All (λ sv. VoteFits sv.vote) svs
      → All (λ sv. decode_signed_vote rlp (encode_signed_vote rlp sv) ≡ ok sv) svs
  lock_votes-All [] h = tt
  lock_votes-All (sv ∷ svs) h =
      (decode_signed_vote-encode_signed_vote sv h.0, lock_votes-All svs h.1)

  map-id : (svs : List SignedVote) → map (λ sv. sv) svs ≡ svs
  map-id [] = refl
  map-id (sv ∷ svs) = ap (◌∷◌ sv) (map-id svs)

  decode_proposal-encode_proposal :
      (p : Proposal)
      → ProposalFits p
      → decode_proposal rlp (encode_proposal rlp p) ≡ ok (record p { proof = canonical p.proof })
  unfolding decode_proposal encode_proposal
  decode_proposal-encode_proposal p h =
      let votes : Item = list (map (encode_signed_vote rlp) p.lock_votes) in
      let is : List Item =
        uint p.height
        ∷ uint p.round
        ∷ string p.hash
        ∷ encode_proof rlp p.proof
        ∷ option_u64 p.lock_round
        ∷ votes
        ∷ string p.proposer
        ∷ [] in
      rw (
        prototype-list is,
        at-list is 0 (uint p.height) refl,
        as_u64-uint p.height h.0,
        at-list is 1 (uint p.round) refl,
        as_u64-uint p.round h.1,
        at-list is 2 (string p.hash) refl,
        as_string-string p.hash,
        at-list is 3 (encode_proof rlp p.proof) refl,
        decode_proof-encode_proof p.proof h.2,
        at-list is 4 (option_u64 p.lock_round) refl,
        as_option_u64-option_u64 p.lock_round h.3,
        list_at-map (decode_signed_vote rlp) (encode_signed_vote rlp) (λ sv. sv) p.lock_votes is 5
            refl (lock_votes-All p.lock_votes h.4),
        map-id p.lock_votes,
        at-list is 6 (string p.proposer) refl,
        as_string-string p.proposer,
      )

  decode_signed_proposal-encode :
      (sp : SignedProposal)
      → ProposalFits sp.proposal
      → decode_signed_proposal rlp (encode_signed_proposal rlp sp)
        ≡ ok (record sp { proposal = record sp.proposal { proof = canonical sp.proposal.proof } })
  unfolding decode_signed_proposal encode_signed_proposal
  decode_signed_proposal-encode sp h =
      let is : List Item = encode_proposal rlp sp.proposal ∷ string sp.signature ∷ [] in
      rw (
        prototype-list is,
        at-list is 0 (encode_proposal rlp sp.proposal) refl,
        decode_proposal-encode_proposal sp.proposal h,
        at-list is 1 (string sp.signature) refl,
        as_string-string sp.signature,
      )

  -- A signed vote whose numbers fit in `u64` is decoded from its bytes as it was.
  pub signed_vote_round_trip :
      (sv : SignedVote)
      → VoteFits sv.vote
      → decode_signed_vote rlp (rlp.of_bytes (rlp.to_bytes (encode_signed_vote rlp sv))) ≡ ok sv
  signed_vote_round_trip sv h =
      rw (rlp.of_bytes-to_bytes (encode_signed_vote rlp sv))
        (decode_signed_vote-encode_signed_vote sv h)

  -- A signed proposal whose numbers fit in `u64`, and whose proof has no address twice, is decoded
  -- from its bytes with every field as it was, but for the order in which the proof's map lists its
  -- entries: that is the order of the wire, and every address has the signature that it had.
  pub signed_proposal_round_trip :
      (sp : SignedProposal)
      → ProposalFits sp.proposal
      → (decode_signed_proposal rlp (rlp.of_bytes (rlp.to_bytes (encode_signed_proposal rlp sp)))
          ≡ ok
              (record sp { proposal = record sp.proposal { proof = canonical sp.proposal.proof } }))
        × SameVotes (canonical sp.proposal.proof).precommit_votes sp.proposal.proof.precommit_votes
  unfolding canonical
  signed_proposal_round_trip sp h = (
    rw (rlp.of_bytes-to_bytes (encode_signed_proposal rlp sp)) (decode_signed_proposal-encode sp h),
    λ j. get-sort j sp.proposal.proof.precommit_votes h.2.2,
  )

  -- The encoding of a proof depends on the entries of its map, which has no key twice, and not on the
  -- order in which the map lists them.
  pub encode_proof-SameVotes :
      (p : Proof) (votes : Votes)
      → HasDistinctKeys p.precommit_votes
      → HasDistinctKeys votes
      → SameVotes p.precommit_votes votes
      → encode_proof rlp (record p { precommit_votes = votes }) ≡ encode_proof rlp p
  unfolding encode_proof
  encode_proof-SameVotes p votes dp dv h =
      rw (sort-SameVotes p.precommit_votes votes dp dv h, encode_proof)
