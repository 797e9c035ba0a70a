-- ===== src/Consensus/Effects/Commit.antt =====
-- src/consensus.rs: `generate_proof` and `handle_commit`, when they succeed.
use Prim.Native.String.{String}
use consensus_bft.Prelude.{
  ℕ, ◌≡◌, ap, sym, ◌∙◌, subst, ◌⊎◌, inl, inr, Bool, true, false, Option, none, some, List, [], ◌∷◌,
  ltb, arith,
}
use consensus_bft.Prelude.Exec.{◌>>=◌}
use consensus_bft.Prelude.Words.{Bytes}
use consensus_bft.BftCore as bft
use consensus_bft.Error.{ConsensusError}
use consensus_bft.Types
use consensus_bft.Types.{Address, Status}
use consensus_bft.Consensus.Outside.{Outside}
use consensus_bft.Consensus.State.{Consensus}
use consensus_bft.Consensus.Steps.Frame.{Agree}
use consensus_bft.Prelude.{contains, ltb, Outcome, ok, Option-cases, nat_eq}
use consensus_bft.Prelude.Map.{or_keep}
use consensus_bft.Prelude.Words.{bytes_eq}
use consensus_bft.Prelude.Exec.{lift}
use consensus_bft.Prelude.Exec.Runs.{
  bind_inv, guard_inv, verified_inv, read_inv, write_inv, pure_inv,
}
use consensus_bft.Types.{Hash, VoteType, SignedVote, SignedProposal, Proof, Vote, vote_type_eq}
use consensus_bft.BftCore.{vote_eq}
use consensus_bft.Collection.Lookup.{stored, none≢some}
use consensus_bft.Consensus.State.{log_json, save_json, on_wal}
use consensus_bft.Consensus.Effects.RichStatus.{Agree-log_json}
use consensus_bft.Prelude.Map
use consensus_bft.Prelude.Map.{Map, get-or_insert}
use consensus_bft.Types.{Signature, precommit}
use consensus_bft.Collection.{VoteSet, get_vote_set}
use consensus_bft.Collection.Recency.{in_set, in_set-get_vote_set}
use consensus_bft.Consensus.State.{log_type_commit}
use consensus_bft.Consensus.Checks.{set_proof}
use consensus_bft.Consensus.Handlers.Core.{
  collect_signatures, read_vote_set, generate_proof, handle_commit,
}

-- A signature of one of the votes, as the set of votes has it.
pub record IsFrom (pairs : bft.Vote → Option SignedVote) (votes : List bft.Vote) (a : Address)
    (sig : Signature) : Type 0 where
  pub vote : bft.Vote
  pub signed : SignedVote
  pub listed : contains votes vote ≡ true
  pub found : pairs vote ≡ some signed
  pub voter : a ≡ vote.voter
  pub signature : sig ≡ signed.signature

weaken :
    (pairs : bft.Vote → Option SignedVote) (v : bft.Vote) (vs : List bft.Vote) (a : Address)
    (sig : Signature)
    → IsFrom pairs vs a sig
    → IsFrom pairs (v ∷ vs) a sig
weaken pairs v vs a sig h = record {
  vote = h.vote;
  signed = h.signed;
  listed = ground (arith, h.listed);
  found = h.found;
  voter = h.voter;
  signature = h.signature;
}

-- A signature after an `or_insert` was there, or is the new one.
get-or_insert_inv :
    (a k : Address) (new sig : Signature) (tmp : Map Address Signature)
    → Map.get a (Map.or_insert k new tmp) ≡ some sig
    → (Map.get a tmp ≡ some sig) ⊎ ((a ≡ k) × (sig ≡ new))
get-or_insert_inv a k new sig tmp p =
    ground (arith, get-or_insert a k new tmp, bytes_eq.beq_iff k a)

collect_signatures_ok :
    (pairs : Map bft.Vote SignedVote) (vs : List bft.Vote) (tmp m : Map Address Signature)
    (a : Address) (sig : Signature)
    → collect_signatures pairs vs tmp ≡ ok m
    → Map.get a m ≡ some sig
    → (Map.get a tmp ≡ some sig) ⊎ IsFrom (λ v. Map.get v pairs) vs a sig
unfolding collect_signatures
collect_signatures_ok pairs [] tmp m a sig p q = inl (ground arith)
collect_signatures_ok pairs (v ∷ vs) tmp m a sig p q = elim (Option-cases (Map.get v pairs)) [
  | inl e ↦ ground (arith, e)
  | inr (sv, e) ↦
      elim (collect_signatures_ok pairs vs (Map.or_insert v.voter sv.signature tmp) m a sig
        (ground (arith, e)) q) [
          | inr h ↦ inr (weaken _ v vs a sig h)
          | inl old ↦ elim (get-or_insert_inv a v.voter sv.signature sig tmp old) [
            | inl h ↦ inl h
            | inr (same, is_new) ↦ inr (record {
              vote = v;
              signed = sv;
              listed = ground (arith, vote_eq.beq_iff v v);
              found = e;
              voter = same;
              signature = is_new;
            })
          ]
        ]
]

module _ {F : Type 0} (x : Outside F) where
  -- A proof of a block, with signatures of the votes as they are stored.
  pub record IsProof (h r : ℕ) (hash : Hash) (vs : List bft.Vote) (s : Consensus x) (p : Proof)
      : Type 0 where
    pub height : p.height ≡ h
    pub round : p.round ≡ r
    pub block_hash : p.block_hash ≡ hash
    pub votes :
        (a : Address) (sig : Signature)
        → Map.get a p.precommit_votes ≡ some sig
        → IsFrom (stored x.lru s.votes h r precommit) vs a sig

  -- What a commit holds, of the state before it.
  pub record IsCommit (c : bft.Commit) (s : Consensus x) (done : Types.Commit F) : Type 0 where
    pub present : ltb c.height s.height ≡ false
    pub height : done.height ≡ c.height
    pub content : Map.get c.proposal s.block_origin_cache ≡ some done.result
    pub proof : IsProof c.height c.round c.proposal c.lock_votes s done.proof

  read_vote_set_ok :
      (h r : ℕ) (t : VoteType) (s m : Consensus x) (o : Option VoteSet)
      → read_vote_set x h r t s ≡ (ok o, m)
      → o ≡ (get_vote_set x.lru s.votes h r t).1
  unfolding read_vote_set
  read_vote_set_ok h r t s m o p = ground arith

  lift_ok :
      {A : Type 0} (r : Outcome ConsensusError A) (s t : Consensus x) (a : A)
      → lift r s ≡ (ok a, t)
      → r ≡ ok a
  unfolding ◌>>=◌
  lift_ok r s t a p = ap (λ z. z.0) p

  stored_pairs :
      (h r : ℕ) (t : VoteType) (s : Consensus x) (set : VoteSet) (v : bft.Vote)
      → (get_vote_set x.lru s.votes h r t).1 ≡ some set
      → stored x.lru s.votes h r t v ≡ Map.get v set.vote_pair
  stored_pairs h r t s set v e =
      sym (in_set-get_vote_set x.lru s.votes h r t v) ∙ ap (λ z. in_set z v) e

  IsFrom-stored :
      (h r : ℕ) (s : Consensus x) (set : VoteSet) (vs : List bft.Vote) (a : Address)
      (sig : Signature)
      → (get_vote_set x.lru s.votes h r precommit).1 ≡ some set
      → (◌≡◌ {A = Option Signature} none (some sig))
        ⊎ IsFrom (λ v. Map.get v set.vote_pair) vs a sig
      → IsFrom (stored x.lru s.votes h r precommit) vs a sig
  IsFrom-stored h r s set vs a sig there (inl p) = absurd (none≢some p)
  IsFrom-stored h r s set vs a sig there (inr f) = record {
    vote = f.vote;
    signed = f.signed;
    listed = f.listed;
    found = stored_pairs h r precommit s set f.vote there ∙ f.found;
    voter = f.voter;
    signature = f.signature;
  }

  generate_proof_ok :
      (h r : ℕ) (hash : Hash) (vs : List bft.Vote) (s t : Consensus x) (p : Proof)
      → generate_proof x h r hash vs s ≡ (ok p, t)
      → IsProof h r hash vs s p
  unfolding generate_proof
  generate_proof_ok h r hash vs s t p e =
      let (o, m, read, e) = bind_inv (read_vote_set x h r precommit) _ s t p e in
      let (set, found, e) = verified_inv o _ _ m t p e in
      let (sigs, n, lifted, e) =
        bind_inv (lift (collect_signatures set.vote_pair vs [])) _ m t p e in
      let (same, _) = pure_inv _ p n t e in
      let collected = lift_ok (collect_signatures set.vote_pair vs []) m n sigs lifted in
      let there = sym (read_vote_set_ok h r precommit s m o read) ∙ found in
      record {
        height = ap (λ z. z.height) same;
        round = ap (λ z. z.round) same;
        block_hash = ap (λ z. z.block_hash) same;
        votes = λ a sig q. IsFrom-stored h r s set vs a sig there (
            collect_signatures_ok set.vote_pair vs [] sigs a sig collected
              (ap (λ z. Map.get a z.precommit_votes) (sym same) ∙ q));
      }

  IsProof-Agree :
      (c : bft.Commit) (s m : Consensus x) (p : Proof)
      → Agree x s m
      → IsProof c.height c.round c.proposal c.lock_votes m p
      → IsProof c.height c.round c.proposal c.lock_votes s p
  IsProof-Agree c s m p a h = record {
    height = h.height;
    round = h.round;
    block_hash = h.block_hash;
    votes = λ b sig q.
        subst (λ z. IsFrom (stored x.lru z c.height c.round precommit) c.lock_votes b sig) a.votes
          (h.votes b sig q);
  }

  block_origin_cache-log_json :
      (b : Bool) (h t : ℕ) (j : Option Bytes) (n : String) (s : Consensus x)
      → (log_json x b h t j n s).1.block_origin_cache ≡ s.block_origin_cache
  unfolding log_json save_json on_wal ◌>>=◌
  block_origin_cache-log_json b h t j n s = ground arith

  -- A commit that `handle_commit` makes is not below the present height, holds the content that the
  -- cache had under the hash of its block, and a proof of this block, height and round, in which every
  -- signature is that of a lock vote of the core, as it was stored for its voter; and this proof is
  -- kept.
  pub handle_commit_ok :
      (c : bft.Commit) (b : Bool) (s t : Consensus x) (done : Types.Commit F)
      → handle_commit x c b s ≡ (ok done, t)
      → IsCommit c s done × (t.proof ≡ some done.proof)
  unfolding handle_commit set_proof
  handle_commit_ok c b s t done e =
      let e = read_inv _ _ s _ e in
      let (present, e) = guard_inv _ _ _ s t done e in
      let log = log_json x b c.height log_type_commit (x.json_bft_commit.to_string c) "BftCommit" in
      let (_, m, logged, e) = bind_inv log _ s t done e in
      let agreed = subst (λ z. Agree x s z.1) logged (Agree-log_json x b _ _ _ _ s) in
      let kept =
        subst (λ z. z.1.block_origin_cache ≡ s.block_origin_cache) logged
          (block_origin_cache-log_json b _ _ _ _ s) in
      let e = read_inv _ _ m _ e in
      let (content, found, e) = verified_inv _ _ _ m t done e in
      let (p, n, made, e) =
        bind_inv (generate_proof x c.height c.round c.proposal c.lock_votes) _ m t done e in
      let e = write_inv _ _ n _ e in
      let (same, at) = pure_inv _ done _ t e in
      (
        record {
          present = present;
          height = ap (λ z. z.height) same;
          content = ap (Map.get c.proposal) (sym kept) ∙ found ∙ ap (λ z. some z.result) (sym same);
          proof =
              subst (IsProof c.height c.round c.proposal c.lock_votes s)
                (ap (λ z. z.proof) (sym same))
                (IsProof-Agree c s m p agreed
                  (generate_proof_ok c.height c.round c.proposal c.lock_votes m n p made));
        },
        ap (λ z. z.proof) (sym at) ∙ ap (λ z. some z.proof) (sym same),
      )
