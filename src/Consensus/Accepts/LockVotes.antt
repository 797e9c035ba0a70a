-- ===== src/Consensus/Accepts/LockVotes.antt =====
-- src/consensus.rs: `check_signed_vote` and `check_lock_votes`, when they succeed.
use consensus_bft.Prelude.{
  ℕ, ◌+◌, ◌<◌, ◌≡◌, ap, sym, ◌∙◌, subst, inl, inr, Bool, true, false, some, List, [], ◌∷◌, arith,
  All,
}
use consensus_bft.Prelude.Exec.{◌>>=◌}
use consensus_bft.Types.{Address}
use consensus_bft.Types.Authority.{AuthorityManage, set_insert, is_above_threshold, contains_sender}
use consensus_bft.Consensus.Outside.{Outside}
use consensus_bft.Consensus.State.{Consensus}
use consensus_bft.Consensus.Steps.{Verifies}
use consensus_bft.Prelude.{
  not, AllDistinct, ◌&&◌, length, any, ◌*◌, contains, ok, Option-cases, nat_eq,
}
use consensus_bft.Prelude.Words.{bytes_eq}
use consensus_bft.Prelude.Exec.Runs.{
  raise_if_inv, chosen_inv, bind_inv, guard_inv, read_inv, pure_inv,
}
use consensus_bft.Types.{Hash, SignedVote, SignedProposal, vote_type_eq}
use consensus_bft.BftCore.{vote_eq}
use consensus_bft.Consensus.Checks.{
  vote_hash, address_set_at, check_lock_votes, check_votes, check_signed_vote, add_prevote,
}

enough_old :
    (m : AuthorityManage) (set : List Address) (is_old : Bool)
    → not (is_above_threshold m (length set) is_old && contains_sender m set is_old) ≡ false
    → (length m.authorities_old * 2 < length set * 3)
      × (any (contains m.address_set_old) set ≡ true)
unfolding is_above_threshold contains_sender
enough_old m set is_old p = ground arith

module _ {F : Type 0} (x : Outside F) where
  -- What a vote of a lock has passed.
  pub record IsLockVote (height : ℕ) (hash : Hash) (m : AuthorityManage) (sv : SignedVote)
      : Type 0 where
    pub signed : Verifies x sv
    pub proposal : sv.vote.proposal ≡ hash
    pub voter : contains (address_set_at m height) sv.vote.voter ≡ true

  check_signed_vote_ok :
      (h r : ℕ) (hash : Hash) (sv : SignedVote) (s t : Consensus x) (a : Address)
      → check_signed_vote x h r hash sv s ≡ (ok a, t)
      → IsLockVote h hash s.authority sv × (a ≡ sv.vote.voter) × (t.authority ≡ s.authority)
  unfolding check_signed_vote add_prevote ◌>>=◌
  check_signed_vote_ok h r hash sv s t a p = (
    record {
      signed = elim (Option-cases (x.support.verify_signature sv.signature (vote_hash x sv.vote))) [
        | inl e ↦ ground (arith, e)
        | inr (b, e) ↦ ground (arith, e, bytes_eq.beq_iff b sv.vote.voter)
      ];
      proposal = ground (arith, bytes_eq.beq_iff sv.vote.proposal hash);
      voter = ground arith;
    },
    ground arith,
    ground arith,
  )

  -- The voters, the last one first, before those of a set.
  abbrev pub voters : List SignedVote → List Address → List Address
  voters [] set = set
  voters (sv ∷ svs) set = voters svs (sv.vote.voter ∷ set)

  length-voters :
      (svs : List SignedVote) (set : List Address)
      → length (voters svs set) ≡ length svs + length set
  length-voters [] set = omega arith
  length-voters (sv ∷ svs) set = omega (arith, length-voters svs (sv.vote.voter ∷ set))

  length_all : (svs : List SignedVote) → length (voters svs []) ≡ length svs
  length_all svs = omega (arith, length-voters svs [])

  check_votes_ok :
      (h r : ℕ) (hash : Hash) (svs : List SignedVote) (set : List Address) (s t : Consensus x)
      (set' : List Address)
      → check_votes x h r hash svs set s ≡ (ok set', t)
      → AllDistinct set
      → All (IsLockVote h hash s.authority) svs
        × (set' ≡ voters svs set)
        × AllDistinct set'
        × (t.authority ≡ s.authority)
  unfolding check_votes set_insert
  check_votes_ok h r hash [] set s t set' p distinct =
      let (e, same) = pure_inv _ set' s t p in
      (tt, e, subst AllDistinct (sym e) distinct, ap (λ z. z.authority) (sym same))
  check_votes_ok h r hash (sv ∷ svs) set s t set' p distinct =
      let (a, m, checked, p) = bind_inv (check_signed_vote x h r hash sv) _ s t set' p in
      let (is_vote, same, kept) = check_signed_vote_ok h r hash sv s m a checked in
      let (new, p) = guard_inv _ _ _ m t set' p in
      let fresh : contains set sv.vote.voter ≡ false =
        subst (λ z. contains set z ≡ false) same (ground arith) in
      let inserted : (set_insert set a).0 ≡ sv.vote.voter ∷ set = ground (arith, same) in
      let (votes, senders, all_distinct, kept') =
        check_votes_ok h r hash svs (sv.vote.voter ∷ set) m t set'
          (subst (λ z. check_votes x h r hash svs z m ≡ (ok set', t)) inserted p)
          (fresh, distinct) in
      (
        (is_vote, subst (λ z. All (IsLockVote h hash z) svs) kept votes),
        senders,
        all_distinct,
        kept' ∙ kept,
      )

  -- What the votes of a lock have passed.
  pub record IsLock (height : ℕ) (hash : Hash) (m : AuthorityManage) (svs : List SignedVote)
      : Type 0 where
    pub votes : All (IsLockVote height hash m) svs
    pub distinct : AllDistinct (voters svs [])
    pub enough : length m.authorities_old * 2 < length svs * 3
    pub some_old : any (contains m.address_set_old) (voters svs []) ≡ true

  -- The lock votes of a locked proposal that `check_lock_votes` passes are each signed by their voter,
  -- for the proposal's hash, and the voters are distinct members of the address set of the proposal's
  -- height. They are more than two thirds of the old authority list in number, and one of them is in
  -- the old address set.
  pub check_lock_votes_ok :
      (sp : SignedProposal) (hash : Hash) (r : ℕ) (s t : Consensus x) (u : Unit {0})
      → sp.proposal.lock_round ≡ some r
      → check_lock_votes x sp hash s ≡ (ok u, t)
      → IsLock sp.proposal.height hash s.authority sp.proposal.lock_votes
  unfolding check_lock_votes
  check_lock_votes_ok sp hash r s t u locked p =
      let p = chosen_inv sp.proposal.lock_round r _ _ s _ locked p in
      let svs = sp.proposal.lock_votes in
      let (set, m, checked, p) =
        bind_inv (check_votes x sp.proposal.height r hash svs []) _ s t u p in
      let (votes, senders, distinct, kept) =
        check_votes_ok sp.proposal.height r hash svs [] s m set checked tt in
      let p = read_inv _ _ m _ p in
      let (above, _) = raise_if_inv _ _ m t u p in
      let (many, has) = enough_old m.authority set _ above in
      let all_many = subst (λ z. length z.authorities_old * 2 < length set * 3) kept many in
      record {
        votes = votes;
        distinct = subst AllDistinct senders distinct;
        enough =
            subst (λ n. length s.authority.authorities_old * 2 < n * 3)
              (ap length senders ∙ length_all svs) all_many;
        some_old =
            subst (λ z. any (contains s.authority.address_set_old) z ≡ true) senders
              (subst (λ z. any (contains z.address_set_old) set ≡ true) kept has);
      }
