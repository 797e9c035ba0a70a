-- ===== src/Consensus/Accepts/SignedVote.antt =====
-- src/consensus.rs: `handle_signed_vote`, when it succeeds.
use consensus_bft.Prelude.{ℕ, ◌≡◌, ap, sym, ◌∙◌, subst, Bool, true, false, ltb, arith}
use consensus_bft.Prelude.Exec.{◌>>=◌}
use consensus_bft.BftCore as bft
use consensus_bft.Types.{Address}
use consensus_bft.Consensus.Outside.{Outside}
use consensus_bft.Consensus.State.{Consensus}
use consensus_bft.Consensus.Steps.{Verifies}
use consensus_bft.Consensus.Steps.Frame.{Agree}
use consensus_bft.Prelude.{contains, ltb, ok, nat_eq}
use consensus_bft.Prelude.Words.{bytes_eq, dec_u64}
use consensus_bft.Prelude.Exec.Runs.{
  bind_inv, guard_inv, verified_inv, read_inv, write_inv, pure_inv,
}
use consensus_bft.Types.{SignedVote, vote_type_eq}
use consensus_bft.Types.Convert.{to_bft_vote}
use consensus_bft.BftCore.{vote_eq}
use consensus_bft.Collection.{add_vote}
use consensus_bft.Consensus.State.{log_json, save_json, on_wal}
use consensus_bft.Consensus.Checks.{address_set_at, check_vote_sender}
use consensus_bft.Consensus.Handlers.{handle_signed_vote, keep_future, cache_vote, add_to_votes}

module _ {F : Type 0} (x : Outside F) where
  Agree-keep_future :
      (sv : SignedVote) (b : Bool) (s : Consensus x) → Agree x s (keep_future x sv b s).1
  unfolding keep_future cache_vote log_json save_json on_wal ◌>>=◌
  Agree-keep_future sv b s = ground arith

  keep_future_ok :
      (sv : SignedVote) (b : Bool) (s t : Consensus x) (u : Unit {0})
      → keep_future x sv b s ≡ (ok u, t)
      → ltb s.height sv.vote.height ≡ false
  unfolding keep_future cache_vote log_json save_json on_wal ◌>>=◌
  keep_future_ok sv b s t u p = ground arith

  check_vote_sender_ok :
      (h : ℕ) (a : Address) (s t : Consensus x) (u : Unit {0})
      → check_vote_sender x h a s ≡ (ok u, t)
      → (contains (address_set_at s.authority h) a ≡ true) × (s ≡ t)
  unfolding check_vote_sender ◌>>=◌
  check_vote_sender_ok h a s t u p = ground arith

  -- What a vote that is taken has passed, and what is stored then.
  pub record IsTaken (sv : SignedVote) (s t : Consensus x) (v : bft.Vote) : Type 0 where
    pub result : v ≡ to_bft_vote sv.vote
    pub signed : Verifies x sv
    pub not_obsolete : ltb sv.vote.height (dec_u64 s.height) ≡ false
    pub not_future : ltb s.height sv.vote.height ≡ false
    pub sender : contains (address_set_at s.authority sv.vote.height) sv.vote.voter ≡ true
    pub votes :
        t.votes ≡ (add_vote x.lru s.votes sv.vote.height sv.vote.round sv.vote.vote_type v sv).0
    pub height : t.height ≡ s.height
    pub authority : t.authority ≡ s.authority

  -- A vote that `handle_signed_vote` takes is signed by its voter, who is in the address set of the
  -- vote's height, and that height is the present one or the one before. What goes to the core is this
  -- vote, it is added to the stored votes, and the height and the authorities stay.
  pub handle_signed_vote_ok :
      (sv : SignedVote) (b : Bool) (s t : Consensus x) (v : bft.Vote)
      → handle_signed_vote x sv b s ≡ (ok v, t)
      → IsTaken sv s t v
  unfolding handle_signed_vote add_to_votes
  handle_signed_vote_ok sv b s t v p =
      let (a, e, p) = verified_inv _ _ _ s t v p in
      let p = read_inv _ _ s _ p in
      let (not_obsolete, p) = guard_inv _ _ _ s t v p in
      let (same, p) = guard_inv _ _ _ s t v p in
      let (_, m, kept, p) = bind_inv (keep_future x sv b) _ s t v p in
      let agreed = subst (λ z. Agree x s z.1) kept (Agree-keep_future sv b s) in
      let p = write_inv _ _ m _ p in
      let (u, n, checked, p) =
        bind_inv (check_vote_sender x sv.vote.height sv.vote.voter) _ _ t v p in
      let (sender, at) = check_vote_sender_ok sv.vote.height sv.vote.voter _ n u checked in
      let (result, at_end) = pure_inv _ v n t p in
      record {
        result = result;
        signed = ground (arith, e, same, bytes_eq.beq_iff sv.vote.voter a);
        not_obsolete = not_obsolete;
        not_future = keep_future_ok sv b s m _ kept;
        sender =
            ap (λ z. contains (address_set_at z sv.vote.height) sv.vote.voter)
              (sym agreed.authority)
            ∙ sender;
        votes = ap (λ z. z.votes) (sym (at ∙ at_end)) ∙ (λ i.
            (add_vote x.lru (agreed.votes i) sv.vote.height sv.vote.round sv.vote.vote_type
              (sym result i) sv).0);
        height = ap (λ z. z.height) (sym (at ∙ at_end)) ∙ agreed.height;
        authority = ap (λ z. z.authority) (sym (at ∙ at_end)) ∙ agreed.authority;
      }
