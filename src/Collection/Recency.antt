-- ===== src/Collection/Recency.antt =====
-- src/collection.rs: which heights a `VoteCollector` remembers, and reading a set of votes.
use consensus_bft.Prelude.{
  ℕ, ◌≤◌, ◌≡◌, ◌≢◌, ap, sym, subst, ◌∙◌, inl, inr, true, Option, none, some, ◌∷◌, nat_eq, arith,
  some_eq, contains, Option-cases, length, take,
}
use native.Mathlib.Decide.{ℕ_discrete}
use consensus_bft.Prelude.Map
use consensus_bft.Prelude.Map.{or_keep}
use consensus_bft.BftCore as bft
use consensus_bft.BftCore.{vote_eq}
use consensus_bft.Lru.{LruCrate, without, is_some}
use consensus_bft.Lru.Upsert.{keys-upsert, get-upsert_kept}
use consensus_bft.Types.{VoteType, vote_type_eq, SignedVote}
use consensus_bft.Collection.{
  cache_number, VoteSet, StepCollector, get_step_set, RoundCollector, VoteCollector,
  new_round_collector, add_to_round, add_vote, get_round_set, get_vote_set, touch,
}
use consensus_bft.Collection.Lookup.{
  stored_in_step, stored_in_round, stored, IsWellFormed, RoundFits, votes-add_vote, stored-some,
}

abbrev pub in_set : Option VoteSet → bft.Vote → Option SignedVote
in_set none v = none
in_set (some s) v = Map.get v s.vote_pair

module _ (lru : LruCrate) where
  -- In a well-formed collector of at most sixteen heights, the height of an `add` becomes the most
  -- recently used one, and what is beyond sixteen goes.
  pub keys-add_vote :
      (c : VoteCollector lru) (h r : ℕ) (t : VoteType) (v : bft.Vote) (sv : SignedVote)
      → IsWellFormed lru c
      → length (lru.keys c.votes) ≤ cache_number
      → lru.keys (add_vote lru c h r t v sv).0.votes
        ≡ take cache_number (h ∷ without h (lru.keys c.votes))
  keys-add_vote c h r t v sv wf fits =
      let rc =
        (add_to_round lru (or_keep (lru.get h c.votes) (new_round_collector lru)) r t v sv).0 in
      ap lru.keys (votes-add_vote lru c h r t v sv)
      ∙ keys-upsert lru h rc c.votes (rw wf.capacity fits)
      ∙ ap (λ (n : ℕ). take n (h ∷ without h (lru.keys c.votes))) wf.capacity

  -- Another height that is still remembered after an `add` keeps all its votes.
  pub stored-add_vote_kept :
      (c : VoteCollector lru) (h r : ℕ) (t : VoteType) (v : bft.Vote) (sv : SignedVote) (k q : ℕ)
      (u : VoteType) (w : bft.Vote)
      → k ≢ h
      → contains (lru.keys (add_vote lru c h r t v sv).0.votes) k ≡ true
      → stored lru (add_vote lru c h r t v sv).0 k q u w ≡ stored lru c k q u w
  unfolding stored
  stored-add_vote_kept c h r t v sv k q u w ne there =
      let rc =
        (add_to_round lru (or_keep (lru.get h c.votes) (new_round_collector lru)) r t v sv).0 in
      let moved = votes-add_vote lru c h r t v sv in
      let same : lru.get k (add_vote lru c h r t v sv).0.votes ≡ lru.get k c.votes =
        ap (lru.get k) moved
        ∙ get-upsert_kept lru k h rc c.votes ne (
            sym (ap (λ (z : lru.Lru (RoundCollector lru)). contains (lru.keys z) k) moved)
            ∙ there) in
      rw (same, stored)

  -- What `get_vote_set` returns are the votes that are stored there.
  pub in_set-get_vote_set :
      (c : VoteCollector lru) (h r : ℕ) (t : VoteType) (v : bft.Vote)
      → in_set (get_vote_set lru c h r t).1 v ≡ stored lru c h r t v
  unfolding get_vote_set get_round_set get_step_set stored stored_in_round stored_in_step
  in_set-get_vote_set c h r t v = ground arith

  -- Reading a set of votes changes what is most recently used, and nothing else.
  get-touch :
      {V : Type 0} (j k : ℕ) (v : V) (c : lru.Lru V)
      → lru.get k c ≡ some v
      → lru.get j (lru.update k v c) ≡ lru.get j c
  get-touch j k v c e = elim (ℕ_discrete j k) [
    | no ne ↦ lru.get-update_ne j k v c ne
    | yes same ↦ rw same (lru.get-update_self k v c (ap is_some e) ∙ sym e)
  ]

  get-touch_any : {V : Type 0} (j k : ℕ) (c : lru.Lru V) → lru.get j (touch lru k c) ≡ lru.get j c
  get-touch_any j k c = elim (Option-cases (lru.get k c)) [
    | inl e ↦ rw (e, touch)
    | inr (v, e) ↦ rw (e, touch) (get-touch j k v c e)
  ]

  capacity-touch :
      {V : Type 0} (k : ℕ) (c : lru.Lru V) → lru.capacity (touch lru k c) ≡ lru.capacity c
  capacity-touch k c = elim (Option-cases (lru.get k c)) [
    | inl e ↦ rw (e, touch)
    | inr (v, e) ↦ rw (e, touch) (lru.capacity-update k v c)
  ]

  stored-get_round_set :
      (c : RoundCollector lru) (r : ℕ) (t : VoteType) (q : ℕ) (u : VoteType) (w : bft.Vote)
      → stored_in_round lru (get_round_set lru c r t).0 q u w ≡ stored_in_round lru c q u w
  unfolding get_round_set stored_in_round
  stored-get_round_set c r t q u w =
      ap (λ (o : Option StepCollector). elim o [ some sc ↦ stored_in_step sc u w | none ↦ none ])
        (get-touch_any q r c.round_votes)

  get_round_set-Fits :
      (c : RoundCollector lru) (r : ℕ) (t : VoteType)
      → RoundFits lru c
      → RoundFits lru (get_round_set lru c r t).0
  unfolding get_round_set
  get_round_set-Fits c r t h = record { capacity = capacity-touch r c.round_votes ∙ h.capacity }

  module _ (c : VoteCollector lru) (h r : ℕ) (t : VoteType) where
    get-get_vote_set :
        (rc : RoundCollector lru)
        → lru.get h c.votes ≡ some rc
        → (get_vote_set lru c h r t).0.votes ≡ lru.update h (get_round_set lru rc r t).0 c.votes
    unfolding get_vote_set
    get-get_vote_set rc e = rw (e, get_vote_set)

    -- `get_vote_set` leaves what is stored as it was.
    pub stored-get_vote_set :
        (k q : ℕ) (u : VoteType) (w : bft.Vote)
        → stored lru (get_vote_set lru c h r t).0 k q u w ≡ stored lru c k q u w
    unfolding stored get_vote_set
    stored-get_vote_set k q u w = elim (Option-cases (lru.get h c.votes)) [
      | inl e ↦ rw (e, get_vote_set)
      | inr (rc, e) ↦ elim (ℕ_discrete k h) [
        | no ne ↦
            rw (
              e,
              get_vote_set,
              stored,
              lru.get-update_ne k h (get_round_set lru rc r t).0 c.votes ne,
            )
        | yes same ↦
            stored-some lru (get_vote_set lru c h r t).0 k q u w (get_round_set lru rc r t).0 (
              ap (lru.get k) (get-get_vote_set rc e)
              ∙ rw same (lru.get-update_self h (get_round_set lru rc r t).0 c.votes (ap is_some e)))
            ∙ stored-get_round_set rc r t q u w
            ∙ sym (stored-some lru c k q u w rc (rw same e))
      ]
    ]

    pub get_vote_set-IsWellFormed :
        IsWellFormed lru c → IsWellFormed lru (get_vote_set lru c h r t).0
    unfolding get_vote_set
    get_vote_set-IsWellFormed wf = elim (Option-cases (lru.get h c.votes)) [
      | inl e ↦ rw (e, get_vote_set) wf
      | inr (rc, e) ↦ record {
        capacity =
            ap lru.capacity (get-get_vote_set rc e)
            ∙ lru.capacity-update h (get_round_set lru rc r t).0 c.votes
            ∙ wf.capacity;
        rounds = λ k rd p. elim (ℕ_discrete k h) [
          | no ne ↦ wf.rounds k rd (
              sym (lru.get-update_ne k h (get_round_set lru rc r t).0 c.votes ne)
              ∙ sym (ap (lru.get k) (get-get_vote_set rc e))
              ∙ p)
          | yes same ↦
              subst (λ z. RoundFits lru z)
                (some_eq (
                  sym (lru.get-update_self h (get_round_set lru rc r t).0 c.votes (ap is_some e))
                  ∙ sym (ap (lru.get h) (get-get_vote_set rc e))
                  ∙ subst (λ j. lru.get j (get_vote_set lru c h r t).0.votes ≡ some rd) same p))
                (get_round_set-Fits rc r t (wf.rounds h rc e))
        ];
      }
    ]
