-- ===== src/Consensus/Accepts/Proofs.antt =====
-- src/consensus.rs: `verify_proof`, and which proofs it accepts.
use consensus_bft.Prelude.{
  ℕ, ◌<◌, ◌≡◌, refl, ◌⊎◌, inl, inr, true, none, some, List, [], ◌∷◌, ◌==◌, arith, All, Bool-cases,
}
use consensus_bft.Types.{Address}
use consensus_bft.Consensus.Outside.{Outside}
use consensus_bft.Prelude.{contains, Option-cases, nat_eq}
use consensus_bft.Prelude.Words.{bytes_eq}
use consensus_bft.Types.{Proof, vote_type_eq}
use consensus_bft.BftCore.{vote_eq}
use consensus_bft.Consensus.Checks.{vote_hash, votes_verified, verify_proof}
use consensus_bft.Prelude.{◌*◌, ◌↔◌, length}
use consensus_bft.Util.Weights.{into_addr_set}
use consensus_bft.Util.CheckProof.{precommit_of}
use consensus_bft.Types.{Signature, Node}

module _ {F : Type 0} (x : Outside F) where
  -- An entry of a proof that is passed: of an authority, and with a signature that recovers to nobody
  -- or to this authority.
  pub record IsPassed (proof : Proof) (addresses : List Address) (entry : Address × Signature)
      : Type 0 where
    pub authority : contains addresses entry.0 ≡ true
    pub recovers :
        (x.support.verify_signature entry.1 (vote_hash x (precommit_of proof entry.0)) ≡ none)
        ⊎ (x.support.verify_signature entry.1 (vote_hash x (precommit_of proof entry.0))
            ≡ some entry.0)

  votes_verified-All :
      (proof : Proof) (addresses : List Address) (votes : List (Address × Signature))
      → votes_verified x proof addresses votes ≡ true
      → All (IsPassed proof addresses) votes
  unfolding votes_verified
  votes_verified-All proof addresses [] p = tt
  votes_verified-All proof addresses ((a, sig) ∷ votes) p =
      elim (Option-cases (x.support.verify_signature sig (vote_hash x (precommit_of proof a)))) [
        | inl e ↦ (
          record { authority = ground (arith, e); recovers = inl e },
          votes_verified-All proof addresses votes (ground (arith, e)),
        )
        | inr (b, e) ↦ (
          record {
            authority = ground (arith, e);
            recovers = inr (ground (arith, e, bytes_eq.beq_iff b a));
          },
          votes_verified-All proof addresses votes (ground (arith, e)),
        )
      ]

  All-votes_verified :
      (proof : Proof) (addresses : List Address) (votes : List (Address × Signature))
      → All (IsPassed proof addresses) votes
      → votes_verified x proof addresses votes ≡ true
  unfolding votes_verified
  All-votes_verified proof addresses [] all = refl
  All-votes_verified proof addresses ((a, sig) ∷ votes) (h, all) = elim h.recovers [
    | inl e ↦ ground (arith, e, h.authority, All-votes_verified proof addresses votes all)
    | inr e ↦
        ground (
          arith,
          e,
          h.authority,
          bytes_eq.beq_iff a a,
          All-votes_verified proof addresses votes all,
        )
  ]

  -- A proof of a height other than 0 that is accepted.
  pub record IsAccepted (proof : Proof) (h : ℕ) (authority : List Node) : Type 0 where
    pub height : h ≡ proof.height
    pub enough : 2 * length (into_addr_set authority) < 3 * length proof.precommit_votes
    pub votes : All (IsPassed proof (into_addr_set authority)) proof.precommit_votes

  -- `verify_proof` accepts every proof for height 0, and for another height just the proofs of this
  -- height with entries for more than two thirds of the authorities, each of an authority and with a
  -- signature that recovers to this authority or to nobody.
  pub verify_proof_iff :
      (proof : Proof) (h : ℕ) (authority : List Node)
      → (verify_proof x proof h authority ≡ true) ↔ ((h ≡ 0) ⊎ IsAccepted proof h authority)
  unfolding verify_proof
  verify_proof_iff proof h authority = (
    (λ p. elim (Bool-cases (h == 0)) [
      | inl z ↦ inl (ground (arith, z))
      | inr z ↦ inr (record {
        height = ground (arith, z);
        enough = ground (arith, z);
        votes =
            votes_verified-All proof (into_addr_set authority) proof.precommit_votes
              (ground (arith, z));
      })
    ]),
    (λ q. elim q [
      | inl z ↦ ground (arith, z)
      | inr a ↦ ground (
        arith,
        a.height,
        a.enough,
        All-votes_verified proof (into_addr_set authority) proof.precommit_votes a.votes,
      )
    ]),
  )
