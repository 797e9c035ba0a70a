-- ===== src/Util/CheckProof/Laws.antt =====
-- src/util.rs: what an accepted proof shows, and what two of them have in common.
use consensus_bft.Prelude.{
  ℕ, ◌+◌, ◌*◌, ◌<◌, ◌≡◌, ◌≢◌, refl, ◌↔◌, true, Option, none, some, List, [], ◌∷◌, map, nat_eq,
  contains, ◌&&◌, All, arith,
}
use consensus_bft.Prelude.Words.{Bytes, bytes_eq, u64_mod, add_u64-eq-add}
use consensus_bft.Rlp.{RlpCrate}
use consensus_bft.Types.{Address, Signature, Node, Proof}
use consensus_bft.Types.Codec.{encode_vote}
use consensus_bft.Util.Weights.{into_addr_set}
use consensus_bft.Util.Weights.Laws.{NodesFit, weight_of, everyone, overlap, mul_u64-weights}
use consensus_bft.Util.CheckProof.{precommit_of, is_sender, all_signed, check_proof}

abbrev pub voters : Proof → List Address
voters p = map (λ e. e.0) p.precommit_votes

is_sender_iff : (s : Address) (o : Option Address) → (is_sender s o ≡ true) ↔ (o ≡ some s)
is_sender_iff s none = ground arith
is_sender_iff s (some a) = ground (arith, bytes_eq.beq_iff s a)

module _ (rlp : RlpCrate) (crypt_hash : Bytes → Bytes)
    (verify_signature : Bytes → Bytes → Option Address) where
  -- The voter is an authority, and its signature of the precommit recovers to it.
  abbrev pub IsSigned : Proof → List Node → Address × Signature → Type 0
  IsSigned proof authority (sender, sig) =
      (contains (into_addr_set authority) sender ≡ true)
      × (verify_signature sig
            (crypt_hash (rlp.to_bytes (encode_vote rlp (precommit_of proof sender))))
          ≡ some sender)

  all_signed_iff :
      (proof : Proof) (authority : List Node) (votes : List (Address × Signature))
      → (all_signed rlp crypt_hash verify_signature proof (into_addr_set authority) votes ≡ true)
        ↔ All (IsSigned proof authority) votes
  unfolding all_signed
  all_signed_iff proof authority [] = ((λ h. tt), (λ h. refl))
  all_signed_iff proof authority ((sender, sig) ∷ votes) =
      let found =
        verify_signature sig
          (crypt_hash (rlp.to_bytes (encode_vote rlp (precommit_of proof sender)))) in
      ground (arith, is_sender_iff sender found, all_signed_iff proof authority votes)

  -- While the numbers fit, `check_proof` accepts a proof for a height above 0 exactly when the proof is of the height
  -- before, its voters that are authorities have more than two thirds of the weight, and every
  -- voter is an authority whose signature of the precommit recovers to it.
  pub check_proof_iff :
      (proof : Proof) (height : ℕ) (authority : List Node)
      → height ≢ 0
      → proof.height + 1 < u64_mod
      → NodesFit authority
      → (check_proof rlp crypt_hash verify_signature proof height authority ≡ true) ↔ (
          (height ≡ proof.height + 1)
          × (weight_of everyone authority * 2 < weight_of (contains (voters proof)) authority * 3)
          × All (IsSigned proof authority) proof.precommit_votes)
  unfolding check_proof
  check_proof_iff proof height authority nz fits nodes = ground (
    arith,
    add_u64-eq-add proof.height 1 fits,
    mul_u64-weights authority (voters proof) nodes,
    all_signed_iff proof authority proof.precommit_votes,
  )

  -- While the numbers fit, two proofs that `check_proof` accepts against one authority list, each for a height above 0, have
  -- voters in common that hold more than a third of the weight, whatever blocks they are of.
  pub check_proof-overlap :
      (p q : Proof) (h k : ℕ) (authority : List Node)
      → h ≢ 0
      → k ≢ 0
      → p.height + 1 < u64_mod
      → q.height + 1 < u64_mod
      → NodesFit authority
      → check_proof rlp crypt_hash verify_signature p h authority ≡ true
      → check_proof rlp crypt_hash verify_signature q k authority ≡ true
      → weight_of everyone authority
        < weight_of (λ a. contains (voters p) a && contains (voters q) a) authority * 3
  check_proof-overlap p q h k authority hz kz hp hq nodes a b =
      let one = (check_proof_iff p h authority hz hp nodes).0 a in
      let two = (check_proof_iff q k authority kz hq nodes).0 b in
      overlap authority (voters p) (voters q) one.1 two.1
