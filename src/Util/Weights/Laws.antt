-- ===== src/Util/Weights/Laws.antt =====
-- src/util.rs: the sums of weights do not wrap, and two quorums of more than two thirds overlap.
use consensus_bft.Prelude.{
  ℕ, ◌+◌, ◌-◌, ◌*◌, ◌^◌, ◌<◌, ◌≤◌, ◌≡◌, refl, List, [], ◌∷◌, Bool, true, ◌&&◌, contains, All,
  length, if◌then◌else◌, arith,
}
use consensus_bft.Prelude.Words.{
  bytes_eq, add_u64-eq-add, mul_u64, mul_u64-eq-mul, u64_mod, u32_mod,
}
use consensus_bft.Types.{Address, Node}
use consensus_bft.Util.Weights.{sum_u64, get_total_weight, voting_nodes, get_votes_weight}

-- The weights are `u32`, and there are at most 2 ^ 30 nodes, so that three times a sum fits.
abbrev pub NodesFit : List Node → Type 0
NodesFit nodes = All (λ node. node.vote_weight < u32_mod) nodes × (length nodes ≤ 2 ^ 30)

-- The weight of the nodes that a test picks, as a sum of naturals.
unfoldable pub weight_of : (Address → Bool) → List Node → ℕ
weight_of p [] = 0
weight_of p (node ∷ nodes) =
    if p node.address then node.vote_weight + weight_of p nodes else weight_of p nodes

abbrev pub everyone : Address → Bool
everyone a = true

pub weight_of-le :
    (p : Address → Bool) (nodes : List Node)
    → All (λ node. node.vote_weight < u32_mod) nodes
    → (weight_of p nodes ≤ length nodes * (u32_mod - 1))
      × (weight_of p nodes ≤ weight_of everyone nodes)
unfolding weight_of
weight_of-le p [] h = omega arith
weight_of-le p (node ∷ nodes) h = ground (arith, weight_of-le p nodes h.1)

weight-fits :
    (p : Address → Bool) (nodes : List Node)
    → All (λ node. node.vote_weight < u32_mod) nodes
    → length nodes ≤ 2 ^ 30
    → weight_of p nodes * 3 < u64_mod
weight-fits p nodes h n = omega (arith, (weight_of-le p nodes h).0)

-- The two sums are the weights of all nodes and of those among the voters.
pub get_total_weight-eq :
    (nodes : List Node) → NodesFit nodes → get_total_weight nodes ≡ weight_of everyone nodes
unfolding get_total_weight sum_u64 weight_of
get_total_weight-eq [] h = refl
get_total_weight-eq (node ∷ nodes) h =
    let rest = get_total_weight-eq nodes (h.0.1, omega arith) in
    let fits = weight-fits everyone (node ∷ nodes) h.0 h.1 in
    rw rest (add_u64-eq-add node.vote_weight (weight_of everyone nodes) (omega arith))

pub get_votes_weight-eq :
    (nodes : List Node) (voters : List Address)
    → NodesFit nodes
    → get_votes_weight nodes voters ≡ weight_of (contains voters) nodes
unfolding get_votes_weight voting_nodes sum_u64 weight_of
get_votes_weight-eq [] voters h = refl
get_votes_weight-eq (node ∷ nodes) voters h =
    let rest = get_votes_weight-eq nodes voters (h.0.1, omega arith) in
    let fits = weight-fits (contains voters) (node ∷ nodes) h.0 h.1 in
    ground (arith, add_u64-eq-add node.vote_weight (weight_of (contains voters) nodes))

-- Two sets of nodes together weigh what their union and their intersection weigh.
weight_of-both :
    (p q : Address → Bool) (nodes : List Node)
    → weight_of p nodes + weight_of q nodes
      ≤ weight_of everyone nodes + weight_of (λ a. p a && q a) nodes
unfolding weight_of
weight_of-both p q [] = omega arith
weight_of-both p q (node ∷ nodes) = ground (arith, weight_of-both p q nodes)

-- Three times a sum, as the code computes it, is three times the weight.
pub mul_u64-weights :
    (nodes : List Node) (voters : List Address)
    → NodesFit nodes
    → (mul_u64 (get_total_weight nodes) 2 ≡ weight_of everyone nodes * 2)
      × (mul_u64 (get_votes_weight nodes voters) 3 ≡ weight_of (contains voters) nodes * 3)
mul_u64-weights nodes voters h =
    let total = weight-fits everyone nodes h.0 h.1 in
    let votes = weight-fits (contains voters) nodes h.0 h.1 in
    (
      rw (get_total_weight-eq nodes h) (mul_u64-eq-mul (weight_of everyone nodes) 2 (omega arith)),
      rw (get_votes_weight-eq nodes voters h) (mul_u64-eq-mul _ 3 votes),
    )

-- Two sets of voters with more than two thirds of the weight each have more than a third in common.
pub overlap :
    (nodes : List Node) (one two : List Address)
    → weight_of everyone nodes * 2 < weight_of (contains one) nodes * 3
    → weight_of everyone nodes * 2 < weight_of (contains two) nodes * 3
    → weight_of everyone nodes < weight_of (λ a. contains one a && contains two a) nodes * 3
overlap nodes one two p q = omega (arith, weight_of-both (contains one) (contains two) nodes)
