-- ===== src/Util/Weights.antt =====
-- src/util.rs: `into_addr_set`, `get_total_weight` and `get_votes_weight`. A weight is a `u32` and a
-- sum a `u64`, so fewer than 2 ^ 32 nodes cannot make a sum wrap.
pub mod Laws
use consensus_bft.Prelude.{ℕ, ◌+◌, List, [], ◌∷◌, map, Bool, contains, if◌then◌else◌}
use consensus_bft.Prelude.Words.{bytes_eq, add_u64}
use consensus_bft.Types.{Address, Node}

unfoldable pub into_addr_set : List Node → List Address
into_addr_set [] = []
into_addr_set (node ∷ node_set) = node.address ∷ into_addr_set node_set

-- `weight.iter().sum()`
unfoldable pub sum_u64 : List ℕ → ℕ
sum_u64 [] = 0
sum_u64 (w ∷ ws) = add_u64 w (sum_u64 ws)

unfoldable pub get_total_weight : List Node → ℕ
get_total_weight authorities = sum_u64 (map (λ node. node.vote_weight) authorities)

-- `authorities.iter().filter(|node| vote_addresses.contains(&node.address))`
unfoldable pub voting_nodes : List Node → List Address → List Node
voting_nodes [] vote_addresses = []
voting_nodes (node ∷ nodes) vote_addresses =
    let rest = voting_nodes nodes vote_addresses in
    if contains vote_addresses node.address then node ∷ rest else rest

unfoldable pub get_votes_weight : List Node → List Address → ℕ
get_votes_weight authorities vote_addresses =
    sum_u64 (map (λ node. node.vote_weight) (voting_nodes authorities vote_addresses))
