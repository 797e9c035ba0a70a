-- ===== src/Types/Authority.antt =====
-- src/types.rs: `AuthorityManage`, the authority list of the present height and the one before it.
use consensus_bft.Prelude.{
  ℕ, ◌*◌, Bool, true, false, List, [], ◌∷◌, map, length, any, Eq, contains, ltb, if◌then◌else◌,
}
use consensus_bft.Prelude.Words.{bytes_eq}
use consensus_bft.Types.{Address, Node}

-- `HashSet::insert`: the set, and whether the value is new.
unfoldable pub set_insert {ℓ} : {A : Type ℓ} ⦃e : Eq A⦄ → List A → A → List A × Bool
set_insert s a = if contains s a then (s, false) else (a ∷ s, true)

-- `collect::<HashSet<_>>()`
unfoldable pub to_set {ℓ} : {A : Type ℓ} ⦃e : Eq A⦄ → List A → List A
unfolding set_insert
to_set [] = []
to_set (a ∷ l) = (set_insert (to_set l) a).0

pub record AuthorityManage : Type 0 where
  pub authorities : List Node
  pub address_set : List Address
  pub authorities_old : List Node
  pub address_set_old : List Address
  pub authority_h_old : ℕ

-- `AuthorityManage::default`; `INIT_HEIGHT` is 0.
abbrev pub default : AuthorityManage
default = record {
  authorities = [];
  address_set = [];
  authorities_old = [];
  address_set_old = [];
  authority_h_old = 0;
}

unfoldable pub update_authority : AuthorityManage → ℕ → List Node → AuthorityManage
unfolding to_set
update_authority m old_height auth_list = record {
  authorities = auth_list;
  address_set = to_set (map (λ node. node.address) auth_list);
  authorities_old = m.authorities;
  address_set_old = m.address_set;
  authority_h_old = old_height;
}

-- Both branches test the length of the old list.
unfoldable pub is_above_threshold : AuthorityManage → ℕ → Bool → Bool
is_above_threshold m len is_old =
    if is_old
    then (if ltb (length m.authorities_old * 2) (len * 3) then true else false)
    else (if ltb (length m.authorities_old * 2) (len * 3) then true else false)

-- Both branches look into the old set.
unfoldable pub contains_sender : AuthorityManage → List Address → Bool → Bool
contains_sender m sender is_old =
    if is_old
    then any (contains m.address_set_old) sender
    else any (contains m.address_set_old) sender
