-- ===== src/Merkle.antt =====
-- lee/state_machine/src/merkle_tree/mod.rs: a binary Merkle tree in one array, the root at index
-- 0 and the children of `i` at `2 i + 1` and `2 i + 2`. A 32-byte value or node stands for the
-- number that its bytes spell. `none` is a panic: an index or a table entry that is not there.
-- SHA-256 is a parameter. `usize` does not wrap at the sizes that the table allows.
pub mod DefaultValues
pub mod Leaves
pub mod Tests
use lssa.Prelude.{
  ℕ, zero, suc, ◌+◌, ◌-◌, ◌*◌, ◌/◌, ◌%◌, ◌^◌, Bool, true, false, Option, none, some, List, [], ◌∷◌,
  ◌++◌, reverse, ltb, leb, ◌==◌, if◌then◌else◌, length, get_elem?, set, take, replicate,
}
use lssa.Prelude.Digits.{bytes32}
use lssa.Prelude.Options.{◌>>=◌}
use DefaultValues.{default_values}

-- The least exponent from `k` on with `n ≤ 2 ^ k`, within the fuel.
abbrev exponent_from : ℕ → ℕ → ℕ → ℕ
exponent_from zero k n = k
exponent_from (suc fuel) k n =
    let rest = exponent_from fuel (suc k) n in if leb n (2 ^ k) then k else rest

-- The exponent of `n.next_power_of_two()`: what `trailing_zeros` gives of that power.
unfoldable pub ceil_log2 : ℕ → ℕ
ceil_log2 n = exponent_from n 0 n

-- `usize::next_power_of_two`.
abbrev next_power_of_two : ℕ → ℕ
next_power_of_two n = 2 ^ ceil_log2 n

-- `usize::trailing_zeros` of a power of two.
abbrev pub trailing_zeros : ℕ → ℕ
trailing_zeros n = ceil_log2 n

-- `prev_power_of_two`: the greatest power of two up to `x`.
pub prev_power_of_two : ℕ → ℕ
prev_power_of_two zero = 0
prev_power_of_two (suc x) = let p = next_power_of_two (suc x) in if p == suc x then p else p / 2

pub record MerkleTree : Type 0 where
  pub nodes : List ℕ
  pub capacity : ℕ
  pub len : ℕ

-- Level by level from the root: each default value as often as its level has nodes.
fill_levels : ℕ → List ℕ → List ℕ
fill_levels level [] = []
fill_levels level (value ∷ values) = replicate (2 ^ level) value ++ fill_levels (suc level) values

-- `MerkleTree::with_capacity`; the slice panics where the table has no entry for the depth.
pub with_capacity : ℕ → Option MerkleTree
unfolding fill_levels
with_capacity requested =
    let capacity = next_power_of_two requested in
    let total_depth = trailing_zeros capacity in
    if ltb total_depth (length default_values)
    then some (record {
      nodes = fill_levels 0 (reverse (take (suc total_depth) default_values));
      capacity = capacity;
      len = 0;
    })
    else none

-- Number of levels required to hold all nodes.
pub depth : MerkleTree → ℕ
depth t = trailing_zeros (next_power_of_two t.len)

pub root_index : MerkleTree → ℕ
unfolding depth
root_index t =
    let tree_depth = depth t in
    let capacity_depth = trailing_zeros t.capacity in
    if tree_depth == capacity_depth then 0 else 2 ^ (capacity_depth - tree_depth) - 1

pub get_node : MerkleTree → ℕ → Option ℕ
get_node t index = get_elem? t.nodes index

pub set_node : MerkleTree → ℕ → ℕ → Option MerkleTree
set_node t index node =
    if ltb index (length t.nodes) then some (record t { nodes = set t.nodes index node }) else none

unfoldable pub root : MerkleTree → Option ℕ
unfolding root_index get_node
root t = get_node t (root_index t)

-- The loop that embeds the nodes of the old tree into the new one.
copy_nodes : MerkleTree → ℕ → List ℕ → Option MerkleTree
unfolding set_node prev_power_of_two
copy_nodes t index [] = some t
copy_nodes t index (value ∷ values) =
    elim (set_node t (index + prev_power_of_two (index + 1)) value) [
      | none ↦ none
      | some t' ↦ copy_nodes t' (index + 1) values
    ]

pub reallocate_to_double_capacity : MerkleTree → Option MerkleTree
unfolding with_capacity copy_nodes
reallocate_to_double_capacity t = do
  fresh ← with_capacity (t.capacity * 2)
  this ← copy_nodes fresh 0 t.nodes
  some (record this { len = t.len })

module _ (sha256 : List ℕ → ℕ) where
  pub hash_two : ℕ → ℕ → ℕ
  hash_two left right = sha256 (bytes32 left ++ bytes32 right)

  pub hash_value : ℕ → ℕ
  hash_value value = sha256 (bytes32 value)

  -- The loop that updates the upper levels, for the rounds that are left. An index of 0 has no
  -- parent: `node_index - 1` underflows.
  update_levels : ℕ → ℕ → MerkleTree → Option MerkleTree
  unfolding hash_two get_node set_node
  update_levels zero node_index t = some t
  update_levels (suc rounds) zero t = none
  update_levels (suc rounds) (suc above) t =
      let parent_index = above / 2 in
      elim (get_node t (parent_index * 2 + 1)) [
        | none ↦ none
        | some left_child ↦ elim (get_node t (parent_index * 2 + 2)) [
          | none ↦ none
          | some right_child ↦ elim (set_node t parent_index (hash_two left_child right_child)) [
            | none ↦ none
            | some t' ↦ update_levels rounds parent_index t'
          ]
        ]
      ]

  abbrev make_room : MerkleTree → Option MerkleTree
  make_room t = if t.len == t.capacity then reallocate_to_double_capacity t else some t

  -- `MerkleTree::insert`: the tree, and the index of the new value.
  unfoldable pub insert : MerkleTree → ℕ → Option (MerkleTree × ℕ)
  unfolding reallocate_to_double_capacity hash_value update_levels depth set_node
  insert t value = do
    roomy ← make_room t
    let new_index = roomy.len
    let node_index = new_index + roomy.capacity - 1
    bottom ← set_node roomy node_index (hash_value value)
    let grown : MerkleTree = record bottom { len = bottom.len + 1 }
    updated ← update_levels (depth grown) node_index grown
    some (updated, new_index)

-- The loop from a leaf to the root that collects the siblings. `none` is a panic, or the end of
-- the fuel, which is a node index: parents have smaller indices.
collect_path : ℕ → MerkleTree → ℕ → ℕ → Option (List ℕ)
unfolding get_node
collect_path zero t root_index node_index = none
collect_path (suc fuel) t root_index node_index =
    let parent_index = (node_index - 1) / 2 in
    let is_left_child = node_index % 2 == 1 in
    let sibling_index = if is_left_child then node_index + 1 else node_index - 1 in
    let rest = collect_path fuel t root_index parent_index in
    if node_index == root_index
    then some []
    else (do sibling ← get_node t sibling_index; path ← rest; some (sibling ∷ path))

-- `get_authentication_path_for`: the outer `none` is a panic, the inner one the code's `None`.
pub get_authentication_path_for : MerkleTree → ℕ → Option (Option (List ℕ))
unfolding collect_path root_index
get_authentication_path_for t index = if leb t.len index then some none else (do
  path ← collect_path (t.capacity + index) t (root_index t) (t.capacity + index - 1)
  some (some path))
