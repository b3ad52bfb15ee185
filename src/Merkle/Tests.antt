-- ===== src/Merkle/Tests.antt =====
-- An insertion at a small tree (lee/state_machine/src/merkle_tree/mod.rs), under a stand-in for
-- the hash function.
use lssa.Prelude.{ℕ, ◌+◌, ◌≡◌, refl, some, List, [], ◌∷◌, arith}
use lssa.Merkle.{
  MerkleTree, insert, ceil_log2, depth, update_levels, set_node, get_node, hash_two, hash_value,
  get_authentication_path_for, collect_path, root_index,
}
use lssa.Merkle.Leaves.{Inserted, insert-Inserted}

-- The sum of the bytes.
abbrev toy_hash : List ℕ → ℕ
toy_hash [] = 0
toy_hash (b ∷ bs) = b + toy_hash bs

abbrev one_value : MerkleTree
one_value = record { nodes = 11 ∷ 11 ∷ 0 ∷ []; capacity = 2; len = 1 }

abbrev two_values : MerkleTree
two_values = record { nodes = 44 ∷ 11 ∷ 33 ∷ []; capacity = 2; len = 2 }

insertion_runs : insert toy_hash one_value 33 ≡ some (two_values, 1)
unfolding insert depth update_levels set_node get_node hash_two hash_value ceil_log2
insertion_runs = refl

insert-Inserted_example : Inserted toy_hash one_value two_values 33 1
insert-Inserted_example =
    insert-Inserted toy_hash one_value two_values 33 1 (ground arith) insertion_runs

path_of_the_second : get_authentication_path_for two_values 1 ≡ some (some (11 ∷ []))
unfolding get_authentication_path_for collect_path root_index depth get_node ceil_log2
path_of_the_second = refl
