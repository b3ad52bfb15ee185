-- ===== src/Merkle/Leaves.antt =====
-- What an insertion does to the leaves of the tree (lee/state_machine/src/merkle_tree/mod.rs).
use lssa.Prelude.{
  subst, ℕ, zero, suc, ◌+◌, ◌-◌, ◌*◌, ◌/◌, ◌≤◌, ◌<◌, ◌≡◌, ◌≢◌, refl, sym, ◌∙◌, ap, false, some,
  List, [], ◌∷◌, arith, ◌==◌, ltb, length, get_elem?, set, ltb→lt, Option-cases, Bool-cases, inl,
  inr,
}
use lssa.Prelude.Options.{>>=-eq-some, some-injective, none-ne-some}
use lssa.Merkle.{
  MerkleTree, insert, set_node, get_node, update_levels, hash_value, hash_two, depth, make_room,
}

get_elem?-set_same : (xs : List ℕ) (i v : ℕ) → i < length xs → get_elem? (set xs i v) i ≡ some v
get_elem?-set_same [] i v h = absurd (omega (arith, h))
get_elem?-set_same (x ∷ xs) zero v h = refl
get_elem?-set_same (x ∷ xs) (suc i) v h = get_elem?-set_same xs i v (omega (arith, h))

get_elem?-set_other : (xs : List ℕ) (i j v : ℕ) → i ≢ j → get_elem? (set xs i v) j ≡ get_elem? xs j
get_elem?-set_other [] i j v h = refl
get_elem?-set_other (x ∷ xs) zero zero v h = absurd (h refl)
get_elem?-set_other (x ∷ xs) zero (suc j) v h = refl
get_elem?-set_other (x ∷ xs) (suc i) zero v h = refl
get_elem?-set_other (x ∷ xs) (suc i) (suc j) v h = get_elem?-set_other xs i j v (λ e. h (ap suc e))

-- One tree has the other's length and capacity, and its nodes but for those before a place.
record SameFrom (b : ℕ) (t t' : MerkleTree) : Type 0 where
  same_len : t'.len ≡ t.len
  same_capacity : t'.capacity ≡ t.capacity
  same_nodes : (j : ℕ) → b ≤ j → get_elem? t'.nodes j ≡ get_elem? t.nodes j

SameFrom-trans : (b : ℕ) (t u v : MerkleTree) → SameFrom b t u → SameFrom b u v → SameFrom b t v
SameFrom-trans b t u v f g = record {
  same_len = g.same_len ∙ f.same_len;
  same_capacity = g.same_capacity ∙ f.same_capacity;
  same_nodes = λ j k. g.same_nodes j k ∙ f.same_nodes j k;
}

set_node-SameFrom :
    (b i v : ℕ) (t t' : MerkleTree) → i < b → set_node t i v ≡ some t' → SameFrom b t t'
unfolding set_node
set_node-SameFrom b i v t t' h e = elim (Bool-cases (ltb i (length t.nodes))) [
  | inl fits ↦
      let is : record t { nodes = set t.nodes i v } ≡ t' = some-injective (rw fits at e) in
      record {
        same_len = sym (ap (λ (u : MerkleTree). u.len) is);
        same_capacity = sym (ap (λ (u : MerkleTree). u.capacity) is);
        same_nodes = λ j k.
            sym (ap (λ (u : MerkleTree). get_elem? u.nodes j) is)
            ∙ get_elem?-set_other t.nodes i j v (omega (arith, h, k));
      }
  | inr out ↦ absurd (none-ne-some (rw out at e))
]

-- One tree is the other with one node written.
record Written (t t' : MerkleTree) (i v : ℕ) : Type 0 where
  len_kept : t'.len ≡ t.len
  capacity_kept : t'.capacity ≡ t.capacity
  written : get_elem? t'.nodes i ≡ some v
  others : (j : ℕ) → j ≢ i → get_elem? t'.nodes j ≡ get_elem? t.nodes j

set_node-Written : (i v : ℕ) (t t' : MerkleTree) → set_node t i v ≡ some t' → Written t t' i v
unfolding set_node
set_node-Written i v t t' e = elim (Bool-cases (ltb i (length t.nodes))) [
  | inl fits ↦
      subst (λ u. Written t u i v) (some-injective (rw fits at e))
        (record {
          len_kept = refl;
          capacity_kept = refl;
          written = get_elem?-set_same t.nodes i v (ltb→lt i (length t.nodes) fits);
          others = λ j k. get_elem?-set_other t.nodes i j v (λ h. k (sym h));
        })
  | inr out ↦ absurd (none-ne-some (rw out at e))
]

lt-not_eq : (a b : ℕ) → a < b → (a == b) ≡ false
lt-not_eq a b h = ground arith

module _ (sha256 : List ℕ → ℕ) where
  make_room-roomy : (t : MerkleTree) → t.len < t.capacity → make_room sha256 t ≡ some t
  make_room-roomy t h = rw (lt-not_eq t.len t.capacity h) refl

  update_levels-SameFrom :
      (rounds node_index b : ℕ) (t t' : MerkleTree)
      → node_index ≤ 2 * b
      → update_levels sha256 rounds node_index t ≡ some t'
      → SameFrom b t t'
  unfolding update_levels
  update_levels-SameFrom zero node_index b t t' h e =
      let is : t ≡ t' = some-injective e in
      record {
        same_len = sym (ap (λ (u : MerkleTree). u.len) is);
        same_capacity = sym (ap (λ (u : MerkleTree). u.capacity) is);
        same_nodes = λ j k. sym (ap (λ (u : MerkleTree). get_elem? u.nodes j) is);
      }
  update_levels-SameFrom (suc rounds) zero b t t' h e = absurd (none-ne-some e)
  update_levels-SameFrom (suc rounds) (suc above) b t t' h e =
      elim (Option-cases (get_node t (above / 2 * 2 + 1))) [
        | inl no_left ↦ absurd (none-ne-some (rw (no_left, update_levels) at e))
        | inr (l, left) ↦ elim (Option-cases (get_node t (above / 2 * 2 + 2))) [
          | inl no_right ↦ absurd (none-ne-some (rw (left, update_levels, no_right) at e))
          | inr (r, right) ↦ elim (Option-cases (set_node t (above / 2) (hash_two sha256 l r))) [
            | inl outside ↦ absurd (none-ne-some (rw (left, update_levels, right, outside) at e))
            | inr (u, put) ↦
                SameFrom-trans b t u t'
                  (set_node-SameFrom b (above / 2) (hash_two sha256 l r) t u (omega (arith, h)) put)
                  (update_levels-SameFrom rounds (above / 2) b u t' (omega (arith, h))
                    (rw (left, update_levels, right, put) at e))
          ]
        ]
      ]

  -- What an insertion gives: the index of the value, and the leaves.
  pub record Inserted (t t' : MerkleTree) (value index : ℕ) : Type 0 where
    pub index_is : index ≡ t.len
    pub len_is : t'.len ≡ t.len + 1
    pub capacity_is : t'.capacity ≡ t.capacity
    pub new_leaf : get_node t' (index + t.capacity - 1) ≡ some (hash_value sha256 value)
    pub other_leaves :
        (j : ℕ) → j ≢ index → get_node t' (j + t.capacity - 1) ≡ get_node t (j + t.capacity - 1)

  -- An insertion that succeeds into a tree with room puts the value at the next index: its leaf has the hash of the value,
  -- every other leaf is the same, and the tree has one value more.
  pub insert-Inserted :
      (t t' : MerkleTree) (value index : ℕ)
      → t.len < t.capacity
      → insert sha256 t value ≡ some (t', index)
      → Inserted t t' value index
  unfolding insert get_node
  insert-Inserted t t' value index room e =
      let (roomy, made, e₁) = >>=-eq-some (make_room sha256 t) _ e in
      let same : roomy ≡ t = some-injective (sym made ∙ make_room-roomy t room) in
      let e₂ = rw same at e₁ in
      let place = t.len + t.capacity - 1 in
      let (bottom, put, e₃) = >>=-eq-some (set_node t place (hash_value sha256 value)) _ e₂ in
      let grown : MerkleTree = record bottom { len = bottom.len + 1 } in
      let (updated, up, e₄) = >>=-eq-some (update_levels sha256 (depth grown) place grown) _ e₃ in
      let w : Written t bottom place (hash_value sha256 value) =
        set_node-Written place (hash_value sha256 value) t bottom put in
      let f : SameFrom (t.capacity - 1) grown updated =
        update_levels-SameFrom (depth grown) place (t.capacity - 1) grown updated
          (omega (arith, room)) up in
      subst (λ (m : MerkleTree × ℕ). Inserted t m.0 value m.1)
        (some-injective {a = (updated, t.len)} {b = (t', index)} e₄)
        (record {
          index_is = refl;
          len_is = f.same_len ∙ ap (λ n. n + 1) w.len_kept;
          capacity_is = f.same_capacity ∙ w.capacity_kept;
          new_leaf = f.same_nodes place (omega (arith, room)) ∙ w.written;
          other_leaves = λ j k.
              f.same_nodes (j + t.capacity - 1) (omega (arith, room))
              ∙ w.others (j + t.capacity - 1) (omega (arith, k, room));
        })
