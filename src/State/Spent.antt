-- ===== src/State/Spent.antt =====
-- Nullifiers and commitments under `apply_state_diff` and under the checks on them
-- (lee/state_machine/src/state/mod.rs).
use lssa.Prelude.{
  ℕ, ◌≡◌, ◌≢◌, sym, ◌∙◌, ap, subst, true, ◌||◌, some, List, [], ◌∷◌, ◌++◌, arith, extend, insert,
  lookup-insert, contains, ok, inl, inr, Option-cases,
}
use lssa.Prelude.Options.{>>=-eq-some, some-injective, none-ne-some}
use lssa.Commitment.{Commitment, Nullifier, CommitmentSetDigest}
use lssa.Merkle
use lssa.State.{
  V03State, StateDiff, CommitmentSet, increment_nonces, apply_state_diff, insert_new_program,
  extend_commitments, add_commitments, contains_commitment, digest, nullifiers_of,
  check_nullifiers_are_valid, check_commitments_are_new,
}

module _ (sha256 : List ℕ → ℕ) where
  -- The private part of an applied diff.
  pub apply_state_diff-private :
      (s s' : V03State) (diff : StateDiff)
      → apply_state_diff sha256 s diff ≡ some s'
      → (extend_commitments sha256 s.private_state.commitment_set diff.new_commitments
          ≡ some s'.private_state.commitment_set)
        × (s'.private_state.nullifier_set ≡ diff.new_nullifiers ++ s.private_state.nullifier_set)
  unfolding apply_state_diff
  apply_state_diff-private s s' diff h =
      let (signed, signs, h₁) =
        >>=-eq-some
          (increment_nonces (extend s.public_state diff.public_diff) diff.signer_account_ids) _ h in
      let (set, extends, h₂) =
        >>=-eq-some (extend_commitments sha256 s.private_state.commitment_set diff.new_commitments)
          _ h₁ in
      let (accounts, inserts, h₃) = >>=-eq-some (insert_new_program signed diff.program) _ h₂ in
      (
        extends
            ∙ ap some (ap (λ (t : V03State). t.private_state.commitment_set) (some-injective h₃)),
        sym (ap (λ (t : V03State). t.private_state.nullifier_set) (some-injective h₃)),
      )

  -- A commitment that is recorded, or among those that are added.
  add_commitments-contains :
      (cs : CommitmentSet) (added : CommitmentSet) (new : List Commitment) (c : Commitment)
      → add_commitments sha256 cs new ≡ some added
      → (contains_commitment cs c || contains c new) ≡ true
      → contains_commitment added c ≡ true
  unfolding add_commitments
  add_commitments-contains cs added [] c h k =
      subst (λ t. contains_commitment t c ≡ true) (some-injective h) (ground arith)
  add_commitments-contains cs added (x ∷ new) c h k =
      elim (Option-cases (Merkle.insert sha256 cs.merkle_tree x)) [
        | inl full ↦ absurd (none-ne-some (rw (full, add_commitments) at h))
        | inr ((tree, index), e) ↦
            add_commitments-contains
              (record cs { merkle_tree = tree; commitments = insert x index cs.commitments }) added
              new c (rw (e, add_commitments) at h)
              (ground (arith, lookup-insert c x index cs.commitments))
      ]

  add_commitments-history :
      (cs : CommitmentSet) (added : CommitmentSet) (new : List Commitment)
      → add_commitments sha256 cs new ≡ some added
      → added.root_history ≡ cs.root_history
  unfolding add_commitments
  add_commitments-history cs added [] h =
      ap (λ (t : CommitmentSet). t.root_history) (sym (some-injective h))
  add_commitments-history cs added (x ∷ new) h =
      elim (Option-cases (Merkle.insert sha256 cs.merkle_tree x)) [
        | inl full ↦ absurd (none-ne-some (rw (full, add_commitments) at h))
        | inr ((tree, index), e) ↦
            add_commitments-history
              (record cs { merkle_tree = tree; commitments = insert x index cs.commitments }) added
              new (rw (e, add_commitments) at h)
      ]

  -- What `CommitmentSet::extend` leads to.
  pub extend_commitments-kept :
      (cs cs' : CommitmentSet) (new : List Commitment)
      → extend_commitments sha256 cs new ≡ some cs'
      → ((c : Commitment)
          → (contains_commitment cs c || contains c new) ≡ true
          → contains_commitment cs' c ≡ true)
        × ((d : CommitmentSetDigest)
            → contains d cs.root_history ≡ true
            → contains d cs'.root_history ≡ true)
        × ((r : CommitmentSetDigest) × (digest cs' ≡ some r) × (contains r cs'.root_history ≡ true))
  unfolding extend_commitments digest
  extend_commitments-kept cs cs' new h =
      let (added, adds, h₁) = >>=-eq-some (add_commitments sha256 cs new) _ h in
      let (r, is_root, h₂) = >>=-eq-some (digest added) _ h₁ in
      let same : record added { root_history = r ∷ added.root_history } ≡ cs' = some-injective h₂ in
      (
        (λ c k.
            subst (λ t. contains_commitment t c ≡ true) same
              (add_commitments-contains cs added new c adds k)),
        (λ d k.
            subst (λ t. contains d t.root_history ≡ true) same
              (ground (arith, add_commitments-history cs added new adds))),
        (
          r,
          subst (λ t. digest t ≡ some r) same is_root,
          subst (λ t. contains r t.root_history ≡ true) same (ground arith),
        ),
      )

-- A nullifier that is recorded makes the check fail.
pub spent_is_refused :
    (s : V03State) (ns : List (Nullifier × CommitmentSetDigest)) (n : Nullifier)
    → contains n s.private_state.nullifier_set ≡ true
    → contains n (nullifiers_of ns) ≡ true
    → check_nullifiers_are_valid s ns ≢ ok tt
unfolding check_nullifiers_are_valid
spent_is_refused s [] n h k e = cc
spent_is_refused s ((m, d) ∷ ns) n h k e = ground (arith, spent_is_refused s ns n)

-- A commitment that is recorded makes the check fail.
pub known_is_refused :
    (s : V03State) (cs : List Commitment) (c : Commitment)
    → contains_commitment s.private_state.commitment_set c ≡ true
    → contains c cs ≡ true
    → check_commitments_are_new s cs ≢ ok tt
unfolding check_commitments_are_new
known_is_refused s [] c h k e = cc
known_is_refused s (x ∷ cs) c h k e = ground (arith, known_is_refused s cs c)
