-- ===== src/Transition/Steps.antt =====
-- Histories of the ledger: any sequence of transitions of the three kinds, and what they do to
-- the recorded commitments, nullifiers and digests (lee/state_machine/src/state/mod.rs).
use lssa.Prelude.{
  ℕ, ◌≡◌, refl, true, some, List, ok, >>=-eq-ok, ok-injective, contains, contains-append, or_right,
}
use lssa.Commitment.{Commitment, Nullifier, CommitmentSetDigest}
use lssa.State.{V03State, StateDiff, apply_state_diff, contains_commitment}
use lssa.State.Spent.{apply_state_diff-private, extend_commitments-kept}
use lssa.Transaction.{Externals, PublicTransaction, PrivacyPreservingTransaction}
use lssa.Diff.Public.{from_public_transaction}
use lssa.Diff.Private.{from_privacy_preserving_transaction, from_program_deployment_transaction}
use lssa.Transition.{
  transition_from_public_transaction, transition_from_privacy_preserving_transaction,
  transition_from_program_deployment_transaction,
}

module _ (ext : Externals) where
  pub data Step (s s' : V03State) : Type 0 where
    public_step :
        (tx : PublicTransaction) (block_id timestamp : ℕ)
        → transition_from_public_transaction ext s tx block_id timestamp ≡ ok (some s')
        → Step s s'
    private_step :
        (tx : PrivacyPreservingTransaction) (block_id timestamp : ℕ)
        → transition_from_privacy_preserving_transaction ext s tx block_id timestamp ≡ ok (some s')
        → Step s s'
    deployment_step :
        (bytecode : List ℕ)
        → transition_from_program_deployment_transaction ext s bytecode ≡ ok (some s')
        → Step s s'

  pub data Reach (s : V03State) : V03State → Type 0 where
    here : Reach s s
    next : {t u : V03State} → Reach s t → Step t u → Reach s u

  -- Every step applies some diff.
  Step-diff :
      {s s' : V03State}
      → Step s s'
      → (diff : StateDiff) × (apply_state_diff ext.sha256 s diff ≡ some s')
  unfolding transition_from_public_transaction transition_from_privacy_preserving_transaction
      transition_from_program_deployment_transaction
  Step-diff {s} (public_step tx b t h) =
      let (diff, _, applied) = >>=-eq-ok (from_public_transaction ext tx s b t) _ h in
      (diff, ok-injective applied)
  Step-diff {s} (private_step tx b t h) =
      let (diff, _, applied) = >>=-eq-ok (from_privacy_preserving_transaction ext tx s b t) _ h in
      (diff, ok-injective applied)
  Step-diff {s} (deployment_step bytecode h) =
      let (diff, _, applied) = >>=-eq-ok (from_program_deployment_transaction ext bytecode s) _ h in
      (diff, ok-injective applied)

  -- What one state has recorded the other has too.
  pub record Extends (s s' : V03State) : Type 0 where
    pub commitments :
        (c : Commitment)
        → contains_commitment s.private_state.commitment_set c ≡ true
        → contains_commitment s'.private_state.commitment_set c ≡ true
    pub nullifiers :
        (n : Nullifier)
        → contains n s.private_state.nullifier_set ≡ true
        → contains n s'.private_state.nullifier_set ≡ true
    pub digests :
        (d : CommitmentSetDigest)
        → contains d s.private_state.commitment_set.root_history ≡ true
        → contains d s'.private_state.commitment_set.root_history ≡ true

  apply_state_diff-Extends :
      (s s' : V03State) (diff : StateDiff)
      → apply_state_diff ext.sha256 s diff ≡ some s'
      → Extends s s'
  apply_state_diff-Extends s s' diff h =
      let (sets, ns) = apply_state_diff-private ext.sha256 s s' diff h in
      let (kept, digests, _) =
        extend_commitments-kept ext.sha256 s.private_state.commitment_set
          s'.private_state.commitment_set diff.new_commitments sets in
      record {
        commitments = λ c k. kept c (rw k refl);
        nullifiers = λ n k.
            rw (ns, contains-append n diff.new_nullifiers s.private_state.nullifier_set)
              (or_right _ k);
        digests = digests;
      }

  -- Along every history of transitions of the three kinds, every commitment, nullifier and digest that is recorded stays
  -- recorded.
  pub Reach-Extends : {s s' : V03State} → Reach s s' → Extends s s'
  Reach-Extends here = record { commitments = λ c k. k; nullifiers = λ n k. k; digests = λ d k. k }
  Reach-Extends {s} (next {t = t} {u = u} r st) =
      let (diff, applied) = Step-diff st in
      let first : Extends s t = Reach-Extends r in
      let second : Extends t u = apply_state_diff-Extends t u diff applied in
      record {
        commitments = λ c k. second.commitments c (first.commitments c k);
        nullifiers = λ n k. second.nullifiers n (first.nullifiers n k);
        digests = λ d k. second.digests d (first.digests d k);
      }
