-- ===== src/Diff/Private/Accepted.antt =====
-- What the validation of a privacy-preserving transaction demands of it
-- (lee/state_machine/src/validated_state_diff/mod.rs, state/mod.rs).
use lssa.Prelude.{
  ℕ, ◌≡◌, ◌≢◌, refl, sym, ◌∙◌, true, false, not, ◌&&◌, List, [], ◌∷◌, arith, ◌==◌, ==_iff, ok,
  ensure-eq-ok, ensure->>, >>-eq-ok, IsDistinct, All, contains, length,
}
use lssa.Account.{AccountId}
use lssa.Program.{ValidityWindow}
use lssa.Commitment.{Commitment, Nullifier, CommitmentSetDigest}
use lssa.Program.Window.{Within, is_valid_for, is_valid_for_iff}
use lssa.State.{
  V03State, StateDiff, check_nullifiers_are_valid, check_commitments_are_new, contains_commitment,
  nullifiers_of, get_account_by_id,
}
use lssa.Transaction.{
  Externals, PrivateMessage, PrivacyPreservingTransaction, PublicAction, PublicActionWithId,
  CircuitOutput, message_commitments, message_nullifiers, public_account_ids, private_message_hash,
  signatures_are_valid, signer_account_ids,
}
use lssa.Diff.{n_unique, check_nonces, build_pre_states}
use lssa.Diff.Nonces.{n_unique-IsDistinct}
use lssa.Diff.Public.Accepted.{
  current_nonces, check_nonces-current_nonces, signatures_are_valid-All,
}
use lssa.Diff.Public.Outcome.{length-signer_account_ids}
use lssa.Diff.Private.{
  from_privacy_preserving_transaction, zip_actions, check_privacy_preserving_circuit_proof_is_valid,
}
use lssa.Diff.Private.Checks.{PrivateChecked, from_privacy-PrivateChecked}

-- A nullifier that was not spent, with a digest that the commitments had once.
abbrev pub IsSpendable : V03State → Nullifier × CommitmentSetDigest → Type 0
IsSpendable s (n, d) =
    (contains n s.private_state.nullifier_set ≡ false)
    × (contains d s.private_state.commitment_set.root_history ≡ true)

check_nullifiers_are_valid-All :
    (s : V03State) (ns : List (Nullifier × CommitmentSetDigest))
    → check_nullifiers_are_valid s ns ≡ ok tt
    → All (IsSpendable s) ns
unfolding check_nullifiers_are_valid
check_nullifiers_are_valid-All s [] h = tt
check_nullifiers_are_valid-All s ((n, d) ∷ ns) h =
    ground (arith, check_nullifiers_are_valid-All s ns)

check_commitments_are_new-All :
    (s : V03State) (cs : List Commitment)
    → check_commitments_are_new s cs ≡ ok tt
    → All (λ c. contains_commitment s.private_state.commitment_set c ≡ false) cs
unfolding check_commitments_are_new
check_commitments_are_new-All s [] h = tt
check_commitments_are_new-All s (c ∷ cs) h = ground (arith, check_commitments_are_new-All s cs)

length-nullifiers_of :
    (ns : List (Nullifier × CommitmentSetDigest)) → length (nullifiers_of ns) ≡ length ns
length-nullifiers_of [] = ground arith
length-nullifiers_of ((n, d) ∷ ns) = ground (arith, length-nullifiers_of ns)

-- A value lies between the bounds of a window.
abbrev pub IsInside : ValidityWindow → ℕ → Type 0
IsInside w v = Within w.start w.end v

-- The public actions of a transaction, each with its account as the state has it.
abbrev pub actions_on : V03State → List AccountId → List PublicActionWithId → List PublicAction
actions_on s signers [] = []
actions_on s signers (a ∷ actions) =
    record {
      pre = record {
        account = get_account_by_id s a.account_id;
        is_authorized = contains a.account_id signers;
        account_id = a.account_id;
      };
      post = a.post_state;
    }
    ∷ actions_on s signers actions

zip_actions-build_pre_states :
    (s : V03State) (signers : List AccountId) (actions : List PublicActionWithId)
    → zip_actions (build_pre_states s signers (public_account_ids actions)) actions
      ≡ actions_on s signers actions
unfolding zip_actions build_pre_states
zip_actions-build_pre_states s signers [] = refl
zip_actions-build_pre_states s signers (a ∷ actions) =
    rw (zip_actions-build_pre_states s signers actions) refl

module _ (ext : Externals) where
  -- What the proof of a transaction has to show.
  abbrev pub output_on : V03State → List AccountId → PrivateMessage → CircuitOutput
  output_on s signers m = record {
    public_actions = actions_on s signers m.public_actions;
    private_actions = m.private_actions;
    block_validity_window = m.block_validity_window;
    timestamp_validity_window = m.timestamp_validity_window;
  }

  -- What a transaction has to be to give a diff.
  pub record PrivateAccepted (tx : PrivacyPreservingTransaction) (s : V03State)
      (block_id timestamp : ℕ) (diff : StateDiff) : Type 0 where
    pub some_action : tx.message.private_actions ≢ []
    pub distinct_accounts : IsDistinct (public_account_ids tx.message.public_actions)
    pub distinct_nullifiers :
        IsDistinct (nullifiers_of (message_nullifiers tx.message.private_actions))
    pub distinct_commitments : IsDistinct (message_commitments tx.message.private_actions)
    pub signed :
        All
          (λ k. ext.verify_signature k.0 (private_message_hash ext tx.message) k.1 ≡ true)
          tx.signatures_and_public_keys
    pub signers_are : diff.signer_account_ids ≡ signer_account_ids ext tx.signatures_and_public_keys
    pub nonces_are : tx.message.nonces ≡ current_nonces s diff.signer_account_ids
    pub proven :
        ext.verify_receipt tx.proof
          (output_on s diff.signer_account_ids tx.message)
          ext.privacy_preserving_circuit_id
        ≡ true
    pub block_fits : IsInside tx.message.block_validity_window block_id
    pub time_fits : IsInside tx.message.timestamp_validity_window timestamp
    pub spendable : All (IsSpendable s) (message_nullifiers tx.message.private_actions)
    pub new :
        All
          (λ c. contains_commitment s.private_state.commitment_set c ≡ false)
          (message_commitments tx.message.private_actions)

  circuit_proof :
      (proof : List ℕ) (s : V03State) (signers : List AccountId) (m : PrivateMessage)
      → check_privacy_preserving_circuit_proof_is_valid ext proof
          (build_pre_states s signers (public_account_ids m.public_actions))
          m
          ext.privacy_preserving_circuit_id
        ≡ ok tt
      → ext.verify_receipt proof (output_on s signers m) ext.privacy_preserving_circuit_id ≡ true
  unfolding check_privacy_preserving_circuit_proof_is_valid
  circuit_proof proof s signers m h =
      let same : (ext.privacy_preserving_circuit_id == ext.privacy_preserving_circuit_id) ≡ true =
        (==_iff _ _).1 refl in
      rw (zip_actions-build_pre_states s signers m.public_actions) at
        (ensure-eq-ok _ _ (rw (same, check_privacy_preserving_circuit_proof_is_valid) at h))

  -- A privacy-preserving transaction that is validated has some private action and names no public account, nullifier or
  -- commitment twice. Each signature that it has verifies for its message, and its nonces are those of its signers. Its
  -- proof verifies for its actions on the public accounts as the state has them. The block and the time lie in its validity
  -- windows. It spends no nullifier again, each only against a digest that the set of commitments had, and creates
  -- no commitment again.
  pub from_privacy_preserving_transaction-PrivateAccepted :
      (tx : PrivacyPreservingTransaction) (s : V03State) (block_id timestamp : ℕ) (diff : StateDiff)
      → from_privacy_preserving_transaction ext tx s block_id timestamp ≡ ok diff
      → PrivateAccepted tx s block_id timestamp diff
  unfolding from_privacy_preserving_transaction
  from_privacy_preserving_transaction-PrivateAccepted tx s block_id timestamp diff h =
      let c : PrivateChecked ext tx s diff =
        from_privacy-PrivateChecked ext tx s block_id timestamp diff h in
      let ns = message_nullifiers tx.message.private_actions in
      let sigs = tx.signatures_and_public_keys in
      let signers = signer_account_ids ext sigs in
      let (has_action, h₁) = ensure->> (not (length tx.message.private_actions == 0)) _ _ h in
      let (ids, h₂) =
        ensure->>
          (n_unique (public_account_ids tx.message.public_actions)
            == length (public_account_ids tx.message.public_actions))
          _ _ h₁ in
      let (nulls, h₃) = ensure->> (n_unique (nullifiers_of ns) == length ns) _ _ h₂ in
      let (comms, h₄) =
        ensure->>
          (n_unique (message_commitments tx.message.private_actions)
            == length (message_commitments tx.message.private_actions))
          _ _ h₃ in
      let (same_length, h₅) = ensure->> (length tx.message.nonces == length sigs) _ _ h₄ in
      let (valid, h₆) =
        ensure->> (signatures_are_valid ext (private_message_hash ext tx.message) sigs) _ _ h₅ in
      let (fit, h₇) = >>-eq-ok (check_nonces s signers tx.message.nonces) _ h₆ in
      let (fits, h₈) =
        ensure->>
          (is_valid_for tx.message.block_validity_window block_id
            && is_valid_for tx.message.timestamp_validity_window timestamp)
          _ _ h₇ in
      let (proof, _) = >>-eq-ok _ _ h₈ in
      record {
        some_action = λ e. ground (arith, has_action, e);
        distinct_accounts = n_unique-IsDistinct _ ids;
        distinct_nullifiers =
            n_unique-IsDistinct (nullifiers_of ns) (rw (length-nullifiers_of ns) nulls);
        distinct_commitments = n_unique-IsDistinct _ comms;
        signed = signatures_are_valid-All ext _ sigs valid;
        signers_are = c.signers_are;
        nonces_are = rw c.signers_are (
            check_nonces-current_nonces s signers tx.message.nonces
              ((==_iff _ _).0 same_length ∙ sym (length-signer_account_ids ext sigs)) fit);
        proven = rw c.signers_are (circuit_proof tx.proof s signers tx.message proof);
        block_fits = (is_valid_for_iff _ _ block_id).0 (ground arith);
        time_fits = (is_valid_for_iff _ _ timestamp).0 (ground arith);
        spendable = check_nullifiers_are_valid-All s ns c.nullifiers_checked;
        new =
            check_commitments_are_new-All s (message_commitments tx.message.private_actions)
              c.commitments_checked;
      }
