-- ===== src/Diff/Private/Checks.antt =====
-- What is known of a privacy-preserving transaction that was validated
-- (validated_state_diff/mod.rs).
use lssa.Prelude.{ℕ, ◌≡◌, none, [], ok, arith, extend}
use lssa.State.{
  V03State, StateDiff, check_nullifiers_are_valid, check_commitments_are_new, nullifiers_of,
}
use lssa.Transaction.{
  Externals, PrivacyPreservingTransaction, message_commitments, message_nullifiers,
  signer_account_ids,
}
use lssa.Diff.Private.{public_entries, from_privacy_preserving_transaction}

module _ (ext : Externals) (tx : PrivacyPreservingTransaction) (s : V03State) where
  pub record PrivateChecked (diff : StateDiff) : Type 0 where
    pub commitments_checked :
        check_commitments_are_new s (message_commitments tx.message.private_actions) ≡ ok tt
    pub nullifiers_checked :
        check_nullifiers_are_valid s (message_nullifiers tx.message.private_actions) ≡ ok tt
    pub nullifiers_are :
        diff.new_nullifiers ≡ nullifiers_of (message_nullifiers tx.message.private_actions)
    pub commitments_are : diff.new_commitments ≡ message_commitments tx.message.private_actions
    pub accounts_are : diff.public_diff ≡ extend [] (public_entries tx.message.public_actions)
    pub no_program : diff.program ≡ none
    pub signers_are : diff.signer_account_ids ≡ signer_account_ids ext tx.signatures_and_public_keys

  pub from_privacy-PrivateChecked :
      (block_id timestamp : ℕ) (diff : StateDiff)
      → from_privacy_preserving_transaction ext tx s block_id timestamp ≡ ok diff
      → PrivateChecked diff
  unfolding from_privacy_preserving_transaction
  from_privacy-PrivateChecked block_id timestamp diff h = record {
    commitments_checked = ground arith;
    nullifiers_checked = ground arith;
    nullifiers_are = ground arith;
    commitments_are = ground arith;
    accounts_are = ground arith;
    no_program = ground arith;
    signers_are = ground arith;
  }
