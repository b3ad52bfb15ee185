-- ===== src/Diff/Private.antt =====
-- lee/state_machine/src/validated_state_diff/mod.rs: privacy-preserving transactions and program
-- deployments.
pub mod Checks
pub mod Accepted
pub mod Deployed
use lssa.Prelude.{
  ℕ, zero, suc, ◌≡◌, Bool, true, false, not, ◌&&◌, Option, none, some, List, [], ◌∷◌, String, ◌==◌,
  if◌then◌else◌, Result, ok, err, ensure, ◌>>◌, ◌>>=◌, ok_or, length, Map, extend,
}
use lssa.Account.{Account, AccountId, AccountWithMetadata}
use lssa.Program.{ProgramId}
use lssa.Program.Window.{is_valid_for}
use lssa.Commitment.{Nullifier, CommitmentSetDigest}
use lssa.State.{
  V03State, StateDiff, Program, get_program, check_commitments_are_new, check_nullifiers_are_valid,
  nullifiers_of,
}
use lssa.Error.{
  LeeError, invalid_input, out_of_validity_window, invalid_privacy_preserving_proof,
  program_already_exists, invalid_program_bytecode,
}
use lssa.Transaction.{
  Externals, PrivateMessage, PrivacyPreservingTransaction, PublicAction, PublicActionWithId,
  PrivateAction, CircuitOutput, private_message_hash, signer_account_ids, signatures_are_valid,
  message_commitments, message_nullifiers, public_account_ids,
}
use lssa.Diff.{n_unique, check_nonces, build_pre_states}

-- Each pre-state with the action at its place; `zip` ends with the shorter list.
pub zip_actions : List AccountWithMetadata → List PublicActionWithId → List PublicAction
zip_actions [] actions = []
zip_actions (pre ∷ pres) [] = []
zip_actions (pre ∷ pres) (a ∷ actions) =
    record { pre = pre; post = a.post_state } ∷ zip_actions pres actions

abbrev pub public_entries : List PublicActionWithId → List (AccountId × Account)
public_entries [] = []
public_entries (a ∷ actions) = (a.account_id, a.post_state) ∷ public_entries actions

module _ (ext : Externals) where
  pub check_privacy_preserving_circuit_proof_is_valid :
      List ℕ → List AccountWithMetadata → PrivateMessage → ProgramId → Result LeeError (Unit {0})
  unfolding zip_actions
  check_privacy_preserving_circuit_proof_is_valid proof pres m circuit_id =
      let output : CircuitOutput = record {
        public_actions = zip_actions pres m.public_actions;
        private_actions = m.private_actions;
        block_validity_window = m.block_validity_window;
        timestamp_validity_window = m.timestamp_validity_window;
      } in
      let is_valid =
        if circuit_id == ext.privacy_preserving_circuit_id
        then ext.verify_receipt proof output ext.privacy_preserving_circuit_id
        else ext.verify_receipt proof output circuit_id in
      ensure is_valid invalid_privacy_preserving_proof

  pub from_privacy_preserving_transaction_with_circuit_id :
      PrivacyPreservingTransaction → V03State → ℕ → ℕ → ProgramId → Result LeeError StateDiff
  unfolding check_privacy_preserving_circuit_proof_is_valid
  from_privacy_preserving_transaction_with_circuit_id tx s block_id timestamp circuit_id = do
    let m = tx.message
    let commitments = message_commitments m.private_actions
    let nullifiers = message_nullifiers m.private_actions
    let account_ids = public_account_ids m.public_actions
    let signers = signer_account_ids ext tx.signatures_and_public_keys
    ensure (not (length m.private_actions == 0))
        (invalid_input "Empty commitments and empty nullifiers found in message")
    ensure (n_unique account_ids == length account_ids)
        (invalid_input "Duplicate account_ids found in message")
    ensure (n_unique (nullifiers_of nullifiers) == length nullifiers)
        (invalid_input "Duplicate nullifiers found in message")
    ensure (n_unique commitments == length commitments)
        (invalid_input "Duplicate commitments found in message")
    ensure (length m.nonces == length tx.signatures_and_public_keys)
        (invalid_input "Mismatch between number of nonces and signatures/public keys")
    ensure (signatures_are_valid ext (private_message_hash ext m) tx.signatures_and_public_keys)
        (invalid_input "Invalid signature for given message and public key")
    check_nonces s signers m.nonces
    ensure
        (is_valid_for m.block_validity_window block_id
          && is_valid_for m.timestamp_validity_window timestamp)
        out_of_validity_window
    check_privacy_preserving_circuit_proof_is_valid tx.proof
        (build_pre_states s signers account_ids) m circuit_id
    check_commitments_are_new s commitments
    check_nullifiers_are_valid s nullifiers
    ok (record {
      signer_account_ids = signers;
      public_diff = extend [] (public_entries m.public_actions);
      new_commitments = commitments;
      new_nullifiers = nullifiers_of nullifiers;
      program = none;
    })

  unfoldable pub from_privacy_preserving_transaction :
      PrivacyPreservingTransaction → V03State → ℕ → ℕ → Result LeeError StateDiff
  unfolding from_privacy_preserving_transaction_with_circuit_id
  from_privacy_preserving_transaction tx s block_id timestamp =
      from_privacy_preserving_transaction_with_circuit_id tx s block_id timestamp
        ext.privacy_preserving_circuit_id

  -- `Program::new`, of lee/state_machine/src/program/mod.rs.
  unfoldable pub program_new : List ℕ → Result LeeError Program
  program_new bytecode = do
    id ← ok_or (ext.image_id bytecode) invalid_program_bytecode
    ok (record { id = id; elf = bytecode })

  abbrev ensure_absent : Option Account → Result LeeError (Unit {0})
  ensure_absent none = ok tt
  ensure_absent (some a) = err program_already_exists

  unfoldable pub from_program_deployment_transaction : List ℕ → V03State → Result LeeError StateDiff
  unfolding program_new
  from_program_deployment_transaction bytecode s = do
    program ← program_new bytecode
    ensure_absent (get_program s program.id)
    ok (record {
      signer_account_ids = [];
      public_diff = [];
      new_commitments = [];
      new_nullifiers = [];
      program = some program;
    })
