-- ===== src/Transaction.antt =====
-- Transactions (lee/state_machine/src/public_transaction, privacy_preserving_transaction and
-- program_deployment_transaction), and what their validation takes from other packages.
-- A signature, a public key and a hash stand for the numbers of their bytes.
use lssa.Prelude.{ℕ, Bool, true, Option, List, [], ◌∷◌, ◌++◌, Result, ◌&&◌}
use lssa.Prelude.Digits.{bytes32}
use lssa.Account.{Account, AccountId, AccountWithMetadata, Nonce}
use lssa.Program.{ProgramId, InstructionData, ValidityWindow, ProgramOutput}
use lssa.Commitment.{Commitment, Nullifier, CommitmentSetDigest, prefix}
use lssa.State.{Program}
use lssa.Error.{LeeError}

-- public_transaction/message.rs.
pub record PublicMessage : Type 0 where
  pub program_id : ProgramId
  pub account_ids : List AccountId
  pub nonces : List Nonce
  pub instruction_data : InstructionData

-- The signatures with their public keys.
abbrev pub Signatures : Type 0
Signatures = List (ℕ × ℕ)

pub record PublicTransaction : Type 0 where
  pub message : PublicMessage
  pub signatures_and_public_keys : Signatures

-- privacy_preserving_transaction/message.rs.
pub record PublicActionWithId : Type 0 where
  pub account_id : AccountId
  pub post_state : Account

-- core/src/circuit_io.rs; the encrypted account is bytes that are only passed on.
pub record PrivateAction : Type 0 where
  pub nullifier : Nullifier
  pub root : CommitmentSetDigest
  pub commitment : Commitment
  pub encrypted_post_state : List ℕ

pub record PrivateMessage : Type 0 where
  pub public_actions : List PublicActionWithId
  pub nonces : List Nonce
  pub private_actions : List PrivateAction
  pub block_validity_window : ValidityWindow
  pub timestamp_validity_window : ValidityWindow

pub record PrivacyPreservingTransaction : Type 0 where
  pub message : PrivateMessage
  pub signatures_and_public_keys : Signatures
  pub proof : List ℕ

-- core/src/circuit_io.rs.
pub record PublicAction : Type 0 where
  pub pre : AccountWithMetadata
  pub post : Account

pub record CircuitOutput : Type 0 where
  pub public_actions : List PublicAction
  pub private_actions : List PrivateAction
  pub block_validity_window : ValidityWindow
  pub timestamp_validity_window : ValidityWindow

-- What the validation takes from other packages: SHA-256, Borsh's encodings of the messages, the
-- signature scheme, and the virtual machine, which runs a program, finds the image identifier of
-- its code and verifies a receipt. The identifier of the privacy circuit comes from the build.
pub record Externals : Type 0 where
  pub sha256 : List ℕ → ℕ
  pub public_message_bytes : PublicMessage → List ℕ
  pub private_message_bytes : PrivateMessage → List ℕ
  pub verify_signature : ℕ → ℕ → ℕ → Bool
  pub run :
      Program
      → Option ProgramId
      → List AccountWithMetadata
      → InstructionData
      → Result LeeError ProgramOutput
  pub image_id : List ℕ → Option ProgramId
  pub verify_receipt : List ℕ → CircuitOutput → ProgramId → Bool
  pub privacy_preserving_circuit_id : ProgramId

module _ (ext : Externals) where
  -- `Message::hash` of a public transaction.
  unfoldable pub public_message_hash : PublicMessage → ℕ
  public_message_hash m =
      ext.sha256 (prefix "/LEE/v0.3/Message/Public/" 7 ++ ext.public_message_bytes m)

  -- `Message::hash` of a privacy-preserving transaction.
  unfoldable pub private_message_hash : PrivateMessage → ℕ
  private_message_hash m =
      ext.sha256 (prefix "/LEE/v0.3/Message/Privacy/" 6 ++ ext.private_message_bytes m)

  -- `AccountId::from(&PublicKey)`.
  unfoldable pub account_id_of_key : ℕ → AccountId
  account_id_of_key key = ext.sha256 (prefix "/LEE/v0.3/AccountId/Public/" 5 ++ bytes32 key)

  -- `signer_account_ids`, of either kind of transaction.
  unfoldable pub signer_account_ids : Signatures → List AccountId
  unfolding account_id_of_key
  signer_account_ids [] = []
  signer_account_ids ((signature, key) ∷ rest) = account_id_of_key key ∷ signer_account_ids rest

  -- The loop of `is_valid_for` and `signatures_are_valid_for`.
  unfoldable pub signatures_are_valid : ℕ → Signatures → Bool
  signatures_are_valid hash [] = true
  signatures_are_valid hash ((signature, key) ∷ rest) =
      ext.verify_signature signature hash key && signatures_are_valid hash rest

-- `Message::commitments`, `nullifiers` and `public_account_ids`.
abbrev pub message_commitments : List PrivateAction → List Commitment
message_commitments [] = []
message_commitments (a ∷ as') = a.commitment ∷ message_commitments as'

abbrev pub message_nullifiers : List PrivateAction → List (Nullifier × CommitmentSetDigest)
message_nullifiers [] = []
message_nullifiers (a ∷ as') = (a.nullifier, a.root) ∷ message_nullifiers as'

abbrev pub public_account_ids : List PublicActionWithId → List AccountId
public_account_ids [] = []
public_account_ids (a ∷ as') = a.account_id ∷ public_account_ids as'
