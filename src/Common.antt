-- ===== src/Common.antt =====
-- lez/common/src/block.rs and transaction.rs: blocks, and the transactions that they hold. A
-- 32-byte hash stands for the number of its bytes.
pub mod Blocks
pub mod Guards
pub mod GuardsKept
pub mod Tests
use lssa.Prelude.{ℕ, String, List}
use lssa.Program.{ProgramId, InstructionData}
use lssa.Error.{LeeError}
use lssa.Transaction.{Externals, PublicTransaction, PrivacyPreservingTransaction}

abbrev pub HashType : Type 0
HashType = ℕ

pub data LeeTransaction : Type 0 where
  public : PublicTransaction → LeeTransaction
  privacy_preserving : PrivacyPreservingTransaction → LeeTransaction
  program_deployment : List ℕ → LeeTransaction

pub data TxKind : Type 0 where
  public_kind : TxKind
  privacy_preserving_kind : TxKind
  program_deployment_kind : TxKind

pub record BlockMeta : Type 0 where
  pub id : ℕ
  pub hash : HashType

pub record BlockHeader : Type 0 where
  pub block_id : ℕ
  pub prev_block_hash : HashType
  pub hash : HashType
  pub timestamp : ℕ
  pub signature : ℕ

pub record BlockBody : Type 0 where
  pub transactions : List LeeTransaction

pub data BedrockStatus : Type 0 where
  pending : BedrockStatus
  safe : BedrockStatus
  finalized : BedrockStatus

pub record Block : Type 0 where
  pub header : BlockHeader
  pub body : BlockBody
  pub bedrock_status : BedrockStatus

pub record HashableBlockData : Type 0 where
  pub block_id : ℕ
  pub prev_block_hash : HashType
  pub timestamp : ℕ
  pub transactions : List LeeTransaction

-- What blocks take from other packages and from the build: what the state machine takes, Borsh's
-- encoding of a block's contents, risc0's encoding of a timestamp, the text of an error, signing,
-- and the identifiers of the built-in programs.
pub record ChainExternals : Type 0 where
  pub ledger : Externals
  pub block_bytes : HashableBlockData → List ℕ
  pub timestamp_words : ℕ → InstructionData
  pub error_text : LeeError → String
  pub sign : ℕ → HashType → ℕ
  pub clock_program_id : ProgramId
  pub faucet_program_id : ProgramId
  pub bridge_program_id : ProgramId
