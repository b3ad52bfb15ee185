-- ===== src/Sequencer.antt =====
-- lez/sequencer/core/src/lib.rs: production of blocks. Data of the sequencer, of the stake program
-- (lez/programs/sequencer_stake/core) and of the bridge program (lez/programs/bridge/core).
pub mod Stakes
pub mod Production
pub mod Executed
pub mod Accepted
pub mod Limits
pub mod Tests
use lssa.Prelude.{ℕ, Bool, Option, List}
use lssa.Account.{AccountId}
use lssa.Program.{ProgramId, InstructionData}
use lssa.State.{V03State}
use lssa.Common.{ChainExternals, Block, LeeTransaction}

pub data TransactionOrigin : Type 0 where
  user : TransactionOrigin
  sequencer : TransactionOrigin
  gossip : TransactionOrigin

-- The key of a sequencer stands for the number of its bytes.
pub data StakeInstruction : Type 0 where
  stake : ℕ → ℕ → ProgramId → InstructionData → StakeInstruction
  confirm_stake : ℕ → StakeInstruction
  unstake_request : ℕ → AccountId → StakeInstruction
  finalize_unstake : StakeInstruction

pub record PendingUnstake : Type 0 where
  pub amount : ℕ
  pub destination : AccountId

pub record StakeRecord : Type 0 where
  pub sequencer_key : ℕ
  pub pending_unstake : Option PendingUnstake

pub record SequencerEntry : Type 0 where
  pub account_id : AccountId
  pub total_staked : ℕ
  pub total_pending_unstake : ℕ

pub record SequencerStakeConfig : Type 0 where
  pub minimum_sequencer_stake : ℕ
  pub entries : List (ℕ × SequencerEntry)

pub data BridgeInstruction : Type 0 where
  deposit : ℕ → ProgramId → AccountId → ℕ → BridgeInstruction
  withdraw : ℕ → ℕ → BridgeInstruction

-- The one note that a withdrawal pays out, and the key of its recipient.
pub record WithdrawArg : Type 0 where
  pub amount : ℕ
  pub recipient_pk : ℕ

-- The packages under the sequencer: those under the chain, risc0's decoding of instructions,
-- Borsh's of the data of stakes, and the identifier of the stake program.
pub record SequencerExternals : Type 0 where
  pub chain : ChainExternals
  pub stake_program_id : ProgramId
  pub decode_stake_instruction : InstructionData → Option StakeInstruction
  pub decode_bridge_instruction : InstructionData → Option BridgeInstruction
  pub decode_stake_record : List ℕ → Option StakeRecord
  pub decode_stake_config : List ℕ → Option SequencerStakeConfig

-- The fields of the configuration and of the store that production reads.
pub record SequencerConfig : Type 0 where
  pub max_block_size : ℕ
  pub max_num_tx_in_block : ℕ
  pub signing_key : ℕ

-- A transaction on its way into a block, and whether a record in the store stands behind it.
pub record Candidate : Type 0 where
  pub origin : TransactionOrigin
  pub transaction : LeeTransaction
  pub from_store : Bool

-- What the loop over the candidates changes: the working state, the block's transactions, the
-- withdrawals, and the transactions for which `count_dispatch_failure` was called.
pub record Draft : Type 0 where
  pub working_state : V03State
  pub valid_transactions : List LeeTransaction
  pub withdrawals : List WithdrawArg
  pub failures : List LeeTransaction

-- How a turn of the loop ends: the loop goes on, or it breaks and leaves the candidate for the
-- next block, or it breaks as the block is full.
pub data Turn : Type 0 where
  goes_on : Draft → Turn
  deferred : Draft → Turn
  full : Draft → Turn

-- The block with its withdrawals, the state after it, and what is left of the mempool.
pub record Produced : Type 0 where
  pub block : Block
  pub withdrawals : List WithdrawArg
  pub working_state : V03State
  pub failures : List LeeTransaction
  pub mempool : List (TransactionOrigin × LeeTransaction)
