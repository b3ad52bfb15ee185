-- ===== src/Program.antt =====
-- lee/state_machine/core/src/program/mod.rs: the data that programs and the state machine
-- exchange. Program identifiers are eight 32-bit words; such an identifier stands for the number
-- that the words spell, the lowest first (`Program.Ids` has the words and bytes).
pub mod Ids
pub mod Window
pub mod Balances
pub mod Validate
pub mod Pda
pub mod Tests
use lssa.Prelude.{ℕ, Bool, true, false, Option, none, some, List, [], ◌==◌, if◌then◌else◌}
use lssa.Account.{Account, AccountId, AccountWithMetadata}

abbrev pub ProgramId : Type 0
ProgramId = ℕ

abbrev pub PdaSeed : Type 0
PdaSeed = ℕ

abbrev pub InstructionData : Type 0
InstructionData = List ℕ

abbrev pub default_program_owner : AccountId
default_program_owner = 0

pub record ChainedCall : Type 0 where
  pub program_id : ProgramId
  pub pre_states : List AccountWithMetadata
  pub instruction_data : InstructionData
  pub pda_seeds : List PdaSeed

pub record CallerData : Type 0 where
  pub program_id : Option ProgramId
  pub authorized_accounts : List AccountId

pub data Claim : Type 0 where
  authorized : Claim
  pda : PdaSeed → Claim

pub record AccountPostState : Type 0 where
  pub account : Account
  pub claim : Option Claim

-- `AccountPostState::new`.
abbrev pub post_state : Account → AccountPostState
post_state a = record { account = a; claim = none }

-- `AccountPostState::new_claimed`.
abbrev pub claimed_post_state : Account → Claim → AccountPostState
claimed_post_state a c = record { account = a; claim = some c }

-- `AccountPostState::new_claimed_if_default`.
abbrev pub claimed_if_default : Account → Claim → AccountPostState
claimed_if_default a c = record {
  account = a;
  claim = if a.program_owner == default_program_owner then some c else none;
}

pub record ValidityWindow : Type 0 where
  pub start : Option ℕ
  pub end : Option ℕ

-- `ValidityWindow::new_unbounded`.
abbrev pub unbounded : ValidityWindow
unbounded = record { start = none; end = none }

pub record ProgramOutput : Type 0 where
  pub self_program_id : ProgramId
  pub caller_program_id : Option ProgramId
  pub instruction_data : InstructionData
  pub pre_states : List AccountWithMetadata
  pub post_states : List AccountPostState
  pub chained_calls : List ChainedCall
  pub block_validity_window : ValidityWindow
  pub timestamp_validity_window : ValidityWindow
