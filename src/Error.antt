-- ===== src/Error.antt =====
-- lee/state_machine/src/error.rs: the errors of the state machine. What a variant only carries
-- from a library (a reader's or a decoder's error) is left out of it.
use lssa.Prelude.{String, Option}
use lssa.Account.{Account, AccountId}
use lssa.Program.{ProgramId}
use lssa.Program.Validate.{ExecutionValidationError}

pub data InvalidProgramBehaviorError : Type 0 where
  inconsistent_account_pre_state : AccountId → Account → Account → InvalidProgramBehaviorError
  invalid_account_authorization : AccountId → InvalidProgramBehaviorError
  authorized_account_marked_as_not_authorized : AccountId → InvalidProgramBehaviorError
  mismatched_program_id : ProgramId → ProgramId → InvalidProgramBehaviorError
  mismatched_caller_program_id : Option ProgramId → Option ProgramId → InvalidProgramBehaviorError
  execution_validation_failed : ExecutionValidationError → InvalidProgramBehaviorError
  claimed_non_default_account : AccountId → InvalidProgramBehaviorError
  claimed_unauthorized_account : AccountId → InvalidProgramBehaviorError
  mismatched_pda_claim : AccountId → AccountId → InvalidProgramBehaviorError
  default_account_modified_without_claim : AccountId → InvalidProgramBehaviorError
  undeclared_program_dependency : ProgramId → InvalidProgramBehaviorError
  declared_account_missing_from_output : AccountId → InvalidProgramBehaviorError

pub data LeeError : Type 0 where
  invalid_input : String → LeeError
  invalid_program_behavior : InvalidProgramBehaviorError → LeeError
  instruction_serialization_error : String → LeeError
  invalid_private_key : LeeError
  io : LeeError
  invalid_public_key : LeeError
  invalid_hex_public_key : LeeError
  program_write_input_failed : String → LeeError
  program_execution_failed : String → LeeError
  program_prove_failed : String → LeeError
  transaction_deserialization_error : String → LeeError
  core : LeeError
  program_output_deserialization_error : String → LeeError
  circuit_output_deserialization_error : String → LeeError
  invalid_privacy_preserving_proof : LeeError
  circuit_proving_error : String → LeeError
  invalid_program_bytecode : LeeError
  program_already_exists : LeeError
  max_chained_calls_depth_exceeded : LeeError
  max_account_nonce_reached : LeeError
  out_of_validity_window : LeeError
