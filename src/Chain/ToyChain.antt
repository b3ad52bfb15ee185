-- ===== src/Chain/ToyChain.antt =====
-- A ledger whose one program leaves every account as it is, and two blocks that only hold their
-- clock transactions. A block's hash is its identifier.
use lssa.Prelude.{ℕ, Option, none, List, [], ◌∷◌, ◌++◌, map, Result, ok}
use lssa.Account.{Account, AccountWithMetadata, default_account}
use lssa.Program.{ProgramId, InstructionData, ProgramOutput, post_state, unbounded}
use lssa.State.{V03State, Program}
use lssa.Error.{LeeError}
use lssa.Transaction.{PublicTransaction}
use lssa.Transition.ToyLedger.{toy, ledger}
use lssa.Common.{ChainExternals, Block, public, pending}
use lssa.Common.Guards.{clock_account_ids}
use lssa.Chain.Head.{ChainState, entry}

abbrev echo :
    Program
    → Option ProgramId
    → List AccountWithMetadata
    → InstructionData
    → Result LeeError ProgramOutput
echo p caller pres instruction = ok (record {
  self_program_id = p.id;
  caller_program_id = caller;
  instruction_data = instruction;
  pre_states = pres;
  post_states = map (λ a. post_state a.account) pres;
  chained_calls = [];
  block_validity_window = unbounded;
  timestamp_validity_window = unbounded;
})

abbrev pub toy_chain : ChainExternals
toy_chain = record {
  ledger = record toy { run = echo };
  block_bytes = λ d. d.block_id ∷ [];
  timestamp_words = λ t. t ∷ [];
  error_text = λ e. "error";
  sign = λ key h. h;
  clock_program_id = 9;
  faucet_program_id = 21;
  bridge_program_id = 22;
}

abbrev pub clock_transaction : ℕ → PublicTransaction
clock_transaction timestamp = record {
  message = record {
    program_id = 9;
    account_ids = clock_account_ids;
    nonces = [];
    instruction_data = timestamp ∷ [];
  };
  signatures_and_public_keys = [];
}

abbrev pub block : ℕ → ℕ → Block
block id prev = record {
  header = record {
    block_id = id;
    prev_block_hash = prev;
    hash = id;
    timestamp = 7;
    signature = 0;
  };
  body = record { transactions = public (clock_transaction 7) ∷ [] };
  bedrock_status = pending;
}

abbrev clock_entries : List ℕ → List (ℕ × Account)
clock_entries [] = []
clock_entries (id ∷ ids) = (id, default_account) ∷ clock_entries ids

-- The ledger before any block, and after some.
abbrev pub initial : V03State
initial = ledger 100 7 0 []

abbrev pub ticked : List ℕ → V03State
ticked history = record (ledger 100 7 0 history) {
  public_state = initial.public_state ++ clock_entries clock_account_ids;
}

-- The chain after the blocks 1 and 2, adopted under the messages 11 and 12.
abbrev pub one_block : ChainState
one_block = record {
  final_state = initial;
  final_tip = none;
  final_stall = none;
  head_state = ticked (6 ∷ []);
  head_blocks = entry 11 (block 1 0) ∷ [];
}

abbrev pub two_blocks : ChainState
two_blocks = record {
  final_state = initial;
  final_tip = none;
  final_stall = none;
  head_state = ticked (6 ∷ 6 ∷ []);
  head_blocks = entry 11 (block 1 0) ∷ entry 12 (block 2 1) ∷ [];
}
