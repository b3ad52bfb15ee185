-- ===== src/Transition/ToyLedger.antt =====
-- A ledger with one program, which moves 5 from its first account to its second, and two
-- transactions, under stand-ins for the hash function, the signatures and the machine.
use lssa.Prelude.{
  ℕ, zero, suc, ◌+◌, ◌-◌, true, ◌&&◌, Option, none, List, [], ◌∷◌, arith, ltb, leb, if◌then◌else◌,
  Result, ok, err,
}
use lssa.Prelude.Digits.{from_digits}
use lssa.Account.{Account, AccountWithMetadata, u128_mod}
use lssa.Program.{
  ProgramId, InstructionData, ProgramOutput, AccountPostState, post_state, unbounded,
}
use lssa.State.{V03State, Program, program_storage_owner}
use lssa.Error.{LeeError, program_execution_failed}
use lssa.Transaction.{Externals, PublicTransaction, PrivacyPreservingTransaction}
use lssa.Diff.Public.Calls.{TypedOutputs}

-- The number that the bytes behind a prefix of 32 spell.
abbrev skip : ℕ → List ℕ → List ℕ
skip zero bs = bs
skip (suc n) [] = []
skip (suc n) (b ∷ bs) = skip n bs

abbrev toy_hash : List ℕ → ℕ
toy_hash bs = from_digits 256 (skip 32 bs)

abbrev pub with_balance : Account → ℕ → AccountPostState
with_balance a n = post_state (record a { balance = n })

abbrev pub move_five :
    Program
    → Option ProgramId
    → List AccountWithMetadata
    → InstructionData
    → Result LeeError ProgramOutput
move_five p caller (a ∷ b ∷ []) instruction =
    if leb 5 a.account.balance
      && (ltb a.account.balance u128_mod && ltb (b.account.balance + 5) u128_mod)
    then ok (record {
      self_program_id = p.id;
      caller_program_id = caller;
      instruction_data = instruction;
      pre_states = a ∷ b ∷ [];
      post_states =
          with_balance a.account (a.account.balance - 5)
          ∷ with_balance b.account (b.account.balance + 5)
          ∷ [];
      chained_calls = [];
      block_validity_window = unbounded;
      timestamp_validity_window = unbounded;
    })
    else err (program_execution_failed "balance")
move_five p caller _ instruction = err (program_execution_failed "two accounts")

abbrev pub toy : Externals
toy = record {
  sha256 = toy_hash;
  public_message_bytes = λ m. [];
  private_message_bytes = λ m. [];
  verify_signature = λ s h k. true;
  run = move_five;
  image_id = λ bytes. none;
  verify_receipt = λ proof output id. true;
  privacy_preserving_circuit_id = 3;
}

pub toy-TypedOutputs : TypedOutputs toy
toy-TypedOutputs p c [] i out h = cc
toy-TypedOutputs p c (a ∷ []) i out h = cc
toy-TypedOutputs p c (a ∷ b ∷ []) i out h = ground arith
toy-TypedOutputs p c (a ∷ b ∷ d ∷ pres) i out h = cc

abbrev pub ledger : ℕ → ℕ → ℕ → List ℕ → V03State
ledger x y n history = record {
  public_state =
      (
        9,
        record {
          program_owner = program_storage_owner;
          balance = 0;
          data_bytes = 1 ∷ [];
          nonce = 0;
        },
      )
      ∷ (1, record { program_owner = 9; balance = x; data_bytes = []; nonce = n })
      ∷ (2, record { program_owner = 9; balance = y; data_bytes = []; nonce = 4 })
      ∷ [];
  private_state = record {
    commitment_set = record {
      merkle_tree = record { nodes = 6 ∷ []; capacity = 1; len = 1 };
      commitments = (6, 0) ∷ [];
      root_history = history;
    };
    nullifier_set = [];
  };
}

abbrev pub payment : PublicTransaction
payment = record {
  message = record {
    program_id = 9;
    account_ids = 1 ∷ 2 ∷ [];
    nonces = 0 ∷ [];
    instruction_data = [];
  };
  signatures_and_public_keys = (8, 1) ∷ [];
}

-- A transaction that spends nullifier 77 and creates commitment 50.
abbrev pub note : PrivacyPreservingTransaction
note = record {
  message = record {
    public_actions = [];
    nonces = [];
    private_actions =
        record { nullifier = 77; root = 6; commitment = 50; encrypted_post_state = [] } ∷ [];
    block_validity_window = unbounded;
    timestamp_validity_window = unbounded;
  };
  signatures_and_public_keys = [];
  proof = [];
}
