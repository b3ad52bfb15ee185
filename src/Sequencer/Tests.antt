-- ===== src/Sequencer/Tests.antt =====
-- Production on a small chain: a head of one block, and a transaction of a user in the mempool.
use lssa.Prelude.{List, ◌≤◌, ◌≡◌, ◌⊎◌, refl, [], ◌∷◌, ◌++◌, none, some, ok, length, arith}
use lssa.Merkle
use lssa.Account.{default_account, account_eq, public_account_nonce_increment}
use lssa.State.{V03State, get_account_by_id, get_program, apply_state_diff}
use lssa.Program.Validate.{validate_execution}
use lssa.Program.Balances.{from_balances, wrapped_eq}
use lssa.Program.Ids.{to_account_id}
use lssa.Program.Pda.{for_public_pda, compute_public_authorized_pdas}
use lssa.Program.Window.{is_valid_for}
use lssa.Transaction.{
  PublicTransaction, public_message_hash, signatures_are_valid, signer_account_ids,
}
use lssa.Diff.{n_unique, check_nonces, build_pre_states}
use lssa.Diff.Public.{from_public_transaction, expected_account}
use lssa.Transition.{transition_from_public_transaction}
use lssa.Common.{Block, LeeTransaction, public}
use lssa.Common.Blocks.{compute_hash, into_pending_block, hashable}
use lssa.Common.Guards.{
  clock_invocation, validate_on_state, compute_state_diff, validate_restricted,
  validate_doesnt_modify_account, validate_bridge_account_modification, bridge_account_id,
  faucet_account_id,
}
use lssa.Chain.Apply.{tip_of, apply_block}
use lssa.Chain.ToyChain.{toy_chain, ticked, block, clock_transaction}
use lssa.Sequencer.{SequencerExternals, SequencerConfig, user, Produced}
use lssa.Sequencer.Stakes.{finalize_unstake_is_includable, extract_bridge_withdraw_data}
use lssa.Sequencer.Production.{build_block_from_mempool, apply_submitted}
use lssa.Sequencer.Accepted.{produced_block_applies}
use lssa.Sequencer.Limits.{produced_block_keeps_limits}

abbrev toy_sequencer : SequencerExternals
toy_sequencer = record {
  chain = toy_chain;
  stake_program_id = 31;
  decode_stake_instruction = λ words. none;
  decode_bridge_instruction = λ words. none;
  decode_stake_record = λ bytes. none;
  decode_stake_config = λ bytes. none;
}

abbrev toy_config : SequencerConfig
toy_config = record { max_block_size = 10; max_num_tx_in_block = 1; signing_key = 5 }

-- The first is included, and the block is full then.
abbrev request : PublicTransaction
request = record {
  message = record { program_id = 9; account_ids = 100 ∷ []; nonces = []; instruction_data = [] };
  signatures_and_public_keys = [];
}

abbrev second : Block
second = block 2 1

abbrev after_three : V03State
after_three = ticked (6 ∷ 6 ∷ 6 ∷ [])

abbrev expected : Produced
expected = record {
  block = record second {
    body = record { transactions = public request ∷ public (clock_transaction 7) ∷ [] };
    header = record second.header { signature = 2 };
  };
  withdrawals = [];
  working_state = record after_three {
    public_state = (ticked []).public_state ++ (100, default_account) ∷ [];
  };
  failures = [];
  mempool = (user, public request) ∷ [];
}

second_is_produced :
    build_block_from_mempool toy_sequencer toy_config
      (some (tip_of (block 1 0)))
      (ticked (6 ∷ []))
      7
      []
      ((user, public request) ∷ (user, public request) ∷ [])
      none
    ≡ some (ok expected)
unfolding build_block_from_mempool apply_submitted validate_on_state compute_state_diff
    validate_restricted validate_doesnt_modify_account validate_bridge_account_modification
    bridge_account_id faucet_account_id for_public_pda finalize_unstake_is_includable
    extract_bridge_withdraw_data into_pending_block compute_hash clock_invocation
    transition_from_public_transaction from_public_transaction apply_state_diff n_unique
    check_nonces build_pre_states expected_account get_account_by_id get_program account_eq
    validate_execution from_balances wrapped_eq to_account_id is_valid_for
    compute_public_authorized_pdas public_message_hash signatures_are_valid signer_account_ids
    public_account_nonce_increment Merkle.root Merkle.ceil_log2
second_is_produced = refl

produced_block_applies_example :
    apply_block toy_chain (some (tip_of (block 1 0))) expected.block (ticked (6 ∷ []))
    ≡ some (ok expected.working_state)
produced_block_applies_example =
    produced_block_applies toy_sequencer toy_config (tip_of (block 1 0)) (ticked (6 ∷ [])) 7 []
      ((user, public request) ∷ (user, public request) ∷ []) none expected (omega arith)
      second_is_produced

produced_block_keeps_limits_example :
    (txs : List LeeTransaction) × (expected.block.body.transactions
      ≡ txs ++ public (clock_invocation toy_chain 7) ∷ [])
    × (length txs ≤ 1)
    × ((txs ≡ []) ⊎ (length (toy_chain.block_bytes (hashable expected.block)) ≤ 10))
produced_block_keeps_limits_example =
    produced_block_keeps_limits toy_sequencer toy_config (tip_of (block 1 0)) (ticked (6 ∷ [])) 7 []
      ((user, public request) ∷ (user, public request) ∷ []) none expected (omega arith)
      second_is_produced
