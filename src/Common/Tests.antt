-- ===== src/Common/Tests.antt =====
-- Runs of a user transaction under the guards.
use lssa.Prelude.{
  ◌+◌, ℕ, ◌≡◌, ◌<◌, ◌⊎◌, refl, true, some, List, [], ◌∷◌, ◌++◌, contains, get_or, ok,
}
use lssa.Merkle
use lssa.Account.{account_eq, public_account_nonce_increment}
use lssa.State.{V03State, get_account_by_id, get_program, apply_state_diff}
use lssa.Program.Validate.{validate_execution}
use lssa.Program.Balances.{from_balances, wrapped_eq}
use lssa.Program.Ids.{to_account_id}
use lssa.Program.Pda.{compute_public_authorized_pdas, for_public_pda}
use lssa.Program.Window.{is_valid_for}
use lssa.Transaction.{
  PublicTransaction, public_message_hash, signatures_are_valid, signer_account_ids,
}
use lssa.Diff.{n_unique, check_nonces, build_pre_states}
use lssa.Diff.Public.{from_public_transaction, expected_account}
use lssa.Transition.ToyLedger.{toy, toy-TypedOutputs, ledger, payment}
use lssa.Common.{ChainExternals, public}
use lssa.Common.Guards.{
  bridge_account_id, faucet_account_id, execute_check_on_state, validate_on_state,
  compute_state_diff, validate_restricted, validate_doesnt_modify_account,
  validate_bridge_account_modification, restricted_account_ids,
}
use lssa.Common.GuardsKept.{DeploysElsewhere, guards_keep_restricted, guards_keep_bridge}

-- A hash is the byte after the prefix, so that the bridge has the identifier 22.
abbrev guarded : ChainExternals
guarded = record {
  ledger = record toy { sha256 = λ bs. get_or bs 32 0 };
  block_bytes = λ d. d.block_id ∷ [];
  timestamp_words = λ t. t ∷ [];
  error_text = λ e. "error";
  sign = λ key h. h;
  clock_program_id = 9;
  faucet_program_id = 21;
  bridge_program_id = 22;
}

-- The payment, to the bridge.
abbrev deposit : PublicTransaction
deposit = record payment { message = record payment.message { account_ids = 1 ∷ 22 ∷ [] } }

abbrev bridged : ℕ → ℕ → ℕ → List ℕ → V03State
bridged x y n history = record (ledger x 3 n history) {
  public_state =
      (ledger x 3 n history).public_state
      ++ (22, record { program_owner = 9; balance = y; data_bytes = []; nonce = 0 }) ∷ [];
}

deposit_goes_through :
    execute_check_on_state guarded (public deposit) (bridged 100 7 0 (6 ∷ [])) 1 1
    ≡ ok (some (bridged 95 12 1 (6 ∷ 6 ∷ [])))
unfolding execute_check_on_state validate_on_state compute_state_diff validate_restricted
    validate_doesnt_modify_account validate_bridge_account_modification bridge_account_id
    faucet_account_id for_public_pda from_public_transaction apply_state_diff n_unique check_nonces
    build_pre_states expected_account get_account_by_id get_program account_eq validate_execution
    from_balances wrapped_eq to_account_id is_valid_for compute_public_authorized_pdas
    public_message_hash signatures_are_valid signer_account_ids public_account_nonce_increment
    Merkle.root Merkle.ceil_log2
deposit_goes_through = refl

faucet_is_restricted : contains 21 (restricted_account_ids guarded) ≡ true
unfolding faucet_account_id for_public_pda
faucet_is_restricted = refl

public_deploys_nothing : (id : ℕ) → DeploysElsewhere guarded (public deposit) id
public_deploys_nothing id bytecode program_id h = cc

guards_keep_restricted_example :
    let a = get_account_by_id (bridged 100 7 0 (6 ∷ [])) 21 in
    let b = get_account_by_id (bridged 95 12 1 (6 ∷ 6 ∷ [])) 21 in
    (b.program_owner ≡ a.program_owner)
    × (b.balance ≡ a.balance)
    × (b.data_bytes ≡ a.data_bytes)
    × (b.nonce ≡ a.nonce + 0)
unfolding signer_account_ids
guards_keep_restricted_example =
    guards_keep_restricted guarded (public deposit) (bridged 100 7 0 (6 ∷ []))
      (bridged 95 12 1 (6 ∷ 6 ∷ [])) 1 1 21 toy-TypedOutputs faucet_is_restricted
      (public_deploys_nothing 21) deposit_goes_through

guards_keep_bridge_example :
    let a = get_account_by_id (bridged 100 7 0 (6 ∷ [])) (bridge_account_id guarded) in
    let b = get_account_by_id (bridged 95 12 1 (6 ∷ 6 ∷ [])) (bridge_account_id guarded) in
    (b.program_owner ≡ a.program_owner)
    × (b.data_bytes ≡ a.data_bytes)
    × (b.nonce ≡ a.nonce + 0)
    × ((b.balance ≡ a.balance)
        ⊎ ((a.balance < b.balance)
            × (transaction : PublicTransaction) × (public deposit ≡ public transaction)))
unfolding signer_account_ids bridge_account_id for_public_pda
guards_keep_bridge_example =
    guards_keep_bridge guarded (public deposit) (bridged 100 7 0 (6 ∷ []))
      (bridged 95 12 1 (6 ∷ 6 ∷ [])) 1 1 toy-TypedOutputs
      (public_deploys_nothing (bridge_account_id guarded)) deposit_goes_through
