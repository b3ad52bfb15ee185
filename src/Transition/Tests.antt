-- ===== src/Transition/Tests.antt =====
-- The theorems on the validation of transactions and on transitions, at a small ledger.
use lssa.Prelude.{◌≡◌, refl, none, some, [], ◌∷◌, ok, err, ◌⊎◌}
use lssa.Account.{account_eq, public_account_nonce_increment}
use lssa.Program.{default_program_owner}
use lssa.State.{
  V03State, get_account_by_id, get_program, apply_state_diff, check_commitments_are_new,
  check_nullifiers_are_valid,
}
use lssa.State.Accounts.{total}
use lssa.Error.{LeeError, invalid_input}
use lssa.Transaction.{
  public_message_hash, private_message_hash, signatures_are_valid, signer_account_ids,
}
use lssa.Transition.{
  transition_from_public_transaction, transition_from_privacy_preserving_transaction,
}
use lssa.Transition.Public.{
  transition_conserves_total, transition_keeps_accounts, replay_is_refused,
}
use lssa.Transition.Private.{no_double_spend, no_second_commitment}
use lssa.Transition.Steps.{here, next, private_step, Extends, Reach-Extends}
use lssa.Prelude.{ℕ, ◌++◌}
use lssa.Account.{data_try_from}
use lssa.State.{program_storage_owner}
use lssa.State.Deployed.{program_account}
use lssa.Error.{program_already_exists}
use lssa.Transaction.{Externals}
use lssa.Diff.Private.{from_program_deployment_transaction, program_new}
use lssa.Transition.{transition_from_program_deployment_transaction}
use lssa.Transition.Deployment.{deployment_stores_program}
use lssa.Merkle
use lssa.Diff.{n_unique, check_nonces, build_pre_states}
use lssa.Diff.Public.{from_public_transaction, expected_account}
use lssa.Diff.Private.{from_privacy_preserving_transaction}
use lssa.Program.Validate.{validate_execution}
use lssa.Program.Balances.{from_balances, wrapped_eq}
use lssa.Program.Ids.{to_account_id}
use lssa.Program.Pda.{compute_public_authorized_pdas}
use lssa.Program.Window.{is_valid_for}
use lssa.Transaction.{PrivacyPreservingTransaction}
use lssa.State.{StateDiff}
use lssa.Diff.Public.Accepted.{Accepted, from_public_transaction-Accepted}
use lssa.Diff.Private.Accepted.{
  PrivateAccepted, from_privacy_preserving_transaction-PrivateAccepted,
}
use lssa.Transition.ToyLedger.{toy, toy-TypedOutputs, ledger, payment, note}

payment_goes_through :
    transition_from_public_transaction toy (ledger 100 7 0 (6 ∷ [])) payment 1 1
    ≡ ok (some (ledger 95 12 1 (6 ∷ 6 ∷ [])))
unfolding transition_from_public_transaction from_public_transaction apply_state_diff n_unique
    check_nonces build_pre_states expected_account get_account_by_id get_program account_eq
    validate_execution from_balances wrapped_eq to_account_id is_valid_for
    compute_public_authorized_pdas public_message_hash signatures_are_valid signer_account_ids
    public_account_nonce_increment Merkle.root Merkle.ceil_log2
payment_goes_through = refl

transition_conserves_total_example : total (ledger 95 12 1 (6 ∷ 6 ∷ [])).public_state ≡ 107
transition_conserves_total_example =
    transition_conserves_total toy toy-TypedOutputs payment (ledger 100 7 0 (6 ∷ [])) 1 1
      (ledger 95 12 1 (6 ∷ 6 ∷ [])) payment_goes_through

transition_keeps_accounts_example :
    ((get_account_by_id (ledger 95 12 1 (6 ∷ 6 ∷ [])) 1).nonce ≡ 1)
    × ((9 ≡ default_program_owner)
        ⊎ ((get_account_by_id (ledger 95 12 1 (6 ∷ 6 ∷ [])) 1).program_owner ≡ 9))
unfolding get_account_by_id signer_account_ids
transition_keeps_accounts_example =
    transition_keeps_accounts toy toy-TypedOutputs payment (ledger 100 7 0 (6 ∷ [])) 1 1
      (ledger 95 12 1 (6 ∷ 6 ∷ [])) 1 payment_goes_through

replay_is_refused_example :
    transition_from_public_transaction toy (ledger 95 12 1 (6 ∷ 6 ∷ [])) payment 2 2
    ≡ err (invalid_input "Nonce mismatch")
replay_is_refused_example =
    replay_is_refused toy toy-TypedOutputs payment (ledger 100 7 0 (6 ∷ []))
      (ledger 95 12 1 (6 ∷ 6 ∷ [])) 1 1 2 2 8 1 [] refl payment_goes_through

-- The ledger that the note leaves.
abbrev noted : V03State
noted = record (ledger 100 7 0 []) {
  private_state = record {
    commitment_set = record {
      merkle_tree = record { nodes = 0 ∷ 6 ∷ 0 ∷ []; capacity = 2; len = 2 };
      commitments = (6, 0) ∷ (50, 1) ∷ [];
      root_history = 0 ∷ 6 ∷ [];
    };
    nullifier_set = 77 ∷ [];
  };
}

note_goes_through :
    transition_from_privacy_preserving_transaction toy (ledger 100 7 0 (6 ∷ [])) note 1 1
    ≡ ok (some noted)
unfolding transition_from_privacy_preserving_transaction from_privacy_preserving_transaction
    apply_state_diff n_unique check_nonces get_account_by_id is_valid_for check_commitments_are_new
    check_nullifiers_are_valid private_message_hash signatures_are_valid signer_account_ids
    Merkle.root Merkle.ceil_log2 Merkle.insert
note_goes_through = refl

no_double_spend_example :
    (e : LeeError) × (transition_from_privacy_preserving_transaction toy noted note 2 2 ≡ err e)
no_double_spend_example =
    no_double_spend toy (ledger 100 7 0 (6 ∷ [])) noted noted note note 1 1 2 2 77 note_goes_through
      here refl refl

no_second_commitment_example :
    (e : LeeError) × (transition_from_privacy_preserving_transaction toy noted note 2 2 ≡ err e)
no_second_commitment_example =
    no_second_commitment toy (ledger 100 7 0 (6 ∷ [])) noted noted note note 1 1 2 2 50
      note_goes_through here refl refl

Reach-Extends_example : Extends toy (ledger 100 7 0 (6 ∷ [])) noted
Reach-Extends_example = Reach-Extends toy (next here (private_step note 1 1 note_goes_through))

-- What the payment changes.
abbrev paid : StateDiff
paid = record {
  signer_account_ids = 1 ∷ [];
  public_diff =
      (1, record { program_owner = 9; balance = 95; data_bytes = []; nonce = 0 })
      ∷ (2, record { program_owner = 9; balance = 12; data_bytes = []; nonce = 4 })
      ∷ [];
  new_commitments = [];
  new_nullifiers = [];
  program = none;
}

payment_is_validated : from_public_transaction toy payment (ledger 100 7 0 (6 ∷ [])) 1 1 ≡ ok paid
unfolding from_public_transaction n_unique check_nonces build_pre_states expected_account
    get_account_by_id get_program account_eq validate_execution from_balances wrapped_eq
    to_account_id is_valid_for compute_public_authorized_pdas public_message_hash
    signatures_are_valid signer_account_ids
payment_is_validated = refl

from_public_transaction-Accepted_example : Accepted toy payment (ledger 100 7 0 (6 ∷ [])) paid
from_public_transaction-Accepted_example =
    from_public_transaction-Accepted toy payment (ledger 100 7 0 (6 ∷ [])) 1 1 paid
      payment_is_validated

-- The note with a public account, signed by its holder.
abbrev signed_note : PrivacyPreservingTransaction
signed_note = record note {
  message = record note.message {
    public_actions =
        record {
          account_id = 1;
          post_state = record { program_owner = 9; balance = 60; data_bytes = []; nonce = 0 };
        }
        ∷ [];
    nonces = 0 ∷ [];
    block_validity_window = record { start = some 1; end = some 5 };
  };
  signatures_and_public_keys = (8, 1) ∷ [];
}

abbrev spent : StateDiff
spent = record {
  signer_account_ids = 1 ∷ [];
  public_diff = (1, record { program_owner = 9; balance = 60; data_bytes = []; nonce = 0 }) ∷ [];
  new_commitments = 50 ∷ [];
  new_nullifiers = 77 ∷ [];
  program = none;
}

note_is_validated :
    from_privacy_preserving_transaction toy signed_note (ledger 100 7 0 (6 ∷ [])) 1 1 ≡ ok spent
unfolding from_privacy_preserving_transaction n_unique check_nonces get_account_by_id is_valid_for
    check_commitments_are_new check_nullifiers_are_valid private_message_hash signatures_are_valid
    signer_account_ids
note_is_validated = refl

from_privacy_preserving_transaction-PrivateAccepted_example :
    PrivateAccepted toy signed_note (ledger 100 7 0 (6 ∷ [])) 1 1 spent
from_privacy_preserving_transaction-PrivateAccepted_example =
    from_privacy_preserving_transaction-PrivateAccepted toy signed_note (ledger 100 7 0 (6 ∷ [])) 1
      1 spent note_is_validated

-- The machine gives the identifier 12 to every code.
abbrev deployer : Externals
deployer = record toy { image_id = λ bytes. some 12 }

abbrev before : V03State
before = ledger 100 7 0 (6 ∷ [])

abbrev deployed_to : V03State
deployed_to = record (ledger 100 7 0 (6 ∷ 6 ∷ [])) {
  public_state =
      before.public_state
      ++ ((
        12,
        record {
          program_owner = program_storage_owner;
          balance = 0;
          data_bytes = 3 ∷ [];
          nonce = 0;
        },
      )
          ∷ []);
}

deployment_goes_through :
    transition_from_program_deployment_transaction deployer before (3 ∷ []) ≡ ok (some deployed_to)
unfolding transition_from_program_deployment_transaction from_program_deployment_transaction
    program_new get_program apply_state_diff to_account_id data_try_from Merkle.root
    Merkle.ceil_log2
deployment_goes_through = refl

deployment_stores_program_example :
    (id : ℕ) × (some 12 ≡ some id)
    × (get_program before id ≡ none)
    × (get_program deployed_to id ≡ some (program_account (3 ∷ [])))
    × (transition_from_program_deployment_transaction deployer deployed_to (3 ∷ [])
        ≡ err program_already_exists)
deployment_stores_program_example =
    deployment_stores_program deployer before deployed_to (3 ∷ []) deployment_goes_through
