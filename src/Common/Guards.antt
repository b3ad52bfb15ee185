-- ===== src/Common/Guards.antt =====
-- lez/common/src/transaction.rs: the execution of a transaction, and the guards on the system's
-- accounts that a user's transaction has to pass.
use lssa.Prelude.{
  ℕ, Bool, true, false, ◌&&◌, Option, none, some, List, [], ◌∷◌, ◌++◌, String, ltb, ◌==◌,
  if◌then◌else◌, list_eq, lookup, Result, ok, err, ensure, ◌>>◌, ◌>>=◌,
}
use lssa.Prelude.Digits.{from_digits}
use lssa.Account.{Account, AccountId, account_eq}
use lssa.Program.Pda.{for_public_pda}
use lssa.Commitment.{prefix}
use lssa.Error.{LeeError, invalid_input}
use lssa.State.{V03State, StateDiff, apply_state_diff, get_account_by_id}
use lssa.Transaction.{
  PublicTransaction, Signatures, public_message_hash, private_message_hash, signatures_are_valid,
}
use lssa.Diff.Public.{from_public_transaction}
use lssa.Diff.Private.{from_privacy_preserving_transaction, from_program_deployment_transaction}
use lssa.Common.{
  ChainExternals, LeeTransaction, TxKind, public, privacy_preserving, program_deployment,
  public_kind, privacy_preserving_kind, program_deployment_kind,
}

pub data TransactionMalformationError : Type 0 where
  invalid_signature : TransactionMalformationError
  failed_to_decode : ℕ → TransactionMalformationError
  transaction_too_large : ℕ → ℕ → TransactionMalformationError

-- An identifier of 32 characters.
abbrev named : String → AccountId
named text = from_digits 256 (prefix text 0)

-- `CLOCK_PROGRAM_ACCOUNT_IDS`, of lez/programs/clock/core/src/lib.rs.
abbrev pub clock_account_ids : List AccountId
clock_account_ids =
    named "/LEZ/ClockProgramAccount/0000001"
    ∷ named "/LEZ/ClockProgramAccount/0000010"
    ∷ named "/LEZ/ClockProgramAccount/0000050"
    ∷ []

-- `LeeTransaction::kind`.
unfoldable pub kind : LeeTransaction → TxKind
kind (public tx) = public_kind
kind (privacy_preserving tx) = privacy_preserving_kind
kind (program_deployment bytecode) = program_deployment_kind

-- The derived `==` of the parts of a public transaction.
abbrev pub signatures_eq : Signatures → Signatures → Bool
signatures_eq [] [] = true
signatures_eq [] ((t, k) ∷ ts) = false
signatures_eq ((s, j) ∷ ss) [] = false
signatures_eq ((s, j) ∷ ss) ((t, k) ∷ ts) = s == t && (j == k && signatures_eq ss ts)

unfoldable pub transaction_eq : PublicTransaction → PublicTransaction → Bool
transaction_eq a b =
    a.message.program_id == b.message.program_id
    && (list_eq a.message.account_ids b.message.account_ids
        && (list_eq a.message.nonces b.message.nonces
            && (list_eq a.message.instruction_data b.message.instruction_data
                && signatures_eq a.signatures_and_public_keys b.signatures_and_public_keys)))

-- The identifier is left out of the texts of these errors.
unfoldable pub validate_doesnt_modify_account :
    V03State → StateDiff → AccountId → Result LeeError (Unit {0})
validate_doesnt_modify_account s diff account_id = elim (lookup account_id diff.public_diff) [
  | none ↦ ok tt
  | some post ↦
      ensure (account_eq post (get_account_by_id s account_id))
        (invalid_input "Transaction modifies restricted system account")
]

-- The loop over the restricted accounts.
unfoldable pub validate_restricted :
    V03State → StateDiff → List AccountId → Result LeeError (Unit {0})
unfolding validate_doesnt_modify_account
validate_restricted s diff [] = ok tt
validate_restricted s diff (id ∷ ids) =
    validate_doesnt_modify_account s diff id >> validate_restricted s diff ids

-- The test `only_balance_increased`.
abbrev pub only_balance_increased : Account → Account → Bool
only_balance_increased pre post =
    account_eq (record post { balance = pre.balance }) pre && ltb pre.balance post.balance

module _ (ext : ChainExternals) where
  -- `faucet_account_id`, of lez/system_accounts/src/lib.rs and lez/programs/faucet/core.
  unfoldable pub faucet_account_id : AccountId
  faucet_account_id =
      for_public_pda ext.ledger.sha256 ext.faucet_program_id
        (named "/LEZ/v0.3/FaucetSeed/0000000000/")

  -- `bridge_account_id`, of lez/system_accounts/src/lib.rs and lez/programs/bridge/core.
  unfoldable pub bridge_account_id : AccountId
  bridge_account_id =
      for_public_pda ext.ledger.sha256 ext.bridge_program_id
        (named "/LEZ/v0.3/BridgeSeed/0000000000/")

  unfoldable pub clock_invocation : ℕ → PublicTransaction
  clock_invocation timestamp = record {
    message = record {
      program_id = ext.clock_program_id;
      account_ids = clock_account_ids;
      nonces = [];
      instruction_data = ext.timestamp_words timestamp;
    };
    signatures_and_public_keys = [];
  }

  -- `WitnessSet::is_valid_for` and `signatures_are_valid_for` check the signatures.
  unfoldable pub transaction_stateless_check :
      LeeTransaction → Result TransactionMalformationError LeeTransaction
  transaction_stateless_check (public tx) =
      if signatures_are_valid ext.ledger (public_message_hash ext.ledger tx.message)
        tx.signatures_and_public_keys
      then ok (public tx)
      else err invalid_signature
  transaction_stateless_check (privacy_preserving tx) =
      if signatures_are_valid ext.ledger (private_message_hash ext.ledger tx.message)
        tx.signatures_and_public_keys
      then ok (privacy_preserving tx)
      else err invalid_signature
  transaction_stateless_check (program_deployment bytecode) = ok (program_deployment bytecode)

  unfoldable pub compute_state_diff : LeeTransaction → V03State → ℕ → ℕ → Result LeeError StateDiff
  compute_state_diff (public tx) s block_id timestamp =
      from_public_transaction ext.ledger tx s block_id timestamp
  compute_state_diff (privacy_preserving tx) s block_id timestamp =
      from_privacy_preserving_transaction ext.ledger tx s block_id timestamp
  compute_state_diff (program_deployment bytecode) s block_id timestamp =
      from_program_deployment_transaction ext.ledger bytecode s

  unfoldable pub validate_bridge_account_modification :
      LeeTransaction → V03State → StateDiff → Result LeeError (Unit {0})
  validate_bridge_account_modification tx s diff =
      let pre = get_account_by_id s bridge_account_id in
      elim (lookup bridge_account_id diff.public_diff) [
        | none ↦ ok tt
        | some post ↦ elim tx [
          | public _ ↦
              ensure (only_balance_increased pre post)
                (invalid_input "Transaction modifies restricted system bridge account")
          | privacy_preserving _ ↦
              err (invalid_input "Non-public transaction cannot modify system bridge account")
          | program_deployment _ ↦
              err (invalid_input "Non-public transaction cannot modify system bridge account")
        ]
      ]

  abbrev pub restricted_account_ids : List AccountId
  restricted_account_ids = clock_account_ids ++ faucet_account_id ∷ []

  unfoldable pub validate_on_state : LeeTransaction → V03State → ℕ → ℕ → Result LeeError StateDiff
  validate_on_state tx s block_id timestamp = do
    diff ← compute_state_diff tx s block_id timestamp
    validate_restricted s diff restricted_account_ids
    validate_bridge_account_modification tx s diff
    ok diff

  -- The state that is left, in place of the transaction that the code hands back; `none` under
  -- `ok` is a panic of the application.
  unfoldable pub execute_check_on_state :
      LeeTransaction → V03State → ℕ → ℕ → Result LeeError (Option V03State)
  execute_check_on_state tx s block_id timestamp = do
    diff ← validate_on_state tx s block_id timestamp
    ok (apply_state_diff ext.ledger.sha256 s diff)

  unfoldable pub execute_on_state :
      LeeTransaction → V03State → ℕ → ℕ → Result LeeError (Option V03State)
  execute_on_state tx s block_id timestamp = do
    diff ← compute_state_diff tx s block_id timestamp
    ok (apply_state_diff ext.ledger.sha256 s diff)
