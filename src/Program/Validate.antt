-- ===== src/Program/Validate.antt =====
-- lee/state_machine/core/src/program/mod.rs: `validate_execution`, the checks that every
-- execution of a program has to pass.
pub mod WellBehaved
use lssa.Prelude.{
  ℕ, ◌≡◌, Bool, true, false, not, ◌&&◌, Option, none, some, List, [], ◌∷◌, map, ltb, ◌==◌,
  if◌then◌else◌, list_eq, length, to_set, Result, ok, err, ensure, ◌>>◌, ◌>>=◌, ok_or,
}
use lssa.Account.{Account, AccountId, AccountWithMetadata, default_account, account_eq}
use lssa.Program.{AccountPostState, ProgramId, default_program_owner}
use lssa.Program.Ids.{to_account_id}
use lssa.Program.Balances.{WrappedBalanceSum, from_balances, wrapped_eq}

pub data ExecutionValidationError : Type 0 where
  pre_state_account_ids_not_unique : ExecutionValidationError
  mismatched_pre_state_post_state_length : ℕ → ℕ → ExecutionValidationError
  modified_nonce : AccountId → ExecutionValidationError
  modified_program_owner : AccountId → ExecutionValidationError
  unauthorized_balance_decrease : AccountId → AccountId → ProgramId → ExecutionValidationError
  unauthorized_data_modification : AccountId → ProgramId → ExecutionValidationError
  non_default_account_with_default_owner : AccountId → ExecutionValidationError
  balance_sum_overflow : ExecutionValidationError
  mismatched_total_balance : WrappedBalanceSum → WrappedBalanceSum → ExecutionValidationError

abbrev pub ids_of : List AccountWithMetadata → List AccountId
ids_of [] = []
ids_of (pre ∷ pres) = pre.account_id ∷ ids_of pres

abbrev pub pre_balances : List AccountWithMetadata → List ℕ
pre_balances [] = []
pre_balances (pre ∷ pres) = pre.account.balance ∷ pre_balances pres

abbrev pub post_balances : List AccountPostState → List ℕ
post_balances [] = []
post_balances (post ∷ posts) = post.account.balance ∷ post_balances posts

pub validate_uniqueness_of_account_ids : List AccountWithMetadata → Bool
validate_uniqueness_of_account_ids pres = length pres == length (to_set (ids_of pres))

-- The body of the loop over the accounts, rules 3 to 7.
pub validate_pair :
    AccountId
    → ProgramId
    → AccountWithMetadata
    → AccountPostState
    → Result ExecutionValidationError (Unit {0})
validate_pair executing_account_id executing_program_id pre post = do
  ensure (pre.account.nonce == post.account.nonce) (modified_nonce pre.account_id)
  ensure (pre.account.program_owner == post.account.program_owner)
      (modified_program_owner pre.account_id)
  ensure
      (not (
        ltb post.account.balance pre.account.balance
        && not (pre.account.program_owner == executing_account_id)))
      (unauthorized_balance_decrease pre.account_id pre.account.program_owner executing_program_id)
  ensure
      (not (
        not (list_eq pre.account.data_bytes post.account.data_bytes)
        && (not (account_eq pre.account default_account)
            && not (pre.account.program_owner == executing_account_id))))
      (unauthorized_data_modification pre.account_id executing_program_id)
  ensure
      (not (
        post.account.program_owner == default_program_owner
        && not (account_eq pre.account default_account)))
      (non_default_account_with_default_owner pre.account_id)

-- The loop over the accounts; `zip` ends with the shorter list.
pub validate_pairs :
    AccountId
    → ProgramId
    → List AccountWithMetadata
    → List AccountPostState
    → Result ExecutionValidationError (Unit {0})
unfolding validate_pair
validate_pairs aid pid [] posts = ok tt
validate_pairs aid pid (pre ∷ pres) [] = ok tt
validate_pairs aid pid (pre ∷ pres) (post ∷ posts) =
    let rest = validate_pairs aid pid pres posts in validate_pair aid pid pre post >> rest

-- Rule 8: the total balance is preserved.
pub validate_total :
    List AccountWithMetadata → List AccountPostState → Result ExecutionValidationError (Unit {0})
validate_total pres posts = do
  total_pre ← ok_or (from_balances (pre_balances pres)) balance_sum_overflow
  total_post ← ok_or (from_balances (post_balances posts)) balance_sum_overflow
  ensure (wrapped_eq total_pre total_post) (mismatched_total_balance total_pre total_post)

unfoldable pub validate_execution :
    List AccountWithMetadata
    → List AccountPostState
    → ProgramId
    → Result ExecutionValidationError (Unit {0})
unfolding validate_uniqueness_of_account_ids validate_pairs validate_total
validate_execution pres posts pid = do
  ensure (validate_uniqueness_of_account_ids pres) pre_state_account_ids_not_unique
  ensure (length pres == length posts)
      (mismatched_pre_state_post_state_length (length pres) (length posts))
  validate_pairs (to_account_id pid) pid pres posts
  validate_total pres posts
