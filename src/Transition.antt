-- ===== src/Transition.antt =====
-- lee/state_machine/src/state/mod.rs: the transitions of the state, each a validation and the
-- application of its diff. An error leaves the state as it was; `none` under `ok` is a panic of
-- the application.
pub mod Public
pub mod Private
pub mod ToyLedger
pub mod Tests
pub mod Steps
pub mod Deployment
use lssa.Prelude.{ℕ, Option, List, Result, ok, err, ◌>>=◌}
use lssa.State.{V03State, StateDiff, apply_state_diff}
use lssa.Error.{LeeError}
use lssa.Transaction.{Externals, PublicTransaction, PrivacyPreservingTransaction}
use lssa.Diff.Public.{from_public_transaction}
use lssa.Diff.Private.{from_privacy_preserving_transaction, from_program_deployment_transaction}

module _ (ext : Externals) where
  unfoldable pub transition_from_public_transaction :
      V03State → PublicTransaction → ℕ → ℕ → Result LeeError (Option V03State)
  transition_from_public_transaction s tx block_id timestamp = do
    diff ← from_public_transaction ext tx s block_id timestamp
    ok (apply_state_diff ext.sha256 s diff)

  pub transition_from_privacy_preserving_transaction :
      V03State → PrivacyPreservingTransaction → ℕ → ℕ → Result LeeError (Option V03State)
  transition_from_privacy_preserving_transaction s tx block_id timestamp = do
    diff ← from_privacy_preserving_transaction ext tx s block_id timestamp
    ok (apply_state_diff ext.sha256 s diff)

  pub transition_from_program_deployment_transaction :
      V03State → List ℕ → Result LeeError (Option V03State)
  transition_from_program_deployment_transaction s bytecode = do
    diff ← from_program_deployment_transaction ext bytecode s
    ok (apply_state_diff ext.sha256 s diff)
