-- ===== src/Transition/Deployment.antt =====
-- Program deployments (lee/state_machine/src/state/mod.rs, validated_state_diff/mod.rs).
use lssa.Prelude.{ℕ, ◌≡◌, refl, subst, none, some, List, ok, err, >>=-eq-ok, ok-injective}
use lssa.Error.{program_already_exists}
use lssa.State.{V03State, apply_state_diff, get_program}
use lssa.Transaction.{Externals}
use lssa.State.Deployed.{program_account, apply_state_diff-program}
use lssa.Diff.Private.Deployed.{deployed, deployed_again, deployment_diff}
use lssa.Diff.Private.{from_program_deployment_transaction}
use lssa.Transition.{transition_from_program_deployment_transaction}

module _ (ext : Externals) where
  -- A program that was deployed was not there before and is stored with its code afterwards, so that a second deployment of
  -- it is refused.
  pub deployment_stores_program :
      (s s' : V03State) (bytecode : List ℕ)
      → transition_from_program_deployment_transaction ext s bytecode ≡ ok (some s')
      → (id : ℕ) × (ext.image_id bytecode ≡ some id)
        × (get_program s id ≡ none)
        × (get_program s' id ≡ some (program_account bytecode))
        × (transition_from_program_deployment_transaction ext s' bytecode
            ≡ err program_already_exists)
  unfolding transition_from_program_deployment_transaction
  deployment_stores_program s s' bytecode h =
      let (diff, validated, applied) =
        >>=-eq-ok (from_program_deployment_transaction ext bytecode s) _ h in
      let (id, known, absent, is) = deployed ext bytecode s diff validated in
      let stored : get_program s' id ≡ some (program_account bytecode) =
        apply_state_diff-program ext.sha256 s s' (deployment_diff id bytecode)
          (record { id = id; elf = bytecode }) refl
          (subst (λ d. apply_state_diff ext.sha256 s d ≡ some s') is (ok-injective applied)) in
      (
        id,
        known,
        absent,
        stored,
        rw (deployed_again ext bytecode s' id (program_account bytecode) known stored) refl,
      )
