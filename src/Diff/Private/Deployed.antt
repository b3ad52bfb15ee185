-- ===== src/Diff/Private/Deployed.antt =====
-- The validation of a program deployment
-- (lee/state_machine/src/validated_state_diff/mod.rs).
use lssa.Prelude.{
  ℕ, ◌≡◌, refl, sym, none, some, List, [], arith, ok, err, ok-injective, Option-cases, inl, inr,
}
use lssa.Error.{program_already_exists}
use lssa.Account.{Account}
use lssa.State.{V03State, StateDiff, get_program}
use lssa.Transaction.{Externals}
use lssa.Diff.Private.{from_program_deployment_transaction, program_new}

abbrev pub deployment_diff : ℕ → List ℕ → StateDiff
deployment_diff id bytecode = record {
  signer_account_ids = [];
  public_diff = [];
  new_commitments = [];
  new_nullifiers = [];
  program = some (record { id = id; elf = bytecode });
}

module _ (ext : Externals) (bytecode : List ℕ) (s : V03State) where
  pub deployed :
      (diff : StateDiff)
      → from_program_deployment_transaction ext bytecode s ≡ ok diff
      → (id : ℕ) × (ext.image_id bytecode ≡ some id)
        × (get_program s id ≡ none)
        × (diff ≡ deployment_diff id bytecode)
  unfolding from_program_deployment_transaction program_new
  deployed diff h = elim (Option-cases (ext.image_id bytecode)) [
    | inl invalid ↦ absurd (ground (arith, invalid))
    | inr (id, known) ↦ elim (Option-cases (get_program s id)) [
      | inl absent ↦ (id, known, absent, sym (ok-injective (rw (known, absent) at h)))
      | inr (a, present) ↦ absurd (ground (arith, known, present))
    ]
  ]

  pub deployed_again :
      (id : ℕ) (a : Account)
      → ext.image_id bytecode ≡ some id
      → get_program s id ≡ some a
      → from_program_deployment_transaction ext bytecode s ≡ err program_already_exists
  unfolding from_program_deployment_transaction program_new
  deployed_again id a known present = rw (known, present) refl
