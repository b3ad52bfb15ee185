-- ===== src/Transition/Public.antt =====
-- Public transactions and the ledger's accounts: balances, owners and nonces
-- (lee/state_machine/src/state/mod.rs, validated_state_diff/mod.rs).
use lssa.Prelude.{
  ℕ, suc, ◌+◌, ◌≡◌, ◌≢◌, ◌⊎◌, refl, sym, ◌∙◌, ap, subst, some, List, [], ◌∷◌, arith, ok, err,
  >>=-eq-ok, ok-injective, Map, count, extend,
}
use lssa.Account.{Account, AccountId}
use lssa.Program.{default_program_owner}
use lssa.Error.{invalid_input}
use lssa.State.{V03State, account_in, get_account_by_id, apply_state_diff, increment_nonces}
use lssa.State.Accounts.{
  total, total-extend, account_in-extend, Signed, increment_nonces-Signed, increment_nonces-total,
  apply_state_diff-accounts, get_account_by_id_lem,
}
use lssa.Transaction.{Externals, PublicTransaction, signer_account_ids, account_id_of_key}
use lssa.Diff.Public.{from_public_transaction, expected_account, max_number_chained_calls}
use lssa.Diff.Public.Calls.{TypedOutputs, run_calls_inv}
use lssa.Diff.Public.Kept.{Kept, AllKept, CallEffect-AllKept, AllKept-nil, expected_account_lem}
use lssa.Diff.Public.Conservation.{
  IsBalanced, CallEffect-IsBalanced, IsBalanced-nil, new_total-eq-total, old_total-eq-stored,
}
use lssa.Diff.Public.Outcome.{
  from_public_transaction-Validated, signers, public_only, authenticate_replayed,
}
use lssa.Transition.{transition_from_public_transaction}

Kept-Signed :
    {n : ℕ} {a b c : Account}
    → Kept a b
    → Signed n b c
    → (c.nonce ≡ a.nonce + n)
      × ((a.program_owner ≡ default_program_owner) ⊎ (c.program_owner ≡ a.program_owner))
Kept-Signed k g = ground arith

module _ (ext : Externals) (typed : TypedOutputs ext) (tx : PublicTransaction) (s : V03State)
    (block_id timestamp : ℕ) where
  -- The final accounts of a transition, as the diff and the signatures make them.
  record Transitioned (s' : V03State) : Type 0 where
    m : Map Account
    balanced : IsBalanced s m
    kept : AllKept s m
    signed :
        increment_nonces (extend s.public_state m) (signers ext tx s block_id timestamp)
        ≡ some s'.public_state

  transition-Transitioned :
      (s' : V03State)
      → transition_from_public_transaction ext s tx block_id timestamp ≡ ok (some s')
      → Transitioned s'
  unfolding transition_from_public_transaction
  transition-Transitioned s' h =
      let (diff, validated, applied) =
        >>=-eq-ok (from_public_transaction ext tx s block_id timestamp) _ h in
      let (m, v, is) =
        from_public_transaction-Validated ext tx s block_id timestamp diff validated in
      record {
        m = m;
        balanced =
            run_calls_inv ext s block_id timestamp (IsBalanced s) typed
              (CallEffect-IsBalanced ext s) (suc max_number_chained_calls) _ [] (IsBalanced-nil s)
              v.ran;
        kept =
            run_calls_inv ext s block_id timestamp (AllKept s) typed (CallEffect-AllKept ext s)
              (suc max_number_chained_calls) _ [] (AllKept-nil s) v.ran;
        signed =
            apply_state_diff-accounts ext.sha256 s s' (public_only ext tx s block_id timestamp m)
              refl
              (subst (λ d. apply_state_diff ext.sha256 s d ≡ some s') is (ok-injective applied));
      }

  transition-Signed :
      (s' : V03State) (t : Transitioned s') (id : AccountId)
      → Signed
          (count id (signers ext tx s block_id timestamp))
          (expected_account s t.m id)
          (account_in s'.public_state id)
  transition-Signed s' t id =
      subst
        (λ a.
          Signed (count id (signers ext tx s block_id timestamp)) a (account_in s'.public_state id))
        same (increment_nonces-Signed (extend s.public_state t.m) s'.public_state _ id t.signed)
    where
      same : account_in (extend s.public_state t.m) id ≡ expected_account s t.m id
      same =
          account_in-extend s.public_state t.m id t.balanced.distinct
          ∙ sym (expected_account_lem s t.m id)

  -- A public transaction that goes through leaves the sum of all public balances unchanged, provided that the
  -- balances in the outputs of the programs are 128-bit numbers.
  pub transition_conserves_total :
      (s' : V03State)
      → transition_from_public_transaction ext s tx block_id timestamp ≡ ok (some s')
      → total s'.public_state ≡ total s.public_state
  transition_conserves_total s' h =
      let t : Transitioned s' = transition-Transitioned s' h in
      omega (
        arith,
        increment_nonces-total (extend s.public_state t.m) s'.public_state _ t.signed,
        total-extend s.public_state t.m t.balanced.distinct,
        t.balanced.totals,
        new_total-eq-total t.m,
        old_total-eq-stored s t.m,
      )

  -- After a public transaction that goes through, the nonce of every account has grown by the
  -- number of signatures that the account has on the transaction, and every account with an
  -- owner has the same owner, provided that the balances in the outputs of the programs are
  -- 128-bit numbers.
  pub transition_keeps_accounts :
      (s' : V03State) (id : AccountId)
      → transition_from_public_transaction ext s tx block_id timestamp ≡ ok (some s')
      → let a = get_account_by_id s id in
        let b = get_account_by_id s' id in
        (b.nonce ≡ a.nonce + count id (signer_account_ids ext tx.signatures_and_public_keys))
        × ((a.program_owner ≡ default_program_owner) ⊎ (b.program_owner ≡ a.program_owner))
  transition_keeps_accounts s' id h =
      let t : Transitioned s' = transition-Transitioned s' h in
      let k : Kept (get_account_by_id s id) (expected_account s t.m id) = t.kept id in
      rw (get_account_by_id_lem s' id) (Kept-Signed k (transition-Signed s' t id))

-- A public transaction with a signature that went through cannot go through again: in the
-- state that it led to it is refused for its nonce, whatever the block and the time, provided
-- that the balances in the outputs of the programs are 128-bit numbers.
pub replay_is_refused :
    (ext : Externals)
    → TypedOutputs ext
    → (tx : PublicTransaction) (s s' : V03State) (block_id timestamp later_block later : ℕ)
      (signature key : ℕ) (rest : List (ℕ × ℕ))
    → tx.signatures_and_public_keys ≡ (signature, key) ∷ rest
    → transition_from_public_transaction ext s tx block_id timestamp ≡ ok (some s')
    → transition_from_public_transaction ext s' tx later_block later
      ≡ err (invalid_input "Nonce mismatch")
unfolding transition_from_public_transaction signer_account_ids
replay_is_refused ext typed tx s s' block_id timestamp later_block later signature key rest e h =
    let id = account_id_of_key ext key in
    let signed : signer_account_ids ext tx.signatures_and_public_keys
        ≡ id ∷ signer_account_ids ext rest =
      ap (signer_account_ids ext) e in
    let (nonces, _) = transition_keeps_accounts ext typed tx s block_id timestamp s' id h in
    let (diff, validated, applied) =
      >>=-eq-ok (from_public_transaction ext tx s block_id timestamp) _ h in
    let (_, v, _) = from_public_transaction-Validated ext tx s block_id timestamp diff validated in
    let once : count id (signer_account_ids ext tx.signatures_and_public_keys) ≢ 0 =
      rw signed (ground arith) in
    rw (
      authenticate_replayed ext tx s s' id (signer_account_ids ext rest) _ signed v.authenticated
        (omega (arith, nonces, once)) later_block later)
