-- ===== src/Common/GuardsKept.antt =====
-- lez/common/src/transaction.rs: what the guards on the system's accounts keep.
use lssa.Prelude.Options.{some-injective, none-ne-some}
use lssa.Prelude.{
  ℕ, suc, ◌+◌, count, ◌≡◌, ◌≢◌, ◌<◌, ltb→lt, ◌&&◌, ◌⊎◌, inl, inr, refl, sym, ◌∙◌, ap, subst, Bool,
  true, false, some, List, [], ◌∷◌, ◌==◌, ==_iff, ok, err, ensure, >>=-eq-ok, >>-eq-ok,
  ensure-eq-ok, ok-injective, Map, lookup, insert, extend, keys, keys-insert-IsDistinct, IsDistinct,
  contains, Option-cases, Bool-cases,
}
use lssa.Account.{Account, AccountId, account_eq-eq}
use lssa.Program.Ids.{to_account_id}
use lssa.State.{V03State, StateDiff, Program, account_in, get_account_by_id, apply_state_diff}
use lssa.State.Accounts.{diffed, apply_state_diff-Signed, get_account_by_id_lem}
use lssa.Transaction.{PublicTransaction, signer_account_ids}
use lssa.Error.{invalid_input}
use lssa.Diff.Public.{max_number_chained_calls}
use lssa.Diff.Public.Calls.{TypedOutputs, run_calls_inv}
use lssa.Diff.Public.Conservation.{IsBalanced, CallEffect-IsBalanced, IsBalanced-nil}
use lssa.Diff.Public.Outcome.{from_public_transaction-Validated}
use lssa.Diff.Private.{public_entries}
use lssa.Diff.Private.Checks.{from_privacy-PrivateChecked}
use lssa.Diff.Private.Deployed.{deployed}
use lssa.Common.{ChainExternals, LeeTransaction, public, privacy_preserving, program_deployment}
use lssa.Common.Guards.{
  compute_state_diff, validate_doesnt_modify_account, validate_restricted, bridge_account_id,
  validate_bridge_account_modification, restricted_account_ids, only_balance_increased,
  validate_on_state, execute_check_on_state,
}

keys-extend-IsDistinct :
    (m es : Map Account) → IsDistinct (keys m) → IsDistinct (keys (extend m es))
keys-extend-IsDistinct m [] h = h
keys-extend-IsDistinct m ((k, v) ∷ es) h =
    keys-extend-IsDistinct (insert k v m) es (keys-insert-IsDistinct k v m h)

validate_doesnt_modify_account-eq :
    (s : V03State) (diff : StateDiff) (id : AccountId)
    → validate_doesnt_modify_account s diff id ≡ ok tt
    → diffed s diff id ≡ get_account_by_id s id
unfolding validate_doesnt_modify_account get_account_by_id
validate_doesnt_modify_account-eq s diff id h = elim (Option-cases (lookup id diff.public_diff)) [
  | inl absent ↦ rw (absent, diffed) refl
  | inr (post, present) ↦
      rw (present, diffed)
        (account_eq-eq post (account_in s.public_state id)
          (ensure-eq-ok _ _ (rw (present, validate_doesnt_modify_account) at h)))
]

validate_restricted-eq :
    (s : V03State) (diff : StateDiff) (ids : List AccountId) (id : AccountId)
    → contains id ids ≡ true
    → validate_restricted s diff ids ≡ ok tt
    → diffed s diff id ≡ get_account_by_id s id
unfolding validate_restricted
validate_restricted-eq s diff [] id member h = cc
validate_restricted-eq s diff (i ∷ ids) id member h =
    let (head_kept, rest) = >>-eq-ok (validate_doesnt_modify_account s diff i) _ h in
    elim (Bool-cases (id == i)) [
      | inl same ↦
          subst (λ k. diffed s diff k ≡ get_account_by_id s k) (sym ((==_iff id i).0 same))
            (validate_doesnt_modify_account-eq s diff i head_kept)
      | inr other ↦ validate_restricted-eq s diff ids id (rw other at member) rest
    ]

module _ (ext : ChainExternals) where
  -- The account that a deployment stores its program in is not the given one.
  abbrev pub DeploysElsewhere : LeeTransaction → AccountId → Type 0
  DeploysElsewhere tx id =
      (bytecode : List ℕ) (program_id : ℕ)
      → tx ≡ program_deployment bytecode
      → ext.ledger.image_id bytecode ≡ some program_id
      → to_account_id program_id ≢ id

  compute_state_diff-IsDistinct :
      (tx : LeeTransaction) (s : V03State) (block_id timestamp : ℕ) (diff : StateDiff)
      → TypedOutputs ext.ledger
      → compute_state_diff ext tx s block_id timestamp ≡ ok diff
      → IsDistinct (keys diff.public_diff)
  unfolding compute_state_diff
  compute_state_diff-IsDistinct (public tx) s block_id timestamp diff typed h =
      let (m, v, is) =
        from_public_transaction-Validated ext.ledger tx s block_id timestamp diff h in
      let balanced : IsBalanced s m =
        run_calls_inv ext.ledger s block_id timestamp (IsBalanced s) typed
          (CallEffect-IsBalanced ext.ledger s) (suc max_number_chained_calls) _ []
          (IsBalanced-nil s) v.ran in
      rw is balanced.distinct
  compute_state_diff-IsDistinct (privacy_preserving tx) s block_id timestamp diff typed h =
      let k = from_privacy-PrivateChecked ext.ledger tx s block_id timestamp diff h in
      rw (k.accounts_are) (keys-extend-IsDistinct [] (public_entries tx.message.public_actions) tt)
  compute_state_diff-IsDistinct (program_deployment bytecode) s block_id timestamp diff typed h =
      let (id, _, _, is) = deployed ext.ledger bytecode s diff h in rw is tt

  compute_state_diff-away :
      (tx : LeeTransaction) (s : V03State) (block_id timestamp : ℕ) (diff : StateDiff)
      (id : AccountId)
      → DeploysElsewhere tx id
      → compute_state_diff ext tx s block_id timestamp ≡ ok diff
      → (q : Program) → diff.program ≡ some q
      → to_account_id q.id ≢ id
  unfolding compute_state_diff
  compute_state_diff-away (public tx) s block_id timestamp diff id away h q p =
      let (m, v, is) =
        from_public_transaction-Validated ext.ledger tx s block_id timestamp diff h in
      absurd (none-ne-some (rw is at p))
  compute_state_diff-away (privacy_preserving tx) s block_id timestamp diff id away h q p =
      let k = from_privacy-PrivateChecked ext.ledger tx s block_id timestamp diff h in
      absurd (none-ne-some (sym k.no_program ∙ p))
  compute_state_diff-away (program_deployment bytecode) s block_id timestamp diff id away h q p =
      let (program_id, known, _, is) = deployed ext.ledger bytecode s diff h in
      let same = some-injective (rw is at p) in
      subst (λ (r : Program). to_account_id r.id ≢ id) same (away bytecode program_id refl known)

  -- The accounts that signed a transaction; a deployment has no signatures.
  abbrev pub signers_of : LeeTransaction → List AccountId
  signers_of (public tx) = signer_account_ids ext.ledger tx.signatures_and_public_keys
  signers_of (privacy_preserving tx) = signer_account_ids ext.ledger tx.signatures_and_public_keys
  signers_of (program_deployment bytecode) = []

  compute_state_diff-signers_of :
      (tx : LeeTransaction) (s : V03State) (block_id timestamp : ℕ) (diff : StateDiff)
      → compute_state_diff ext tx s block_id timestamp ≡ ok diff
      → diff.signer_account_ids ≡ signers_of tx
  unfolding compute_state_diff
  compute_state_diff-signers_of (public tx) s block_id timestamp diff h =
      let (m, v, is) =
        from_public_transaction-Validated ext.ledger tx s block_id timestamp diff h in
      rw is refl
  compute_state_diff-signers_of (privacy_preserving tx) s block_id timestamp diff h =
      (from_privacy-PrivateChecked ext.ledger tx s block_id timestamp diff h).signers_are
  compute_state_diff-signers_of (program_deployment bytecode) s block_id timestamp diff h =
      let (_, _, _, is) = deployed ext.ledger bytecode s diff h in rw is refl

  -- What a transaction that passed the guards did to an account.
  execute_check_on_state-parts :
      (tx : LeeTransaction) (s s' : V03State) (block_id timestamp : ℕ)
      → execute_check_on_state ext tx s block_id timestamp ≡ ok (some s')
      → (diff : StateDiff) × (compute_state_diff ext tx s block_id timestamp ≡ ok diff)
        × (validate_restricted s diff (restricted_account_ids ext) ≡ ok tt)
        × (validate_bridge_account_modification ext tx s diff ≡ ok tt)
        × (apply_state_diff ext.ledger.sha256 s diff ≡ some s')
  unfolding execute_check_on_state validate_on_state
  execute_check_on_state-parts tx s s' block_id timestamp h =
      let (diff, validated, applied) =
        >>=-eq-ok (validate_on_state ext tx s block_id timestamp) _ h in
      let (diff', computed, h₁) =
        >>=-eq-ok (compute_state_diff ext tx s block_id timestamp) _ validated in
      let (restricted, h₂) =
        >>-eq-ok (validate_restricted s diff' (restricted_account_ids ext)) _ h₁ in
      let (bridge, h₃) = >>-eq-ok (validate_bridge_account_modification ext tx s diff') _ h₂ in
      (
        diff',
        computed,
        restricted,
        bridge,
        ap (apply_state_diff ext.ledger.sha256 s) (ok-injective h₃) ∙ ok-injective applied,
      )

  -- No user transaction changes a clock account or the faucet: after one that passed the guards and went through, the
  -- account has the owner, the balance and the data it had, and its nonce has grown by just the number of the
  -- account's own signatures on the transaction, provided that the balances in the outputs of the
  -- programs are 128-bit numbers and that no program is deployed under the account's identifier.
  pub guards_keep_restricted :
      (tx : LeeTransaction) (s s' : V03State) (block_id timestamp : ℕ) (id : AccountId)
      → TypedOutputs ext.ledger
      → contains id (restricted_account_ids ext) ≡ true
      → DeploysElsewhere tx id
      → execute_check_on_state ext tx s block_id timestamp ≡ ok (some s')
      → let a = get_account_by_id s id in
        let b = get_account_by_id s' id in
        (b.program_owner ≡ a.program_owner)
        × (b.balance ≡ a.balance)
        × (b.data_bytes ≡ a.data_bytes)
        × (b.nonce ≡ a.nonce + count id (signers_of tx))
  guards_keep_restricted tx s s' block_id timestamp id typed member away h =
      let (diff, computed, restricted, _, applied) =
        execute_check_on_state-parts tx s s' block_id timestamp h in
      let kept : diffed s diff id ≡ get_account_by_id s id =
        validate_restricted-eq s diff (restricted_account_ids ext) id member restricted in
      let signed = rw (compute_state_diff-signers_of tx s block_id timestamp diff computed) at (
        apply_state_diff-Signed ext.ledger.sha256 s s' diff id
          (compute_state_diff-IsDistinct tx s block_id timestamp diff typed computed)
          (compute_state_diff-away tx s block_id timestamp diff id away computed) applied) in
      let after = rw kept at signed in
      rw (get_account_by_id_lem s' id)
        (after.same_owner, after.same_balance, after.same_data, after.counted)

  bridge_kept :
      (tx : LeeTransaction) (s : V03State) (diff : StateDiff)
      → validate_bridge_account_modification ext tx s diff ≡ ok tt
      → let a = get_account_by_id s (bridge_account_id ext) in
        (diffed s diff (bridge_account_id ext) ≡ a)
        ⊎ ((transaction : PublicTransaction) × (tx ≡ public transaction)
            × (only_balance_increased a (diffed s diff (bridge_account_id ext)) ≡ true))
  unfolding validate_bridge_account_modification get_account_by_id
  bridge_kept tx s diff h = elim (Option-cases (lookup (bridge_account_id ext) diff.public_diff)) [
    | inl absent ↦ inl (rw (absent, diffed) refl)
    | inr (post, present) ↦
        inr
          (by_transaction tx post present (rw (present, validate_bridge_account_modification) at h))
  ]
    where
      by_transaction :
          (u : LeeTransaction) (post : Account)
          → lookup (bridge_account_id ext) diff.public_diff ≡ some post
          → elim u [
            | public _ ↦
                ensure
                  (only_balance_increased (account_in s.public_state (bridge_account_id ext)) post)
                  (invalid_input "Transaction modifies restricted system bridge account")
            | privacy_preserving _ ↦
                err (invalid_input "Non-public transaction cannot modify system bridge account")
            | program_deployment _ ↦
                err (invalid_input "Non-public transaction cannot modify system bridge account")
          ]
            ≡ ok tt
          → (transaction : PublicTransaction) × (u ≡ public transaction)
            × (only_balance_increased
                  (account_in s.public_state (bridge_account_id ext))
                  (diffed s diff (bridge_account_id ext))
                ≡ true)
      by_transaction (public transaction) post present k =
          (transaction, refl, rw (present, diffed) (ensure-eq-ok _ _ k))
      by_transaction (privacy_preserving _) post present k = cc
      by_transaction (program_deployment _) post present k = cc

  only_balance_increased-kept :
      (a b : Account)
      → only_balance_increased a b ≡ true
      → (a.balance < b.balance)
        × (b.program_owner ≡ a.program_owner)
        × (b.data_bytes ≡ a.data_bytes)
        × (b.nonce ≡ a.nonce)
  only_balance_increased-kept a b h =
      let (same, grown) = and_both _ _ h in
      let e : record b { balance = a.balance } ≡ a = account_eq-eq _ a same in
      (
        ltb→lt a.balance b.balance grown,
        ap (λ (x : Account). x.program_owner) e,
        ap (λ (x : Account). x.data_bytes) e,
        ap (λ (x : Account). x.nonce) e,
      )
    where
      and_both : (p q : Bool) → (p && q) ≡ true → (p ≡ true) × (q ≡ true)
      and_both true q k = (refl, k)
      and_both false q k = cc

  -- A user transaction does nothing to the bridge but to add to its balance, and only a public one
  -- does: after one that passed the guards and went through, the bridge has the owner and the data it had, the
  -- nonce grown by just the number of the bridge's own signatures on the transaction, and
  -- the same balance or, if the transaction is public, a higher one. The balances in the outputs of
  -- the programs are 128-bit numbers, and no program is deployed under the bridge's identifier.
  pub guards_keep_bridge :
      (tx : LeeTransaction) (s s' : V03State) (block_id timestamp : ℕ)
      → TypedOutputs ext.ledger
      → DeploysElsewhere tx (bridge_account_id ext)
      → execute_check_on_state ext tx s block_id timestamp ≡ ok (some s')
      → let a = get_account_by_id s (bridge_account_id ext) in
        let b = get_account_by_id s' (bridge_account_id ext) in
        (b.program_owner ≡ a.program_owner)
        × (b.data_bytes ≡ a.data_bytes)
        × (b.nonce ≡ a.nonce + count (bridge_account_id ext) (signers_of tx))
        × ((b.balance ≡ a.balance)
            ⊎ ((a.balance < b.balance)
                × (transaction : PublicTransaction) × (tx ≡ public transaction)))
  guards_keep_bridge tx s s' block_id timestamp typed away h =
      let id = bridge_account_id ext in
      let (diff, computed, _, bridge, applied) =
        execute_check_on_state-parts tx s s' block_id timestamp h in
      let signed = rw (compute_state_diff-signers_of tx s block_id timestamp diff computed) at (
        apply_state_diff-Signed ext.ledger.sha256 s s' diff id
          (compute_state_diff-IsDistinct tx s block_id timestamp diff typed computed)
          (compute_state_diff-away tx s block_id timestamp diff id away computed) applied) in
      rw (get_account_by_id_lem s' id) (elim (bridge_kept tx s diff bridge) [
        | inl kept ↦
            let after = rw kept at signed in
            (after.same_owner, after.same_data, after.counted, inl after.same_balance)
        | inr (transaction, is, grown) ↦
            let (more, owner, bytes, nonce) =
              only_balance_increased-kept (get_account_by_id s id) (diffed s diff id) grown in
            (
              signed.same_owner ∙ owner,
              signed.same_data ∙ bytes,
              signed.counted ∙ ap (λ n. n + count id (signers_of tx)) nonce,
              inr (rw (signed.same_balance) more, transaction, is),
            )
      ])
