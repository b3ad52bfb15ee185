-- ===== src/Diff/Public/Outcome.antt =====
-- The parts of the validation of a public transaction, read off its success
-- (lee/state_machine/src/validated_state_diff/mod.rs).
use lssa.Prelude.{
  ℕ, suc, ◌≡◌, ◌≢◌, refl, sym, ◌∙◌, ap, subst, true, not, none, List, [], ◌∷◌, ◌==◌, ==_iff, ok,
  err, >>-eq-ok, >>=-eq-ok, ensure->>, ok-injective, Map, IsDistinct, length,
}
use lssa.Account.{Account, AccountId}
use lssa.Error.{invalid_input}
use lssa.State.{V03State, StateDiff, get_account_by_id}
use lssa.Transaction.{
  Externals, PublicTransaction, Signatures, signer_account_ids, public_message_hash,
  signatures_are_valid,
}
use lssa.Diff.Nonces.{n_unique-IsDistinct, check_nonces_replayed}
use lssa.Diff.{check_nonces, n_unique}
use lssa.Diff.Public.{
  from_public_transaction, run_calls, initial_calls, max_number_chained_calls, check_claimed,
  check_declared, authenticate_public_transaction_signers,
}

module _ (ext : Externals) (tx : PublicTransaction) (s : V03State) (block_id timestamp : ℕ) where
  abbrev pub signers : List AccountId
  signers = signer_account_ids ext tx.signatures_and_public_keys

  -- What is known of a transaction that was validated, with what it makes of the accounts.
  pub record Validated (m : Map Account) : Type 0 where
    pub authenticated : authenticate_public_transaction_signers ext tx s ≡ ok signers
    pub some_account : tx.message.account_ids ≢ []
    pub unique : IsDistinct tx.message.account_ids
    pub ran :
        run_calls ext s block_id timestamp
          (suc max_number_chained_calls)
          (initial_calls ext s tx.message signers)
          []
        ≡ ok m
    pub claimed : check_claimed s m ≡ ok tt
    pub declared : check_declared m tx.message.account_ids ≡ ok tt

  abbrev pub public_only : Map Account → StateDiff
  public_only m = record {
    signer_account_ids = signers;
    public_diff = m;
    new_commitments = [];
    new_nullifiers = [];
    program = none;
  }

  authenticated_signers :
      (ids : List AccountId)
      → authenticate_public_transaction_signers ext tx s ≡ ok ids
      → ids ≡ signers
  unfolding authenticate_public_transaction_signers
  authenticated_signers ids h =
      let (_, h₁) =
        ensure->> (length tx.message.nonces == length tx.signatures_and_public_keys) _ _ h in
      let (_, h₂) =
        ensure->>
          (signatures_are_valid ext (public_message_hash ext tx.message)
            tx.signatures_and_public_keys)
          _ _ h₁ in
      let (_, h₃) = >>-eq-ok (check_nonces s signers tx.message.nonces) _ h₂ in
      sym (ok-injective h₃)

  nonempty : (ids : List AccountId) → not (length ids == 0) ≡ true → ids ≢ []
  nonempty [] h e = cc
  nonempty (id ∷ ids) h e = cc

  pub from_public_transaction-Validated :
      (diff : StateDiff)
      → from_public_transaction ext tx s block_id timestamp ≡ ok diff
      → (m : Map Account) × Validated m × (diff ≡ public_only m)
  unfolding from_public_transaction
  from_public_transaction-Validated diff h =
      let (ids, a, h₁) = >>=-eq-ok (authenticate_public_transaction_signers ext tx s) _ h in
      let e : ids ≡ signers = authenticated_signers ids a in
      let (some_ids, h₂) = ensure->> (not (length tx.message.account_ids == 0)) _ _ h₁ in
      let (same_count, h₃) =
        ensure->> (n_unique tx.message.account_ids == length tx.message.account_ids) _ _ h₂ in
      let (m, r, h₄) =
        >>=-eq-ok
          (run_calls ext s block_id timestamp (suc max_number_chained_calls)
            (initial_calls ext s tx.message ids) [])
          _ h₃ in
      let (c, h₅) = >>-eq-ok (check_claimed s m) _ h₄ in
      let (k, h₆) = >>-eq-ok (check_declared m tx.message.account_ids) _ h₅ in
      (
        m,
        record {
          authenticated = a ∙ ap ok e;
          some_account = nonempty tx.message.account_ids some_ids;
          unique = n_unique-IsDistinct tx.message.account_ids same_count;
          ran =
              subst
                (λ js.
                  run_calls ext s block_id timestamp (suc max_number_chained_calls)
                    (initial_calls ext s tx.message js) []
                  ≡ ok m)
                e r;
          claimed = c;
          declared = k;
        },
        sym (ok-injective h₆) ∙ ap (λ js. record (public_only m) { signer_account_ids = js }) e,
      )

pub length-signer_account_ids :
    (ext : Externals) (sigs : Signatures) → length (signer_account_ids ext sigs) ≡ length sigs
unfolding signer_account_ids
length-signer_account_ids ext [] = refl
length-signer_account_ids ext ((signature, key) ∷ sigs) =
    ap suc (length-signer_account_ids ext sigs)

-- A transaction that was authenticated in one state is refused in a state where its first signer has another nonce.
pub authenticate_replayed :
    (ext : Externals) (tx : PublicTransaction) (s s' : V03State) (id : AccountId)
    (rest ids : List AccountId)
    → signer_account_ids ext tx.signatures_and_public_keys ≡ id ∷ rest
    → authenticate_public_transaction_signers ext tx s ≡ ok ids
    → (get_account_by_id s' id).nonce ≢ (get_account_by_id s id).nonce
    → (block_id timestamp : ℕ)
    → from_public_transaction ext tx s' block_id timestamp ≡ err (invalid_input "Nonce mismatch")
unfolding authenticate_public_transaction_signers from_public_transaction
authenticate_replayed ext tx s s' id rest ids e h ne block_id timestamp =
    let sigs = tx.signatures_and_public_keys in
    let (same_length, h₁) = ensure->> (length tx.message.nonces == length sigs) _ _ h in
    let (signed, h₂) =
      ensure->> (signatures_are_valid ext (public_message_hash ext tx.message) sigs) _ _ h₁ in
    let (fit, _) = >>-eq-ok (check_nonces s (signer_account_ids ext sigs) tx.message.nonces) _ h₂ in
    let stale : check_nonces s' (signer_account_ids ext sigs) tx.message.nonces
        ≡ err (invalid_input "Nonce mismatch") =
      check_nonces_replayed s s' (signer_account_ids ext sigs) tx.message.nonces id rest e
        ((==_iff _ _).0 same_length ∙ sym (length-signer_account_ids ext sigs)) fit ne in
    rw (same_length, signed, stale) refl
