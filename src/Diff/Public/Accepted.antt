-- ===== src/Diff/Public/Accepted.antt =====
-- What the validation of a public transaction demands of it
-- (lee/state_machine/src/validated_state_diff/mod.rs).
use lssa.Prelude.{
  ℕ, ◌≡◌, ◌≢◌, ◌⊎◌, refl, sym, ◌∙◌, subst, true, List, [], ◌∷◌, arith, ◌==◌, ==_iff, ok, >>-eq-ok,
  ensure->>, Map, IsDistinct, length, All, contains_key,
}
use lssa.Account.{Account, AccountId, Nonce, account_eq-eq}
use lssa.Program.{default_program_owner}
use lssa.State.{V03State, StateDiff, get_account_by_id}
use lssa.Transaction.{
  Externals, PublicTransaction, Signatures, signer_account_ids, public_message_hash,
  signatures_are_valid,
}
use lssa.Diff.{check_nonces}
use lssa.Diff.Public.{
  from_public_transaction, check_claimed, check_declared, authenticate_public_transaction_signers,
}
use lssa.Diff.Public.Outcome.{from_public_transaction-Validated, length-signer_account_ids}

-- The nonces that the state has for some accounts.
abbrev pub current_nonces : V03State → List AccountId → List Nonce
current_nonces s [] = []
current_nonces s (id ∷ ids) = (get_account_by_id s id).nonce ∷ current_nonces s ids

-- An uninitialised account that was changed has an owner.
abbrev pub IsClaimed : V03State → AccountId × Account → Type 0
IsClaimed s (id, post) =
    ((get_account_by_id s id).program_owner ≢ default_program_owner)
    ⊎ (get_account_by_id s id ≡ post)
    ⊎ (post.program_owner ≢ default_program_owner)

pub check_nonces-current_nonces :
    (s : V03State) (ids : List AccountId) (nonces : List Nonce)
    → length nonces ≡ length ids
    → check_nonces s ids nonces ≡ ok tt
    → nonces ≡ current_nonces s ids
unfolding check_nonces
check_nonces-current_nonces s [] [] l h = refl
check_nonces-current_nonces s [] (n ∷ nonces) l h = absurd (omega (arith, l))
check_nonces-current_nonces s (id ∷ ids) [] l h = absurd (omega (arith, l))
check_nonces-current_nonces s (id ∷ ids) (n ∷ nonces) l h =
    let (first, rest) = ensure->> ((get_account_by_id s id).nonce == n) _ _ h in
    let same : (get_account_by_id s id).nonce ≡ n = (==_iff _ _).0 first in
    rw (same, sym (check_nonces-current_nonces s ids nonces (omega (arith, l)) rest)) refl

check_declared-All :
    (m : Map Account) (ids : List AccountId)
    → check_declared m ids ≡ ok tt
    → All (λ id. contains_key id m ≡ true) ids
unfolding check_declared
check_declared-All m [] h = tt
check_declared-All m (id ∷ ids) h =
    let (here, rest) = ensure->> (contains_key id m) _ _ h in (here, check_declared-All m ids rest)

check_claimed-All :
    (s : V03State) (m : Map Account) → check_claimed s m ≡ ok tt → All (IsClaimed s) m
unfolding check_claimed
check_claimed-All s [] h = tt
check_claimed-All s ((id, post) ∷ m) h =
    ground (arith, check_claimed-All s m, account_eq-eq (get_account_by_id s id) post)

module _ (ext : Externals) where
  pub signatures_are_valid-All :
      (hash : ℕ) (sigs : Signatures)
      → signatures_are_valid ext hash sigs ≡ true
      → All (λ s. ext.verify_signature s.0 hash s.1 ≡ true) sigs
  unfolding signatures_are_valid
  signatures_are_valid-All hash [] h = tt
  signatures_are_valid-All hash ((signature, key) ∷ sigs) h =
      ground (arith, signatures_are_valid-All hash sigs)

  -- What a transaction has to be to give a diff.
  pub record Accepted (tx : PublicTransaction) (s : V03State) (diff : StateDiff) : Type 0 where
    pub some_account : tx.message.account_ids ≢ []
    pub unique : IsDistinct tx.message.account_ids
    pub signed :
        All
          (λ k. ext.verify_signature k.0 (public_message_hash ext tx.message) k.1 ≡ true)
          tx.signatures_and_public_keys
    pub signers_are : diff.signer_account_ids ≡ signer_account_ids ext tx.signatures_and_public_keys
    pub nonces_are : tx.message.nonces ≡ current_nonces s diff.signer_account_ids
    pub declared : All (λ id. contains_key id diff.public_diff ≡ true) tx.message.account_ids
    pub claimed : All (IsClaimed s) diff.public_diff

  -- A public transaction that is validated names some accounts and none twice, each of its signatures verifies for its
  -- message, its nonces are those of its signers, its diff has every account that it names, and gives an owner to
  -- every uninitialised account that it changes.
  pub from_public_transaction-Accepted :
      (tx : PublicTransaction) (s : V03State) (block_id timestamp : ℕ) (diff : StateDiff)
      → from_public_transaction ext tx s block_id timestamp ≡ ok diff
      → Accepted tx s diff
  unfolding authenticate_public_transaction_signers
  from_public_transaction-Accepted tx s block_id timestamp diff h =
      let (m, v, e) = from_public_transaction-Validated ext tx s block_id timestamp diff h in
      let sigs = tx.signatures_and_public_keys in
      let (same_length, h₁) =
        ensure->> (length tx.message.nonces == length sigs) _ _ v.authenticated in
      let (valid, h₂) =
        ensure->> (signatures_are_valid ext (public_message_hash ext tx.message) sigs) _ _ h₁ in
      let (fit, _) =
        >>-eq-ok (check_nonces s (signer_account_ids ext sigs) tx.message.nonces) _ h₂ in
      subst (Accepted tx s) (sym e) (record {
        some_account = v.some_account;
        unique = v.unique;
        signed = signatures_are_valid-All _ sigs valid;
        signers_are = refl;
        nonces_are =
            check_nonces-current_nonces s (signer_account_ids ext sigs) tx.message.nonces
              ((==_iff _ _).0 same_length ∙ sym (length-signer_account_ids ext sigs)) fit;
        declared = check_declared-All m tx.message.account_ids v.declared;
        claimed = check_claimed-All s m v.claimed;
      })
