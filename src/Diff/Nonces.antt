-- ===== src/Diff/Nonces.antt =====
-- The checks that both kinds of transaction share (validated_state_diff/mod.rs): duplicates and
-- the signers' nonces.
use lssa.Prelude.{
  ℕ, ◌≡◌, ◌≢◌, sym, ◌∙◌, ap, true, List, [], ◌∷◌, arith, ◌==◌, ==_iff, ok, err, IsDistinct,
  length-to_set-IsDistinct, length,
}
use lssa.Account.{AccountId, Nonce}
use lssa.Error.{invalid_input}
use lssa.State.{V03State, get_account_by_id}
use lssa.Diff.{n_unique, check_nonces}

-- The count of unique items equals the length exactly when no two items are equal.
pub n_unique-IsDistinct :
    (items : List ℕ) → (n_unique items == length items) ≡ true → IsDistinct items
unfolding n_unique
n_unique-IsDistinct items h = length-to_set-IsDistinct items ((==_iff _ _).0 h)

pub check_nonces_first :
    (s : V03State) (id : AccountId) (ids : List AccountId) (n : Nonce) (nonces : List Nonce)
    → check_nonces s (id ∷ ids) (n ∷ nonces) ≡ ok tt
    → (get_account_by_id s id).nonce ≡ n
unfolding check_nonces
check_nonces_first s id ids n nonces h = ground arith

pub check_nonces_stale :
    (s : V03State) (id : AccountId) (ids : List AccountId) (n : Nonce) (nonces : List Nonce)
    → (get_account_by_id s id).nonce ≢ n
    → check_nonces s (id ∷ ids) (n ∷ nonces) ≡ err (invalid_input "Nonce mismatch")
unfolding check_nonces
check_nonces_stale s id ids n nonces h = ground arith

-- Nonces that fit one state do not fit another where the first signer's nonce differs.
pub check_nonces_replayed :
    (s s' : V03State) (ids : List AccountId) (nonces : List Nonce) (id : AccountId)
    (rest : List AccountId)
    → ids ≡ id ∷ rest
    → length nonces ≡ length ids
    → check_nonces s ids nonces ≡ ok tt
    → (get_account_by_id s' id).nonce ≢ (get_account_by_id s id).nonce
    → check_nonces s' ids nonces ≡ err (invalid_input "Nonce mismatch")
check_nonces_replayed s s' ids [] id rest e l h ne = absurd (omega (arith, l, ap length e))
check_nonces_replayed s s' ids (n ∷ nonces) id rest e l h ne = rw e (
    check_nonces_stale s' id rest n nonces
      (λ same. ne (same ∙ sym (check_nonces_first s id rest n nonces (rw e at h)))))
