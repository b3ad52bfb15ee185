-- ===== src/Diff.antt =====
-- lee/state_machine/src/validated_state_diff/mod.rs: what validates a transaction against the
-- state and gives the changes that it makes.
pub mod Nonces
pub mod Public
pub mod Private
use lssa.Prelude.{
  ℕ, Bool, true, false, List, [], ◌∷◌, ◌==◌, if◌then◌else◌, Result, ok, err, ensure, ◌>>◌, ◌>>=◌,
  length, contains, to_set,
}
use lssa.Account.{Account, AccountId, AccountWithMetadata, Nonce}
use lssa.State.{V03State, get_account_by_id}
use lssa.Error.{LeeError, invalid_input}

-- `n_unique`.
unfoldable pub n_unique : List ℕ → ℕ
n_unique items = length (to_set items)

-- The loop that compares the signers' nonces with those of the state; `zip` ends with the shorter
-- list.
unfoldable pub check_nonces : V03State → List AccountId → List Nonce → Result LeeError (Unit {0})
check_nonces s [] nonces = ok tt
check_nonces s (id ∷ ids) [] = ok tt
check_nonces s (id ∷ ids) (n ∷ nonces) =
    let rest = check_nonces s ids nonces in
    ensure ((get_account_by_id s id).nonce == n) (invalid_input "Nonce mismatch") >> rest

-- The accounts of a message with their authorisation by its signers.
unfoldable pub build_pre_states :
    V03State → List AccountId → List AccountId → List AccountWithMetadata
build_pre_states s signers [] = []
build_pre_states s signers (id ∷ ids) =
    record {
      account = get_account_by_id s id;
      is_authorized = contains id signers;
      account_id = id;
    }
    ∷ build_pre_states s signers ids
