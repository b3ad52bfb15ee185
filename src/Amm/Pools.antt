-- ===== src/Amm/Pools.antt =====
-- lez/programs/amm/core/src/lib.rs and amm/src/new_definition.rs: the derived accounts of a pool,
-- and its initialisation. `none` is a panic; unchecked arithmetic wraps.
pub mod Opened
use lssa.Prelude.{
  ℕ, zero, suc, ◌+◌, ◌*◌, ◌^◌, Bool, true, false, not, Option, none, some, List, [], ◌∷◌, ◌++◌, ltb,
  leb, ◌==◌, if◌then◌else◌, String,
}
use lssa.Prelude.Options.{◌>>=◌}
use lssa.Prelude.Digits.{bytes32}
use lssa.Account.{Account, AccountId, AccountWithMetadata, account_eq, default_account}
use lssa.Program.{
  AccountPostState, ChainedCall, Claim, PdaSeed, ProgramId, post_state, claimed_if_default,
}
use lssa.Program.Pda.{for_public_pda}
use lssa.Program.Ids.{to_program_id}
use lssa.Commitment.{codes}
use lssa.Token.{Instruction, TokenHolding, definition_id}
use lssa.Token.Operations.{assert, ◌>>◌, with_data}
use lssa.Amm.{AmmExternals, PoolDefinition, compute_vault_pda_seed}
use lssa.Amm.Liquidity.{wrapping_mul, compute_liquidity_token_pda_seed, token_call, liquidity_posts}

-- `PoolDefinition::default()`.
abbrev pub default_pool : PoolDefinition
default_pool = record {
  definition_token_a_id = 0;
  definition_token_b_id = 0;
  vault_a_id = 0;
  vault_b_id = 0;
  liquidity_pool_id = 0;
  liquidity_pool_supply = 0;
  reserve_a = 0;
  reserve_b = 0;
  fees = 0;
  active = false;
}

-- The bits of a square root below a bit, the highest first, added to those found.
abbrev pub root_bits : ℕ → ℕ → ℕ → ℕ
root_bits zero n root = root
root_bits (suc k) n root =
    let next = if leb ((root + 2 ^ k) * (root + 2 ^ k)) n then root + 2 ^ k else root in
    root_bits k n next

-- `u128::isqrt`, whose result has 64 bits.
unfoldable pub isqrt : ℕ → ℕ
isqrt n = root_bits 64 n 0

-- The order of byte arrays, by the first bytes that differ.
abbrev pub bytes_less : List ℕ → List ℕ → Bool
bytes_less [] ys = false
bytes_less (x ∷ xs) [] = false
bytes_less (x ∷ xs) (y ∷ ys) = if x == y then bytes_less xs ys else ltb x y

module _ (ext : AmmExternals) where
  -- The larger identifier is first; `none` is the panic on equal ones.
  unfoldable pub compute_pool_pda_seed : AccountId → AccountId → Option PdaSeed
  compute_pool_pda_seed token_a_id token_b_id =
      if token_a_id == token_b_id
      then none
      else if bytes_less (bytes32 token_a_id) (bytes32 token_b_id)
      then some (ext.hash_bytes (bytes32 token_b_id ++ bytes32 token_a_id))
      else some (ext.hash_bytes (bytes32 token_a_id ++ bytes32 token_b_id))

  unfoldable pub compute_pool_pda : ProgramId → AccountId → AccountId → Option AccountId
  unfolding compute_pool_pda_seed
  compute_pool_pda amm_program_id token_a_id token_b_id = do
    seed ← compute_pool_pda_seed token_a_id token_b_id
    some (for_public_pda ext.hash_bytes amm_program_id seed)

  unfoldable pub compute_vault_pda : ProgramId → AccountId → AccountId → AccountId
  compute_vault_pda amm_program_id pool_id definition_token_id =
      for_public_pda ext.hash_bytes amm_program_id
        (compute_vault_pda_seed ext pool_id definition_token_id)

  unfoldable pub compute_liquidity_token_pda : ProgramId → AccountId → AccountId
  compute_liquidity_token_pda amm_program_id pool_id =
      for_public_pda ext.hash_bytes amm_program_id (compute_liquidity_token_pda_seed ext pool_id)

  -- The pool that an account holds, the default one if it is uninitialised.
  abbrev pub stored_pool : Account → Option PoolDefinition
  stored_pool account =
      if account_eq account default_account
      then some default_pool
      else ext.decode_pool account.data_bytes

  -- The assertions on the accounts.
  unfoldable pub check_new_accounts :
      AccountWithMetadata
      → AccountWithMetadata
      → AccountWithMetadata
      → AccountWithMetadata
      → AccountWithMetadata
      → AccountWithMetadata
      → AccountId
      → AccountId
      → ProgramId
      → Option (Unit {0})
  unfolding compute_pool_pda compute_vault_pda compute_liquidity_token_pda
  check_new_accounts pool vault_a vault_b pool_definition_lp user_a user_b token_a_id token_b_id
        amm_program_id =
      do
        assert (user_b.account.program_owner == user_a.account.program_owner)
        assert (not (token_a_id == token_b_id))
        pool_id ← compute_pool_pda amm_program_id token_a_id token_b_id
        assert (pool.account_id == pool_id)
        assert (vault_a.account_id == compute_vault_pda amm_program_id pool.account_id token_a_id)
        assert (vault_b.account_id == compute_vault_pda amm_program_id pool.account_id token_b_id)
        assert (
            pool_definition_lp.account_id
            == compute_liquidity_token_pda amm_program_id pool.account_id)
        some tt

  unfoldable pub new_definition :
      AccountWithMetadata
      → AccountWithMetadata
      → AccountWithMetadata
      → AccountWithMetadata
      → AccountWithMetadata
      → AccountWithMetadata
      → AccountWithMetadata
      → ℕ
      → ℕ
      → ProgramId
      → Option (List AccountPostState × List ChainedCall)
  unfolding check_new_accounts compute_pool_pda_seed isqrt
  new_definition pool vault_a vault_b pool_definition_lp user_a user_b user_lp token_a_amount
        token_b_amount amm_program_id =
      do
        holding_a ← ext.tokens.decode_holding user_a.account.data_bytes
        holding_b ← ext.tokens.decode_holding user_b.account.data_bytes
        let token_a_id = definition_id holding_a
        let token_b_id = definition_id holding_b
        check_new_accounts pool vault_a vault_b pool_definition_lp user_a user_b token_a_id
            token_b_id amm_program_id
        stored ← stored_pool pool.account
        assert (not stored.active)
        let initial_lp = isqrt (wrapping_mul token_a_amount token_b_amount)
        pool_data ← with_data pool.account (
            ext.encode_pool (record {
              definition_token_a_id = token_a_id;
              definition_token_b_id = token_b_id;
              vault_a_id = vault_a.account_id;
              vault_b_id = vault_b.account_id;
              liquidity_pool_id = pool_definition_lp.account_id;
              liquidity_pool_supply = initial_lp;
              reserve_a = token_a_amount;
              reserve_b = token_b_amount;
              fees = 0;
              active = true;
            }))
        pool_pda_seed ← compute_pool_pda_seed token_a_id token_b_id
        let token_program_id = to_program_id user_a.account.program_owner
        some (
          claimed_if_default pool_data (Claim.pda pool_pda_seed)
              ∷ post_state vault_a.account
              ∷ post_state vault_b.account
              ∷ post_state pool_definition_lp.account
              ∷ post_state user_a.account
              ∷ post_state user_b.account
              ∷ post_state user_lp.account
              ∷ [],
          token_call ext token_program_id
                (record pool_definition_lp { is_authorized = true } ∷ user_lp ∷ [])
                (if account_eq pool.account default_account
                  then Instruction.new_fungible_definition (codes "LP Token") initial_lp
                  else Instruction.mint initial_lp)
                (compute_liquidity_token_pda_seed ext pool.account_id ∷ [])
              ∷ token_call ext token_program_id
                  (user_b ∷ record vault_b { is_authorized = true } ∷ [])
                  (Instruction.transfer token_b_amount)
                  (compute_vault_pda_seed ext pool.account_id token_b_id ∷ [])
              ∷ token_call ext token_program_id
                  (user_a ∷ record vault_a { is_authorized = true } ∷ [])
                  (Instruction.transfer token_a_amount)
                  (compute_vault_pda_seed ext pool.account_id token_a_id ∷ [])
              ∷ [],
        )
