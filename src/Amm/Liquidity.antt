-- ===== src/Amm/Liquidity.antt =====
-- lez/programs/amm/src/add.rs and remove.rs: liquidity that is added to a pool and removed from
-- it. `none` is a panic; unchecked arithmetic wraps, as in swaps.
pub mod Amounts
pub mod Shares
use lssa.Prelude.{
  ℕ, ◌+◌, ◌*◌, ◌%◌, true, not, ◌&&◌, Option, none, some, List, [], ◌∷◌, ◌++◌, ltb, leb, ◌==◌, min,
  if◌then◌else◌, replicate,
}
use lssa.Prelude.Options.{◌>>=◌}
use lssa.Prelude.Digits.{bytes32}
use lssa.Account.{Account, AccountId, AccountWithMetadata, u128_mod}
use lssa.Program.{AccountPostState, ChainedCall, PdaSeed, ProgramId, post_state}
use lssa.Program.Ids.{to_program_id}
use lssa.Token.{Instruction, TokenHolding, definition_id}
use lssa.Token.Operations.{assert, ◌>>◌, with_data}
use lssa.Amm.{AmmExternals, PoolDefinition, compute_vault_pda_seed}
use lssa.Amm.Swap.{wrapping_add, wrapping_sub, divide, fungible_balance}

abbrev pub wrapping_mul : ℕ → ℕ → ℕ
wrapping_mul a b = (a * b) % u128_mod

-- The amounts of both tokens that go in, and the liquidity that is paid for them.
unfoldable pub added_amounts : PoolDefinition → ℕ → ℕ → ℕ → Option (ℕ × ℕ × ℕ)
added_amounts p min_amount_liquidity max_a max_b = do
  ideal_a ← divide (wrapping_mul p.reserve_a max_b) p.reserve_b
  ideal_b ← divide (wrapping_mul p.reserve_b max_a) p.reserve_a
  let actual_a = if ltb max_a ideal_a then max_a else ideal_a
  let actual_b = if ltb max_b ideal_b then max_b else ideal_b
  assert (leb actual_a max_a)
  assert (leb actual_b max_b)
  assert (not (actual_a == 0))
  assert (not (actual_b == 0))
  share_a ← divide (wrapping_mul p.liquidity_pool_supply actual_a) p.reserve_a
  share_b ← divide (wrapping_mul p.liquidity_pool_supply actual_b) p.reserve_b
  assert (not (min share_a share_b == 0))
  assert (leb min_amount_liquidity (min share_a share_b))
  some (actual_a, actual_b, min share_a share_b)

-- The amounts of both tokens that go out, and the liquidity that is burned for them.
unfoldable pub removed_amounts : PoolDefinition → ℕ → ℕ → ℕ → Option (ℕ × ℕ × ℕ)
removed_amounts p amount min_a min_b = do
  withdraw_a ← divide (wrapping_mul p.reserve_a amount) p.liquidity_pool_supply
  withdraw_b ← divide (wrapping_mul p.reserve_b amount) p.liquidity_pool_supply
  assert (leb min_a withdraw_a)
  assert (leb min_b withdraw_b)
  delta_lp ← divide (wrapping_mul p.liquidity_pool_supply amount) p.liquidity_pool_supply
  some (withdraw_a, withdraw_b, delta_lp)

-- The pool after liquidity was added.
abbrev pub pool_with_added : PoolDefinition → ℕ × ℕ × ℕ → PoolDefinition
pool_with_added p (a, b, delta_lp) = record p {
  liquidity_pool_supply = wrapping_add p.liquidity_pool_supply delta_lp;
  reserve_a = wrapping_add p.reserve_a a;
  reserve_b = wrapping_add p.reserve_b b;
}

-- The pool after liquidity was removed.
abbrev pub pool_with_removed : PoolDefinition → ℕ × ℕ × ℕ → PoolDefinition
pool_with_removed p (a, b, delta_lp) = record p {
  liquidity_pool_supply = wrapping_sub p.liquidity_pool_supply delta_lp;
  reserve_a = wrapping_sub p.reserve_a a;
  reserve_b = wrapping_sub p.reserve_b b;
  active = not (wrapping_sub p.liquidity_pool_supply delta_lp == 0);
}

module _ (ext : AmmExternals) where
  unfoldable pub compute_liquidity_token_pda_seed : AccountId → PdaSeed
  compute_liquidity_token_pda_seed pool_id = ext.hash_bytes (bytes32 pool_id ++ replicate 32 0)

  -- A chained call of the token program.
  abbrev pub token_call :
      ProgramId → List AccountWithMetadata → Instruction → List PdaSeed → ChainedCall
  token_call token_program_id accounts instruction seeds = record {
    program_id = token_program_id;
    pre_states = accounts;
    instruction_data = ext.instruction_words instruction;
    pda_seeds = seeds;
  }

  -- The balance of a vault, which must be a fungible holding.
  abbrev pub holding_balance : AccountWithMetadata → Option ℕ
  holding_balance account =
      ext.tokens.decode_holding account.account.data_bytes >>= fungible_balance

  unfoldable pub check_addition :
      PoolDefinition
      → AccountWithMetadata
      → AccountWithMetadata
      → AccountWithMetadata
      → ℕ
      → ℕ
      → Option (Unit {0})
  check_addition p vault_a vault_b pool_definition_lp max_a max_b = do
    assert (vault_a.account_id == p.vault_a_id)
    assert (p.liquidity_pool_id == pool_definition_lp.account_id)
    assert (vault_b.account_id == p.vault_b_id)
    assert (not (max_a == 0) && not (max_b == 0))
    vault_b_balance ← holding_balance vault_b
    vault_a_balance ← holding_balance vault_a
    assert (not (p.reserve_a == 0))
    assert (not (p.reserve_b == 0))
    assert (leb p.reserve_a vault_a_balance)
    assert (leb p.reserve_b vault_b_balance)
    some tt

  unfoldable pub check_removal :
      PoolDefinition
      → AccountWithMetadata
      → AccountWithMetadata
      → AccountWithMetadata
      → AccountWithMetadata
      → ℕ
      → ℕ
      → Option (Unit {0})
  check_removal p vault_a vault_b pool_definition_lp user_holding_lp min_a min_b = do
    assert p.active
    assert (p.liquidity_pool_id == pool_definition_lp.account_id)
    assert (vault_a.account_id == p.vault_a_id)
    assert (vault_b.account_id == p.vault_b_id)
    assert (not (min_a == 0))
    assert (not (min_b == 0))
    holding ← ext.tokens.decode_holding user_holding_lp.account.data_bytes
    user_lp_balance ← fungible_balance holding
    assert (leb user_lp_balance p.liquidity_pool_supply)
    assert (definition_id holding == p.liquidity_pool_id)
    some tt

  -- The post-states: the pool, and the other six accounts as they are.
  abbrev pub liquidity_posts :
      Account
      → AccountWithMetadata
      → AccountWithMetadata
      → AccountWithMetadata
      → AccountWithMetadata
      → AccountWithMetadata
      → AccountWithMetadata
      → List AccountPostState
  liquidity_posts pool_post vault_a vault_b pool_definition_lp user_a user_b user_lp =
      post_state pool_post
      ∷ post_state vault_a.account
      ∷ post_state vault_b.account
      ∷ post_state pool_definition_lp.account
      ∷ post_state user_a.account
      ∷ post_state user_b.account
      ∷ post_state user_lp.account
      ∷ []

  unfoldable pub add_liquidity :
      AccountWithMetadata
      → AccountWithMetadata
      → AccountWithMetadata
      → AccountWithMetadata
      → AccountWithMetadata
      → AccountWithMetadata
      → AccountWithMetadata
      → ℕ
      → ℕ
      → ℕ
      → Option (List AccountPostState × List ChainedCall)
  unfolding check_addition added_amounts compute_liquidity_token_pda_seed
  add_liquidity pool vault_a vault_b pool_definition_lp user_a user_b user_lp min_amount_liquidity
        max_a max_b =
      do
        p ← ext.decode_pool pool.account.data_bytes
        check_addition p vault_a vault_b pool_definition_lp max_a max_b
        amounts ← added_amounts p min_amount_liquidity max_a max_b
        pool_post ← with_data pool.account (ext.encode_pool (pool_with_added p amounts))
        let token_program_id = to_program_id user_a.account.program_owner
        some (
          liquidity_posts pool_post vault_a vault_b pool_definition_lp user_a user_b user_lp,
          token_call token_program_id
                (record pool_definition_lp { is_authorized = true } ∷ user_lp ∷ [])
                (Instruction.mint amounts.2) (compute_liquidity_token_pda_seed pool.account_id ∷ [])
              ∷ token_call token_program_id (user_b ∷ vault_b ∷ []) (Instruction.transfer amounts.1)
                  []
              ∷ token_call token_program_id (user_a ∷ vault_a ∷ []) (Instruction.transfer amounts.0)
                  []
              ∷ [],
        )

  unfoldable pub remove_liquidity :
      AccountWithMetadata
      → AccountWithMetadata
      → AccountWithMetadata
      → AccountWithMetadata
      → AccountWithMetadata
      → AccountWithMetadata
      → AccountWithMetadata
      → ℕ
      → ℕ
      → ℕ
      → Option (List AccountPostState × List ChainedCall)
  unfolding check_removal removed_amounts compute_liquidity_token_pda_seed
  remove_liquidity pool vault_a vault_b pool_definition_lp user_a user_b user_lp amount min_a
        min_b =
      do
        p ← ext.decode_pool pool.account.data_bytes
        check_removal p vault_a vault_b pool_definition_lp user_lp min_a min_b
        amounts ← removed_amounts p amount min_a min_b
        pool_post ← with_data pool.account (ext.encode_pool (pool_with_removed p amounts))
        let token_program_id = to_program_id user_a.account.program_owner
        some (
          liquidity_posts pool_post vault_a vault_b pool_definition_lp user_a user_b user_lp,
          token_call token_program_id
                (record pool_definition_lp { is_authorized = true } ∷ user_lp ∷ [])
                (Instruction.burn amounts.2) (compute_liquidity_token_pda_seed pool.account_id ∷ [])
              ∷ token_call token_program_id (record vault_b { is_authorized = true } ∷ user_b ∷ [])
                  (Instruction.transfer amounts.1)
                  (compute_vault_pda_seed ext pool.account_id p.definition_token_b_id ∷ [])
              ∷ token_call token_program_id (record vault_a { is_authorized = true } ∷ user_a ∷ [])
                  (Instruction.transfer amounts.0)
                  (compute_vault_pda_seed ext pool.account_id p.definition_token_a_id ∷ [])
              ∷ [],
        )
