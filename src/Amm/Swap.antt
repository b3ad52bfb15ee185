-- ===== src/Amm/Swap.antt =====
-- lez/programs/amm/src/swap.rs: swaps against a pool. `none` is a panic. Where the source adds or
-- subtracts without a check, the result wraps, as it does in the release builds that programs
-- are.
pub mod Product
pub mod Payments
pub mod Reserves
pub mod Tests
use lssa.Prelude.{
  ℕ, zero, suc, ◌+◌, ◌-◌, ◌*◌, ◌/◌, ◌%◌, true, not, Option, none, some, List, [], ◌∷◌, ltb, leb,
  ◌==◌, if◌then◌else◌,
}
use lssa.Prelude.Options.{◌>>=◌}
use lssa.Account.{Account, AccountId, AccountWithMetadata, u128_mod}
use lssa.Program.{AccountPostState, ChainedCall, post_state}
use lssa.Program.Ids.{to_program_id}
use lssa.Token.{Instruction, TokenHolding, definition_id}
use lssa.Token.Operations.{assert, ◌>>◌, with_data}
use lssa.Amm.{AmmExternals, PoolDefinition, compute_vault_pda_seed}

abbrev pub wrapping_add : ℕ → ℕ → ℕ
wrapping_add a b = (a + b) % u128_mod

abbrev pub wrapping_sub : ℕ → ℕ → ℕ
wrapping_sub a b = (a + (u128_mod - b)) % u128_mod

abbrev pub checked_mul : ℕ → ℕ → Option ℕ
checked_mul a b = if ltb (a * b) u128_mod then some (a * b) else none

-- A division by 0 panics.
abbrev pub divide : ℕ → ℕ → Option ℕ
divide a zero = none
divide a (suc b) = some (a / suc b)

-- `u128::div_ceil`.
abbrev pub div_ceil : ℕ → ℕ → Option ℕ
div_ceil a zero = none
div_ceil a (suc b) = some (if a % suc b == 0 then a / suc b else a / suc b + 1)

-- The `let ... else` that demands a fungible holding.
abbrev pub fungible_balance : TokenHolding → Option ℕ
fungible_balance (TokenHolding.fungible id balance) = some balance
fungible_balance _ = none

module _ (ext : AmmExternals) where
  pub validate_swap_setup :
      AccountWithMetadata → AccountWithMetadata → AccountWithMetadata → Option PoolDefinition
  validate_swap_setup pool vault_a vault_b = do
    pool_def_data ← ext.decode_pool pool.account.data_bytes
    assert pool_def_data.active
    assert (vault_a.account_id == pool_def_data.vault_a_id)
    assert (vault_b.account_id == pool_def_data.vault_b_id)
    vault_a_token_holding ← ext.tokens.decode_holding vault_a.account.data_bytes
    vault_a_balance ← fungible_balance vault_a_token_holding
    assert (leb pool_def_data.reserve_a vault_a_balance)
    vault_b_token_holding ← ext.tokens.decode_holding vault_b.account.data_bytes
    vault_b_balance ← fungible_balance vault_b_token_holding
    assert (leb pool_def_data.reserve_b vault_b_balance)
    some pool_def_data

  -- The amounts are what each reserve gains and what it loses.
  unfoldable pub create_swap_post_states :
      AccountWithMetadata
      → PoolDefinition
      → AccountWithMetadata
      → AccountWithMetadata
      → AccountWithMetadata
      → AccountWithMetadata
      → ℕ × ℕ
      → ℕ × ℕ
      → Option (List AccountPostState)
  create_swap_post_states pool p vault_a vault_b user_holding_a user_holding_b
        (deposit_a, withdraw_a) (deposit_b, withdraw_b) =
      do
        pool_post ← with_data pool.account (
            ext.encode_pool (record p {
              reserve_a = wrapping_sub (wrapping_add p.reserve_a deposit_a) withdraw_a;
              reserve_b = wrapping_sub (wrapping_add p.reserve_b deposit_b) withdraw_b;
            }))
        some (
            post_state pool_post
            ∷ post_state vault_a.account
            ∷ post_state vault_b.account
            ∷ post_state user_holding_a.account
            ∷ post_state user_holding_b.account
            ∷ [])

  -- The two transfers that both kinds of swap chain: into one vault and out of the other.
  pub swap_calls :
      AccountWithMetadata
      → AccountWithMetadata
      → AccountWithMetadata
      → AccountWithMetadata
      → ℕ
      → ℕ
      → AccountId
      → Option (List ChainedCall)
  swap_calls user_deposit vault_deposit vault_withdraw user_withdraw amount_in amount_out pool_id =
      do
        let token_program_id = to_program_id user_deposit.account.program_owner
        holding ← ext.tokens.decode_holding vault_withdraw.account.data_bytes
        some (
            record {
              program_id = token_program_id;
              pre_states = user_deposit ∷ vault_deposit ∷ [];
              instruction_data = ext.instruction_words (Instruction.transfer amount_in);
              pda_seeds = [];
            }
            ∷ record {
              program_id = token_program_id;
              pre_states = record vault_withdraw { is_authorized = true } ∷ user_withdraw ∷ [];
              instruction_data = ext.instruction_words (Instruction.transfer amount_out);
              pda_seeds = compute_vault_pda_seed ext pool_id (definition_id holding) ∷ [];
            }
            ∷ [])

  pub swap_logic :
      AccountWithMetadata
      → AccountWithMetadata
      → AccountWithMetadata
      → AccountWithMetadata
      → ℕ
      → ℕ
      → ℕ
      → ℕ
      → AccountId
      → Option (List ChainedCall × ℕ × ℕ)
  swap_logic user_deposit vault_deposit vault_withdraw user_withdraw swap_amount_in min_amount_out
        reserve_deposit reserve_withdraw pool_id =
      do
        product ← checked_mul reserve_withdraw swap_amount_in
        withdraw_amount ← divide product (wrapping_add reserve_deposit swap_amount_in)
        assert (leb min_amount_out withdraw_amount)
        assert (not (withdraw_amount == 0))
        calls ←
            swap_calls user_deposit vault_deposit vault_withdraw user_withdraw swap_amount_in
              withdraw_amount pool_id
        some (calls, swap_amount_in, withdraw_amount)

  pub exact_output_swap_logic :
      AccountWithMetadata
      → AccountWithMetadata
      → AccountWithMetadata
      → AccountWithMetadata
      → ℕ
      → ℕ
      → ℕ
      → ℕ
      → AccountId
      → Option (List ChainedCall × ℕ × ℕ)
  exact_output_swap_logic user_deposit vault_deposit vault_withdraw user_withdraw exact_amount_out
        max_amount_in reserve_deposit reserve_withdraw pool_id =
      do
        assert (not (exact_amount_out == 0))
        assert (ltb exact_amount_out reserve_withdraw)
        product ← checked_mul reserve_deposit exact_amount_out
        deposit_amount ← div_ceil product (reserve_withdraw - exact_amount_out)
        assert (leb deposit_amount max_amount_in)
        calls ←
            swap_calls user_deposit vault_deposit vault_withdraw user_withdraw deposit_amount
              exact_amount_out pool_id
        some (calls, deposit_amount, exact_amount_out)

  -- `swap_exact_input` and `swap_exact_output` but for the logic that they call.
  unfoldable pub swap_with :
      (AccountWithMetadata
        → AccountWithMetadata
        → AccountWithMetadata
        → AccountWithMetadata
        → ℕ
        → ℕ
        → ℕ
        → ℕ
        → AccountId
        → Option (List ChainedCall × ℕ × ℕ))
      → AccountWithMetadata
      → AccountWithMetadata
      → AccountWithMetadata
      → AccountWithMetadata
      → AccountWithMetadata
      → ℕ
      → ℕ
      → AccountId
      → Option (List AccountPostState × List ChainedCall)
  unfolding validate_swap_setup create_swap_post_states
  swap_with logic pool vault_a vault_b user_holding_a user_holding_b amount bound token_in_id = do
    p ← validate_swap_setup pool vault_a vault_b
    if token_in_id == p.definition_token_a_id
        then (do
          moved ←
              logic user_holding_a vault_a vault_b user_holding_b amount bound p.reserve_a
                p.reserve_b pool.account_id
          posts ←
              create_swap_post_states pool p vault_a vault_b user_holding_a user_holding_b
                (moved.1, 0) (0, moved.2)
          some (posts, moved.0))
        else if token_in_id == p.definition_token_b_id
        then (do
          moved ←
              logic user_holding_b vault_b vault_a user_holding_a amount bound p.reserve_b
                p.reserve_a pool.account_id
          posts ←
              create_swap_post_states pool p vault_a vault_b user_holding_a user_holding_b
                (0, moved.2) (moved.1, 0)
          some (posts, moved.0))
        else none

  unfoldable pub swap_exact_input :
      AccountWithMetadata
      → AccountWithMetadata
      → AccountWithMetadata
      → AccountWithMetadata
      → AccountWithMetadata
      → ℕ
      → ℕ
      → AccountId
      → Option (List AccountPostState × List ChainedCall)
  unfolding swap_with swap_logic
  swap_exact_input = swap_with swap_logic

  unfoldable pub swap_exact_output :
      AccountWithMetadata
      → AccountWithMetadata
      → AccountWithMetadata
      → AccountWithMetadata
      → AccountWithMetadata
      → ℕ
      → ℕ
      → AccountId
      → Option (List AccountPostState × List ChainedCall)
  unfolding swap_with exact_output_swap_logic
  swap_exact_output = swap_with exact_output_swap_logic
