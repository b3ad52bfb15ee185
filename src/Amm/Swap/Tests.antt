-- ===== src/Amm/Swap/Tests.antt =====
-- Swaps against a pool with reserves of 1000 and 500 (lez/programs/amm/src/swap.rs).
use lssa.Prelude.{ℕ, ◌≡◌, ◌≤◌, refl, some, List, [], ◌∷◌, arith}
use lssa.Account.{data_try_from}
use lssa.Program.{AccountPostState, ChainedCall, post_state}
use lssa.Program.Ids.{to_program_id}
use lssa.Token.{definition_id}
use lssa.Token.Operations.Amounts.{data_at}
use lssa.Amm.{PoolDefinition, compute_vault_pda_seed}
use lssa.Amm.ToyPool.{
  toy_amm, write_pool, read_pool, pool_round, pool_with, account_of, pool, vault_a, vault_b, user_a,
  user_b,
}
use lssa.Amm.Swap.{
  swap_with, swap_logic, exact_output_swap_logic, swap_calls, swap_exact_input, swap_exact_output,
  validate_swap_setup, create_swap_post_states,
}
use lssa.Amm.Swap.Payments.{Exchanged}
use lssa.Amm.Swap.Reserves.{Swapped, swap_exact_input-Swapped, swap_exact_output-Swapped}

abbrev posts_with : ℕ → ℕ → List AccountPostState
posts_with x y =
    post_state (account_of 20 (write_pool (pool_with x y))).account
    ∷ post_state vault_a.account
    ∷ post_state vault_b.account
    ∷ post_state user_a.account
    ∷ post_state user_b.account
    ∷ []

abbrev calls : List ChainedCall
calls =
    record {
      program_id = 9;
      pre_states = user_a ∷ vault_a ∷ [];
      instruction_data = [];
      pda_seeds = [];
    }
    ∷ record {
      program_id = 9;
      pre_states = vault_b ∷ user_b ∷ [];
      instruction_data = [];
      pda_seeds = 4 ∷ [];
    }
    ∷ []

-- Of 100 in, 500 * 100 / 1100 go out.
input_runs :
    swap_exact_input toy_amm pool vault_a vault_b user_a user_b 100 40 5
    ≡ some (posts_with 1100 455, calls)
unfolding swap_exact_input swap_with swap_logic swap_calls validate_swap_setup
    create_swap_post_states data_try_from to_program_id definition_id compute_vault_pda_seed
input_runs = refl

swap_exact_input-Swapped_example :
    (i : ℕ) × (o : ℕ) × (q : PoolDefinition) × (read_pool (data_at 0 (posts_with 1100 455))
      ≡ some q)
    × ((i ≡ 100) × (40 ≤ o))
    × Swapped (pool_with 1000 500) q 5 i o
    × Exchanged toy_amm (pool_with 1000 500) 5 vault_a vault_b user_a user_b calls i o
swap_exact_input-Swapped_example =
    swap_exact_input-Swapped toy_amm pool_round pool vault_a vault_b user_a user_b 100 40 5
      (pool_with 1000 500) (posts_with 1100 455, calls) refl (ground arith, ground arith) input_runs

-- For 45 out, 1000 * 45 / 455 go in, rounded up.
output_runs :
    swap_exact_output toy_amm pool vault_a vault_b user_a user_b 45 120 5
    ≡ some (posts_with 1099 455, calls)
unfolding swap_exact_output swap_with exact_output_swap_logic swap_calls validate_swap_setup
    create_swap_post_states data_try_from to_program_id definition_id compute_vault_pda_seed
output_runs = refl

swap_exact_output-Swapped_example :
    (i : ℕ) × (o : ℕ) × (q : PoolDefinition) × (read_pool (data_at 0 (posts_with 1099 455))
      ≡ some q)
    × ((o ≡ 45) × (i ≤ 120))
    × Swapped (pool_with 1000 500) q 5 i o
    × Exchanged toy_amm (pool_with 1000 500) 5 vault_a vault_b user_a user_b calls i o
swap_exact_output-Swapped_example =
    swap_exact_output-Swapped toy_amm pool_round pool vault_a vault_b user_a user_b 45 120 5
      (pool_with 1000 500) (posts_with 1099 455, calls) refl (ground arith, ground arith)
      output_runs
