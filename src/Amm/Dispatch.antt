-- ===== src/Amm/Dispatch.antt =====
-- lez/programs/amm/core/src/lib.rs and amm/src/main.rs: the instructions of the market maker and
-- their dispatch. The accounts that an instruction needs are matched in order; any other number of
-- them panics, and so does an amount of 0 where the source demands another.
use lssa.Prelude.{ℕ, not, Option, none, some, List, [], ◌∷◌, ◌==◌}
use lssa.Prelude.Options.{◌>>=◌}
use lssa.Account.{AccountId, AccountWithMetadata}
use lssa.Program.{
  AccountPostState, ChainedCall, InstructionData, ProgramId, ProgramOutput, unbounded,
}
use lssa.Token.Operations.{assert, ◌>>◌}
use lssa.Amm.{AmmExternals}
use lssa.Amm.Swap.{swap_exact_input, swap_exact_output}
use lssa.Amm.Liquidity.{add_liquidity, remove_liquidity}
use lssa.Amm.Pools.{new_definition}

pub data AmmInstruction : Type 0 where
  create_pool : (token_a_amount token_b_amount : ℕ) (amm_program_id : ProgramId) → AmmInstruction
  add :
      (min_amount_liquidity max_amount_to_add_token_a max_amount_to_add_token_b : ℕ)
      → AmmInstruction
  remove :
      (remove_liquidity_amount min_amount_to_remove_token_a min_amount_to_remove_token_b : ℕ)
      → AmmInstruction
  swap_input :
      (swap_amount_in min_amount_out : ℕ) (token_definition_id_in : AccountId) → AmmInstruction
  swap_output :
      (exact_amount_out max_amount_in : ℕ) (token_definition_id_in : AccountId) → AmmInstruction

module _ (ext : AmmExternals) where
  -- The match of `main`.
  unfoldable pub dispatch :
      AmmInstruction → List AccountWithMetadata → Option (List AccountPostState × List ChainedCall)
  dispatch (create_pool a b amm_program_id)
        (pool ∷ vault_a ∷ vault_b ∷ lp ∷ user_a ∷ user_b ∷ user_lp ∷ []) =
      assert (not (a == 0))
      >> (assert (not (b == 0))
          >> new_definition ext pool vault_a vault_b lp user_a user_b user_lp a b amm_program_id)
  dispatch (add low max_a max_b) (pool ∷ vault_a ∷ vault_b ∷ lp ∷ user_a ∷ user_b ∷ user_lp ∷ []) =
      assert (not (low == 0))
      >> add_liquidity ext pool vault_a vault_b lp user_a user_b user_lp low max_a max_b
  dispatch (remove amount min_a min_b)
        (pool ∷ vault_a ∷ vault_b ∷ lp ∷ user_a ∷ user_b ∷ user_lp ∷ []) =
      assert (not (amount == 0))
      >> remove_liquidity ext pool vault_a vault_b lp user_a user_b user_lp amount min_a min_b
  dispatch (swap_input amount low token) (pool ∷ vault_a ∷ vault_b ∷ user_a ∷ user_b ∷ []) =
      swap_exact_input ext pool vault_a vault_b user_a user_b amount low token
  dispatch (swap_output amount high token) (pool ∷ vault_a ∷ vault_b ∷ user_a ∷ user_b ∷ []) =
      swap_exact_output ext pool vault_a vault_b user_a user_b amount high token
  dispatch _ _ = none

  -- `main`: the output that it writes for an input.
  pub execute_amm :
      ProgramId
      → Option ProgramId
      → List AccountWithMetadata
      → AmmInstruction
      → InstructionData
      → Option ProgramOutput
  unfolding dispatch
  execute_amm self_program_id caller_program_id pre_states instruction instruction_words = do
    result ← dispatch instruction pre_states
    some (record {
      self_program_id = self_program_id;
      caller_program_id = caller_program_id;
      instruction_data = instruction_words;
      pre_states = pre_states;
      post_states = result.0;
      chained_calls = result.1;
      block_validity_window = unbounded;
      timestamp_validity_window = unbounded;
    })
