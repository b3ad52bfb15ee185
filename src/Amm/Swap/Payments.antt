-- ===== src/Amm/Swap/Payments.antt =====
-- The transfers that a swap chains (lez/programs/amm/src/swap.rs): into one vault, out of the other.
use lssa.Prelude.{ℕ, ◌-◌, ◌≡◌, ◌⊎◌, refl, subst, not, some, List, [], ◌∷◌, leb, ltb, ◌==◌}
use lssa.Prelude.Options.{>>=-eq-some, some-injective}
use lssa.Account.{AccountId, AccountWithMetadata}
use lssa.Program.{ChainedCall}
use lssa.Program.Ids.{to_program_id}
use lssa.Token.{Instruction}
use lssa.Token.Operations.Amounts.{assert->>}
use lssa.Amm.{AmmExternals, PoolDefinition}
use lssa.Amm.Chained.{Chains}
use lssa.Amm.Swap.{
  swap_calls, swap_logic, exact_output_swap_logic, checked_mul, divide, div_ceil, wrapping_add,
}

module _ (ext : AmmExternals) where
  -- An amount goes from the user to the vault of one token, another from the vault of the other
  -- token to the user; both are transfers of the token program that owns the first holding.
  abbrev pub Exchange :
      AccountWithMetadata
      → AccountWithMetadata
      → AccountWithMetadata
      → AccountWithMetadata
      → List ChainedCall
      → ℕ
      → ℕ
      → Type 0
  Exchange user_deposit vault_deposit vault_withdraw user_withdraw calls i o =
      Chains ext (to_program_id user_deposit.account.program_owner) calls (
        (Instruction.transfer i, user_deposit.account_id, vault_deposit.account_id)
        ∷ (Instruction.transfer o, vault_withdraw.account_id, user_withdraw.account_id)
        ∷ [])

  -- The exchange of a swap whose token in is one of the pool's.
  abbrev pub Exchanged :
      PoolDefinition
      → AccountId
      → AccountWithMetadata
      → AccountWithMetadata
      → AccountWithMetadata
      → AccountWithMetadata
      → List ChainedCall
      → ℕ
      → ℕ
      → Type 0
  Exchanged p token vault_a vault_b user_a user_b calls i o =
      ((token ≡ p.definition_token_a_id) × Exchange user_a vault_a vault_b user_b calls i o)
      ⊎ ((token ≡ p.definition_token_b_id) × Exchange user_b vault_b vault_a user_a calls i o)

  swap_calls-Exchange :
      (ud vd vw uw : AccountWithMetadata) (i o : ℕ) (pool_id : AccountId) (calls : List ChainedCall)
      → swap_calls ext ud vd vw uw i o pool_id ≡ some calls
      → Exchange ud vd vw uw calls i o
  unfolding swap_calls
  swap_calls-Exchange ud vd vw uw i o pool_id calls h =
      let (holding, _, h₁) = >>=-eq-some (ext.tokens.decode_holding vw.account.data_bytes) _ h in
      subst (λ cs. Exchange ud vd vw uw cs i o) (some-injective h₁)
        (refl, refl, refl, (refl, refl, refl, tt))

  pub swap_logic-Exchange :
      (ud vd vw uw : AccountWithMetadata) (amount bound x y : ℕ) (pool_id : AccountId)
      (moved : List ChainedCall × ℕ × ℕ)
      → swap_logic ext ud vd vw uw amount bound x y pool_id ≡ some moved
      → Exchange ud vd vw uw moved.0 moved.1 moved.2
  unfolding swap_logic
  swap_logic-Exchange ud vd vw uw amount bound x y pool_id moved h =
      let (product, _, h₁) = >>=-eq-some (checked_mul y amount) _ h in
      let (out, _, h₂) = >>=-eq-some (divide product (wrapping_add x amount)) _ h₁ in
      let (_, h₃) = assert->> (leb bound out) _ h₂ in
      let (_, h₄) = assert->> (not (out == 0)) _ h₃ in
      let (calls, made, h₅) = >>=-eq-some (swap_calls ext ud vd vw uw amount out pool_id) _ h₄ in
      subst (λ m. Exchange ud vd vw uw m.0 m.1 m.2)
        (some-injective {a = (calls, amount, out)} {b = moved} h₅)
        (swap_calls-Exchange ud vd vw uw amount out pool_id calls made)

  pub exact_output_swap_logic-Exchange :
      (ud vd vw uw : AccountWithMetadata) (amount bound x y : ℕ) (pool_id : AccountId)
      (moved : List ChainedCall × ℕ × ℕ)
      → exact_output_swap_logic ext ud vd vw uw amount bound x y pool_id ≡ some moved
      → Exchange ud vd vw uw moved.0 moved.1 moved.2
  unfolding exact_output_swap_logic
  exact_output_swap_logic-Exchange ud vd vw uw amount bound x y pool_id moved h =
      let (_, h₁) = assert->> (not (amount == 0)) _ h in
      let (_, h₂) = assert->> (ltb amount y) _ h₁ in
      let (product, _, h₃) = >>=-eq-some (checked_mul x amount) _ h₂ in
      let (cost, _, h₄) = >>=-eq-some (div_ceil product (y - amount)) _ h₃ in
      let (_, h₅) = assert->> (leb cost bound) _ h₄ in
      let (calls, made, h₆) = >>=-eq-some (swap_calls ext ud vd vw uw cost amount pool_id) _ h₅ in
      subst (λ m. Exchange ud vd vw uw m.0 m.1 m.2)
        (some-injective {a = (calls, cost, amount)} {b = moved} h₆)
        (swap_calls-Exchange ud vd vw uw cost amount pool_id calls made)
