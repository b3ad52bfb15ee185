-- ===== src/Amm/Tests.antt =====
-- Liquidity of the small pool, and a new pool (lez/programs/amm/src).
use lssa.Prelude.{
  ℕ, ◌+◌, ◌*◌, ◌^◌, ◌≡◌, ◌≢◌, ◌≤◌, ◌<◌, refl, true, false, not, ◌==◌, some, List, [], ◌∷◌, arith,
}
use lssa.Account.{AccountWithMetadata, data_try_from, account_eq, default_account}
use lssa.Program.{AccountPostState, ChainedCall, PdaSeed, Claim, post_state, claimed_if_default}
use lssa.Program.Ids.{to_program_id}
use lssa.Program.Pda.{for_public_pda}
use lssa.Token.{definition_id}
use lssa.Token.Operations.Amounts.{data_at}
use lssa.Amm.{PoolDefinition, compute_vault_pda_seed}
use lssa.Amm.ToyPool.{
  toy_amm, write_pool, read_pool, pool_round, pool_with, account_of, holder, pool, vault_a, vault_b,
  user_a, user_b,
}
use lssa.Amm.Liquidity.{
  add_liquidity, remove_liquidity, check_addition, check_removal, added_amounts, removed_amounts,
  compute_liquidity_token_pda_seed,
}
use lssa.Amm.Liquidity.Shares.{
  IsFair, PaysIn, PaysOut, add_liquidity-IsFair, remove_liquidity-IsFair,
}
use lssa.Amm.Pools.{
  new_definition, check_new_accounts, compute_pool_pda_seed, compute_pool_pda, compute_vault_pda,
  compute_liquidity_token_pda, isqrt,
}
use lssa.Amm.Pools.Opened.{new_definition_opens}
use lssa.Amm.Dispatch.{add, dispatch}
use lssa.Amm.Writes.{OnlyPool, dispatch_writes_pool}

abbrev lp : AccountWithMetadata
lp = record (account_of 7 []) { is_authorized = false }

abbrev user_lp : AccountWithMetadata
user_lp = holder 3 7 4

abbrev call : List AccountWithMetadata → List PdaSeed → ChainedCall
call accounts seeds = record {
  program_id = 9;
  pre_states = accounts;
  instruction_data = [];
  pda_seeds = seeds;
}

abbrev pool_of : ℕ → ℕ → ℕ → PoolDefinition
pool_of supply x y = record (pool_with x y) { liquidity_pool_supply = supply }

abbrev result_of : PoolDefinition → List ChainedCall → List AccountPostState × List ChainedCall
result_of p calls = (
  post_state (account_of 20 (write_pool p)).account
      ∷ post_state vault_a.account
      ∷ post_state vault_b.account
      ∷ post_state lp.account
      ∷ post_state user_a.account
      ∷ post_state user_b.account
      ∷ post_state user_lp.account
      ∷ [],
  calls,
)

abbrev added_result : List AccountPostState × List ChainedCall
added_result = result_of (pool_of 11 1100 550) (
    call (record lp { is_authorized = true } ∷ user_lp ∷ []) (4 ∷ [])
    ∷ call (user_b ∷ vault_b ∷ []) []
    ∷ call (user_a ∷ vault_a ∷ []) []
    ∷ [])

addition_runs :
    add_liquidity toy_amm pool vault_a vault_b lp user_a user_b user_lp 1 100 60 ≡ some added_result
unfolding add_liquidity check_addition added_amounts data_try_from to_program_id
    compute_liquidity_token_pda_seed
addition_runs = refl

add_liquidity-IsFair_example :
    (a : ℕ) × (b : ℕ) × (delta : ℕ) × (q : PoolDefinition) × (read_pool (data_at 0 added_result.0)
      ≡ some q)
    × (q.reserve_a ≡ 1000 + a)
    × (q.reserve_b ≡ 500 + b)
    × (q.liquidity_pool_supply ≡ 10 + delta)
    × (a ≤ 100)
    × (b ≤ 60)
    × (1 ≤ delta)
    × IsFair (pool_with 1000 500) q
    × PaysIn toy_amm vault_a vault_b lp user_a user_b user_lp added_result.1 a b delta
add_liquidity-IsFair_example =
    add_liquidity-IsFair toy_amm pool_round pool vault_a vault_b lp user_a user_b user_lp 1 100 60
      (pool_with 1000 500) added_result refl (omega arith) (omega arith) (omega arith) (omega arith)
      addition_runs

abbrev removed_result : List AccountPostState × List ChainedCall
removed_result = result_of (pool_of 9 900 450) (
    call (record lp { is_authorized = true } ∷ user_lp ∷ []) (4 ∷ [])
    ∷ call (vault_b ∷ user_b ∷ []) (4 ∷ [])
    ∷ call (vault_a ∷ user_a ∷ []) (4 ∷ [])
    ∷ [])

removal_runs :
    remove_liquidity toy_amm pool vault_a vault_b lp user_a user_b user_lp 1 100 50
    ≡ some removed_result
unfolding remove_liquidity check_removal removed_amounts data_try_from to_program_id definition_id
    compute_liquidity_token_pda_seed compute_vault_pda_seed
removal_runs = refl

remove_liquidity-IsFair_example :
    (a : ℕ) × (b : ℕ) × (q : PoolDefinition) × (read_pool (data_at 0 removed_result.0) ≡ some q)
    × (q.reserve_a + a ≡ 1000)
    × (q.reserve_b + b ≡ 500)
    × (q.liquidity_pool_supply + 1 ≡ 10)
    × (100 ≤ a)
    × (50 ≤ b)
    × (q.active ≡ not (10 == 1))
    × IsFair (pool_with 1000 500) q
    × PaysOut toy_amm vault_a vault_b lp user_a user_b user_lp removed_result.1 a b 1
remove_liquidity-IsFair_example =
    remove_liquidity-IsFair toy_amm pool_round pool vault_a vault_b lp user_a user_b user_lp 1 100
      50 (pool_with 1000 500) removed_result refl (omega arith) (omega arith) (omega arith)
      (omega arith) (omega arith) (omega arith) (omega arith) removal_runs

abbrev accounts : List AccountWithMetadata
accounts = pool ∷ vault_a ∷ vault_b ∷ lp ∷ user_a ∷ user_b ∷ user_lp ∷ []

addition_is_dispatched : dispatch toy_amm (add 1 100 60) accounts ≡ some added_result
unfolding dispatch
addition_is_dispatched = addition_runs

dispatch_writes_pool_example : OnlyPool accounts added_result.0
dispatch_writes_pool_example =
    dispatch_writes_pool toy_amm (add 1 100 60) accounts added_result addition_is_dispatched

-- All derived accounts have the identifier 4.
abbrev fresh : AccountWithMetadata
fresh = record { account = default_account; is_authorized = false; account_id = 4 }

abbrev derived : AccountWithMetadata
derived = record fresh { is_authorized = true }

abbrev opened : PoolDefinition
opened = record {
  definition_token_a_id = 5;
  definition_token_b_id = 6;
  vault_a_id = 4;
  vault_b_id = 4;
  liquidity_pool_id = 4;
  liquidity_pool_supply = 6;
  reserve_a = 9;
  reserve_b = 5;
  fees = 0;
  active = true;
}

abbrev opened_result : List AccountPostState × List ChainedCall
opened_result = (
  claimed_if_default (record default_account { data_bytes = write_pool opened }) (Claim.pda 4)
      ∷ post_state default_account
      ∷ post_state default_account
      ∷ post_state default_account
      ∷ post_state user_a.account
      ∷ post_state user_b.account
      ∷ post_state user_lp.account
      ∷ [],
  call (derived ∷ user_lp ∷ []) (4 ∷ [])
      ∷ call (user_b ∷ derived ∷ []) (4 ∷ [])
      ∷ call (user_a ∷ derived ∷ []) (4 ∷ [])
      ∷ [],
)

pool_opens :
    new_definition toy_amm fresh fresh fresh fresh user_a user_b user_lp 9 5 12 ≡ some opened_result
unfolding new_definition check_new_accounts compute_pool_pda_seed compute_pool_pda compute_vault_pda
    compute_liquidity_token_pda isqrt data_try_from account_eq to_program_id definition_id
    compute_liquidity_token_pda_seed compute_vault_pda_seed for_public_pda
pool_opens = refl

new_definition_opens_example :
    (q : PoolDefinition) × (read_pool (data_at 0 opened_result.0) ≡ some q)
    × (q.active ≡ true)
    × (q.reserve_a ≡ 9)
    × (q.reserve_b ≡ 5)
    × (q.definition_token_a_id ≢ q.definition_token_b_id)
    × (q.liquidity_pool_supply * q.liquidity_pool_supply ≤ 9 * 5)
    × (9 * 5 < (q.liquidity_pool_supply + 1) * (q.liquidity_pool_supply + 1))
new_definition_opens_example =
    new_definition_opens toy_amm pool_round fresh fresh fresh fresh user_a user_b user_lp 9 5 12
      opened_result (omega arith) pool_opens

-- The products wrap: of a supply of 2^127, removing 2 takes from both reserves and burns nothing.
removal_burns_nothing :
    removed_amounts (pool_of (2 ^ 127) (2 ^ 126) (2 ^ 126)) 2 1 1 ≡ some (1, 1, 0)
unfolding removed_amounts
removal_burns_nothing = refl
