-- ===== src/Amm.antt =====
-- lez/programs/amm/core/src/lib.rs: the pools of the automated market maker. Borsh, SHA-256 and
-- the encoding of a chained call's instruction are parameters.
pub mod Chained
pub mod Swap
pub mod Liquidity
pub mod Pools
pub mod Dispatch
pub mod Writes
pub mod ToyPool
pub mod Tests
use lssa.Prelude.{ℕ, Bool, Option, List, ◌++◌}
use lssa.Prelude.Digits.{bytes32}
use lssa.Account.{AccountId}
use lssa.Program.{InstructionData, PdaSeed}
use lssa.Token.{Instruction, Codec}

pub record PoolDefinition : Type 0 where
  pub definition_token_a_id : AccountId
  pub definition_token_b_id : AccountId
  pub vault_a_id : AccountId
  pub vault_b_id : AccountId
  pub liquidity_pool_id : AccountId
  pub liquidity_pool_supply : ℕ
  pub reserve_a : ℕ
  pub reserve_b : ℕ
  pub fees : ℕ
  pub active : Bool

-- What the program takes from other packages.
pub record AmmExternals : Type 0 where
  pub tokens : Codec
  pub encode_pool : PoolDefinition → List ℕ
  pub decode_pool : List ℕ → Option PoolDefinition
  pub hash_bytes : List ℕ → ℕ
  pub instruction_words : Instruction → InstructionData

pub compute_vault_pda_seed : AmmExternals → AccountId → AccountId → PdaSeed
compute_vault_pda_seed ext pool_id definition_token_id =
    ext.hash_bytes (bytes32 pool_id ++ bytes32 definition_token_id)
