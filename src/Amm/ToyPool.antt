-- ===== src/Amm/ToyPool.antt =====
-- A pool with reserves of 1000 and 500, its vaults and two users, under stand-ins for Borsh and the
-- hash function.
use lssa.Prelude.{ℕ, zero, suc, ◌≡◌, refl, Bool, true, false, Option, none, some, List, [], ◌∷◌}
use lssa.Account.{AccountId, AccountWithMetadata}
use lssa.Token.{TokenHolding}
use lssa.Token.Operations.ToyCodec.{toy, write_holding}
use lssa.Amm.{AmmExternals, PoolDefinition}

abbrev pub bit : Bool → ℕ
bit true = 1
bit false = 0

abbrev pub from_bit : ℕ → Bool
from_bit zero = false
from_bit (suc n) = true

abbrev pub write_pool : PoolDefinition → List ℕ
write_pool p =
    p.definition_token_a_id
    ∷ p.definition_token_b_id
    ∷ p.vault_a_id
    ∷ p.vault_b_id
    ∷ p.liquidity_pool_id
    ∷ p.liquidity_pool_supply
    ∷ p.reserve_a
    ∷ p.reserve_b
    ∷ p.fees
    ∷ bit p.active
    ∷ []

abbrev pub read_pool : List ℕ → Option PoolDefinition
read_pool (a ∷ b ∷ va ∷ vb ∷ l ∷ s ∷ ra ∷ rb ∷ f ∷ on ∷ []) = some (record {
  definition_token_a_id = a;
  definition_token_b_id = b;
  vault_a_id = va;
  vault_b_id = vb;
  liquidity_pool_id = l;
  liquidity_pool_supply = s;
  reserve_a = ra;
  reserve_b = rb;
  fees = f;
  active = from_bit on;
})
read_pool _ = none

from_bit-bit : (b : Bool) → from_bit (bit b) ≡ b
from_bit-bit true = refl
from_bit-bit false = refl

pub pool_round : (p : PoolDefinition) → read_pool (write_pool p) ≡ some p
pool_round p = rw (from_bit-bit p.active) refl

abbrev pub toy_amm : AmmExternals
toy_amm = record {
  tokens = toy;
  encode_pool = write_pool;
  decode_pool = read_pool;
  hash_bytes = λ bs. 4;
  instruction_words = λ i. [];
}

abbrev pub pool_with : ℕ → ℕ → PoolDefinition
pool_with x y = record {
  definition_token_a_id = 5;
  definition_token_b_id = 6;
  vault_a_id = 15;
  vault_b_id = 16;
  liquidity_pool_id = 7;
  liquidity_pool_supply = 10;
  reserve_a = x;
  reserve_b = y;
  fees = 0;
  active = true;
}

abbrev pub account_of : AccountId → List ℕ → AccountWithMetadata
account_of id bytes = record {
  account = record { program_owner = 9; balance = 0; data_bytes = bytes; nonce = 0 };
  is_authorized = true;
  account_id = id;
}

abbrev pub holder : AccountId → AccountId → ℕ → AccountWithMetadata
holder id token n = account_of id (write_holding (TokenHolding.fungible token n))

abbrev pub pool : AccountWithMetadata
pool = account_of 20 (write_pool (pool_with 1000 500))

abbrev pub vault_a : AccountWithMetadata
vault_a = holder 15 5 1000

abbrev pub vault_b : AccountWithMetadata
vault_b = holder 16 6 500

abbrev pub user_a : AccountWithMetadata
user_a = holder 1 5 300

abbrev pub user_b : AccountWithMetadata
user_b = holder 2 6 40
