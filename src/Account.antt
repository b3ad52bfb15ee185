-- ===== src/Account.antt =====
-- lee/state_machine/core/src/account.rs and account/data.rs: accounts and their fields.
-- A 32-byte identifier stands for the number that its bytes spell, the lowest byte first; the
-- code only compares and hashes it. A `u128` is a number, its range a hypothesis where it matters.
use lssa.Prelude.{
  ℕ, ◌+◌, ◌*◌, ◌^◌, ◌≡◌, Bool, true, ◌&&◌, Option, none, some, List, [], arith, ltb, ◌==◌,
  if◌then◌else◌, list_eq, list_eq-eq, list_eq_refl, length,
}

abbrev pub AccountId : Type 0
AccountId = ℕ

abbrev pub Nonce : Type 0
Nonce = ℕ

abbrev pub Balance : Type 0
Balance = ℕ

abbrev pub u128_mod : ℕ
u128_mod = 2 ^ 128

-- `DATA_MAX_LENGTH`, 700 KiB.
abbrev pub data_max_length : ℕ
data_max_length = 700 * 1024

pub record Account : Type 0 where
  pub program_owner : AccountId
  pub balance : Balance
  pub data_bytes : List ℕ
  pub nonce : Nonce

-- `Account::default()`.
abbrev pub default_account : Account
default_account = record { program_owner = 0; balance = 0; data_bytes = []; nonce = 0 }

pub record AccountWithMetadata : Type 0 where
  pub account : Account
  pub is_authorized : Bool
  pub account_id : AccountId

-- The derived `==` of `Account`.
unfoldable pub account_eq : Account → Account → Bool
account_eq a b =
    a.program_owner == b.program_owner
    && (a.balance == b.balance && (list_eq a.data_bytes b.data_bytes && a.nonce == b.nonce))

pub account_eq-eq : (a b : Account) → account_eq a b ≡ true → a ≡ b
unfolding account_eq
account_eq-eq a b h = ground (arith, list_eq-eq a.data_bytes b.data_bytes)

pub account_eq_refl : (a : Account) → account_eq a a ≡ true
unfolding account_eq
account_eq_refl a = ground (arith, list_eq_refl a.data_bytes)

-- `Nonce::public_account_nonce_increment`; `none` is its panic on overflow.
unfoldable pub public_account_nonce_increment : Nonce → Option Nonce
public_account_nonce_increment n = if ltb (n + 1) u128_mod then some (n + 1) else none

-- `Data::try_from`; `none` is `DataTooBigError`.
unfoldable pub data_try_from : List ℕ → Option (List ℕ)
data_try_from bytes = if ltb data_max_length (length bytes) then none else some bytes
