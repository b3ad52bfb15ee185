-- ===== src/Token/Operations/Amounts.antt =====
-- What the data of the token program stand for (lez/programs/token/core, lez/programs/token/src):
-- the amount of a holding, the supply of a definition, and what the matches of the operations
-- make of them.
use lssa.Prelude.{
  ℕ, ◌+◌, ◌≡◌, ◌<◌, refl, Bool, true, false, Option, none, some, List, arith, if◌then◌else◌, get_or,
}
use lssa.Account.{Account, AccountId, account_eq, default_account, u128_mod, data_try_from}
use lssa.Program.{AccountPostState, post_state}
use lssa.Token.{TokenDefinition, TokenHolding, Codec, zeroized_clone_from, zeroized_from_definition}
use lssa.Token.Operations.{assert, with_data, ◌>>◌, move_holding, burn_holding, mint_holding}

-- What a holding stands for: a balance, the copies left, or one copy if it is owned.
abbrev pub amount : TokenHolding → ℕ
amount (TokenHolding.fungible i b) = b
amount (TokenHolding.nft_master i b) = b
amount (TokenHolding.nft_printed_copy i true) = 1
amount (TokenHolding.nft_printed_copy i false) = 0

abbrev pub supply : TokenDefinition → ℕ
supply (TokenDefinition.fungible name s m) = s
supply (TokenDefinition.non_fungible name s m) = s

pub move_holding-amount :
    (h k : TokenHolding) (n : ℕ) (m : TokenHolding × TokenHolding)
    → move_holding h k n ≡ some m
    → (amount m.0 + n ≡ amount h) × (amount m.1 ≡ amount k + n)
unfolding move_holding
move_holding-amount (TokenHolding.fungible i b) (TokenHolding.fungible j c) n m e = ground arith
move_holding-amount (TokenHolding.nft_master i b) (TokenHolding.nft_master j c) n m e = ground arith
move_holding-amount (TokenHolding.nft_printed_copy i true) (TokenHolding.nft_printed_copy j false) n
      m e =
    ground arith
move_holding-amount _ _ n m e = ground arith

pub burn_holding-amount :
    (d : TokenDefinition) (h : TokenHolding) (n : ℕ) (m : TokenDefinition × TokenHolding)
    → burn_holding d h n ≡ some m
    → (supply m.0 + n ≡ supply d) × (amount m.1 + n ≡ amount h)
unfolding burn_holding
burn_holding-amount (TokenDefinition.fungible name s i) (TokenHolding.fungible j b) n m e =
    ground arith
burn_holding-amount (TokenDefinition.non_fungible name s i) (TokenHolding.nft_master j b) n m e =
    ground arith
burn_holding-amount (TokenDefinition.non_fungible name s i) (TokenHolding.nft_printed_copy j true) n
      m e =
    ground arith
burn_holding-amount _ _ n m e = ground arith

pub mint_holding-amount :
    (d : TokenDefinition) (h : TokenHolding) (n : ℕ) (m : TokenDefinition × TokenHolding)
    → mint_holding d h n ≡ some m
    → (supply m.0 ≡ supply d + n)
      × (amount m.1 ≡ amount h + n)
      × (supply m.0 < u128_mod)
      × (amount m.1 < u128_mod)
unfolding mint_holding
mint_holding-amount (TokenDefinition.fungible name s i) (TokenHolding.fungible j b) n m e =
    ground arith
mint_holding-amount _ _ n m e = ground arith

pub assert->> {κ} :
    {B : Type κ} (t : Bool) (k : Option B) {b : B}
    → (assert t >> k) ≡ some b
    → (t ≡ true) × (k ≡ some b)
assert->> true k h = (refl, h)
assert->> false k h = cc

pub with_data-eq :
    (a : Account) (bytes : List ℕ) (r : Account)
    → with_data a bytes ≡ some r
    → r ≡ record a { data_bytes = bytes }
unfolding data_try_from
with_data-eq a bytes r h = ground arith

-- The data of the post-state at a place.
abbrev pub data_at : ℕ → List AccountPostState → List ℕ
data_at i posts = (get_or posts i (post_state default_account)).account.data_bytes

pub amount-zeroized_definition :
    (id : AccountId) (d : TokenDefinition) → amount (zeroized_from_definition id d) ≡ 0
unfolding zeroized_from_definition
amount-zeroized_definition id (TokenDefinition.fungible n s m) = refl
amount-zeroized_definition id (TokenDefinition.non_fungible n s m) = refl

module _ (codec : Codec) where
  open codec use {decode_definition, decode_holding}

  -- The amount that data stand for; 0 if they are no holding.
  abbrev pub amount_in : List ℕ → ℕ
  amount_in bytes = elim (decode_holding bytes) [ none ↦ 0 | some h ↦ amount h ]

  -- The amount of an account, which is 0 while it is uninitialised.
  abbrev pub amount_of : Account → ℕ
  amount_of a = if account_eq a default_account then 0 else amount_in a.data_bytes

  abbrev pub supply_in : List ℕ → ℕ
  supply_in bytes = elim (decode_definition bytes) [ none ↦ 0 | some d ↦ supply d ]

  pub amount-zeroized : (h : TokenHolding) → amount (zeroized_clone_from h) ≡ 0
  unfolding zeroized_clone_from
  amount-zeroized (TokenHolding.fungible i b) = refl
  amount-zeroized (TokenHolding.nft_master i b) = refl
  amount-zeroized (TokenHolding.nft_printed_copy i o) = refl

  pub recipient_amount :
      (a : Account) (h k : TokenHolding)
      → (if account_eq a default_account
          then some (zeroized_clone_from h)
          else decode_holding a.data_bytes)
        ≡ some k
      → amount k ≡ amount_of a
  recipient_amount a h k e = ground (arith, amount-zeroized h)

  pub amount_in_known :
      (bytes : List ℕ) (h : TokenHolding)
      → decode_holding bytes ≡ some h
      → amount_in bytes ≡ amount h
  amount_in_known bytes h e = ground arith

  pub supply_in_known :
      (bytes : List ℕ) (d : TokenDefinition)
      → decode_definition bytes ≡ some d
      → supply_in bytes ≡ supply d
  supply_in_known bytes d e = ground arith

  pub minted_amount :
      (a : Account) (id : AccountId) (d : TokenDefinition) (k : TokenHolding)
      → (if account_eq a default_account
          then some (zeroized_from_definition id d)
          else decode_holding a.data_bytes)
        ≡ some k
      → amount k ≡ amount_of a
  minted_amount a id d k e = ground (arith, amount-zeroized_definition id d)
