-- ===== src/Token/Operations.antt =====
-- lez/programs/token/src: the operations of the token program. `none` is a panic: a failed
-- assertion, an `expect`, or arithmetic out of the range of `u128`.
pub mod Amounts
pub mod Supply
pub mod Behaviour
pub mod ToyCodec
pub mod Tests
use lssa.Prelude.{
  ℕ, suc, ◌+◌, ◌-◌, Bool, true, false, not, ◌&&◌, Option, none, some, List, [], ◌∷◌, ltb, leb, ◌==◌,
  if◌then◌else◌,
}
use lssa.Prelude.Options.{◌>>=◌}
use lssa.Account.{
  Account, AccountId, AccountWithMetadata, account_eq, default_account, data_try_from, u128_mod,
}
use lssa.Program.{AccountPostState, Claim, post_state, claimed_post_state, claimed_if_default}
use lssa.Token.{
  Text, NewTokenDefinition, NewTokenMetadata, Instruction, TokenDefinition, TokenHolding,
  TokenMetadata, Codec, zeroized_clone_from, zeroized_from_definition, definition_id,
}

abbrev pub assert : Bool → Option (Unit {0})
assert true = some tt
assert false = none

infixl 5 ◌>>◌
abbrev pub ◌>>◌ {κ} : {B : Type κ} → Option (Unit {0}) → Option B → Option B
m >> k = m >>= λ _. k

abbrev pub checked_add : ℕ → ℕ → Option ℕ
checked_add a b = if ltb (a + b) u128_mod then some (a + b) else none

abbrev pub checked_sub : ℕ → ℕ → Option ℕ
checked_sub a b = if leb b a then some (a - b) else none

-- The post-account with new data; `Data::from` panics if they do not fit.
abbrev pub with_data : Account → List ℕ → Option Account
with_data a bytes = data_try_from bytes >>= λ d. some (record a { data_bytes = d })

-- The match of `transfer`: the sender's holding and the recipient's, after the move.
pub move_holding : TokenHolding → TokenHolding → ℕ → Option (TokenHolding × TokenHolding)
move_holding (TokenHolding.fungible i b) (TokenHolding.fungible j c) n = do
  b' ← checked_sub b n
  c' ← checked_add c n
  some (TokenHolding.fungible i b', TokenHolding.fungible j c')
move_holding (TokenHolding.nft_master i b) (TokenHolding.nft_master j c) n = do
  assert (c == 0)
  assert (b == n)
  some (TokenHolding.nft_master i c, TokenHolding.nft_master j b)
move_holding (TokenHolding.nft_printed_copy i owned) (TokenHolding.nft_printed_copy j other) n = do
  assert (n == 1)
  assert owned
  assert (not other)
  some (TokenHolding.nft_printed_copy i false, TokenHolding.nft_printed_copy j true)
move_holding _ _ n = none

-- The match of `burn`: the definition and the holding, after the burning.
pub burn_holding : TokenDefinition → TokenHolding → ℕ → Option (TokenDefinition × TokenHolding)
burn_holding (TokenDefinition.fungible name supply m) (TokenHolding.fungible i b) n = do
  b' ← checked_sub b n
  supply' ← checked_sub supply n
  some (TokenDefinition.fungible name supply' m, TokenHolding.fungible i b')
burn_holding (TokenDefinition.non_fungible name supply m) (TokenHolding.nft_master i b) n = do
  supply' ← checked_sub supply n
  b' ← checked_sub b n
  some (TokenDefinition.non_fungible name supply' m, TokenHolding.nft_master i b')
burn_holding (TokenDefinition.non_fungible name supply m) (TokenHolding.nft_printed_copy i owned)
      n =
    do
      assert (n == 1)
      assert owned
      supply' ← checked_sub supply 1
      some (TokenDefinition.non_fungible name supply' m, TokenHolding.nft_printed_copy i false)
burn_holding _ _ n = none

-- The match of `mint`.
pub mint_holding : TokenDefinition → TokenHolding → ℕ → Option (TokenDefinition × TokenHolding)
mint_holding (TokenDefinition.fungible name supply m) (TokenHolding.fungible i b) n = do
  b' ← checked_add b n
  supply' ← checked_add supply n
  some (TokenDefinition.fungible name supply' m, TokenHolding.fungible i b')
mint_holding _ _ n = none

-- The match and the rest of `print_nft` on the master's holding: what is left of it.
pub print_copy : TokenHolding → Option TokenHolding
print_copy (TokenHolding.nft_master i b) = do
  assert (ltb 1 b)
  b' ← checked_sub b 1
  some (TokenHolding.nft_master i b')
print_copy _ = none

-- The match of `new_definition_with_metadata`.
pub define_token : NewTokenDefinition → AccountId → AccountId → TokenDefinition × TokenHolding
define_token (NewTokenDefinition.fungible name supply) definition metadata =
    (TokenDefinition.fungible name supply (some metadata), TokenHolding.fungible definition supply)
define_token (NewTokenDefinition.non_fungible name supply) definition metadata =
    (TokenDefinition.non_fungible name supply metadata, TokenHolding.nft_master definition supply)

module _ (codec : Codec) where
  open codec use {
    encode_definition, decode_definition, encode_holding, decode_holding, encode_metadata,
  }

  pub transfer : AccountWithMetadata → AccountWithMetadata → ℕ → Option (List AccountPostState)
  unfolding move_holding
  transfer sender recipient balance_to_move = do
    assert sender.is_authorized
    from_holding ← decode_holding sender.account.data_bytes
    to_holding ←
        if account_eq recipient.account default_account
        then some (zeroized_clone_from from_holding)
        else decode_holding recipient.account.data_bytes
    assert (definition_id from_holding == definition_id to_holding)
    moved ← move_holding from_holding to_holding balance_to_move
    sender_post ← with_data sender.account (encode_holding moved.0)
    recipient_post ← with_data recipient.account (encode_holding moved.1)
    some (post_state sender_post ∷ claimed_if_default recipient_post Claim.authorized ∷ [])

  pub burn : AccountWithMetadata → AccountWithMetadata → ℕ → Option (List AccountPostState)
  unfolding burn_holding
  burn definition_account user_holding_account amount_to_burn = do
    assert user_holding_account.is_authorized
    definition ← decode_definition definition_account.account.data_bytes
    holding ← decode_holding user_holding_account.account.data_bytes
    assert (definition_account.account_id == definition_id holding)
    burnt ← burn_holding definition holding amount_to_burn
    definition_post ← with_data definition_account.account (encode_definition burnt.0)
    holding_post ← with_data user_holding_account.account (encode_holding burnt.1)
    some (post_state definition_post ∷ post_state holding_post ∷ [])

  pub mint : AccountWithMetadata → AccountWithMetadata → ℕ → Option (List AccountPostState)
  unfolding mint_holding
  mint definition_account user_holding_account amount_to_mint = do
    assert definition_account.is_authorized
    definition ← decode_definition definition_account.account.data_bytes
    holding ←
        if account_eq user_holding_account.account default_account
        then some (zeroized_from_definition definition_account.account_id definition)
        else decode_holding user_holding_account.account.data_bytes
    assert (definition_account.account_id == definition_id holding)
    minted ← mint_holding definition holding amount_to_mint
    definition_post ← with_data definition_account.account (encode_definition minted.0)
    holding_post ← with_data user_holding_account.account (encode_holding minted.1)
    some (post_state definition_post ∷ claimed_if_default holding_post Claim.authorized ∷ [])

  pub print_nft : AccountWithMetadata → AccountWithMetadata → Option (List AccountPostState)
  unfolding print_copy
  print_nft master_account printed_account = do
    assert master_account.is_authorized
    assert (account_eq printed_account.account default_account)
    master ← decode_holding master_account.account.data_bytes
    left ← print_copy master
    master_post ← with_data master_account.account (encode_holding left)
    printed_post ←
        with_data printed_account.account
          (encode_holding (TokenHolding.nft_printed_copy (definition_id master) true))
    some (post_state master_post ∷ claimed_post_state printed_post Claim.authorized ∷ [])

  pub initialize_account :
      AccountWithMetadata → AccountWithMetadata → Option (List AccountPostState)
  initialize_account definition_account account_to_initialize = do
    assert (account_eq account_to_initialize.account default_account)
    definition ← decode_definition definition_account.account.data_bytes
    initialized ←
        with_data account_to_initialize.account
          (encode_holding (zeroized_from_definition definition_account.account_id definition))
    some (
        post_state definition_account.account
        ∷ claimed_post_state initialized Claim.authorized
        ∷ [])

  pub new_fungible_definition :
      AccountWithMetadata → AccountWithMetadata → Text → ℕ → Option (List AccountPostState)
  new_fungible_definition definition_target holding_target name total_supply = do
    assert (account_eq definition_target.account default_account)
    assert (account_eq holding_target.account default_account)
    definition_post ←
        with_data definition_target.account
          (encode_definition (TokenDefinition.fungible name total_supply none))
    holding_post ←
        with_data holding_target.account
          (encode_holding (TokenHolding.fungible definition_target.account_id total_supply))
    some (
        claimed_post_state definition_post Claim.authorized
        ∷ claimed_post_state holding_post Claim.authorized
        ∷ [])

  pub new_definition_with_metadata :
      AccountWithMetadata
      → AccountWithMetadata
      → AccountWithMetadata
      → NewTokenDefinition
      → NewTokenMetadata
      → Option (List AccountPostState)
  unfolding define_token
  new_definition_with_metadata definition_target holding_target metadata_target new_definition
        metadata =
      do
        assert (account_eq definition_target.account default_account)
        assert (account_eq holding_target.account default_account)
        assert (account_eq metadata_target.account default_account)
        let tokens =
            define_token new_definition definition_target.account_id metadata_target.account_id
        let token_metadata : TokenMetadata = record {
          definition_id = definition_target.account_id;
          standard = metadata.standard;
          uri = metadata.uri;
          creators = metadata.creators;
          primary_sale_date = 0;
        }
        definition_post ← with_data definition_target.account (encode_definition tokens.0)
        holding_post ← with_data holding_target.account (encode_holding tokens.1)
        metadata_post ← with_data metadata_target.account (encode_metadata token_metadata)
        some (
            claimed_post_state definition_post Claim.authorized
            ∷ claimed_post_state holding_post Claim.authorized
            ∷ claimed_post_state metadata_post Claim.authorized
            ∷ [])

  -- The dispatch of `main`: each instruction takes exactly its number of accounts.
  pub execute : Instruction → List AccountWithMetadata → Option (List AccountPostState)
  unfolding transfer burn mint print_nft initialize_account new_fungible_definition
      new_definition_with_metadata
  execute (Instruction.transfer n) (a ∷ b ∷ []) = transfer a b n
  execute (Instruction.new_fungible_definition name n) (a ∷ b ∷ []) =
      new_fungible_definition a b name n
  execute (Instruction.new_definition_with_metadata d m) (a ∷ b ∷ c ∷ []) =
      new_definition_with_metadata a b c d m
  execute Instruction.initialize_account (a ∷ b ∷ []) = initialize_account a b
  execute (Instruction.burn n) (a ∷ b ∷ []) = burn a b n
  execute (Instruction.mint n) (a ∷ b ∷ []) = mint a b n
  execute Instruction.print_nft (a ∷ b ∷ []) = print_nft a b
  execute _ _ = none
