-- ===== src/Token.antt =====
-- lez/programs/token/core/src/lib.rs: the token program's data, and its encoding into account
-- data, which is Borsh's: a parameter with the round trip that Borsh documents.
pub mod Operations
use lssa.Prelude.{ℕ, ◌≡◌, Bool, true, false, Option, none, some, List}
use lssa.Account.{AccountId}

-- The UTF-8 bytes of a `String`.
abbrev pub Text : Type 0
Text = List ℕ

pub data NewTokenDefinition : Type 0 where
  fungible : Text → ℕ → NewTokenDefinition
  non_fungible : Text → ℕ → NewTokenDefinition

pub data MetadataStandard : Type 0 where
  simple : MetadataStandard
  expanded : MetadataStandard

pub record NewTokenMetadata : Type 0 where
  pub standard : MetadataStandard
  pub uri : Text
  pub creators : Text

pub data Instruction : Type 0 where
  transfer : ℕ → Instruction
  new_fungible_definition : Text → ℕ → Instruction
  new_definition_with_metadata : NewTokenDefinition → NewTokenMetadata → Instruction
  initialize_account : Instruction
  burn : ℕ → Instruction
  mint : ℕ → Instruction
  print_nft : Instruction

-- Name, total or printable supply, and the identifier of the metadata.
pub data TokenDefinition : Type 0 where
  fungible : Text → ℕ → Option AccountId → TokenDefinition
  non_fungible : Text → ℕ → AccountId → TokenDefinition

-- The identifier of the definition, with the balance, the copies left or the ownership.
pub data TokenHolding : Type 0 where
  fungible : AccountId → ℕ → TokenHolding
  nft_master : AccountId → ℕ → TokenHolding
  nft_printed_copy : AccountId → Bool → TokenHolding

pub record TokenMetadata : Type 0 where
  pub definition_id : AccountId
  pub standard : MetadataStandard
  pub uri : Text
  pub creators : Text
  pub primary_sale_date : ℕ

unfoldable pub zeroized_clone_from : TokenHolding → TokenHolding
zeroized_clone_from (TokenHolding.fungible id b) = TokenHolding.fungible id 0
zeroized_clone_from (TokenHolding.nft_master id b) = TokenHolding.nft_master id 0
zeroized_clone_from (TokenHolding.nft_printed_copy id o) = TokenHolding.nft_printed_copy id false

unfoldable pub zeroized_from_definition : AccountId → TokenDefinition → TokenHolding
zeroized_from_definition id (TokenDefinition.fungible n s m) = TokenHolding.fungible id 0
zeroized_from_definition id (TokenDefinition.non_fungible n s m) =
    TokenHolding.nft_printed_copy id false

unfoldable pub definition_id : TokenHolding → AccountId
definition_id (TokenHolding.fungible id b) = id
definition_id (TokenHolding.nft_master id b) = id
definition_id (TokenHolding.nft_printed_copy id o) = id

-- `try_from_slice` and `BorshSerialize::serialize` of the three types.
pub record Codec : Type 0 where
  pub encode_definition : TokenDefinition → List ℕ
  pub decode_definition : List ℕ → Option TokenDefinition
  pub encode_holding : TokenHolding → List ℕ
  pub decode_holding : List ℕ → Option TokenHolding
  pub encode_metadata : TokenMetadata → List ℕ
  pub decode_metadata : List ℕ → Option TokenMetadata

-- What Borsh documents: what was encoded is decoded to the same value. (On a number that no `u128`
-- holds, which the program never encodes, the parameter may be extended in any way that does so.)
pub record RoundTrips (c : Codec) : Type 0 where
  pub definition_round_trip :
      (d : TokenDefinition) → c.decode_definition (c.encode_definition d) ≡ some d
  pub holding_round_trip : (h : TokenHolding) → c.decode_holding (c.encode_holding h) ≡ some h
  pub metadata_round_trip : (m : TokenMetadata) → c.decode_metadata (c.encode_metadata m) ≡ some m
