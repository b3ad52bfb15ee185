-- ===== src/Token/Operations/ToyCodec.antt =====
-- A codec with the round trip that Borsh documents (lez/programs/token/core/src/lib.rs), for
-- runs of the token program.
use lssa.Prelude.{ℕ, zero, suc, ◌≡◌, refl, true, false, Option, none, some, List, [], ◌∷◌}
use lssa.Token.{
  Text, MetadataStandard, TokenDefinition, TokenHolding, TokenMetadata, Codec, RoundTrips,
}

-- A text with a mark before each byte and one at the end, then another text.
abbrev pack : Text → Text → List ℕ
pack [] ys = 0 ∷ ys
pack (x ∷ xs) ys = 1 ∷ x ∷ pack xs ys

abbrev unpack : List ℕ → Text × Text
unpack [] = ([], [])
unpack (zero ∷ ys) = ([], ys)
unpack (suc n ∷ []) = ([], [])
unpack (suc n ∷ x ∷ bs) = (x ∷ (unpack bs).0, (unpack bs).1)

unpack-pack : (xs ys : Text) → unpack (pack xs ys) ≡ (xs, ys)
unpack-pack [] ys = refl
unpack-pack (x ∷ xs) ys = rw (unpack-pack xs ys) refl

abbrev pub write_definition : TokenDefinition → List ℕ
write_definition (TokenDefinition.fungible name s none) = 0 ∷ s ∷ name
write_definition (TokenDefinition.fungible name s (some m)) = 1 ∷ s ∷ m ∷ name
write_definition (TokenDefinition.non_fungible name s m) = 2 ∷ s ∷ m ∷ name

abbrev read_definition : List ℕ → Option TokenDefinition
read_definition (zero ∷ s ∷ name) = some (TokenDefinition.fungible name s none)
read_definition (suc zero ∷ s ∷ m ∷ name) = some (TokenDefinition.fungible name s (some m))
read_definition (suc (suc zero) ∷ s ∷ m ∷ name) = some (TokenDefinition.non_fungible name s m)
read_definition _ = none

abbrev pub write_holding : TokenHolding → List ℕ
write_holding (TokenHolding.fungible i b) = 0 ∷ i ∷ b ∷ []
write_holding (TokenHolding.nft_master i b) = 1 ∷ i ∷ b ∷ []
write_holding (TokenHolding.nft_printed_copy i false) = 2 ∷ i ∷ 0 ∷ []
write_holding (TokenHolding.nft_printed_copy i true) = 2 ∷ i ∷ 1 ∷ []

abbrev read_holding : List ℕ → Option TokenHolding
read_holding (zero ∷ i ∷ b ∷ []) = some (TokenHolding.fungible i b)
read_holding (suc zero ∷ i ∷ b ∷ []) = some (TokenHolding.nft_master i b)
read_holding (suc (suc zero) ∷ i ∷ zero ∷ []) = some (TokenHolding.nft_printed_copy i false)
read_holding (suc (suc zero) ∷ i ∷ suc zero ∷ []) = some (TokenHolding.nft_printed_copy i true)
read_holding _ = none

abbrev standard_number : MetadataStandard → ℕ
standard_number MetadataStandard.simple = 0
standard_number MetadataStandard.expanded = 1

abbrev write_metadata : TokenMetadata → List ℕ
write_metadata m =
    m.definition_id ∷ standard_number m.standard ∷ m.primary_sale_date ∷ pack m.uri m.creators

abbrev standard_of : ℕ → MetadataStandard
standard_of zero = MetadataStandard.simple
standard_of (suc n) = MetadataStandard.expanded

abbrev read_metadata : List ℕ → Option TokenMetadata
read_metadata (d ∷ k ∷ date ∷ bs) = some (record {
  definition_id = d;
  standard = standard_of k;
  uri = (unpack bs).0;
  creators = (unpack bs).1;
  primary_sale_date = date;
})
read_metadata _ = none

abbrev pub toy : Codec
toy = record {
  encode_definition = write_definition;
  decode_definition = read_definition;
  encode_holding = write_holding;
  decode_holding = read_holding;
  encode_metadata = write_metadata;
  decode_metadata = read_metadata;
}

definition_round : (d : TokenDefinition) → read_definition (write_definition d) ≡ some d
definition_round (TokenDefinition.fungible name s none) = refl
definition_round (TokenDefinition.fungible name s (some m)) = refl
definition_round (TokenDefinition.non_fungible name s m) = refl

holding_round : (h : TokenHolding) → read_holding (write_holding h) ≡ some h
holding_round (TokenHolding.fungible i b) = refl
holding_round (TokenHolding.nft_master i b) = refl
holding_round (TokenHolding.nft_printed_copy i false) = refl
holding_round (TokenHolding.nft_printed_copy i true) = refl

standard_round : (s : MetadataStandard) → standard_of (standard_number s) ≡ s
standard_round MetadataStandard.simple = refl
standard_round MetadataStandard.expanded = refl

metadata_round : (m : TokenMetadata) → read_metadata (write_metadata m) ≡ some m
metadata_round m = rw (unpack-pack m.uri m.creators, standard_round m.standard) refl

pub toy-RoundTrips : RoundTrips toy
toy-RoundTrips = record {
  definition_round_trip = definition_round;
  holding_round_trip = holding_round;
  metadata_round_trip = metadata_round;
}
