-- ===== src/Token/Operations/Behaviour.antt =====
-- The token program (lez/programs/token/src) under the checks on every execution
-- (lee/state_machine/core/src/program/mod.rs).
use lssa.Prelude.{
  ℕ, ◌≡◌, ◌≢◌, ◌⊎◌, inl, inr, refl, some, List, [], ◌∷◌, arith, IsDistinct, length, ok, ◌<◌,
}
use lssa.Account.{Account, AccountId, AccountWithMetadata, default_account, data_try_from, u128_mod}
use lssa.Program.{AccountPostState, ProgramId, default_program_owner}
use lssa.Program.Ids.{to_account_id}
use lssa.Program.Validate.{ids_of, pre_balances, post_balances}
use lssa.Program.Validate.WellBehaved.{PairOk, PairsOk, AreTyped, validate_execution_iff}
use lssa.Program.Validate.{validate_execution}
use lssa.Program.Balances.{sum}
use lssa.Token.{Text, Codec, Instruction, NewTokenDefinition, NewTokenMetadata}
use lssa.Token.Operations.{
  transfer, burn, mint, print_nft, initialize_account, new_fungible_definition,
  new_definition_with_metadata, execute,
}

-- The account after, but for its data, is the account before.
pub record SameButData (a b : Account) : Type 0 where
  pub same_owner : b.program_owner ≡ a.program_owner
  pub same_balance : b.balance ≡ a.balance
  pub same_nonce : b.nonce ≡ a.nonce

abbrev pub AllSameButData : List AccountWithMetadata → List AccountPostState → Type 0
AllSameButData [] [] = Unit {0}
AllSameButData [] (q ∷ posts) = ⊥
AllSameButData (p ∷ pres) [] = ⊥
AllSameButData (p ∷ pres) (q ∷ posts) = SameButData p.account q.account × AllSameButData pres posts

module _ (codec : Codec) where
  transfer_data :
      (a b : AccountWithMetadata) (n : ℕ) (posts : List AccountPostState)
      → transfer codec a b n ≡ some posts
      → AllSameButData (a ∷ b ∷ []) posts
  unfolding transfer data_try_from
  transfer_data a b n posts e = ground arith

  burn_data :
      (a b : AccountWithMetadata) (n : ℕ) (posts : List AccountPostState)
      → burn codec a b n ≡ some posts
      → AllSameButData (a ∷ b ∷ []) posts
  unfolding burn data_try_from
  burn_data a b n posts e = ground arith

  mint_data :
      (a b : AccountWithMetadata) (n : ℕ) (posts : List AccountPostState)
      → mint codec a b n ≡ some posts
      → AllSameButData (a ∷ b ∷ []) posts
  unfolding mint data_try_from
  mint_data a b n posts e = ground arith

  print_nft_data :
      (a b : AccountWithMetadata) (posts : List AccountPostState)
      → print_nft codec a b ≡ some posts
      → AllSameButData (a ∷ b ∷ []) posts
  unfolding print_nft data_try_from
  print_nft_data a b posts e = ground arith

  initialize_account_data :
      (a b : AccountWithMetadata) (posts : List AccountPostState)
      → initialize_account codec a b ≡ some posts
      → AllSameButData (a ∷ b ∷ []) posts
  unfolding initialize_account data_try_from
  initialize_account_data a b posts e = ground arith

  new_fungible_definition_data :
      (a b : AccountWithMetadata) (name : Text) (n : ℕ) (posts : List AccountPostState)
      → new_fungible_definition codec a b name n ≡ some posts
      → AllSameButData (a ∷ b ∷ []) posts
  unfolding new_fungible_definition data_try_from
  new_fungible_definition_data a b name n posts e = ground arith

  new_definition_with_metadata_data :
      (a b c : AccountWithMetadata) (d : NewTokenDefinition) (m : NewTokenMetadata)
      (posts : List AccountPostState)
      → new_definition_with_metadata codec a b c d m ≡ some posts
      → AllSameButData (a ∷ b ∷ c ∷ []) posts
  unfolding new_definition_with_metadata data_try_from
  new_definition_with_metadata_data a b c d m posts e = ground arith

  -- Every instruction that succeeds gives one post-state for each account, in order, and changes nothing but data.
  pub execute_changes_only_data :
      (i : Instruction) (pres : List AccountWithMetadata) (posts : List AccountPostState)
      → execute codec i pres ≡ some posts
      → AllSameButData pres posts
  unfolding execute
  execute_changes_only_data (Instruction.transfer n) (a ∷ b ∷ []) posts e =
      transfer_data a b n posts e
  execute_changes_only_data (Instruction.new_fungible_definition name n) (a ∷ b ∷ []) posts e =
      new_fungible_definition_data a b name n posts e
  execute_changes_only_data (Instruction.new_definition_with_metadata d m) (a ∷ b ∷ c ∷ []) posts
        e =
      new_definition_with_metadata_data a b c d m posts e
  execute_changes_only_data Instruction.initialize_account (a ∷ b ∷ []) posts e =
      initialize_account_data a b posts e
  execute_changes_only_data (Instruction.burn n) (a ∷ b ∷ []) posts e = burn_data a b n posts e
  execute_changes_only_data (Instruction.mint n) (a ∷ b ∷ []) posts e = mint_data a b n posts e
  execute_changes_only_data Instruction.print_nft (a ∷ b ∷ []) posts e = print_nft_data a b posts e
  execute_changes_only_data _ _ posts e = cc

-- Each account belongs to the program or is uninitialised.
abbrev pub OwnedOrNew : AccountId → List AccountWithMetadata → Type 0
OwnedOrNew owner [] = Unit {0}
OwnedOrNew owner (p ∷ pres) =
    ((p.account.program_owner ≡ owner) ⊎ (p.account ≡ default_account)) × OwnedOrNew owner pres

pair_ok :
    (owner : AccountId) (a b : Account)
    → owner ≢ default_program_owner
    → (a.program_owner ≡ owner) ⊎ (a ≡ default_account)
    → SameButData a b
    → PairOk owner a b
pair_ok owner a b h (inl e) s = ground arith
pair_ok owner a b h (inr e) s = record {
  same_nonce = s.same_nonce;
  same_owner = s.same_owner;
  may_decrease = ground arith;
  may_write = inr (inl e);
  may_be_unowned = inr e;
}

pairs_ok :
    (owner : AccountId) (pres : List AccountWithMetadata) (posts : List AccountPostState)
    → owner ≢ default_program_owner
    → OwnedOrNew owner pres
    → AllSameButData pres posts
    → PairsOk owner pres posts × (sum (pre_balances pres) ≡ sum (post_balances posts))
pairs_ok owner [] [] h o s = (tt, refl)
pairs_ok owner [] (q ∷ posts) h o s = absurd s
pairs_ok owner (p ∷ pres) [] h o s = absurd s
pairs_ok owner (p ∷ pres) (q ∷ posts) h o s =
    let (rest, totals) = pairs_ok owner pres posts h o.1 s.1 in
    ((pair_ok owner p.account q.account h o.0 s.0, rest), omega (arith, s.0.same_balance, totals))

-- On distinct accounts that belong to the token program or are uninitialised, fewer than 2^128
-- and with 128-bit balances before and after, whatever instruction succeeds, its output passes
-- the checks on executions. The program's identifier is not the default owner.
pub execute_passes_validation :
    (codec : Codec) (i : Instruction) (pid : ProgramId) (pres : List AccountWithMetadata)
    (posts : List AccountPostState)
    → to_account_id pid ≢ default_program_owner
    → OwnedOrNew (to_account_id pid) pres
    → IsDistinct (ids_of pres)
    → AreTyped pres posts
    → length pres < u128_mod
    → execute codec i pres ≡ some posts
    → validate_execution pres posts pid ≡ ok tt
execute_passes_validation codec i pid pres posts h owned distinct typed few e =
    let (pairs, totals) =
      pairs_ok (to_account_id pid) pres posts h owned
        (execute_changes_only_data codec i pres posts e) in
    (validate_execution_iff pid pres posts typed few).1
      (record { distinct = distinct; pairs = pairs; conserved = totals })
