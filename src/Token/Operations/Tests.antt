-- ===== src/Token/Operations/Tests.antt =====
-- Runs of the token program (lez/programs/token/src) on accounts of two holders, under a
-- stand-in for Borsh.
use lssa.Prelude.{ℕ, ◌+◌, ◌≡◌, ◌≤◌, ◌<◌, inl, refl, true, none, some, List, [], ◌∷◌, arith, ok}
use lssa.Account.{
  Account, AccountId, AccountWithMetadata, account_eq, default_account, data_try_from, u128_mod,
}
use lssa.Program.{AccountPostState, Claim, post_state, claimed_post_state}
use lssa.Program.Ids.{to_account_id}
use lssa.Program.Validate.{validate_execution}
use lssa.Token.{Instruction, TokenDefinition, TokenHolding, definition_id, zeroized_clone_from}
use lssa.Token.Operations.{
  transfer, burn, mint, print_nft, execute, move_holding, burn_holding, mint_holding, print_copy,
}
use lssa.Token.Operations.Amounts.{amount_in, amount_of, supply_in, data_at}
use lssa.Token.Operations.Supply.{
  transfer_moves_amount, burn_lowers_supply, mint_raises_supply, print_nft_copies_one,
}
use lssa.Token.Operations.Behaviour.{
  AllSameButData, execute_changes_only_data, execute_passes_validation,
}
use lssa.Token.Operations.ToyCodec.{toy, toy-RoundTrips, write_definition, write_holding}

-- An account of the program 9 with the data of a token.
abbrev owned : AccountId → List ℕ → AccountWithMetadata
owned id bytes = record {
  account = record { program_owner = 9; balance = 0; data_bytes = bytes; nonce = 0 };
  is_authorized = true;
  account_id = id;
}

abbrev fresh : AccountId → AccountWithMetadata
fresh id = record { account = default_account; is_authorized = true; account_id = id }

abbrev after : AccountWithMetadata → List ℕ → AccountPostState
after a bytes = post_state (record a.account { data_bytes = bytes })

abbrev claimed : AccountWithMetadata → List ℕ → AccountPostState
claimed a bytes = record {
  account = record a.account { data_bytes = bytes };
  claim = some Claim.authorized;
}

abbrev holding : ℕ → List ℕ
holding n = write_holding (TokenHolding.fungible 5 n)

abbrev definition : ℕ → List ℕ
definition n = write_definition (TokenDefinition.fungible (84 ∷ []) n none)

abbrev master : ℕ → List ℕ
master n = write_holding (TokenHolding.nft_master 6 n)

abbrev moved : List AccountPostState
moved = after (owned 1 (holding 100)) (holding 70) ∷ claimed (fresh 2) (holding 30) ∷ []

transfer_runs : transfer toy (owned 1 (holding 100)) (fresh 2) 30 ≡ some moved
unfolding transfer move_holding account_eq data_try_from definition_id zeroized_clone_from
transfer_runs = refl

transfer_moves_amount_example :
    (true ≡ true)
    × (amount_in toy (data_at 0 moved) + 30 ≡ amount_in toy (holding 100))
    × (amount_in toy (data_at 1 moved) ≡ amount_of toy (fresh 2).account + 30)
transfer_moves_amount_example =
    transfer_moves_amount toy toy-RoundTrips (owned 1 (holding 100)) (fresh 2) 30 moved
      transfer_runs

abbrev burnt : List AccountPostState
burnt =
    after (owned 5 (definition 500)) (definition 460)
    ∷ after (owned 1 (holding 100)) (holding 60)
    ∷ []

burn_runs : burn toy (owned 5 (definition 500)) (owned 1 (holding 100)) 40 ≡ some burnt
unfolding burn burn_holding data_try_from definition_id
burn_runs = refl

burn_lowers_supply_example :
    (true ≡ true)
    × (supply_in toy (data_at 0 burnt) + 40 ≡ supply_in toy (definition 500))
    × (amount_in toy (data_at 1 burnt) + 40 ≡ amount_in toy (holding 100))
burn_lowers_supply_example =
    burn_lowers_supply toy toy-RoundTrips (owned 5 (definition 500)) (owned 1 (holding 100)) 40
      burnt burn_runs

abbrev minted : List AccountPostState
minted =
    after (owned 5 (definition 500)) (definition 510)
    ∷ after (owned 1 (holding 100)) (holding 110)
    ∷ []

mint_runs : mint toy (owned 5 (definition 500)) (owned 1 (holding 100)) 10 ≡ some minted
unfolding mint mint_holding account_eq data_try_from definition_id
mint_runs = refl

mint_raises_supply_example :
    (true ≡ true)
    × (supply_in toy (data_at 0 minted) ≡ supply_in toy (definition 500) + 10)
    × (amount_in toy (data_at 1 minted) ≡ amount_of toy (owned 1 (holding 100)).account + 10)
    × (supply_in toy (data_at 0 minted) < u128_mod)
    × (amount_in toy (data_at 1 minted) < u128_mod)
mint_raises_supply_example =
    mint_raises_supply toy toy-RoundTrips (owned 5 (definition 500)) (owned 1 (holding 100)) 10
      minted mint_runs

abbrev printed : List AccountPostState
printed =
    after (owned 1 (master 4)) (master 3)
    ∷ claimed (fresh 2) (write_holding (TokenHolding.nft_printed_copy 6 true))
    ∷ []

print_runs : print_nft toy (owned 1 (master 4)) (fresh 2) ≡ some printed
unfolding print_nft print_copy account_eq data_try_from definition_id
print_runs = refl

print_nft_copies_one_example :
    (true ≡ true)
    × (default_account ≡ default_account)
    × (id : ℕ) × (n : ℕ) × (p : Account) × (q : Account) × (1 ≤ n)
    × (toy.decode_holding (master 4) ≡ some (TokenHolding.nft_master id (n + 1)))
    × (toy.decode_holding p.data_bytes ≡ some (TokenHolding.nft_master id n))
    × (toy.decode_holding q.data_bytes ≡ some (TokenHolding.nft_printed_copy id true))
    × (printed ≡ post_state p ∷ claimed_post_state q Claim.authorized ∷ [])
print_nft_copies_one_example =
    print_nft_copies_one toy toy-RoundTrips (owned 1 (master 4)) (fresh 2) printed print_runs

burn_executes :
    execute toy (Instruction.burn 40) (owned 5 (definition 500) ∷ owned 1 (holding 100) ∷ [])
    ≡ some burnt
unfolding execute
burn_executes = burn_runs

execute_changes_only_data_example :
    AllSameButData (owned 5 (definition 500) ∷ owned 1 (holding 100) ∷ []) burnt
execute_changes_only_data_example =
    execute_changes_only_data toy (Instruction.burn 40)
      (owned 5 (definition 500) ∷ owned 1 (holding 100) ∷ []) burnt burn_executes

execute_passes_validation_example :
    validate_execution (owned 5 (definition 500) ∷ owned 1 (holding 100) ∷ []) burnt 9 ≡ ok tt
unfolding to_account_id
execute_passes_validation_example =
    execute_passes_validation toy (Instruction.burn 40) 9
      (owned 5 (definition 500) ∷ owned 1 (holding 100) ∷ []) burnt (omega arith)
      (inl refl, (inl refl, tt)) (refl, (refl, tt))
      ((ground arith, (ground arith, tt)), (ground arith, (ground arith, tt))) (ground arith)
      burn_executes
