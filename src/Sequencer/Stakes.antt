-- ===== src/Sequencer/Stakes.antt =====
-- lez/sequencer/core/src/lib.rs and committee_discovery.rs: what a block may finalize of the
-- sequencers' stakes, and the withdrawals that a transaction asks for.
use lssa.Prelude.{
  ℕ, Bool, true, false, not, ◌||◌, Option, none, some, List, [], ◌∷◌, ◌==◌, if◌then◌else◌, contains,
  lookup,
}
use lssa.Prelude.Digits.{from_digits}
use lssa.Account.{AccountId}
use lssa.Commitment.{prefix}
use lssa.Program.Pda.{for_public_pda}
use lssa.State.{V03State}
use lssa.Common.{LeeTransaction, public, privacy_preserving, program_deployment}
use lssa.Sequencer.{
  SequencerExternals, stake, confirm_stake, unstake_request, finalize_unstake, StakeRecord,
  SequencerEntry, SequencerStakeConfig, deposit, withdraw, WithdrawArg,
}

-- `first().copied()`.
abbrev first : List AccountId → Option AccountId
first [] = none
first (id ∷ _) = some id

module _ (ext : SequencerExternals) where
  unfoldable pub finalize_unstake_ownership_account : LeeTransaction → Option AccountId
  finalize_unstake_ownership_account (public tx) =
      if tx.message.program_id == ext.stake_program_id
      then elim (ext.decode_stake_instruction tx.message.instruction_data) [
        | none ↦ none
        | some (stake _ _ _ _) ↦ none
        | some (confirm_stake _) ↦ none
        | some (unstake_request _ _) ↦ none
        | some finalize_unstake ↦ first tx.message.account_ids
      ]
      else none
  finalize_unstake_ownership_account (privacy_preserving tx) = none
  finalize_unstake_ownership_account (program_deployment bytecode) = none

  unfoldable pub sequencer_stake_config_account_id : AccountId
  sequencer_stake_config_account_id =
      for_public_pda ext.chain.ledger.sha256 ext.stake_program_id
        (from_digits 256 (prefix "/LEZ/v0.3/MinSequencerStake/0000" 0))

  unfoldable pub read_config : V03State → Option SequencerStakeConfig
  unfolding sequencer_stake_config_account_id
  read_config s = elim (lookup sequencer_stake_config_account_id s.public_state) [
    | none ↦ none
    | some account ↦ ext.decode_stake_config account.data_bytes
  ]

  unfoldable pub stake_record : V03State → AccountId → Option StakeRecord
  stake_record s ownership_id = elim (lookup ownership_id s.public_state) [
    | none ↦ none
    | some account ↦ ext.decode_stake_record account.data_bytes
  ]

  -- The entry of a key in the configuration.
  unfoldable pub entry_of : V03State → ℕ → Option SequencerEntry
  unfolding read_config
  entry_of s key = elim (read_config s) [ none ↦ none | some config ↦ lookup key config.entries ]

  unfoldable pub finalize_unstake_is_valid : V03State → AccountId → List ℕ → Bool
  unfolding stake_record entry_of
  finalize_unstake_is_valid s ownership_id live_accredited_keys =
      elim (stake_record s ownership_id) [
        | none ↦ true
        | some held ↦ elim held.pending_unstake [
          | none ↦ true
          | some pending ↦ elim (entry_of s held.sequencer_key) [
            | none ↦ true
            | some e ↦
                not (e.total_staked == pending.amount)
                || not (contains held.sequencer_key live_accredited_keys)
          ]
        ]
      ]

  unfoldable pub finalize_unstake_is_includable : V03State → LeeTransaction → Option (List ℕ) → Bool
  unfolding finalize_unstake_ownership_account finalize_unstake_is_valid
  finalize_unstake_is_includable s tx live_accredited_keys =
      elim (finalize_unstake_ownership_account tx) [
        | none ↦ true
        | some ownership_id ↦ elim live_accredited_keys [
          | none ↦ false
          | some keys ↦ finalize_unstake_is_valid s ownership_id keys
        ]
      ]

  unfoldable pub extract_bridge_withdraw_data : LeeTransaction → Option WithdrawArg
  extract_bridge_withdraw_data (public tx) =
      if tx.message.program_id == ext.chain.bridge_program_id
      then elim (ext.decode_bridge_instruction tx.message.instruction_data) [
        | none ↦ none
        | some (deposit _ _ _ _) ↦ none
        | some (withdraw amount bedrock_account_pk) ↦
            some (record { amount = amount; recipient_pk = bedrock_account_pk })
      ]
      else none
  extract_bridge_withdraw_data (privacy_preserving tx) = none
  extract_bridge_withdraw_data (program_deployment bytecode) = none
