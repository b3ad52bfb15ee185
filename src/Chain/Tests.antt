-- ===== src/Chain/Tests.antt =====
-- Runs of a small chain, and the theorems at it.
use lssa.Prelude.{
  ℕ, ◌≡◌, ◌↔◌, ◌≢◌, refl, ◌∙◌, Option, none, some, List, [], ◌∷◌, ◌++◌, ok, err, true, false, All,
  leb,
}
use lssa.Merkle
use lssa.Account.{account_eq, public_account_nonce_increment}
use lssa.State.{V03State, get_account_by_id, get_program, apply_state_diff}
use lssa.Program.Validate.{validate_execution}
use lssa.Program.Balances.{from_balances, wrapped_eq}
use lssa.Program.Ids.{to_account_id}
use lssa.Program.Pda.{compute_public_authorized_pdas}
use lssa.Program.Window.{is_valid_for}
use lssa.Transaction.{public_message_hash, signatures_are_valid, signer_account_ids}
use lssa.Diff.{n_unique, check_nonces, build_pre_states}
use lssa.Diff.Public.{from_public_transaction, expected_account}
use lssa.Transition.{transition_from_public_transaction}
use lssa.Common.Blocks.{compute_hash, recompute_hash}
use lssa.Common.Guards.{clock_invocation, transaction_eq}
use lssa.Common.{Block}
use lssa.Chain.Error.{unexpected_block_id, new_stall}
use lssa.Chain.Apply.{
  Tip, tip_of, apply_block, validate_against_tip, apply_block_to_state, applied, parked,
  already_applied,
}
use lssa.Chain.Head.{
  ChainState, HeadEntry, entry, is_entry_of, replay, from_final, apply_adopted, adopt,
  head_position_of, head_tip, reorg_at, revert_orphan, apply_produced, restore_head_block,
  apply_finalized, apply_finalized_direct, finalize_directly, finalize_through, record_final_stall,
}
use lssa.Chain.Replay.{IsReplayed, replay_cons, replay_nil}
use lssa.Chain.Linked.{IsLinked, Continues, validate_against_tip_iff}
use lssa.Chain.History.{
  History, start, extend, adoption, restoration, finalization, History-IsReplayed,
  final_tier_extends,
}
use lssa.Chain.Adoption.{
  apply_adopted_head, apply_adopted_again, apply_adopted_parked, revert_orphan-apply_adopted,
}
use lssa.Chain.Finality.{apply_finalized_head, first_failure, later_failure, stall_keeps_first}
use lssa.Chain.Restore.{blocks, restore_head_blocks, restore_round_trip}
use lssa.Chain.Produced.{apply_produced_extends}
use lssa.Chain.Consistency.{
  ZoneMessage, block_message, other_message, consistent, verify_chain_consistency,
}
use lssa.Chain.SameChain.{anchored, TipReaches, Serves, verify_chain_consistency_iff}
use lssa.Chain.ToyChain.{toy_chain, block, initial, ticked, one_block, two_blocks}

block_applies : apply_block toy_chain none (block 1 0) initial ≡ some (ok (ticked (6 ∷ [])))
unfolding apply_block validate_against_tip apply_block_to_state compute_hash recompute_hash
    clock_invocation transaction_eq transition_from_public_transaction from_public_transaction
    apply_state_diff n_unique check_nonces build_pre_states expected_account get_account_by_id
    get_program account_eq validate_execution from_balances wrapped_eq to_account_id is_valid_for
    compute_public_authorized_pdas public_message_hash signatures_are_valid signer_account_ids
    public_account_nonce_increment Merkle.root Merkle.ceil_log2
block_applies = refl

second_block_applies :
    apply_block toy_chain (head_tip one_block) (block 2 1) one_block.head_state
    ≡ some (ok two_blocks.head_state)
unfolding apply_block head_tip validate_against_tip apply_block_to_state compute_hash recompute_hash
    clock_invocation transaction_eq transition_from_public_transaction from_public_transaction
    apply_state_diff n_unique check_nonces build_pre_states expected_account get_account_by_id
    get_program account_eq validate_execution from_balances wrapped_eq to_account_id is_valid_for
    compute_public_authorized_pdas public_message_hash signatures_are_valid signer_account_ids
    public_account_nonce_increment Merkle.root Merkle.ceil_log2
second_block_applies = refl

one_block-IsReplayed : IsReplayed toy_chain one_block
unfolding head_tip
one_block-IsReplayed =
    replay_cons toy_chain initial (ticked (6 ∷ [])) none (entry 11 (block 1 0)) [] block_applies
    ∙ replay_nil toy_chain _ _

two_blocks-IsReplayed : IsReplayed toy_chain two_blocks
unfolding head_tip
two_blocks-IsReplayed =
    replay_cons toy_chain initial (ticked (6 ∷ [])) none (entry 11 (block 1 0))
      (entry 12 (block 2 1) ∷ []) block_applies
    ∙ replay_cons toy_chain (ticked (6 ∷ [])) _ _ (entry 12 (block 2 1)) [] second_block_applies
    ∙ replay_nil toy_chain _ _

second_is_adopted : apply_adopted toy_chain one_block 12 (block 2 1) ≡ some (applied, two_blocks)
unfolding apply_adopted adopt head_position_of
second_is_adopted = rw second_block_applies refl

History_to_two : History toy_chain one_block two_blocks
History_to_two = extend start (adoption 12 (block 2 1) applied second_is_adopted)

genesis_is_restored :
    restore_head_block toy_chain (from_final initial none) (block 1 0)
    ≡ some (ok (record one_block { head_blocks = entry 1 (block 1 0) ∷ [] }))
unfolding restore_head_block from_final head_tip
genesis_is_restored = rw block_applies refl

History-IsReplayed_example :
    replay toy_chain initial none (entry 1 (block 1 0) ∷ [])
    ≡ some (ticked (6 ∷ []), some (tip_of (block 1 0)))
unfolding head_tip
History-IsReplayed_example =
    History-IsReplayed toy_chain initial none
      (record one_block { head_blocks = entry 1 (block 1 0) ∷ [] })
      (extend start (restoration (block 1 0) genesis_is_restored))

-- The two blocks after the first was finalized.
abbrev one_finalized : ChainState
one_finalized = record two_blocks {
  final_state = ticked (6 ∷ []);
  final_tip = some (tip_of (block 1 0));
  head_blocks = entry 12 (block 2 1) ∷ [];
}

genesis_is_finalized :
    apply_finalized toy_chain two_blocks 11 (block 1 0) 4 ≡ some (applied, one_finalized)
unfolding apply_finalized finalize_through head_position_of
genesis_is_finalized =
    let front : replay toy_chain initial none (entry 11 (block 1 0) ∷ [])
        ≡ some (ticked (6 ∷ []), some (tip_of (block 1 0))) =
      replay_cons toy_chain initial (ticked (6 ∷ [])) none (entry 11 (block 1 0)) [] block_applies
      ∙ replay_nil toy_chain _ _ in
    rw front refl

final_tier_extends_example :
    (es : List HeadEntry) × (replay toy_chain initial none es
      ≡ some (ticked (6 ∷ []), some (tip_of (block 1 0))))
    × IsLinked toy_chain none es
final_tier_extends_example =
    final_tier_extends toy_chain one_block one_finalized one_block-IsReplayed
      (extend History_to_two (finalization 11 (block 1 0) 4 applied genesis_is_finalized))

apply_adopted_head_example :
    (kept : List HeadEntry) × (dropped : List HeadEntry) × (kept ++ dropped ≡ one_block.head_blocks)
    × (two_blocks.head_blocks ≡ kept ++ entry 12 (block 2 1) ∷ [])
    × All (λ e. leb 2 e.block.header.block_id ≡ false) kept
    × All (λ e. leb 2 e.block.header.block_id ≡ true) dropped
    × (head_tip two_blocks ≡ some (tip_of (block 2 1)))
    × (two_blocks.final_state ≡ one_block.final_state)
    × (two_blocks.final_tip ≡ one_block.final_tip)
apply_adopted_head_example =
    apply_adopted_head toy_chain one_block 12 (block 2 1) two_blocks one_block-IsReplayed
      second_is_adopted

apply_adopted_again_example :
    apply_adopted toy_chain two_blocks 99 (block 2 1) ≡ some (already_applied, two_blocks)
apply_adopted_again_example =
    apply_adopted_again toy_chain one_block 12 99 (block 2 1) two_blocks one_block-IsReplayed
      second_is_adopted

revert_orphan-apply_adopted_example :
    revert_orphan toy_chain two_blocks 12 (block 2 1) ≡ some one_block
revert_orphan-apply_adopted_example =
    revert_orphan-apply_adopted toy_chain one_block 12 (block 2 1) two_blocks one_block-IsReplayed
      refl second_is_adopted

-- A block that skips a height.
skipping_is_parked :
    apply_adopted toy_chain one_block 13 (block 3 1)
    ≡ some (parked (unexpected_block_id 2 3), one_block)
unfolding apply_adopted adopt head_position_of apply_block validate_against_tip compute_hash
    recompute_hash head_tip
skipping_is_parked = refl

apply_adopted_parked_example :
    (one_block ≡ one_block)
    × (base : V03State × Option Tip) × (replay toy_chain initial none one_block.head_blocks
        ≡ some base)
    × (apply_block toy_chain base.1 (block 3 1) base.0 ≡ some (err (unexpected_block_id 2 3)))
apply_adopted_parked_example =
    apply_adopted_parked toy_chain one_block 13 (block 3 1) (unexpected_block_id 2 3) one_block
      one_block-IsReplayed skipping_is_parked

apply_finalized_head_example :
    (d : ChainState) × (apply_finalized toy_chain two_blocks 55 (block 1 0) 4 ≡ some (applied, d))
    × (e : HeadEntry) × (some (entry 11 (block 1 0)) ≡ some e)
    × (is_entry_of 55 (block 1 0) e ≡ true)
    × (replay toy_chain initial none (entry 11 (block 1 0) ∷ [])
        ≡ some (d.final_state, d.final_tip))
    × (d.final_tip ≡ some (tip_of e.block))
    × (d.head_blocks ≡ entry 12 (block 2 1) ∷ [])
    × (d.head_state ≡ two_blocks.head_state)
    × (head_tip d ≡ head_tip two_blocks)
    × (d.final_stall ≡ none)
unfolding head_position_of
apply_finalized_head_example =
    apply_finalized_head toy_chain two_blocks 55 (block 1 0) 4 0 two_blocks-IsReplayed refl

bad_block_fails :
    apply_finalized_direct toy_chain one_block (block 3 1) 4
    ≡ some (
      parked (unexpected_block_id 1 3),
      record_final_stall one_block (block 3 1) 4 (unexpected_block_id 1 3),
    )
unfolding apply_finalized_direct finalize_directly apply_block validate_against_tip compute_hash
    recompute_hash
bad_block_fails = refl

abbrev stalled : ChainState
stalled = record_final_stall one_block (block 3 1) 4 (unexpected_block_id 1 3)

later_block_fails :
    apply_finalized_direct toy_chain stalled (block 4 3) 5
    ≡ some (
      parked (unexpected_block_id 1 4),
      record_final_stall stalled (block 4 3) 5 (unexpected_block_id 1 4),
    )
unfolding apply_finalized_direct finalize_directly apply_block validate_against_tip compute_hash
    recompute_hash record_final_stall
later_block_fails = refl

stall_keeps_first_example :
    record_final_stall stalled (block 4 3) 5 (unexpected_block_id 1 4) ≡ record one_block {
      final_stall = some (record (new_stall (some (block 3 1).header) 4 (unexpected_block_id 1 3)) {
        orphans_since = 1;
      });
    }
stall_keeps_first_example =
    stall_keeps_first toy_chain one_block (block 3 1) 4 (unexpected_block_id 1 3) 1
      (record_final_stall stalled (block 4 3) 5 (unexpected_block_id 1 4)) refl
      (later_failure (block 4 3) 5 (unexpected_block_id 1 4) (first_failure bad_block_fails)
        later_block_fails)

restore_round_trip_example :
    (d : ChainState) × (restore_head_blocks toy_chain
        (from_final initial none)
        (block 1 0 ∷ block 2 1 ∷ [])
      ≡ some (ok d))
    × (d.head_state ≡ two_blocks.head_state)
    × (blocks d.head_blocks ≡ block 1 0 ∷ block 2 1 ∷ [])
    × (d.final_state ≡ initial)
    × (d.final_tip ≡ none)
restore_round_trip_example = restore_round_trip toy_chain two_blocks two_blocks-IsReplayed

second_is_produced : apply_produced toy_chain one_block 12 (block 2 1) ≡ some (applied, two_blocks)
unfolding apply_produced head_tip
second_is_produced = second_is_adopted

apply_produced_extends_example :
    (two_blocks.head_blocks ≡ one_block.head_blocks ++ entry 12 (block 2 1) ∷ [])
    × (reorg_at one_block (block 2 1) ≡ none)
apply_produced_extends_example =
    apply_produced_extends toy_chain one_block 12 (block 2 1) two_blocks one_block-IsReplayed
      second_is_produced

validate_against_tip_iff_example :
    (validate_against_tip toy_chain (some (tip_of (block 1 0))) (block 2 1) ≡ some (ok tt))
    ↔ Continues toy_chain (some (tip_of (block 1 0))) (block 2 1)
validate_against_tip_iff_example =
    validate_against_tip_iff toy_chain (some (tip_of (block 1 0))) (block 2 1)

-- A block is encoded as its identifier.
abbrev decode : List ℕ → Option Block
decode [] = none
decode (id ∷ _) = some (block id 0)

abbrev messages : List (ZoneMessage × ℕ)
messages = (other_message, 5) ∷ (block_message (1 ∷ []), 5) ∷ (block_message (2 ∷ []), 5) ∷ []

verify_chain_consistency_iff_example :
    (verify_chain_consistency decode (anchored decode 5 (2, 2)) (some (some 9)) (some messages)
      ≡ consistent)
    ↔ (TipReaches decode 5 (2, 2) (some (some 9))
        × ◌≢◌ {A = ℕ} 5 0
        × Serves decode 5 (2, 2) messages)
verify_chain_consistency_iff_example =
    verify_chain_consistency_iff decode 5 (2, 2) (some (some 9)) messages

-- The anchor's block counts at a later slot, too.
later_slot_is_consistent :
    verify_chain_consistency decode
      (anchored decode 5 (2, 2))
      (some (some 9))
      (some ((block_message (2 ∷ []), 6) ∷ []))
    ≡ consistent
unfolding verify_chain_consistency
later_slot_is_consistent = refl
