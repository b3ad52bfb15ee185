-- ===== src/Chain/Head.antt =====
-- lez/chain_state/src/chain.rs: the chain of two tiers. The outer `none` of an operation is a
-- panic of the code: an `expect` on a replay, or an overflow that a block's application meets.
use lssa.Prelude.{
  ℕ, suc, Bool, false, ◌&&◌, ◌||◌, Option, none, some, List, [], ◌∷◌, ◌++◌, ltb, leb, ◌==◌,
  if◌then◌else◌, Result, ok, err, length, take,
}
use lssa.Prelude.Options.{◌>>=◌}
use lssa.State.{V03State}
use lssa.Common.{ChainExternals, Block}
use lssa.Chain.Error.{BlockIngestError, StallReason, Slot, new_stall, escalate}
use lssa.Chain.Apply.{Tip, tip_of, AcceptOutcome, applied, already_applied, parked, apply_block}
use lssa.Chain.Lists.{last, drop, position, min_of}

-- A message's identifier is 32 bytes.
abbrev pub MsgId : Type 0
MsgId = ℕ

pub record HeadEntry : Type 0 where
  pub this_msg : MsgId
  pub block : Block

pub record ChainState : Type 0 where
  pub final_state : V03State
  pub final_tip : Option Tip
  pub final_stall : Option StallReason
  pub head_state : V03State
  pub head_blocks : List HeadEntry

unfoldable pub from_final : V03State → Option Tip → ChainState
from_final final_state final_tip = record {
  head_state = final_state;
  final_state = final_state;
  final_tip = final_tip;
  head_blocks = [];
  final_stall = none;
}

-- `ChainState::new`.
unfoldable pub new : V03State → ChainState
unfolding from_final
new initial_state = from_final initial_state none

-- The tip after some entries over a tip.
abbrev pub tip_after : Option Tip → List HeadEntry → Option Tip
tip_after tip es = elim (last es) [ none ↦ tip | some e ↦ some (tip_of e.block) ]

unfoldable pub head_tip : ChainState → Option Tip
head_tip c = tip_after c.final_tip c.head_blocks

-- The test of `head_position_of`.
abbrev pub is_entry_of : MsgId → Block → HeadEntry → Bool
is_entry_of this_msg block e =
    e.block.header.block_id == block.header.block_id
    && (e.this_msg == this_msg || e.block.header.hash == block.header.hash)

unfoldable pub head_position_of : ChainState → MsgId → Block → Option ℕ
head_position_of c this_msg block = position (is_entry_of this_msg block) c.head_blocks

-- `Result::expect` on an application.
abbrev pub expect_ok : Option (Result BlockIngestError V03State) → Option V03State
expect_ok none = none
expect_ok (some (err e)) = none
expect_ok (some (ok s)) = some s

-- A block at or below the final tip.
abbrev pub is_pre_final : Option Tip → Block → Bool
is_pre_final none block = false
is_pre_final (some tip) block = leb block.header.block_id tip.block_id

-- A finalized block at or below the final tip, other than a different one at its height.
abbrev pub is_redelivery : Option Tip → Block → Bool
is_redelivery none block = false
is_redelivery (some tip) block =
    ltb block.header.block_id tip.block_id
    || (block.header.block_id == tip.block_id && block.header.hash == tip.hash)

unfoldable pub record_final_stall : ChainState → Block → Slot → BlockIngestError → ChainState
record_final_stall c block l1_slot error = record c {
  final_stall = some (elim c.final_stall [
    | none ↦ new_stall (some block.header) l1_slot error
    | some stall ↦ escalate stall
  ]);
}

-- The first place to reorganise from: an entry at the block's height or above.
abbrev pub reorg_at : ChainState → Block → Option ℕ
reorg_at c block = position (λ e. leb block.header.block_id e.block.header.block_id) c.head_blocks

abbrev pub entry : MsgId → Block → HeadEntry
entry this_msg block = record { this_msg = this_msg; block = block }

-- What the application of an adopted block makes of the chain.
abbrev pub adopted :
    ChainState
    → List HeadEntry
    → HeadEntry
    → Result BlockIngestError V03State
    → AcceptOutcome × ChainState
adopted c kept e (err error) = (parked error, c)
adopted c kept e (ok scratch) =
    (applied, record c { head_state = scratch; head_blocks = kept ++ e ∷ [] })

-- What the application of a restored block makes of the chain.
abbrev pub restored :
    ChainState → HeadEntry → Result BlockIngestError V03State → Result BlockIngestError ChainState
restored c e (err error) = err error
restored c e (ok s) = ok (record c { head_state = s; head_blocks = c.head_blocks ++ e ∷ [] })

-- What the application of a finalized block makes of the chain, when it is not in the head.
abbrev pub finalized_alone :
    ChainState → Block → Slot → Result BlockIngestError V03State → AcceptOutcome × ChainState
finalized_alone c block l1_slot (err error) =
    (parked error, record_final_stall c block l1_slot error)
finalized_alone c block l1_slot (ok scratch) = (
  applied,
  record c {
    final_state = scratch;
    final_tip = some (tip_of block);
    final_stall = none;
    head_blocks = [];
    head_state = scratch;
  },
)

module _ (ext : ChainExternals) where
  -- The loop of `replay_head_prefix` and `finalize_through`: every entry must apply.
  unfoldable pub replay : V03State → Option Tip → List HeadEntry → Option (V03State × Option Tip)
  replay s tip [] = some (s, tip)
  replay s tip (e ∷ es) = elim (expect_ok (apply_block ext tip e.block s)) [
    | none ↦ none
    | some t ↦ replay t (some (tip_of e.block)) es
  ]

  unfoldable pub replay_head_prefix : ChainState → ℕ → Option (V03State × Option Tip)
  unfolding replay
  replay_head_prefix c count = replay c.final_state c.final_tip (take count c.head_blocks)

  unfoldable pub rederive_head : ChainState → Option ChainState
  unfolding replay_head_prefix
  rederive_head c = do
    r ← replay_head_prefix c (length c.head_blocks)
    some (record c { head_state = r.0 })

  -- The state and tip that an adopted block is applied to.
  abbrev pub adopted_base : ChainState → Option ℕ → Option (V03State × Option Tip)
  adopted_base c none = some (c.head_state, head_tip c)
  adopted_base c (some idx) = replay_head_prefix c idx

  -- The entries that stay below an adopted block.
  abbrev pub kept_below : ChainState → Option ℕ → List HeadEntry
  kept_below c none = c.head_blocks
  kept_below c (some idx) = take idx c.head_blocks

  -- What an adopted block does once it is neither known nor below the final tip.
  unfoldable pub adopt : ChainState → MsgId → Block → Option (AcceptOutcome × ChainState)
  unfolding replay_head_prefix
  adopt c this_msg block = do
    base ← adopted_base c (reorg_at c block)
    outcome ← apply_block ext base.1 block base.0
    some (adopted c (kept_below c (reorg_at c block)) (entry this_msg block) outcome)

  unfoldable pub apply_adopted : ChainState → MsgId → Block → Option (AcceptOutcome × ChainState)
  unfolding adopt
  apply_adopted c this_msg block = elim (head_position_of c this_msg block) [
    | some _ ↦ some (already_applied, c)
    | none ↦
        if is_pre_final c.final_tip block then some (already_applied, c) else adopt c this_msg block
  ]

  unfoldable pub apply_produced : ChainState → MsgId → Block → Option (AcceptOutcome × ChainState)
  unfolding apply_adopted
  apply_produced c this_msg block =
      if is_pre_final (head_tip c) block
      then some (already_applied, c)
      else apply_adopted c this_msg block

  -- The head cut off at an index and derived again.
  unfoldable pub truncate_head : ChainState → Option ℕ → Option ChainState
  unfolding rederive_head
  truncate_head c none = some c
  truncate_head c (some idx) = rederive_head (record c { head_blocks = take idx c.head_blocks })

  unfoldable pub revert_orphan : ChainState → MsgId → Block → Option ChainState
  unfolding truncate_head
  revert_orphan c this_msg block = truncate_head c (head_position_of c this_msg block)

  -- The loop over the adopted blocks of a channel update.
  unfoldable pub adopt_all :
      ChainState → List (MsgId × Block) → Option (List AcceptOutcome × ChainState)
  unfolding apply_adopted
  adopt_all c [] = some ([], c)
  adopt_all c ((msg, block) ∷ adopted) = elim (apply_adopted c msg block) [
    | none ↦ none
    | some (outcome, d) ↦ elim (adopt_all d adopted) [
      | none ↦ none
      | some (outcomes, e) ↦ some (outcome ∷ outcomes, e)
    ]
  ]

  -- The positions that the orphaned blocks have in the head.
  abbrev pub orphan_positions : ChainState → List (MsgId × Block) → List ℕ
  orphan_positions c [] = []
  orphan_positions c ((msg, block) ∷ orphaned) = elim (head_position_of c msg block) [
    | none ↦ orphan_positions c orphaned
    | some idx ↦ idx ∷ orphan_positions c orphaned
  ]

  unfoldable pub apply_channel_update :
      ChainState
      → List (MsgId × Block)
      → List (MsgId × Block)
      → Option (List AcceptOutcome × ChainState)
  unfolding truncate_head adopt_all
  apply_channel_update c orphaned adopted = do
    d ← truncate_head c (min_of (orphan_positions c orphaned))
    adopt_all d adopted

  -- The sentinel identifier of a restored entry has the bytes of the block's hash.
  unfoldable pub restore_head_block :
      ChainState → Block → Option (Result BlockIngestError ChainState)
  restore_head_block c block = do
    outcome ← apply_block ext (head_tip c) block c.head_state
    some (restored c (entry block.header.hash block) outcome)

  unfoldable pub finalize_through : ChainState → ℕ → Option ChainState
  unfolding replay
  finalize_through c idx = do
    r ← replay c.final_state c.final_tip (take (suc idx) c.head_blocks)
    some (record c {
      head_blocks = drop (suc idx) c.head_blocks;
      final_state = r.0;
      final_tip = r.1;
      final_stall = none;
    })

  -- What a finalized block does once it is not a re-delivery.
  unfoldable pub finalize_directly : ChainState → Block → Slot → Option (AcceptOutcome × ChainState)
  unfolding record_final_stall
  finalize_directly c block l1_slot = do
    outcome ← apply_block ext c.final_tip block c.final_state
    some (finalized_alone c block l1_slot outcome)

  unfoldable pub apply_finalized_direct :
      ChainState → Block → Slot → Option (AcceptOutcome × ChainState)
  unfolding finalize_directly
  apply_finalized_direct c block l1_slot =
      if is_redelivery c.final_tip block
      then some (already_applied, c)
      else finalize_directly c block l1_slot

  -- The prefix that a finalized block chains on is finalized with it.
  unfoldable pub finalize_parent : ChainState → Block → Option ChainState
  unfolding finalize_through
  finalize_parent c block =
      elim (position (λ e. e.block.header.hash == block.header.prev_block_hash) c.head_blocks) [
        | none ↦ some c
        | some idx ↦ finalize_through c idx
      ]

  unfoldable pub apply_finalized :
      ChainState → MsgId → Block → Slot → Option (AcceptOutcome × ChainState)
  unfolding finalize_through finalize_parent apply_finalized_direct
  apply_finalized c this_msg block l1_slot = elim (head_position_of c this_msg block) [
    | some idx ↦ do d ← finalize_through c idx; some (applied, d)
    | none ↦ do d ← finalize_parent c block; apply_finalized_direct d block l1_slot
  ]
