-- ===== src/Chain/Consistency.antt =====
-- lez/chain_state/src/consistency.rs: whether a store still belongs to the chain that the channel
-- serves. The decoding of a block is a parameter, and what a message is apart from blocks is
-- left open, as the code does.
use lssa.Prelude.{ℕ, Option, none, some, List, [], ◌∷◌, ltb, ◌==◌, if◌then◌else◌}
use lssa.Common.{HashType, Block}
use lssa.Chain.Error.{Slot}

pub data ZoneMessage : Type 0 where
  block_message : List ℕ → ZoneMessage
  other_message : ZoneMessage

pub data ChainMismatch : Type 0 where
  different_block : (ours channel : ℕ × HashType) → ChainMismatch
  reinscribed_block : (channel : ℕ × HashType) (slot anchor_slot : Slot) → ChainMismatch
  anchor_slot_changed : (anchor_slot : Slot) → ChainMismatch
  channel_missing : ChainMismatch
  channel_behind_anchor : (tip_slot anchor_slot : Slot) → ChainMismatch

pub data ChainConsistency : Type 0 where
  consistent : ChainConsistency
  inconclusive : ChainConsistency
  inconsistent : ChainMismatch → ChainConsistency

pub record Anchor : Type 0 where
  pub slot : Slot
  pub block : Option (ℕ × HashType)

pub data AnchorProbe : Type 0 where
  same_chain : AnchorProbe
  mismatch : ChainMismatch → AnchorProbe
  bail : AnchorProbe
  keep_looking : AnchorProbe

pub record AnchorConsistencyCheck : Type 0 where
  pub anchor : Anchor
  pub verdict : Option ChainConsistency

-- `AnchorConsistencyCheck::new`.
unfoldable pub new_check : Anchor → AnchorConsistencyCheck
new_check anchor = record { anchor = anchor; verdict = none }

unfoldable pub frontier_verdict : Slot → Option Slot → Option ChainMismatch
frontier_verdict anchor_slot none = some channel_missing
frontier_verdict anchor_slot (some tip_slot) =
    if ltb tip_slot anchor_slot then some (channel_behind_anchor tip_slot anchor_slot) else none

unfoldable pub check_frontier : AnchorConsistencyCheck → Option Slot → AnchorConsistencyCheck
unfolding frontier_verdict
check_frontier c channel_tip_slot = elim c.verdict [
  | some _ ↦ c
  | none ↦ elim (frontier_verdict c.anchor.slot channel_tip_slot) [
    | none ↦ record c { verdict = none }
    | some m ↦ record c { verdict = some (inconsistent m) }
  ]
]

-- A block of the channel against the anchor's block.
abbrev pub probe_block : Slot → ℕ × HashType → Slot → ℕ → HashType → AnchorProbe
probe_block anchor_slot (anchor_id, anchor_hash) slot id hash =
    if id == anchor_id
    then (if hash == anchor_hash
        then same_chain
        else mismatch (different_block (anchor_id, anchor_hash) (id, hash)))
    else if ltb anchor_id id
    then bail
    else if slot == anchor_slot
    then keep_looking
    else mismatch (reinscribed_block (id, hash) slot anchor_slot)

-- What a probe says of the verdict.
abbrev pub verdict_of : AnchorProbe → Option ChainConsistency
verdict_of same_chain = some consistent
verdict_of (mismatch m) = some (inconsistent m)
verdict_of bail = some inconclusive
verdict_of keep_looking = none

module _ (decode_block : List ℕ → Option Block) where
  -- The header of the block that a message carries, if it carries one.
  abbrev pub header_of : ZoneMessage → Option (ℕ × HashType)
  header_of other_message = none
  header_of (block_message bytes) = elim (decode_block bytes) [
    | none ↦ none
    | some b ↦ some (b.header.block_id, b.header.hash)
  ]

  unfoldable pub probe_anchor_slot : Anchor → ZoneMessage → Slot → AnchorProbe
  probe_anchor_slot a msg slot = if ltb slot a.slot then keep_looking else elim a.block [
    | none ↦ if slot == a.slot then same_chain else mismatch (anchor_slot_changed a.slot)
    | some ours ↦ elim (header_of msg) [
      | none ↦ keep_looking
      | some (id, hash) ↦ probe_block a.slot ours slot id hash
    ]
  ]

  -- `AnchorConsistencyCheck::observe`; the verdict that it returns is the one it stores.
  unfoldable pub observe : AnchorConsistencyCheck → ZoneMessage → Slot → AnchorConsistencyCheck
  unfolding probe_anchor_slot
  observe c msg slot = elim c.verdict [
    | some _ ↦ c
    | none ↦ record c { verdict = verdict_of (probe_anchor_slot c.anchor msg slot) }
  ]

  -- The loop of `verify_chain_consistency` over the messages, which ends with a verdict.
  unfoldable pub scan : AnchorConsistencyCheck → List (ZoneMessage × Slot) → AnchorConsistencyCheck
  unfolding observe
  scan c [] = c
  scan c ((msg, slot) ∷ rest) =
      let next = observe c msg slot in elim next.verdict [ some _ ↦ next | none ↦ scan next rest ]

-- `AnchorConsistencyCheck::finish`.
unfoldable pub finish : AnchorConsistencyCheck → ChainConsistency
finish c = elim c.verdict [ none ↦ inconclusive | some v ↦ v ]

-- The check after the frontier was compared: a verdict ends it, and so does an anchor at slot 0;
-- a read of the messages that failed or timed out, `none`, gives no verdict.
unfoldable pub verify_from :
    (List ℕ → Option Block)
    → AnchorConsistencyCheck
    → Option (List (ZoneMessage × Slot))
    → ChainConsistency
unfolding scan finish
verify_from decode_block c messages = elim c.verdict [
  | some _ ↦ finish c
  | none ↦
      if c.anchor.slot == 0
      then inconclusive
      else elim messages [ none ↦ inconclusive | some ms ↦ finish (scan decode_block c ms) ]
]

-- `verify_chain_consistency`, given what it reads: the tip slot of the channel, if it could be
-- read, and the messages from the anchor slot on, if they could be.
unfoldable pub verify_chain_consistency :
    (List ℕ → Option Block)
    → Anchor
    → Option (Option Slot)
    → Option (List (ZoneMessage × Slot))
    → ChainConsistency
unfolding new_check check_frontier verify_from
verify_chain_consistency decode_block anchor none messages =
    verify_from decode_block (new_check anchor) messages
verify_chain_consistency decode_block anchor (some channel_tip_slot) messages =
    verify_from decode_block (check_frontier (new_check anchor) channel_tip_slot) messages
