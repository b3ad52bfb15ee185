-- ===== src/Chain/History.antt =====
-- lez/chain_state/src/chain.rs: histories of a chain, any sequence of its operations that return.
use lssa.Prelude.{◌≡◌, sym, ◌∙◌, subst, Option, some, List, ok}
use lssa.Prelude.Options.{some-injective}
use lssa.State.{V03State}
use lssa.Common.{ChainExternals, Block}
use lssa.Chain.Error.{Slot}
use lssa.Chain.Apply.{Tip, AcceptOutcome}
use lssa.Chain.Head.{
  HeadEntry, ChainState, MsgId, from_final, head_tip, head_position_of, replay, apply_adopted,
  apply_produced, revert_orphan, apply_channel_update, restore_head_block, apply_finalized,
}
use lssa.Chain.Replay.{IsReplayed, replay_nil}
use lssa.Chain.Progress.{
  Progress, Progress-refl, Progress-trans, apply_adopted-Progress, apply_produced-Progress,
  truncate_head_total, apply_channel_update-Progress, restore_head_block-Progress,
  apply_finalized-Progress,
}
use lssa.Chain.Linked.{IsLinked, replay-IsLinked}

module _ (ext : ChainExternals) where
  pub data Operation (c d : ChainState) : Type 0 where
    adoption :
        (this_msg : MsgId) (block : Block) (o : AcceptOutcome)
        → apply_adopted ext c this_msg block ≡ some (o, d)
        → Operation c d
    production :
        (this_msg : MsgId) (block : Block) (o : AcceptOutcome)
        → apply_produced ext c this_msg block ≡ some (o, d)
        → Operation c d
    orphaning :
        (this_msg : MsgId) (block : Block)
        → revert_orphan ext c this_msg block ≡ some d
        → Operation c d
    channel_update :
        (orphans adoptions : List (MsgId × Block)) (os : List AcceptOutcome)
        → apply_channel_update ext c orphans adoptions ≡ some (os, d)
        → Operation c d
    restoration : (block : Block) → restore_head_block ext c block ≡ some (ok d) → Operation c d
    finalization :
        (this_msg : MsgId) (block : Block) (l1_slot : Slot) (o : AcceptOutcome)
        → apply_finalized ext c this_msg block l1_slot ≡ some (o, d)
        → Operation c d

  pub data History (c : ChainState) : ChainState → Type 0 where
    start : History c c
    extend : {d e : ChainState} → History c d → Operation d e → History c e

  revert_orphan-Progress :
      (c d : ChainState) (this_msg : MsgId) (block : Block)
      → IsReplayed ext c
      → revert_orphan ext c this_msg block ≡ some d
      → Progress ext c d
  unfolding revert_orphan
  revert_orphan-Progress c d this_msg block good h =
      let (e, cut, p) = truncate_head_total ext c good (head_position_of c this_msg block) in
      subst (Progress ext c) (some-injective (sym cut ∙ h)) p

  Operation-Progress : (c d : ChainState) → IsReplayed ext c → Operation c d → Progress ext c d
  Operation-Progress c d good (adoption m b o h) = apply_adopted-Progress ext c good m b o d h
  Operation-Progress c d good (production m b o h) = apply_produced-Progress ext c good m b o d h
  Operation-Progress c d good (orphaning m b h) = revert_orphan-Progress c d m b good h
  Operation-Progress c d good (channel_update os as' r h) =
      apply_channel_update-Progress ext c os as' r d good h
  Operation-Progress c d good (restoration b h) = restore_head_block-Progress ext c good b d h
  Operation-Progress c d good (finalization m b l o h) =
      apply_finalized-Progress ext c m b l o d good h

  History-Progress : {c d : ChainState} → IsReplayed ext c → History c d → Progress ext c d
  History-Progress {c} good start = Progress-refl ext c good
  History-Progress {c} good (extend {d = d} {e = e} h op) =
      let p : Progress ext c d = History-Progress good h in
      Progress-trans ext p (Operation-Progress d e p.replayed op)

  -- Whatever happens to a chain that was restored from a final tier, its head state is the final
  -- state with the head blocks applied to it in order, and its head tip is the tip of the last of
  -- them.
  pub History-IsReplayed :
      (s : V03State) (tip : Option Tip) (c : ChainState)
      → History (from_final s tip) c
      → replay ext c.final_state c.final_tip c.head_blocks ≡ some (c.head_state, head_tip c)
  unfolding from_final head_tip
  History-IsReplayed s tip c h = (History-Progress (replay_nil ext s tip) h).replayed

  -- The final tier is irreversible. Whatever happens to a chain whose head state is the final state
  -- with the head blocks applied to it, its final state is the earlier one with some blocks applied to
  -- it, each of which has the hash that it states, the next identifier and a link to the block before.
  pub final_tier_extends :
      (c d : ChainState)
      → IsReplayed ext c
      → History c d
      → (es : List HeadEntry) × (replay ext c.final_state c.final_tip es
          ≡ some (d.final_state, d.final_tip))
        × IsLinked ext c.final_tip es
  final_tier_extends c d good h =
      let p : Progress ext c d = History-Progress good h in
      (
        p.finalized,
        p.extends,
        replay-IsLinked ext c.final_state c.final_tip p.finalized _ p.extends,
      )
