-- ===== src/Chain/Produced.antt =====
-- lez/chain_state/src/chain.rs: blocks that the sequencer produced itself, and the order of the
-- identifiers in the head.
use lssa.Prelude.{
  ℕ, ◌≡◌, ◌<◌, inl, inr, refl, sym, ◌∙◌, ap, false, Option, none, some, List, [], ◌∷◌, ◌++◌, arith,
  leb, All, Option-cases, Bool-cases,
}
use lssa.Prelude.Options.{some-injective, none-ne-some}
use lssa.Common.{ChainExternals, Block}
use lssa.Chain.Apply.{Tip, AcceptOutcome, applied}
use lssa.Chain.Lists.{position, last}
use lssa.Chain.Head.{
  HeadEntry, ChainState, MsgId, entry, head_tip, tip_after, reorg_at, kept_below, is_pre_final,
  apply_produced,
}
use lssa.Chain.Replay.{IsReplayed}
use lssa.Chain.Linked.{replay-IsLinked}
use lssa.Chain.Heights.{tip_id, IsLinked-All}
use lssa.Chain.Adoption.{apply_adopted-Adopted, already-ne-applied}

-- No entry of a list of increasing identifiers is at the block's height or above.
position_above :
    (n : ℕ) (es : List HeadEntry)
    → All (λ e. e.block.header.block_id < n) es
    → position (λ (e : HeadEntry). leb n e.block.header.block_id) es ≡ none
position_above n [] h = refl
position_above n (e ∷ es) h = ground (arith, position_above n es h.1)

tip_after-nil : (tip : Option Tip) (es : List HeadEntry) → tip_after tip es ≡ none → es ≡ []
tip_after-nil tip [] h = refl
tip_after-nil tip (e ∷ es) h = elim (Option-cases (last es)) [
  | inl nothing ↦ absurd (none-ne-some (sym (rw (nothing, tip_after, last) at h)))
  | inr (x, is) ↦ absurd (none-ne-some (sym (rw (is, tip_after, last) at h)))
]

above_tip :
    (t : Tip) (block : Block)
    → is_pre_final (some t) block ≡ false
    → tip_id (some t) < block.header.block_id
above_tip t block h = ground arith

module _ (ext : ChainExternals) where
  produced_above :
      (c : ChainState) (block : Block)
      → IsReplayed ext c
      → is_pre_final (head_tip c) block ≡ false
      → reorg_at c block ≡ none
  unfolding head_tip
  produced_above c block good h = elim (Option-cases (tip_after c.final_tip c.head_blocks)) [
    | inl cold ↦ rw (tip_after-nil c.final_tip c.head_blocks cold, position) refl
    | inr (t, is) ↦ position_above block.header.block_id c.head_blocks (
        IsLinked-All ext c.final_tip c.head_blocks block.header.block_id
          (replay-IsLinked ext c.final_state c.final_tip c.head_blocks _ good)
          (rw is (above_tip t block (rw is at h))))
  ]

  -- A block that the sequencer produced itself only ever extends the head: if it is applied, it is put
  -- after all the head's blocks, of which none is dropped, and its identifier is above theirs. The chain is
  -- one whose head state is the final state with the head blocks applied to it.
  pub apply_produced_extends :
      (c : ChainState) (this_msg : MsgId) (block : Block) (d : ChainState)
      → IsReplayed ext c
      → apply_produced ext c this_msg block ≡ some (applied, d)
      → (d.head_blocks ≡ c.head_blocks ++ entry this_msg block ∷ []) × (reorg_at c block ≡ none)
  unfolding apply_produced
  apply_produced_extends c this_msg block d good h =
      elim (Bool-cases (is_pre_final (head_tip c) block)) [
        | inl late ↦ absurd (
            already-ne-applied (
              ap (λ (x : AcceptOutcome × ChainState). x.0)
                (some-injective (rw (late, apply_produced) at h))))
        | inr early ↦
            let (_, _, a) =
              apply_adopted-Adopted ext c good this_msg block d (rw (early, apply_produced) at h) in
            let above = produced_above c block good early in
            (
              ap (λ (x : ChainState). x.head_blocks) a.result
                  ∙ ap (λ at. kept_below ext c at ++ entry this_msg block ∷ []) above,
              above,
            )
      ]
