-- ===== src/Chain/Adoption.antt =====
-- lez/chain_state/src/chain.rs: adopted blocks and their reversal.
use lssa.Prelude.{
  ◌≡◌, ◌⊎◌, inl, inr, refl, sym, ◌∙◌, ap, subst, true, false, Option, none, some, List, [], ◌∷◌,
  ◌++◌, arith, leb, err, length, All, Option-cases, Bool-cases,
}
use lssa.Prelude.Options.{some-injective}
use lssa.State.{V03State}
use lssa.Common.{ChainExternals, Block}
use lssa.Chain.Error.{BlockIngestError}
use lssa.Chain.Apply.{Tip, tip_of, AcceptOutcome, applied, already_applied, parked, apply_block}
use lssa.Chain.Lists.{
  drop, take_all, append_nil, take-drop, take-length-append, position-none, position-some,
  position-append, position_found,
}
use lssa.Chain.Head.{
  HeadEntry, ChainState, MsgId, entry, head_tip, replay, replay_head_prefix, reorg_at, kept_below,
  adopt, apply_adopted, is_entry_of, is_pre_final, head_position_of, truncate_head, rederive_head,
  revert_orphan,
}
use lssa.Chain.Replay.{IsReplayed, tip_after-append}
use lssa.Chain.Linked.{replay-IsLinked}
use lssa.Chain.Heights.{IsLinked-drop}
use lssa.Chain.Effects.{Adopted, adopt-cases}

applied-ne-parked : {e : BlockIngestError} → applied ≡ parked e → ⊥
applied-ne-parked h = cc

pub already-ne-applied : already_applied ≡ applied → ⊥
already-ne-applied h = cc

already-ne-parked : {e : BlockIngestError} → already_applied ≡ parked e → ⊥
already-ne-parked h = cc

parked-injective : {e f : BlockIngestError} → parked e ≡ parked f → e ≡ f
parked-injective h = cc

-- An entry is found under its block, whatever the message.
is_entry_of_self :
    (this_msg other : MsgId) (block : Block) → is_entry_of other block (entry this_msg block) ≡ true
is_entry_of_self this_msg other block = ground arith

module _ (ext : ChainExternals) where
  -- A result of `apply_adopted` is the chain as it was, for a block that it had or that is not
  -- above the final tip, or else that of `adopt`.
  apply_adopted-cases :
      (c : ChainState) (this_msg : MsgId) (block : Block) (o : AcceptOutcome) (d : ChainState)
      → apply_adopted ext c this_msg block ≡ some (o, d)
      → ((o ≡ already_applied) × (d ≡ c))
        ⊎ ((head_position_of c this_msg block ≡ none)
            × (is_pre_final c.final_tip block ≡ false)
            × (adopt ext c this_msg block ≡ some (o, d)))
  unfolding apply_adopted
  apply_adopted-cases c this_msg block o d h =
      elim (Option-cases (head_position_of c this_msg block)) [
        | inr (i, known) ↦ inl (unchanged (rw (known, apply_adopted) at h))
        | inl new ↦ elim (Bool-cases (is_pre_final c.final_tip block)) [
          | inl below ↦ inl (unchanged (rw (new, below, apply_adopted) at h))
          | inr above ↦ inr (new, above, rw (new, above, apply_adopted) at h)
        ]
      ]
    where
      unchanged :
          ◌≡◌ {A = Option (AcceptOutcome × ChainState)} (some (already_applied, c)) (some (o, d))
          → (o ≡ already_applied) × (d ≡ c)
      unchanged k =
          let p = some-injective k in
          (
            sym (ap (λ (x : AcceptOutcome × ChainState). x.0) p),
            sym (ap (λ (x : AcceptOutcome × ChainState). x.1) p),
          )

  pub apply_adopted-Adopted :
      (c : ChainState) (good : IsReplayed ext c) (this_msg : MsgId) (block : Block) (d : ChainState)
      → apply_adopted ext c this_msg block ≡ some (applied, d)
      → (head_position_of c this_msg block ≡ none)
        × (is_pre_final c.final_tip block ≡ false)
        × Adopted ext c good this_msg block d
  apply_adopted-Adopted c good this_msg block d h =
      elim (apply_adopted-cases c this_msg block applied d h) [
        | inl (e, _) ↦ absurd (already-ne-applied (sym e))
        | inr (new, above, k) ↦ elim (adopt-cases ext c good this_msg block applied d k) [
          | inl (e, p, _) ↦ absurd (applied-ne-parked p)
          | inr (_, a) ↦ (new, above, a)
        ]
      ]

  -- What is cut off are the entries at the block's height and above.
  kept_below-drop :
      (c : ChainState) (block : Block)
      → IsReplayed ext c
      → (dropped : List HeadEntry) × (kept_below ext c (reorg_at c block) ++ dropped
          ≡ c.head_blocks)
        × All (λ e. leb block.header.block_id e.block.header.block_id ≡ true) dropped
  kept_below-drop c block good = elim (Option-cases (reorg_at c block)) [
    | inl nowhere ↦ ([], rw nowhere (append_nil c.head_blocks), tt)
    | inr (i, found) ↦ (
      drop i c.head_blocks,
      rw found (take-drop i c.head_blocks),
      IsLinked-drop ext block.header.block_id c.final_tip c.head_blocks i
          (replay-IsLinked ext c.final_state c.final_tip c.head_blocks _ good) found,
    )
  ]

  kept_below-lower :
      (c : ChainState) (block : Block)
      → All
          (λ e. leb block.header.block_id e.block.header.block_id ≡ false)
          (kept_below ext c (reorg_at c block))
  kept_below-lower c block = elim (Option-cases (reorg_at c block)) [
    | inl nowhere ↦ rw nowhere (position-none _ c.head_blocks nowhere)
    | inr (i, found) ↦
        let (_, _, _, before) = position-some _ c.head_blocks i found in rw found before
  ]

  -- A block that is adopted becomes the tip of the head. It continues the head's entries below its
  -- own height, which stay, and those at its height and above are dropped; the final tier stays as it is. The chain is
  -- one whose head state is the final state with the head blocks applied to it.
  pub apply_adopted_head :
      (c : ChainState) (this_msg : MsgId) (block : Block) (d : ChainState)
      → IsReplayed ext c
      → apply_adopted ext c this_msg block ≡ some (applied, d)
      → (kept : List HeadEntry) × (dropped : List HeadEntry) × (kept ++ dropped ≡ c.head_blocks)
        × (d.head_blocks ≡ kept ++ entry this_msg block ∷ [])
        × All (λ e. leb block.header.block_id e.block.header.block_id ≡ false) kept
        × All (λ e. leb block.header.block_id e.block.header.block_id ≡ true) dropped
        × (head_tip d ≡ some (tip_of block))
        × (d.final_state ≡ c.final_state)
        × (d.final_tip ≡ c.final_tip)
  unfolding head_tip
  apply_adopted_head c this_msg block d good h =
      let (_, _, a) = apply_adopted-Adopted c good this_msg block d h in
      let kept = kept_below ext c (reorg_at c block) in
      let (dropped, whole, high) = kept_below-drop c block good in
      (
        kept,
        dropped,
        whole,
        ap (λ (x : ChainState). x.head_blocks) a.result,
        kept_below-lower c block,
        high,
        ap head_tip a.result ∙ tip_after-append c.final_tip kept (entry this_msg block),
        ap (λ (x : ChainState). x.final_state) a.result,
        ap (λ (x : ChainState). x.final_tip) a.result,
      )

  -- Adoption is idempotent: a block that was adopted is known afterwards, also under another
  -- message's identifier, and adopting it again changes nothing. The chain is one whose head
  -- state is the final state with the head blocks applied to it.
  pub apply_adopted_again :
      (c : ChainState) (this_msg other : MsgId) (block : Block) (d : ChainState)
      → IsReplayed ext c
      → apply_adopted ext c this_msg block ≡ some (applied, d)
      → apply_adopted ext d other block ≡ some (already_applied, d)
  unfolding apply_adopted head_position_of
  apply_adopted_again c this_msg other block d good h =
      let (_, _, a) = apply_adopted-Adopted c good this_msg block d h in
      let (i, found) =
        position_found (is_entry_of other block) (kept_below ext c (reorg_at c block))
          (entry this_msg block) (is_entry_of_self this_msg other block) in
      let known : head_position_of d other block ≡ some i =
        ap (λ (x : ChainState). head_position_of x other block) a.result ∙ found in
      rw (known, apply_adopted) refl

  -- A block that is parked instead of adopted leaves the chain as it was, and the error is that of
  -- applying it to the final state with the head blocks below its height applied, or all of them
  -- where none is as high. The chain is one whose head state is the final state with the head
  -- blocks applied to it.
  pub apply_adopted_parked :
      (c : ChainState) (this_msg : MsgId) (block : Block) (e : BlockIngestError) (d : ChainState)
      → IsReplayed ext c
      → apply_adopted ext c this_msg block ≡ some (parked e, d)
      → (d ≡ c)
        × (base : V03State × Option Tip) × (replay ext c.final_state c.final_tip
              (kept_below ext c (reorg_at c block))
            ≡ some base)
        × (apply_block ext base.1 block base.0 ≡ some (err e))
  apply_adopted_parked c this_msg block e d good h =
      elim (apply_adopted-cases c this_msg block (parked e) d h) [
        | inl (p, _) ↦ absurd (already-ne-parked (sym p))
        | inr (_, _, k) ↦ elim (adopt-cases ext c good this_msg block (parked e) d k) [
          | inl (f, p, (same, base, front, refused)) ↦
              let is : f ≡ e = parked-injective (sym p) in
              (
                same,
                base,
                front,
                subst (λ x. apply_block ext base.1 block base.0 ≡ some (err x)) is refused,
              )
          | inr (p, _) ↦ absurd (applied-ne-parked (sym p))
        ]
      ]

  cut_last :
      (c : ChainState) (s : V03State) (e : HeadEntry)
      → IsReplayed ext c
      → truncate_head ext
          (record c { head_state = s; head_blocks = c.head_blocks ++ e ∷ [] })
          (some (length c.head_blocks))
        ≡ some c
  unfolding truncate_head rederive_head replay_head_prefix
  cut_last c s e good =
      rw (take-length-append c.head_blocks (e ∷ []), take_all c.head_blocks, good) refl

  -- Reverting undoes adopting: if a block was adopted above the head of a chain, reverting it gives
  -- that chain again. The chain is one whose head state is the final state with the head blocks
  -- applied to it.
  pub revert_orphan-apply_adopted :
      (c : ChainState) (this_msg : MsgId) (block : Block) (d : ChainState)
      → IsReplayed ext c
      → reorg_at c block ≡ none
      → apply_adopted ext c this_msg block ≡ some (applied, d)
      → revert_orphan ext d this_msg block ≡ some c
  unfolding revert_orphan truncate_head rederive_head replay_head_prefix head_position_of
  revert_orphan-apply_adopted c this_msg block d good above h =
      let (new, _, a) = apply_adopted-Adopted c good this_msg block d h in
      let is : d ≡ record c {
        head_state = a.scratch;
        head_blocks = c.head_blocks ++ entry this_msg block ∷ [];
      } =
        a.result
        ∙ ap
            (λ at. record c {
              head_state = a.scratch;
              head_blocks = kept_below ext c at ++ entry this_msg block ∷ [];
            })
            above in
      let found =
        position-append (is_entry_of this_msg block) c.head_blocks (entry this_msg block)
          (is_entry_of_self this_msg this_msg block) new in
      subst (λ x. revert_orphan ext x this_msg block ≡ some c) (sym is)
        (rw (found, revert_orphan) (cut_last c a.scratch (entry this_msg block) good))
