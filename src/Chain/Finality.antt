-- ===== src/Chain/Finality.antt =====
-- lez/chain_state/src/chain.rs: finalized blocks, in the head or not, and the record of a stall.
use lssa.Prelude.{
  ℕ, suc, ◌+◌, ◌≡◌, inl, inr, refl, sym, ◌∙◌, ap, true, none, some, arith, ltb, min, if◌then◌else◌,
  Result, ok, err, take, get_elem?, Bool-cases,
}
use lssa.Prelude.Options.{>>=-eq-some, some-injective}
use lssa.State.{V03State}
use lssa.Common.{ChainExternals, Block}
use lssa.Chain.Error.{BlockIngestError, Slot, new_stall, escalate, u64_max}
use lssa.Chain.Apply.{tip_of, AcceptOutcome, applied, already_applied, parked, apply_block}
use lssa.Chain.Lists.{drop, last-take, position-some}
use lssa.Chain.Head.{
  HeadEntry, ChainState, MsgId, head_tip, tip_after, replay, is_entry_of, is_redelivery,
  head_position_of, record_final_stall, finalize_through, finalize_directly, finalized_alone,
  apply_finalized_direct, apply_finalized,
}
use lssa.Chain.Replay.{IsReplayed, replay-take, replay-tip}

module _ (ext : ChainExternals) where
  -- Finalizing a block that is in the head never fails: the block and those before it move to the
  -- final tier, whose state is the earlier one with them applied and whose tip the block becomes, the later ones stay, the head state and tip are what they were, and a
  -- stall is over. The chain is one whose head state is the final state with the head blocks
  -- applied to it.
  pub apply_finalized_head :
      (c : ChainState) (this_msg : MsgId) (block : Block) (l1_slot : Slot) (idx : ℕ)
      → IsReplayed ext c
      → head_position_of c this_msg block ≡ some idx
      → (d : ChainState) × (apply_finalized ext c this_msg block l1_slot ≡ some (applied, d))
        × (e : HeadEntry) × (get_elem? c.head_blocks idx ≡ some e)
        × (is_entry_of this_msg block e ≡ true)
        × (replay ext c.final_state c.final_tip (take (suc idx) c.head_blocks)
            ≡ some (d.final_state, d.final_tip))
        × (d.final_tip ≡ some (tip_of e.block))
        × (d.head_blocks ≡ drop (suc idx) c.head_blocks)
        × (d.head_state ≡ c.head_state)
        × (head_tip d ≡ head_tip c)
        × (d.final_stall ≡ none)
  unfolding apply_finalized finalize_through head_position_of head_tip
  apply_finalized_head c this_msg block l1_slot idx good known =
      let (q, front, back) =
        replay-take ext c.final_state c.final_tip (suc idx) c.head_blocks _ good in
      let d : ChainState = record c {
        head_blocks = drop (suc idx) c.head_blocks;
        final_state = q.0;
        final_tip = q.1;
        final_stall = none;
      } in
      let (e, there, same, _) =
        position-some (is_entry_of this_msg block) c.head_blocks idx known in
      (
        d,
        rw (known, apply_finalized, front) refl,
        e,
        there,
        same,
        front,
        replay-tip ext c.final_state c.final_tip (take (suc idx) c.head_blocks) q front
            ∙ rw (last-take c.head_blocks idx e there, tip_after) refl,
        refl,
        refl,
        sym (replay-tip ext q.0 q.1 (drop (suc idx) c.head_blocks) _ back),
        refl,
      )

  -- Blocks, of which the first is given, that are finalized one after the other and do not apply.
  pub data Failures (c : ChainState) (block : Block) (l1_slot : Slot) (e : BlockIngestError)
      : ℕ → ChainState → Type 0 where
    first_failure :
        {d : ChainState}
        → apply_finalized_direct ext c block l1_slot ≡ some (parked e, d)
        → Failures c block l1_slot e 0 d
    later_failure :
        {n : ℕ} {d f : ChainState} (later : Block) (later_slot : Slot) (g : BlockIngestError)
        → Failures c block l1_slot e n d
        → apply_finalized_direct ext d later later_slot ≡ some (parked g, f)
        → Failures c block l1_slot e (suc n) f

  pub apply_finalized_direct_parked :
      (c : ChainState) (block : Block) (l1_slot : Slot) (e : BlockIngestError) (d : ChainState)
      → apply_finalized_direct ext c block l1_slot ≡ some (parked e, d)
      → d ≡ record_final_stall c block l1_slot e
  unfolding apply_finalized_direct finalize_directly
  apply_finalized_direct_parked c block l1_slot e d h =
      elim (Bool-cases (is_redelivery c.final_tip block)) [
        | inl again ↦ absurd (not_parked (some-injective (rw (again, apply_finalized_direct) at h)))
        | inr other ↦
            let (outcome, k, h₁) =
              >>=-eq-some (apply_block ext c.final_tip block c.final_state) _
                (rw (other, apply_finalized_direct) at h) in
            outcome_cases outcome (some-injective h₁)
      ]
    where
      not_parked : ◌≡◌ {A = AcceptOutcome × ChainState} (already_applied, c) (parked e, d) → ⊥
      not_parked p = cc

      outcome_cases :
          (outcome : Result BlockIngestError V03State)
          → finalized_alone c block l1_slot outcome ≡ (parked e, d)
          → d ≡ record_final_stall c block l1_slot e
      outcome_cases (err g) p =
          let same : g ≡ e = cc in
          sym (ap (λ (x : AcceptOutcome × ChainState). x.1) p)
          ∙ ap (record_final_stall c block l1_slot) same
      outcome_cases (ok s) p = cc

  saturating :
      (n : ℕ)
      → (if ltb (min n u64_max) u64_max then min n u64_max + 1 else u64_max) ≡ min (suc n) u64_max
  saturating n = ground arith

  -- The stall of the final tier keeps the first cause. After a block that could not be finalized and n
  -- more, on a chain without a stall, nothing but the stall has changed: it is the first block's, with
  -- n orphans counted, or 2^64 - 1 if n is larger.
  pub stall_keeps_first :
      (c : ChainState) (block : Block) (l1_slot : Slot) (e : BlockIngestError) (n : ℕ)
      (d : ChainState)
      → c.final_stall ≡ none
      → Failures c block l1_slot e n d
      → d ≡ record c {
        final_stall =
            some
              (record (new_stall (some block.header) l1_slot e) { orphans_since = min n u64_max });
      }
  unfolding record_final_stall new_stall escalate
  stall_keeps_first c block l1_slot e n d clear (first_failure h) =
      apply_finalized_direct_parked c block l1_slot e d h ∙ rw clear refl
  stall_keeps_first c block l1_slot e (suc n) d clear (later_failure {d = f} later slot g fs h) =
      apply_finalized_direct_parked f later slot g d h
      ∙ ap (λ x. record_final_stall x later slot g)
          (stall_keeps_first c block l1_slot e n f clear fs)
      ∙ ap
          (λ k. record c {
            final_stall =
                some (record (new_stall (some block.header) l1_slot e) { orphans_since = k });
          })
          (saturating n)
