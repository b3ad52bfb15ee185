-- ===== src/Chain/Progress.antt =====
-- lez/chain_state/src/chain.rs: every operation on a replayed chain leaves one, and only ever
-- extends the final tier.
use lssa.Prelude.{
  ℕ, suc, ◌≡◌, inl, inr, refl, sym, ◌∙◌, ap, subst, Option, none, some, List, [], ◌∷◌, ◌++◌, Result,
  ok, err, take, Option-cases, Bool-cases, ◌==◌, ok-injective,
}
use lssa.Prelude.Options.{>>=-eq-some, some-injective, none-ne-some}
use lssa.State.{V03State}
use lssa.Common.{ChainExternals, Block}
use lssa.Chain.Error.{BlockIngestError, Slot}
use lssa.Chain.Apply.{tip_of, AcceptOutcome, already_applied, apply_block}
use lssa.Chain.Lists.{drop, take_all, position, min_of}
use lssa.Chain.Head.{
  HeadEntry, ChainState, MsgId, entry, head_tip, replay, replay_head_prefix, adopt, apply_adopted,
  apply_produced, is_pre_final, is_redelivery, head_position_of, truncate_head, rederive_head,
  adopt_all, apply_channel_update, orphan_positions, restore_head_block, restored, finalize_through,
  finalize_directly, finalized_alone, finalize_parent, apply_finalized_direct, apply_finalized,
  record_final_stall,
}
use lssa.Chain.Replay.{
  IsReplayed, replay-IsReplayed, replay-take, replay-snoc, replay-append, replay_nil,
}
use lssa.Chain.Effects.{adopt-cases, Adopted-IsReplayed}

module _ (ext : ChainExternals) where
  -- The chain is replayed, and some entries lead from the earlier final tier to its own.
  pub record Progress (c d : ChainState) : Type 0 where
    pub finalized : List HeadEntry
    pub extends : replay ext c.final_state c.final_tip finalized ≡ some (d.final_state, d.final_tip)
    pub replayed : IsReplayed ext d

  pub Progress-refl : (c : ChainState) → IsReplayed ext c → Progress c c
  Progress-refl c good = record {
    finalized = [];
    extends = replay_nil ext c.final_state c.final_tip;
    replayed = good;
  }

  pub Progress-trans : {c d e : ChainState} → Progress c d → Progress d e → Progress c e
  Progress-trans {c} p q = record {
    finalized = p.finalized ++ q.finalized;
    extends =
        replay-append ext c.final_state c.final_tip p.finalized q.finalized _ p.extends ∙ q.extends;
    replayed = q.replayed;
  }

  -- An operation that leaves the final tier alone.
  same_final :
      (c d : ChainState)
      → d.final_state ≡ c.final_state
      → d.final_tip ≡ c.final_tip
      → IsReplayed ext d
      → Progress c d
  same_final c d s t good = record {
    finalized = [];
    extends = rw (s, t) (replay_nil ext c.final_state c.final_tip);
    replayed = good;
  }

  module _ (c : ChainState) (good : IsReplayed ext c) where
    adopt-Progress :
        (this_msg : MsgId) (block : Block) (o : AcceptOutcome) (d : ChainState)
        → adopt ext c this_msg block ≡ some (o, d)
        → Progress c d
    adopt-Progress this_msg block o d h = elim (adopt-cases ext c good this_msg block o d h) [
      | inl (e, _, (same, _, _, _)) ↦ subst (Progress c) (sym same) (Progress-refl c good)
      | inr (_, a) ↦
          same_final c d (rw (a.result) refl) (rw (a.result) refl)
            (Adopted-IsReplayed ext c good this_msg block d a)
    ]

    pub apply_adopted-Progress :
        (this_msg : MsgId) (block : Block) (o : AcceptOutcome) (d : ChainState)
        → apply_adopted ext c this_msg block ≡ some (o, d)
        → Progress c d
    unfolding apply_adopted
    apply_adopted-Progress this_msg block o d h =
        elim (Option-cases (head_position_of c this_msg block)) [
          | inr (i, known) ↦ unchanged (rw (known, apply_adopted) at h)
          | inl new ↦ elim (Bool-cases (is_pre_final c.final_tip block)) [
            | inl below ↦ unchanged (rw (new, below, apply_adopted) at h)
            | inr above ↦ adopt-Progress this_msg block o d (rw (new, above, apply_adopted) at h)
          ]
        ]
      where
        unchanged :
            ◌≡◌ {A = Option (AcceptOutcome × ChainState)} (some (already_applied, c)) (some (o, d))
            → Progress c d
        unchanged k =
            subst (Progress c) (ap (λ (x : AcceptOutcome × ChainState). x.1) (some-injective k))
              (Progress-refl c good)

    pub apply_produced-Progress :
        (this_msg : MsgId) (block : Block) (o : AcceptOutcome) (d : ChainState)
        → apply_produced ext c this_msg block ≡ some (o, d)
        → Progress c d
    unfolding apply_produced
    apply_produced-Progress this_msg block o d h =
        elim (Bool-cases (is_pre_final (head_tip c) block)) [
          | inl late ↦
              subst (Progress c)
                (ap (λ (x : AcceptOutcome × ChainState). x.1)
                  (some-injective (rw (late, apply_produced) at h)))
                (Progress-refl c good)
          | inr early ↦ apply_adopted-Progress this_msg block o d (rw (early, apply_produced) at h)
        ]

    -- A head that is cut off is derived again without a panic.
    pub truncate_head_total :
        (at : Option ℕ) → (d : ChainState) × (truncate_head ext c at ≡ some d) × Progress c d
    unfolding truncate_head rederive_head replay_head_prefix
    truncate_head_total none = (c, refl, Progress-refl c good)
    truncate_head_total (some idx) =
        let (q, front, _) = replay-take ext c.final_state c.final_tip idx c.head_blocks _ good in
        let d : ChainState = record c { head_blocks = take idx c.head_blocks; head_state = q.0 } in
        (
          d,
          rw (take_all (take idx c.head_blocks), front) refl,
          same_final c d refl refl (replay-IsReplayed ext d q.1 front),
        )

    pub finalize_through_total :
        (idx : ℕ)
        → (d : ChainState) × (finalize_through ext c idx ≡ some d)
          × (d.head_state ≡ c.head_state)
          × Progress c d
    unfolding finalize_through
    finalize_through_total idx =
        let (q, front, back) =
          replay-take ext c.final_state c.final_tip (suc idx) c.head_blocks _ good in
        let d : ChainState = record c {
          head_blocks = drop (suc idx) c.head_blocks;
          final_state = q.0;
          final_tip = q.1;
          final_stall = none;
        } in
        (
          d,
          rw front refl,
          refl,
          record {
            finalized = take (suc idx) c.head_blocks;
            extends = front;
            replayed = replay-IsReplayed ext d (head_tip c) back;
          },
        )

    finalize_directly-Progress :
        (block : Block) (l1_slot : Slot) (o : AcceptOutcome) (d : ChainState)
        → finalize_directly ext c block l1_slot ≡ some (o, d)
        → Progress c d
    unfolding finalize_directly record_final_stall head_tip
    finalize_directly-Progress block l1_slot o d h =
        let (outcome, k, h₁) = >>=-eq-some (apply_block ext c.final_tip block c.final_state) _ h in
        subst (Progress c) (ap (λ (x : AcceptOutcome × ChainState). x.1) (some-injective h₁))
          (outcome_progress outcome k)
      where
        outcome_progress :
            (outcome : Result BlockIngestError V03State)
            → apply_block ext c.final_tip block c.final_state ≡ some outcome
            → Progress c (finalized_alone c block l1_slot outcome).1
        outcome_progress (err e) k =
            same_final c (record_final_stall c block l1_slot e) refl refl good
        outcome_progress (ok s) k = record {
          finalized = entry 0 block ∷ [];
          extends =
              replay-snoc ext c.final_state s c.final_tip [] (entry 0 block)
                (c.final_state, c.final_tip) (replay_nil ext c.final_state c.final_tip) k;
          replayed = replay_nil ext s (some (tip_of block));
        }

    pub apply_finalized_direct-Progress :
        (block : Block) (l1_slot : Slot) (o : AcceptOutcome) (d : ChainState)
        → apply_finalized_direct ext c block l1_slot ≡ some (o, d)
        → Progress c d
    unfolding apply_finalized_direct
    apply_finalized_direct-Progress block l1_slot o d h =
        elim (Bool-cases (is_redelivery c.final_tip block)) [
          | inl again ↦
              subst (Progress c)
                (ap (λ (x : AcceptOutcome × ChainState). x.1)
                  (some-injective (rw (again, apply_finalized_direct) at h)))
                (Progress-refl c good)
          | inr other ↦
              finalize_directly-Progress block l1_slot o d (rw (other, apply_finalized_direct) at h)
        ]

    finalize_parent_total :
        (block : Block) → (d : ChainState) × (finalize_parent ext c block ≡ some d) × Progress c d
    unfolding finalize_parent
    finalize_parent_total block =
        elim (Option-cases
          (position (λ e. e.block.header.hash == block.header.prev_block_hash) c.head_blocks)) [
            | inl absent ↦ (c, rw (absent, finalize_parent) refl, Progress-refl c good)
            | inr (idx, found) ↦
                let (d, through, _, p) = finalize_through_total idx in
                (d, rw (found, finalize_parent) through, p)
          ]

    pub restore_head_block-Progress :
        (block : Block) (d : ChainState)
        → restore_head_block ext c block ≡ some (ok d)
        → Progress c d
    unfolding restore_head_block
    restore_head_block-Progress block d h =
        let (outcome, k, h₁) = >>=-eq-some (apply_block ext (head_tip c) block c.head_state) _ h in
        outcome_progress outcome k (some-injective h₁)
      where
        outcome_progress :
            (outcome : Result BlockIngestError V03State)
            → apply_block ext (head_tip c) block c.head_state ≡ some outcome
            → restored c (entry block.header.hash block) outcome ≡ ok d
            → Progress c d
        outcome_progress (err e) k j = cc
        outcome_progress (ok s) k j =
            let e = entry block.header.hash block in
            let f : ChainState = record c {
              head_state = s;
              head_blocks = c.head_blocks ++ e ∷ [];
            } in
            subst (Progress c) (ok-injective j) (
              same_final c f refl refl (
                replay-IsReplayed ext f (some (tip_of block))
                  (replay-snoc ext c.final_state s c.final_tip c.head_blocks e _ good k)))

  pub apply_finalized-Progress :
      (c : ChainState) (this_msg : MsgId) (block : Block) (l1_slot : Slot) (o : AcceptOutcome)
      (d : ChainState)
      → IsReplayed ext c
      → apply_finalized ext c this_msg block l1_slot ≡ some (o, d)
      → Progress c d
  unfolding apply_finalized
  apply_finalized-Progress c this_msg block l1_slot o d good h =
      elim (Option-cases (head_position_of c this_msg block)) [
        | inr (idx, known) ↦
            let (e, through, _, p) = finalize_through_total c good idx in
            subst (Progress c)
              (ap (λ (x : AcceptOutcome × ChainState). x.1)
                (some-injective (rw (known, apply_finalized, through) at h)))
              p
        | inl new ↦
            let (e, parent, p) = finalize_parent_total c good block in
            Progress-trans p (
              apply_finalized_direct-Progress e p.replayed block l1_slot o d
                (rw (new, apply_finalized, parent) at h))
      ]

  adopt_all-Progress :
      (c : ChainState) (blocks : List (MsgId × Block)) (os : List AcceptOutcome) (d : ChainState)
      → IsReplayed ext c
      → adopt_all ext c blocks ≡ some (os, d)
      → Progress c d
  unfolding adopt_all
  adopt_all-Progress c [] os d good h =
      subst (Progress c) (ap (λ (x : List AcceptOutcome × ChainState). x.1) (some-injective h))
        (Progress-refl c good)
  adopt_all-Progress c ((msg, block) ∷ blocks) os d good h =
      elim (Option-cases (apply_adopted ext c msg block)) [
        | inl stuck ↦ absurd (none-ne-some (rw (stuck, adopt_all) at h))
        | inr ((o, e), first) ↦
            let p : Progress c e = apply_adopted-Progress c good msg block o e first in
            elim (Option-cases (adopt_all ext e blocks)) [
              | inl stuck ↦ absurd (none-ne-some (rw (first, adopt_all, stuck) at h))
              | inr ((os', f), rest) ↦
                  subst (Progress c)
                    (ap (λ (x : List AcceptOutcome × ChainState). x.1)
                      (some-injective (rw (first, adopt_all, rest) at h)))
                    (Progress-trans p (adopt_all-Progress e blocks os' f p.replayed rest))
            ]
      ]

  pub apply_channel_update-Progress :
      (c : ChainState) (orphans adoptions : List (MsgId × Block)) (os : List AcceptOutcome)
      (d : ChainState)
      → IsReplayed ext c
      → apply_channel_update ext c orphans adoptions ≡ some (os, d)
      → Progress c d
  unfolding apply_channel_update
  apply_channel_update-Progress c orphans adoptions os d good h =
      let (e, cut, p) = truncate_head_total c good (min_of (orphan_positions ext c orphans)) in
      Progress-trans p
        (adopt_all-Progress e adoptions os d p.replayed (rw (cut, apply_channel_update) at h))
