-- ===== src/Chain/Effects.antt =====
-- lez/chain_state/src/chain.rs: what an operation on a replayed chain did, once it has returned.
use lssa.Prelude.{
  ℕ, ◌≡◌, ◌⊎◌, inl, inr, refl, sym, ap, Option, none, some, [], ◌∷◌, ◌++◌, Result, ok, err,
}
use lssa.Prelude.Options.{>>=-eq-some, some-injective}
use lssa.State.{V03State}
use lssa.Common.{ChainExternals, Block}
use lssa.Chain.Error.{BlockIngestError}
use lssa.Chain.Apply.{Tip, tip_of, AcceptOutcome, applied, parked, apply_block}
use lssa.Chain.Head.{
  ChainState, MsgId, head_tip, replay, replay_head_prefix, reorg_at, adopted_base, kept_below,
  adopt, adopted, entry,
}
use lssa.Chain.Replay.{IsReplayed, replay-IsReplayed, replay-take, replay-snoc}

module _ (ext : ChainExternals) (c : ChainState) (good : IsReplayed ext c) where
  -- The base of an adopted block is the final tier replayed through the entries that stay.
  pub adopted_base-replay :
      (at : Option ℕ)
      → (q : V03State × Option Tip) × (adopted_base ext c at ≡ some q)
        × (replay ext c.final_state c.final_tip (kept_below ext c at) ≡ some q)
  unfolding replay_head_prefix
  adopted_base-replay none = ((c.head_state, head_tip c), refl, good)
  adopted_base-replay (some idx) =
      let (q, front, _) = replay-take ext c.final_state c.final_tip idx c.head_blocks _ good in
      (q, front, front)

  -- An adopted block is parked, which changes nothing, or applied over its base.
  pub record Adopted (this_msg : MsgId) (block : Block) (d : ChainState) : Type 0 where
    pub scratch : V03State
    pub base : V03State × Option Tip
    pub based : adopted_base ext c (reorg_at c block) ≡ some base
    pub from_final :
        replay ext c.final_state c.final_tip (kept_below ext c (reorg_at c block)) ≡ some base
    pub extends : apply_block ext base.1 block base.0 ≡ some (ok scratch)
    pub result : d ≡ record c {
      head_state = scratch;
      head_blocks = kept_below ext c (reorg_at c block) ++ entry this_msg block ∷ [];
    }

  abbrev pub Refused : Block → BlockIngestError → ChainState → Type 0
  Refused block e d =
      (d ≡ c)
      × (base : V03State × Option Tip) × (replay ext c.final_state c.final_tip
            (kept_below ext c (reorg_at c block))
          ≡ some base)
      × (apply_block ext base.1 block base.0 ≡ some (err e))

  pub adopt-cases :
      (this_msg : MsgId) (block : Block) (o : AcceptOutcome) (d : ChainState)
      → adopt ext c this_msg block ≡ some (o, d)
      → ((e : BlockIngestError) × (o ≡ parked e) × Refused block e d)
        ⊎ ((o ≡ applied) × Adopted this_msg block d)
  unfolding adopt
  adopt-cases this_msg block o d h =
      let (q, based, front) = adopted_base-replay (reorg_at c block) in
      let (outcome, k, h₂) =
        >>=-eq-some (apply_block ext q.1 block q.0) _ (rw (based, adopt) at h) in
      outcome_cases q based front outcome k (some-injective h₂)
    where
      outcome_cases :
          (q : V03State × Option Tip)
          → adopted_base ext c (reorg_at c block) ≡ some q
          → replay ext c.final_state c.final_tip (kept_below ext c (reorg_at c block)) ≡ some q
          → (outcome : Result BlockIngestError V03State)
          → apply_block ext q.1 block q.0 ≡ some outcome
          → adopted c (kept_below ext c (reorg_at c block)) (entry this_msg block) outcome ≡ (o, d)
          → ((e : BlockIngestError) × (o ≡ parked e) × Refused block e d)
            ⊎ ((o ≡ applied) × Adopted this_msg block d)
      outcome_cases q based front (err e) k p = inl (
        e,
        sym (ap (λ (x : AcceptOutcome × ChainState). x.0) p),
        (sym (ap (λ (x : AcceptOutcome × ChainState). x.1) p), q, front, k),
      )
      outcome_cases q based front (ok scratch) k p = inr (
        sym (ap (λ (x : AcceptOutcome × ChainState). x.0) p),
        record {
          scratch = scratch;
          base = q;
          based = based;
          from_final = front;
          extends = k;
          result = sym (ap (λ (x : AcceptOutcome × ChainState). x.1) p);
        },
      )

  pub Adopted-IsReplayed :
      (this_msg : MsgId) (block : Block) (d : ChainState)
      → Adopted this_msg block d
      → IsReplayed ext d
  Adopted-IsReplayed this_msg block d a = rw a.result (
      replay-IsReplayed ext _ (some (tip_of block)) (
        replay-snoc ext c.final_state a.scratch c.final_tip _ (entry this_msg block) a.base
          a.from_final a.extends))
