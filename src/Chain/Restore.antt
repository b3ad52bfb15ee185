-- ===== src/Chain/Restore.antt =====
-- lez/chain_state/src/chain.rs: a chain restored from a stored final tier and head blocks.
use lssa.Prelude.{
  ◌≡◌, refl, sym, ◌∙◌, ap, Option, none, some, List, [], ◌∷◌, ◌++◌, map, Result, ok, err,
}
use lssa.State.{V03State}
use lssa.Common.{ChainExternals, Block}
use lssa.Chain.Error.{BlockIngestError}
use lssa.Chain.Apply.{Tip, tip_of, apply_block}
use lssa.Chain.Lists.{append_nil}
use lssa.Chain.Head.{HeadEntry, ChainState, entry, head_tip, from_final, replay, restore_head_block}
use lssa.Chain.Replay.{IsReplayed, replay-uncons, replay_nil, tip_after-append}
use lssa.Prelude.Options.{some-injective}

abbrev pub blocks : List HeadEntry → List Block
blocks es = map (λ e. e.block) es

module _ (ext : ChainExternals) where
  -- The loop over the stored blocks, of lez/sequencer/core.
  unfoldable pub restore_head_blocks :
      ChainState → List Block → Option (Result BlockIngestError ChainState)
  unfolding restore_head_block
  restore_head_blocks c [] = some (ok c)
  restore_head_blocks c (b ∷ bs) = elim (restore_head_block ext c b) [
    | none ↦ none
    | some (err e) ↦ some (err e)
    | some (ok d) ↦ restore_head_blocks d bs
  ]

  restored_by :
      (c : ChainState) (b : Block) (s : V03State)
      → apply_block ext (head_tip c) b c.head_state ≡ some (ok s)
      → restore_head_block ext c b
        ≡ some (
            ok (record c {
              head_state = s;
              head_blocks = c.head_blocks ++ entry b.header.hash b ∷ [];
            }))
  unfolding restore_head_block
  restored_by c b s h = rw h refl

  append_assoc :
      (xs : List Block) (y : Block) (zs : List Block) → (xs ++ y ∷ []) ++ zs ≡ xs ++ y ∷ zs
  append_assoc [] y zs = refl
  append_assoc (x ∷ xs) y zs = ap (λ ws. x ∷ ws) (append_assoc xs y zs)

  map-append :
      (es : List HeadEntry) (e : HeadEntry) → blocks (es ++ e ∷ []) ≡ blocks es ++ e.block ∷ []
  map-append [] e = refl
  map-append (x ∷ es) e = ap (λ ws. x.block ∷ ws) (map-append es e)

  -- What is restored over a chain that stands where a replay starts.
  record Restored (c : ChainState) (es : List HeadEntry) (s : V03State) : Type 0 where
    chain : ChainState
    returned : restore_head_blocks c (blocks es) ≡ some (ok chain)
    same_state : chain.head_state ≡ s
    same_blocks : blocks chain.head_blocks ≡ blocks c.head_blocks ++ blocks es
    same_final : chain.final_state ≡ c.final_state
    same_tip : chain.final_tip ≡ c.final_tip

  restore-Restored :
      (c : ChainState) (es : List HeadEntry) (r : V03State × Option Tip)
      → replay ext c.head_state (head_tip c) es ≡ some r
      → Restored c es r.0
  unfolding restore_head_blocks head_tip
  restore-Restored c [] r h = record {
    chain = c;
    returned = refl;
    same_state =
        ap (λ (x : V03State × Option Tip). x.0)
          (some-injective (sym (replay_nil ext c.head_state (head_tip c)) ∙ h));
    same_blocks = sym (append_nil (blocks c.head_blocks));
    same_final = refl;
    same_tip = refl;
  }
  restore-Restored c (e ∷ es) r h =
      let (s, first, rest) = replay-uncons ext c.head_state (head_tip c) e es r h in
      let f = entry e.block.header.hash e.block in
      let d : ChainState = record c { head_state = s; head_blocks = c.head_blocks ++ f ∷ [] } in
      let tip : head_tip d ≡ some (tip_of e.block) = tip_after-append c.final_tip c.head_blocks f in
      let q : Restored d es r.0 =
        restore-Restored d es r (ap (λ t. replay ext s t es) tip ∙ rest) in
      record {
        chain = q.chain;
        returned = rw (restored_by c e.block s first, restore_head_blocks) q.returned;
        same_state = q.same_state;
        same_blocks =
            q.same_blocks
            ∙ ap (λ bs. bs ++ blocks es) (map-append c.head_blocks f)
            ∙ append_assoc (blocks c.head_blocks) e.block (blocks es);
        same_final = q.same_final;
        same_tip = q.same_tip;
      }

  -- Storing and restoring: from the final tier and the head blocks of a chain, restoring the blocks in
  -- order succeeds and gives the same head state, blocks and final tier. The chain is one whose head
  -- state is the final state with the head blocks applied to it.
  pub restore_round_trip :
      (c : ChainState)
      → IsReplayed ext c
      → (d : ChainState) × (restore_head_blocks
            (from_final c.final_state c.final_tip)
            (blocks c.head_blocks)
          ≡ some (ok d))
        × (d.head_state ≡ c.head_state)
        × (blocks d.head_blocks ≡ blocks c.head_blocks)
        × (d.final_state ≡ c.final_state)
        × (d.final_tip ≡ c.final_tip)
  unfolding from_final head_tip
  restore_round_trip c good =
      let q : Restored (from_final c.final_state c.final_tip) c.head_blocks c.head_state =
        restore-Restored (from_final c.final_state c.final_tip) c.head_blocks _ good in
      (q.chain, q.returned, q.same_state, q.same_blocks, q.same_final, q.same_tip)
