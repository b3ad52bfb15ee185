-- ===== src/Chain/Replay.antt =====
-- lez/chain_state/src/chain.rs: replaying head entries on a state and a tip.
use lssa.Prelude.{
  ℕ, ◌≡◌, refl, sym, ◌∙◌, ap, subst, Option, none, some, List, [], ◌∷◌, ◌++◌, Result, ok, err, take,
  Option-cases, inl, inr,
}
use lssa.Prelude.Options.{some-injective, none-ne-some}
use lssa.State.{V03State}
use lssa.Common.{ChainExternals}
use lssa.Chain.Error.{BlockIngestError}
use lssa.Chain.Apply.{Tip, tip_of, apply_block}
use lssa.Chain.Lists.{last, drop, take-drop, last-append}
use lssa.Chain.Head.{HeadEntry, ChainState, tip_after, head_tip, expect_ok, replay}

expect_ok-eq-some :
    (o : Option (Result BlockIngestError V03State)) (t : V03State)
    → expect_ok o ≡ some t
    → o ≡ some (ok t)
expect_ok-eq-some none t h = cc
expect_ok-eq-some (some (err e)) t h = cc
expect_ok-eq-some (some (ok s)) t h = cc

pub tip_after-cons :
    (tip : Option Tip) (e : HeadEntry) (es : List HeadEntry)
    → tip_after tip (e ∷ es) ≡ tip_after (some (tip_of e.block)) es
tip_after-cons tip e es = elim (Option-cases (last es)) [
  | inl h ↦ rw (h, tip_after) refl
  | inr (x, h) ↦ rw (h, tip_after) refl
]

pub tip_after-append :
    (tip : Option Tip) (es : List HeadEntry) (e : HeadEntry)
    → tip_after tip (es ++ e ∷ []) ≡ some (tip_of e.block)
tip_after-append tip es e = rw (last-append es e, tip_after) refl

module _ (ext : ChainExternals) where
  pub replay_nil : (s : V03State) (tip : Option Tip) → replay ext s tip [] ≡ some (s, tip)
  unfolding replay
  replay_nil s tip = refl

  pub replay_cons :
      (s t : V03State) (tip : Option Tip) (e : HeadEntry) (es : List HeadEntry)
      → apply_block ext tip e.block s ≡ some (ok t)
      → replay ext s tip (e ∷ es) ≡ replay ext t (some (tip_of e.block)) es
  unfolding replay
  replay_cons s t tip e es h = rw (h, replay) refl

  -- The first entry of a replay applied.
  pub replay-uncons :
      (s : V03State) (tip : Option Tip) (e : HeadEntry) (es : List HeadEntry)
      (r : V03State × Option Tip)
      → replay ext s tip (e ∷ es) ≡ some r
      → (t : V03State) × (apply_block ext tip e.block s ≡ some (ok t))
        × (replay ext t (some (tip_of e.block)) es ≡ some r)
  unfolding replay
  replay-uncons s tip e es r h = elim (Option-cases (expect_ok (apply_block ext tip e.block s))) [
    | inl stuck ↦ absurd (none-ne-some (rw (stuck, replay) at h))
    | inr (t, is) ↦ (t, expect_ok-eq-some _ t is, rw (is, replay) at h)
  ]

  pub replay-append :
      (s : V03State) (tip : Option Tip) (xs ys : List HeadEntry) (q : V03State × Option Tip)
      → replay ext s tip xs ≡ some q
      → replay ext s tip (xs ++ ys) ≡ replay ext q.0 q.1 ys
  replay-append s tip [] ys q h =
      ap (λ (p : V03State × Option Tip). replay ext p.0 p.1 ys)
        (some-injective (sym (replay_nil s tip) ∙ h))
  replay-append s tip (x ∷ xs) ys q h =
      let (t, first, rest) = replay-uncons s tip x xs q h in
      replay_cons s t tip x (xs ++ ys) first ∙ replay-append t (some (tip_of x.block)) xs ys q rest

  -- A replay of a list is one of its first part and then one of the rest.
  pub replay-split :
      (s : V03State) (tip : Option Tip) (xs ys : List HeadEntry) (r : V03State × Option Tip)
      → replay ext s tip (xs ++ ys) ≡ some r
      → (q : V03State × Option Tip) × (replay ext s tip xs ≡ some q)
        × (replay ext q.0 q.1 ys ≡ some r)
  replay-split s tip [] ys r h = ((s, tip), replay_nil s tip, h)
  replay-split s tip (x ∷ xs) ys r h =
      let (t, first, rest) = replay-uncons s tip x (xs ++ ys) r h in
      let (q, front, back) = replay-split t (some (tip_of x.block)) xs ys r rest in
      (q, replay_cons s t tip x xs first ∙ front, back)

  pub replay-tip :
      (s : V03State) (tip : Option Tip) (es : List HeadEntry) (r : V03State × Option Tip)
      → replay ext s tip es ≡ some r
      → r.1 ≡ tip_after tip es
  replay-tip s tip [] r h =
      ap (λ (p : V03State × Option Tip). p.1) (some-injective (sym h ∙ replay_nil s tip))
  replay-tip s tip (e ∷ es) r h =
      let (t, first, rest) = replay-uncons s tip e es r h in
      replay-tip t (some (tip_of e.block)) es r rest ∙ sym (tip_after-cons tip e es)

  pub replay-take :
      (s : V03State) (tip : Option Tip) (n : ℕ) (es : List HeadEntry) (r : V03State × Option Tip)
      → replay ext s tip es ≡ some r
      → (q : V03State × Option Tip) × (replay ext s tip (take n es) ≡ some q)
        × (replay ext q.0 q.1 (drop n es) ≡ some r)
  replay-take s tip n es r h =
      replay-split s tip (take n es) (drop n es) r
        (subst (λ xs. replay ext s tip xs ≡ some r) (sym (take-drop n es)) h)

  pub replay-snoc :
      (s t : V03State) (tip : Option Tip) (es : List HeadEntry) (e : HeadEntry)
      (q : V03State × Option Tip)
      → replay ext s tip es ≡ some q
      → apply_block ext q.1 e.block q.0 ≡ some (ok t)
      → replay ext s tip (es ++ e ∷ []) ≡ some (t, some (tip_of e.block))
  replay-snoc s t tip es e q h k =
      replay-append s tip es (e ∷ []) q h ∙ replay_cons q.0 t q.1 e [] k ∙ replay_nil t _

  -- The head state is the final tier replayed through the head entries.
  abbrev pub IsReplayed : ChainState → Type 0
  IsReplayed c =
      replay ext c.final_state c.final_tip c.head_blocks ≡ some (c.head_state, head_tip c)

  pub replay-IsReplayed :
      (c : ChainState) (tip : Option Tip)
      → replay ext c.final_state c.final_tip c.head_blocks ≡ some (c.head_state, tip)
      → IsReplayed c
  unfolding head_tip
  replay-IsReplayed c tip h =
      h ∙ ap (λ t. some (c.head_state, t)) (replay-tip c.final_state c.final_tip c.head_blocks _ h)
