-- ===== src/Chain/Heights.antt =====
-- lez/chain_state/src/chain.rs: the identifiers of the blocks in the head increase.
use lssa.Prelude.{
  ℕ, ◌≡◌, ◌≤◌, ◌<◌, subst, true, Option, none, some, List, [], ◌∷◌, arith, leb, All, Option-cases,
  Bool-cases, inl, inr,
}
use lssa.Prelude.Options.{some-injective, none-ne-some}
use lssa.Common.{ChainExternals}
use lssa.Chain.Apply.{Tip, tip_of}
use lssa.Chain.Lists.{position, drop}
use lssa.Chain.Head.{HeadEntry, tip_after}
use lssa.Chain.Replay.{tip_after-cons}
use lssa.Chain.Linked.{IsLinked, Follows}

-- The tip's identifier, 0 without one.
abbrev pub tip_id : Option Tip → ℕ
tip_id none = 0
tip_id (some t) = t.block_id

Follows-lt : (tip : Option Tip) (n : ℕ) → Follows tip n → tip_id tip < n
Follows-lt none n h = omega (arith, h)
Follows-lt (some t) n h = omega (arith, h.0)

module _ (ext : ChainExternals) where
  -- Identifiers increase along a chain up to the last.
  IsLinked-le :
      (tip : Option Tip) (es : List HeadEntry)
      → IsLinked ext tip es
      → tip_id tip ≤ tip_id (tip_after tip es)
  IsLinked-le tip [] h = omega arith
  IsLinked-le tip (e ∷ es) h = rw (tip_after-cons tip e es) (
      omega (
        arith,
        Follows-lt tip e.block.header.block_id (h.0).numbered,
        IsLinked-le (some (tip_of e.block)) es h.1,
      ))

  pub IsLinked-All :
      (tip : Option Tip) (es : List HeadEntry) (n : ℕ)
      → IsLinked ext tip es
      → tip_id (tip_after tip es) < n
      → All (λ e. e.block.header.block_id < n) es
  IsLinked-All tip [] n h k = tt
  IsLinked-All tip (e ∷ es) n h k =
      let k₁ = rw (tip_after-cons tip e es) at k in
      (
        omega (arith, IsLinked-le (some (tip_of e.block)) es h.1, k₁),
        IsLinked-All (some (tip_of e.block)) es n h.1 k₁,
      )

  -- In a chain over a tip that is as high as a number, all entries are.
  IsLinked-above :
      (n : ℕ) (tip : Option Tip) (es : List HeadEntry)
      → IsLinked ext tip es
      → n ≤ tip_id tip
      → All (λ e. leb n e.block.header.block_id ≡ true) es
  IsLinked-above n tip [] h k = tt
  IsLinked-above n tip (e ∷ es) h k =
      let up : tip_id tip < e.block.header.block_id = Follows-lt tip _ (h.0).numbered in
      let high : n ≤ e.block.header.block_id = omega (arith, up, k) in
      (ground (arith, high), IsLinked-above n (some (tip_of e.block)) es h.1 high)

  -- From the first entry on that is as high as a number, all entries of a chain are.
  pub IsLinked-drop :
      (n : ℕ) (tip : Option Tip) (es : List HeadEntry) (i : ℕ)
      → IsLinked ext tip es
      → position (λ (e : HeadEntry). leb n e.block.header.block_id) es ≡ some i
      → All (λ e. leb n e.block.header.block_id ≡ true) (drop i es)
  IsLinked-drop n tip [] i h found = absurd (none-ne-some found)
  IsLinked-drop n tip (e ∷ es) i h found = elim (Bool-cases (leb n e.block.header.block_id)) [
    | inl high ↦
        subst (λ k. All (λ e. leb n e.block.header.block_id ≡ true) (drop k (e ∷ es)))
          (some-injective (rw (high, position) at found))
          (high, IsLinked-above n (some (tip_of e.block)) es h.1 (ground (arith, high)))
    | inr low ↦
        elim (Option-cases (position (λ (f : HeadEntry). leb n f.block.header.block_id) es)) [
          | inl nowhere ↦ absurd (none-ne-some (rw (low, nowhere, position) at found))
          | inr (j, later) ↦
              subst (λ k. All (λ e. leb n e.block.header.block_id ≡ true) (drop k (e ∷ es)))
                (some-injective (rw (low, later, position) at found))
                (IsLinked-drop n (some (tip_of e.block)) es j h.1 later)
        ]
  ]
