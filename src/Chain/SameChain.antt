-- ===== src/Chain/SameChain.antt =====
-- lez/chain_state/src/consistency.rs: when the check finds the store on the channel's chain.
use lssa.Prelude.{
  ℕ, ◌≡◌, ◌≢◌, ◌≤◌, ◌<◌, ◌↔◌, inl, inr, refl, sym, ◌∙◌, ap, true, false, Option, none, some, List,
  [], ◌∷◌, arith, ltb, ◌==◌, ltb→lt, Option-cases, Bool-cases,
}
use lssa.Common.{HashType, Block}
use lssa.Chain.Error.{Slot}
use lssa.Chain.Consistency.{
  ZoneMessage, Anchor, AnchorProbe, same_chain, mismatch, bail, keep_looking, ChainConsistency,
  consistent, inconclusive, inconsistent, AnchorConsistencyCheck, new_check, check_frontier,
  ChainMismatch, channel_behind_anchor, frontier_verdict, header_of, probe_block, probe_anchor_slot,
  verdict_of, observe, scan, finish, verify_from, verify_chain_consistency,
}

module _ (decode_block : List ℕ → Option Block) (slot : Slot) (ours : ℕ × HashType) where
  -- The anchor at a slot, on a block.
  abbrev pub anchored : Anchor
  anchored = record { slot = slot; block = some ours }

  -- A message that says nothing: of an earlier slot, without a block, or with an older block of
  -- the anchor's own slot.
  pub data Silent (msg : ZoneMessage) (at : Slot) : Type 0 where
    earlier : at < slot → Silent msg at
    no_block : header_of decode_block msg ≡ none → Silent msg at
    older :
        (id : ℕ) (hash : HashType)
        → at ≡ slot
        → header_of decode_block msg ≡ some (id, hash)
        → id < ours.0
        → Silent msg at

  -- The anchor's block comes after silent messages only.
  pub data Serves : List (ZoneMessage × Slot) → Type 0 where
    served :
        {msg : ZoneMessage} {at : Slot} {rest : List (ZoneMessage × Slot)}
        → slot ≤ at
        → header_of decode_block msg ≡ some ours
        → Serves ((msg, at) ∷ rest)
    silent :
        {msg : ZoneMessage} {at : Slot} {rest : List (ZoneMessage × Slot)}
        → Silent msg at
        → Serves rest
        → Serves ((msg, at) ∷ rest)

  abbrev probe : ZoneMessage → Slot → AnchorProbe
  probe msg at = probe_anchor_slot decode_block anchored msg at

  probe_served :
      (msg : ZoneMessage) (at : Slot)
      → slot ≤ at
      → header_of decode_block msg ≡ some ours
      → probe msg at ≡ same_chain
  unfolding probe_anchor_slot
  probe_served msg at h e = rw (not_before at h, e) (ground arith)
    where
      not_before : (b : ℕ) → slot ≤ b → ltb b slot ≡ false
      not_before b k = ground arith

  probe-Silent : (msg : ZoneMessage) (at : Slot) → Silent msg at → probe msg at ≡ keep_looking
  unfolding probe_anchor_slot
  probe-Silent msg at (earlier h) = ground arith
  probe-Silent msg at (no_block e) = rw e (ground arith)
  probe-Silent msg at (older id hash e k h) = rw k (ground arith)

  probe_looking : (msg : ZoneMessage) (at : Slot) → probe msg at ≡ keep_looking → Silent msg at
  unfolding probe_anchor_slot
  probe_looking msg at h = elim (Bool-cases (ltb at slot)) [
    | inl before ↦ earlier (ltb→lt at slot before)
    | inr after ↦ elim (Option-cases (header_of decode_block msg)) [
      | inl nothing ↦ no_block nothing
      | inr ((id, hash), carried) ↦
          let k = rw (after, carried, probe_anchor_slot) at h in
          let (same, below) = block_looking id hash at k in older id hash same carried below
    ]
  ]
    where
      block_looking :
          (id : ℕ) (hash : HashType) (b : Slot)
          → probe_block slot ours b id hash ≡ keep_looking
          → (b ≡ slot) × (id < ours.0)
      block_looking id hash b k = ground arith

  probe_same :
      (msg : ZoneMessage) (at : Slot)
      → probe msg at ≡ same_chain
      → (slot ≤ at) × (header_of decode_block msg ≡ some ours)
  unfolding probe_anchor_slot
  probe_same msg at h = elim (Bool-cases (ltb at slot)) [
    | inl before ↦ absurd (looking-ne-same (rw (before, probe_anchor_slot) at h))
    | inr after ↦ elim (Option-cases (header_of decode_block msg)) [
      | inl nothing ↦ absurd (looking-ne-same (rw (after, nothing, probe_anchor_slot) at h))
      | inr ((id, hash), carried) ↦
          let k = rw (after, carried, probe_anchor_slot) at h in
          let (same_id, same_hash) = block_same id hash at k in
          (reaches at after, carried ∙ ap some (pair_eq id hash same_id same_hash))
    ]
  ]
    where
      looking-ne-same : keep_looking ≡ same_chain → ⊥
      looking-ne-same k = cc

      reaches : (b : ℕ) → ltb b slot ≡ false → slot ≤ b
      reaches b k = ground arith

      block_same :
          (id : ℕ) (hash : HashType) (b : Slot)
          → probe_block slot ours b id hash ≡ same_chain
          → (id ≡ ours.0) × (hash ≡ ours.1)
      block_same id hash b k = ground arith

      pair_eq :
          (id : ℕ) (hash : HashType)
          → id ≡ ours.0
          → hash ≡ ours.1
          → ◌≡◌ {A = ℕ × HashType} (id, hash) ours
      pair_eq id hash p q = rw (p, q) refl

  -- A scan after a first message that says something of the verdict, or nothing.
  abbrev scan_after : AnchorProbe → List (ZoneMessage × Slot) → ChainConsistency
  scan_after same_chain rest = consistent
  scan_after (mismatch m) rest = inconsistent m
  scan_after bail rest = inconclusive
  scan_after keep_looking rest = finish (scan decode_block (new_check anchored) rest)

  observed :
      (msg : ZoneMessage) (at : Slot) (p : AnchorProbe)
      → probe msg at ≡ p
      → observe decode_block (new_check anchored) msg at
        ≡ record { anchor = anchored; verdict = verdict_of p }
  unfolding observe new_check
  observed msg at p e = ap (λ q. record { anchor = anchored; verdict = verdict_of q }) e

  -- What a scan makes of the check after the first message.
  abbrev scan_on : AnchorConsistencyCheck → List (ZoneMessage × Slot) → ChainConsistency
  scan_on next rest =
      finish (elim next.verdict [ some _ ↦ next | none ↦ scan decode_block next rest ])

  scan_cons :
      (msg : ZoneMessage) (at : Slot) (rest : List (ZoneMessage × Slot)) (p : AnchorProbe)
      → probe msg at ≡ p
      → finish (scan decode_block (new_check anchored) ((msg, at) ∷ rest)) ≡ scan_after p rest
  unfolding scan finish new_check
  scan_cons msg at rest same_chain e = ap (λ n. scan_on n rest) (observed msg at same_chain e)
  scan_cons msg at rest (mismatch m) e = ap (λ n. scan_on n rest) (observed msg at (mismatch m) e)
  scan_cons msg at rest bail e = ap (λ n. scan_on n rest) (observed msg at bail e)
  scan_cons msg at rest keep_looking e = ap (λ n. scan_on n rest) (observed msg at keep_looking e)

  scan-consistent :
      (messages : List (ZoneMessage × Slot))
      → Serves messages
      → finish (scan decode_block (new_check anchored) messages) ≡ consistent
  scan-consistent [] s = elim s [ ]
  scan-consistent ((msg, at) ∷ rest) (served h e) =
      scan_cons msg at rest same_chain (probe_served msg at h e)
  scan-consistent ((msg, at) ∷ rest) (silent h s) =
      scan_cons msg at rest keep_looking (probe-Silent msg at h) ∙ scan-consistent rest s

  scan-Serves :
      (messages : List (ZoneMessage × Slot))
      → finish (scan decode_block (new_check anchored) messages) ≡ consistent
      → Serves messages
  unfolding scan finish new_check
  scan-Serves [] h = cc
  scan-Serves ((msg, at) ∷ rest) h =
      by_probe (probe msg at) refl (sym (scan_cons msg at rest (probe msg at) refl) ∙ h)
        (λ k. scan-Serves rest k)
    where
      by_probe :
          (p : AnchorProbe)
          → probe msg at ≡ p
          → scan_after p rest ≡ consistent
          → (finish (scan decode_block (new_check anchored) rest) ≡ consistent → Serves rest)
          → Serves ((msg, at) ∷ rest)
      by_probe same_chain e k again = let (reach, same) = probe_same msg at e in served reach same
      by_probe (mismatch m) e k again = cc
      by_probe bail e k again = cc
      by_probe keep_looking e k again = silent (probe_looking msg at e) (again k)

  -- The tip of the channel is at the anchor slot or later, if it could be read.
  abbrev pub TipReaches : Option (Option Slot) → Type 0
  TipReaches none = Unit {0}
  TipReaches (some none) = ⊥
  TipReaches (some (some tip_slot)) = slot ≤ tip_slot

  not_zero : slot ≢ 0 → (slot == 0) ≡ false
  not_zero n = ground arith

  not_behind : (t : ℕ) → slot ≤ t → ltb t slot ≡ false
  not_behind t k = ground arith

  frontier_reached :
      (t : ℕ) → slot ≤ t → check_frontier (new_check anchored) (some t) ≡ new_check anchored
  unfolding check_frontier frontier_verdict new_check
  frontier_reached t k = rw (not_behind t k, frontier_verdict, check_frontier) refl

  frontier_behind :
      (t : ℕ)
      → ltb t slot ≡ true
      → check_frontier (new_check anchored) (some t)
        ≡ record { anchor = anchored; verdict = some (inconsistent (channel_behind_anchor t slot)) }
  unfolding check_frontier frontier_verdict new_check
  frontier_behind t k = rw (k, frontier_verdict, check_frontier) refl

  verified_from :
      (messages : List (ZoneMessage × Slot))
      → slot ≢ 0
      → verify_from decode_block (new_check anchored) (some messages)
        ≡ finish (scan decode_block (new_check anchored) messages)
  unfolding verify_from new_check
  verified_from messages n = rw (not_zero n, verify_from) refl

  zero_undecided :
      (messages : List (ZoneMessage × Slot))
      → slot ≡ 0
      → verify_from decode_block (new_check anchored) (some messages) ≡ consistent
      → ⊥
  unfolding verify_from new_check
  zero_undecided messages z h = not_conclusive (rw (is_zero z, verify_from) at h)
    where
      not_conclusive : inconclusive ≡ consistent → ⊥
      not_conclusive k = cc

      is_zero : slot ≡ 0 → (slot == 0) ≡ true
      is_zero k = ground arith

  verified :
      (tip : Option (Option Slot)) (messages : List (ZoneMessage × Slot))
      → TipReaches tip
      → verify_chain_consistency decode_block anchored tip (some messages)
        ≡ verify_from decode_block (new_check anchored) (some messages)
  unfolding verify_chain_consistency
  verified none messages h = refl
  verified (some none) messages h = absurd h
  verified (some (some tip_slot)) messages h =
      ap (λ c. verify_from decode_block c (some messages)) (frontier_reached tip_slot h)

  verified_only :
      (tip : Option (Option Slot)) (messages : List (ZoneMessage × Slot))
      → verify_chain_consistency decode_block anchored tip (some messages) ≡ consistent
      → TipReaches tip
  unfolding verify_chain_consistency verify_from check_frontier frontier_verdict new_check finish
  verified_only none messages h = tt
  verified_only (some none) messages h = cc
  verified_only (some (some tip_slot)) messages h = elim (Bool-cases (ltb tip_slot slot)) [
    | inr reaches ↦ at_least tip_slot reaches
    | inl behind ↦ absurd (
        not_consistent (
          sym
            (ap (λ c. verify_from decode_block c (some messages)) (frontier_behind tip_slot behind))
          ∙ h))
  ]
    where
      not_consistent : {m : ChainMismatch} → inconsistent m ≡ consistent → ⊥
      not_consistent k = cc

      at_least : (t : ℕ) → ltb t slot ≡ false → slot ≤ t
      at_least t k = ground arith

  -- The check, of an anchor with a block and on messages that could be read, finds the store on the channel's
  -- chain exactly if the channel's tip, where it could be read, is not before the anchor slot, that slot is not 0,
  -- and the messages hold the anchor's block at the anchor slot or at any later one, after none but messages that
  -- say nothing: of earlier slots, without a block, or with an older block of the anchor slot. So a channel that
  -- serves the anchor's block only at a later slot, as after a reset, is taken for the store's chain.
  pub verify_chain_consistency_iff :
      (tip : Option (Option Slot)) (messages : List (ZoneMessage × Slot))
      → (verify_chain_consistency decode_block anchored tip (some messages) ≡ consistent)
        ↔ (TipReaches tip × (slot ≢ 0) × Serves messages)
  verify_chain_consistency_iff tip messages = (
    λ h.
        let reaches : TipReaches tip = verified_only tip messages h in
        let from = sym (verified tip messages reaches) ∙ h in
        let nonzero : slot ≢ 0 = λ z. zero_undecided messages z from in
        (reaches, nonzero, scan-Serves messages (sym (verified_from messages nonzero) ∙ from)),
    λ k. verified tip messages k.0 ∙ verified_from messages k.1 ∙ scan-consistent messages k.2,
  )
