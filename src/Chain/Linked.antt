-- ===== src/Chain/Linked.antt =====
-- lez/chain_state/src/apply.rs: a block that applies is the continuation of the tip, and blocks
-- that are replayed form a chain.
use lssa.Prelude.{
  ℕ, ◌+◌, ◌^◌, ◌<◌, ◌++◌, ◌≡◌, refl, sym, ◌∙◌, ap, true, Option, none, some, List, [], ◌∷◌, arith,
  ◌==◌, ==_iff, Result, ok, err, ensure-eq-ok, ensure->>, ok-ne-err, ◌↔◌, Option-cases, Bool-cases,
  inl, inr,
}
use lssa.Prelude.Options.{some-injective, none-ne-some}
use lssa.Commitment.{prefix}
use lssa.State.{V03State}
use lssa.Common.{ChainExternals, Block, HashableBlockData}
use lssa.Common.Blocks.{recompute_hash, compute_hash}
use lssa.Chain.Error.{BlockIngestError}
use lssa.Chain.Apply.{
  Tip, tip_of, apply_block, validate_against_tip, apply_block_to_state, expected_id, check_link,
}
use lssa.Chain.Head.{HeadEntry, replay}
use lssa.Chain.Replay.{replay-uncons}

-- The block's link to the tip; the first block has none.
abbrev pub LinksTo : Option Tip → Block → Type 0
LinksTo none block = Unit {0}
LinksTo (some tip) block = block.header.prev_block_hash ≡ tip.hash

-- The identifier follows the tip's, as a 64-bit number; the first block has the identifier 1.
abbrev pub Follows : Option Tip → ℕ → Type 0
Follows none id = id ≡ 1
Follows (some tip) id = (id ≡ tip.block_id + 1) × (id < 2 ^ 64)

-- What of a block is hashed.
abbrev pub contents : Block → HashableBlockData
contents block = record {
  block_id = block.header.block_id;
  prev_block_hash = block.header.prev_block_hash;
  timestamp = block.header.timestamp;
  transactions = block.body.transactions;
}

module _ (ext : ChainExternals) where
  -- The block continues the tip: its hash, its identifier and its link are right.
  pub record Continues (tip : Option Tip) (block : Block) : Type 0 where
    pub hashed :
        block.header.hash
        ≡ ext.ledger.sha256
            (prefix "/LEE/v0.3/Message/Block/" 8 ++ ext.block_bytes (contents block))
    pub numbered : Follows tip block.header.block_id
    pub linked : LinksTo tip block

  -- Entries of which each continues the one before.
  abbrev pub IsLinked : Option Tip → List HeadEntry → Type 0
  IsLinked tip [] = Unit {0}
  IsLinked tip (e ∷ es) = Continues tip e.block × IsLinked (some (tip_of e.block)) es

  recompute_hash_lem :
      (block : Block)
      → recompute_hash ext block
        ≡ ext.ledger.sha256
            (prefix "/LEE/v0.3/Message/Block/" 8 ++ ext.block_bytes (contents block))
  unfolding recompute_hash compute_hash
  recompute_hash_lem block = refl

  expected_id-Follows : (tip : Option Tip) (id : ℕ) → expected_id ext tip ≡ some id → Follows tip id
  expected_id-Follows none id h = ground arith
  expected_id-Follows (some tip) id h = ground arith

  Follows-expected_id : (tip : Option Tip) (id : ℕ) → Follows tip id → expected_id ext tip ≡ some id
  Follows-expected_id none id h = ap some (sym h)
  Follows-expected_id (some tip) id h = ground arith

  check_link-LinksTo :
      (tip : Option Tip) (block : Block) → check_link ext tip block ≡ ok tt → LinksTo tip block
  check_link-LinksTo none block h = tt
  check_link-LinksTo (some tip) block h = (==_iff _ _).0 (ensure-eq-ok _ _ h)

  LinksTo-check_link :
      (tip : Option Tip) (block : Block) → LinksTo tip block → check_link ext tip block ≡ ok tt
  LinksTo-check_link none block h = refl
  LinksTo-check_link (some tip) block h = rw ((==_iff _ _).1 h) refl

  validate_against_tip-Continues :
      (tip : Option Tip) (block : Block)
      → validate_against_tip ext tip block ≡ some (ok tt)
      → Continues tip block
  unfolding validate_against_tip
  validate_against_tip-Continues tip block h =
      elim (Bool-cases (recompute_hash ext block == block.header.hash)) [
        | inr wrong ↦ absurd (ground (arith, wrong))
        | inl right ↦ elim (Option-cases (expected_id ext tip)) [
          | inl overflow ↦ absurd (none-ne-some (rw (right, overflow, validate_against_tip) at h))
          | inr (n, next) ↦
              let (same, link) =
                ensure->> (block.header.block_id == n) _ _
                  (some-injective (rw (right, next, validate_against_tip) at h)) in
              record {
                hashed = sym ((==_iff _ _).0 right) ∙ recompute_hash_lem block;
                numbered = expected_id-Follows tip _ (next ∙ ap some (sym ((==_iff _ _).0 same)));
                linked = check_link-LinksTo tip block link;
              }
        ]
      ]

  Continues-validate_against_tip :
      (tip : Option Tip) (block : Block)
      → Continues tip block
      → validate_against_tip ext tip block ≡ some (ok tt)
  unfolding validate_against_tip
  Continues-validate_against_tip tip block k =
      let right : (recompute_hash ext block == block.header.hash) ≡ true =
        (==_iff _ _).1 (recompute_hash_lem block ∙ sym k.hashed) in
      let same : (block.header.block_id == block.header.block_id) ≡ true = (==_iff _ _).1 refl in
      rw
        (
          right,
          Follows-expected_id tip _ k.numbered,
          validate_against_tip,
          same,
          LinksTo-check_link tip block k.linked,
        )
        refl

  -- The validation of a block against a tip succeeds exactly if the block's stored hash is SHA-256 of
  -- the domain prefix and the encoding of its identifier, its parent's hash, its timestamp and its
  -- transactions, its identifier is one more than the tip's and below 2^64, and its parent's hash is
  -- the tip's hash. With no tip the identifier is 1 and there is no link.
  pub validate_against_tip_iff :
      (tip : Option Tip) (block : Block)
      → (validate_against_tip ext tip block ≡ some (ok tt)) ↔ Continues tip block
  validate_against_tip_iff tip block =
      (validate_against_tip-Continues tip block, Continues-validate_against_tip tip block)

  pub apply_block-Continues :
      (tip : Option Tip) (block : Block) (s t : V03State)
      → apply_block ext tip block s ≡ some (ok t)
      → Continues tip block × (apply_block_to_state ext block s ≡ some (ok t))
  unfolding apply_block
  apply_block-Continues tip block s t h = elim (Option-cases (validate_against_tip ext tip block)) [
    | inl overflow ↦ absurd (none-ne-some (rw (overflow, apply_block) at h))
    | inr (r, valid) ↦ valid_cases r valid
  ]
    where
      valid_cases :
          (r : Result BlockIngestError (Unit {0}))
          → validate_against_tip ext tip block ≡ some r
          → Continues tip block × (apply_block_to_state ext block s ≡ some (ok t))
      valid_cases (err e) valid =
          absurd (ok-ne-err (sym (some-injective (rw (valid, apply_block) at h))))
      valid_cases (ok tt) valid =
          (validate_against_tip-Continues tip block valid, rw (valid, apply_block) at h)

  -- Entries that are replayed form a chain over the tip.
  pub replay-IsLinked :
      (s : V03State) (tip : Option Tip) (es : List HeadEntry) (r : V03State × Option Tip)
      → replay ext s tip es ≡ some r
      → IsLinked tip es
  replay-IsLinked s tip [] r h = tt
  replay-IsLinked s tip (e ∷ es) r h =
      let (t, first, rest) = replay-uncons ext s tip e es r h in
      (
        (apply_block-Continues tip e.block s t first).0,
        replay-IsLinked t (some (tip_of e.block)) es r rest,
      )
