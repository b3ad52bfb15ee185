-- ===== src/Sequencer/Limits.antt =====
-- lez/sequencer/core/src/lib.rs: the limits on the number of a block's transactions and on its
-- size.
use lssa.Prelude.{
  ℕ, ◌+◌, ◌≤◌, ◌<◌, ◌≡◌, refl, ap, subst, false, inl, inr, ◌⊎◌, Option, some, List, [], ◌∷◌, ◌++◌,
  ltb, Option-cases, ok, arith, length, length-append,
}
use lssa.Prelude.Options.{some-injective, none-ne-some}
use lssa.State.{V03State}
use lssa.Common.{LeeTransaction, public}
use lssa.Common.Guards.{clock_invocation}
use lssa.Common.Blocks.{hashable, into_pending_block}
use lssa.Chain.Apply.{Tip}
use lssa.Sequencer.{
  SequencerExternals, SequencerConfig, TransactionOrigin, Candidate, Draft, Turn, goes_on, deferred,
  full, Produced,
}
use lssa.Sequencer.Production.{
  turn, fill, block_size, clock_tx, empty_draft, build_block_from_mempool,
}
use lssa.Sequencer.Executed.{draft_of, turn-cases, fill_keeps}
use lssa.Sequencer.Accepted.{build_block_from_mempool-steps, close_block-steps}

append_last :
    (xs : List LeeTransaction) (x y : LeeTransaction) → (xs ++ x ∷ []) ++ y ∷ [] ≡ xs ++ x ∷ y ∷ []
append_last [] x y = refl
append_last (z ∷ xs) x y = ap (λ zs. z ∷ zs) (append_last xs x y)

module _ (ext : SequencerExternals) (config : SequencerConfig) where
  module _ (height timestamp prev : ℕ) (keys : Option (List ℕ)) where
    -- With the clock transaction the draft's block fits, unless it has no other.
    abbrev Fits : Draft → Type 0
    Fits d =
        (d.valid_transactions ≡ [])
        ⊎ (ltb config.max_block_size (
              block_size ext config height timestamp prev
                (d.valid_transactions ++ clock_tx ext config height timestamp prev ∷ []))
            ≡ false)

    fill-Fits :
        (cs left : List Candidate) (d e : Draft)
        → fill ext config height timestamp prev keys cs d ≡ some (e, left)
        → Fits d
        → Fits e
    fill-Fits cs left d e h good =
        fill_keeps ext config height timestamp prev keys Fits
          (λ c f o done before. elim done [
            | inl (_, added, fits, _) ↦ inr (rw (added, append_last f.valid_transactions) fits)
            | inr (_, transactions) ↦ rw transactions before
          ])
          cs left d e h good

    turn-length :
        (c : Candidate) (d : Draft) (o : Turn)
        → turn ext config height timestamp prev keys c d ≡ some o
        → length (draft_of o).valid_transactions ≤ length d.valid_transactions + 1
    turn-length c d o h = elim (turn-cases ext config height timestamp prev keys c d o h) [
      | inl (_, added, _, _) ↦ rw (added, length-append d.valid_transactions) (omega arith)
      | inr (_, transactions) ↦ rw transactions (omega arith)
    ]

    goes_on-length :
        (c : Candidate) (d e : Draft)
        → turn ext config height timestamp prev keys c d ≡ some (goes_on e)
        → length d.valid_transactions < config.max_num_tx_in_block
        → length e.valid_transactions < config.max_num_tx_in_block
    goes_on-length c d e h room =
        elim (turn-cases ext config height timestamp prev keys c d (goes_on e) h) [
          | inl (_, _, _, closes) ↦ ground (arith, closes)
          | inr (_, transactions) ↦ rw transactions room
        ]

    fill-length :
        (cs left : List Candidate) (d e : Draft)
        → fill ext config height timestamp prev keys cs d ≡ some (e, left)
        → length d.valid_transactions < config.max_num_tx_in_block
        → length e.valid_transactions ≤ config.max_num_tx_in_block
    unfolding fill
    fill-length [] left d e h room =
        subst (λ x. length x.valid_transactions ≤ config.max_num_tx_in_block)
          (ap (λ x. x.0) (some-injective h)) (omega arith)
    fill-length (c ∷ cs) left d e h room =
        elim (Option-cases (turn ext config height timestamp prev keys c d)) [
          | inl panics ↦ absurd (none-ne-some (rw (panics, fill) at h))
          | inr (goes_on f, is) ↦
              fill-length cs left f e (rw (is, fill) at h) (goes_on-length c d f is room)
          | inr (deferred f, is) ↦
              subst (λ x. length x.valid_transactions ≤ config.max_num_tx_in_block)
                (ap (λ x. x.0) (some-injective (rw (is, fill) at h)))
                (omega (arith, turn-length c d _ is))
          | inr (full f, is) ↦
              subst (λ x. length x.valid_transactions ≤ config.max_num_tx_in_block)
                (ap (λ x. x.0) (some-injective (rw (is, fill) at h)))
                (omega (arith, turn-length c d _ is))
        ]

  -- A produced block ends in the clock transaction. Of other transactions it has at most the configured
  -- number, provided that this is positive, and if it has any, then what of the block is hashed (its identifier, its
  -- parent's hash, its timestamp and all its transactions, but not its own hash and signature) is encoded in at
  -- most the configured number of bytes.
  pub produced_block_keeps_limits :
      (tip : Tip) (s : V03State) (timestamp : ℕ) (pending_from_store : List LeeTransaction)
      (mempool : List (TransactionOrigin × LeeTransaction)) (keys : Option (List ℕ)) (p : Produced)
      → 0 < config.max_num_tx_in_block
      → build_block_from_mempool ext config (some tip) s timestamp pending_from_store mempool keys
        ≡ some (ok p)
      → (txs : List LeeTransaction) × (p.block.body.transactions
          ≡ txs ++ public (clock_invocation ext.chain timestamp) ∷ [])
        × (length txs ≤ config.max_num_tx_in_block)
        × ((txs ≡ []) ⊎ (length (ext.chain.block_bytes (hashable p.block)) ≤ config.max_block_size))
  unfolding hashable into_pending_block block_size
  produced_block_keeps_limits tip s timestamp pending_from_store mempool keys p room h =
      let (below, d, left, fills, closes) =
        build_block_from_mempool-steps ext config tip s timestamp pending_from_store mempool keys p
          h in
      let (is, _) =
        close_block-steps ext config (tip.block_id + 1) timestamp tip.hash d left p closes in
      let fits =
        fill-Fits (tip.block_id + 1) timestamp tip.hash keys _ left (empty_draft ext config s) d
          fills (inl refl) in
      rw is (
        d.valid_transactions,
        refl,
        fill-length (tip.block_id + 1) timestamp tip.hash keys _ left (empty_draft ext config s) d
            fills room,
        elim fits [ inl alone ↦ inl alone | inr small ↦ inr (ground (arith, small)) ],
      )
