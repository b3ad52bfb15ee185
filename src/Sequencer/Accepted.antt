-- ===== src/Sequencer/Accepted.antt =====
-- lez/sequencer/core/src/lib.rs and lez/chain_state/src/apply.rs: a block that was produced on the
-- head is one that a chain with this head accepts.
use lssa.Prelude.{
  ℕ, suc, ◌+◌, ◌≤◌, ◌≡◌, refl, sym, ◌∙◌, ap, subst, true, false, Bool-cases, inl, inr, Option, none,
  some, List, [], ◌∷◌, ◌++◌, map, ltb, ◌==◌, Option-cases, ok, Result-cases, list_eq_refl, arith,
  ok-injective, ok-ne-err,
}
use lssa.Prelude.Options.{some-injective, none-ne-some}
use lssa.State.{V03State}
use lssa.Transaction.{PublicTransaction, Signatures}
use lssa.Transition.{transition_from_public_transaction}
use lssa.Common.{ChainExternals, Block, LeeTransaction, public}
use lssa.Common.Blocks.{into_pending_block, recompute_hash}
use lssa.Common.Guards.{clock_invocation, transaction_eq, signatures_eq}
use lssa.Chain.Error.{u64_max}
use lssa.Chain.Apply.{
  Tip, genesis_block_id, split_last, apply_user_transaction, apply_user_transactions,
  apply_with_clock, apply_block_to_state, validate_against_tip, apply_block,
}
use lssa.Chain.Linked.{validate_against_tip_iff}
use lssa.Sequencer.{
  SequencerExternals, SequencerConfig, TransactionOrigin, Candidate, Draft, Produced,
}
use lssa.Sequencer.Production.{
  fill, close_block, clock_tx, hashable_of, empty_draft, drained, popped, fill_and_close,
  next_block_height, build_block_from_mempool,
}
use lssa.Sequencer.Executed.{Executes, Executes-snoc, draft_of, fill_keeps}

split_last-append :
    (xs : List LeeTransaction) (x : LeeTransaction) → split_last (xs ++ x ∷ []) ≡ some (x, xs)
split_last-append [] x = refl
split_last-append (y ∷ xs) x = rw (split_last-append xs x) refl

signatures_eq_refl : (xs : Signatures) → signatures_eq xs xs ≡ true
signatures_eq_refl [] = refl
signatures_eq_refl ((a, b) ∷ xs) = ground (arith, signatures_eq_refl xs)

transaction_eq_refl : (tx : PublicTransaction) → transaction_eq tx tx ≡ true
unfolding transaction_eq
transaction_eq_refl tx = ground (
  arith,
  list_eq_refl tx.message.account_ids,
  list_eq_refl tx.message.nonces,
  list_eq_refl tx.message.instruction_data,
  signatures_eq_refl tx.signatures_and_public_keys,
)

module _ (ext : ChainExternals) where
  -- Transactions that execute are applied by the loop over a block's user transactions.
  Executes-apply_user_transactions :
      (block : Block) (index : ℕ) (s t : V03State) (txs : List LeeTransaction)
      → (block.header.block_id == genesis_block_id) ≡ false
      → Executes ext block.header.block_id block.header.timestamp s txs t
      → apply_user_transactions ext block index txs s ≡ some (ok t)
  unfolding apply_user_transactions apply_user_transaction
  Executes-apply_user_transactions block index s t [] later h = ap (λ x. some (ok x)) h
  Executes-apply_user_transactions block index s t (tx ∷ txs) later (m, first, rest) =
      rw (later, first, apply_user_transaction)
        (Executes-apply_user_transactions block (suc index) m t txs later rest)

  -- A block whose transactions execute, the clock's last, applies.
  executed_applies :
      (block : Block) (txs : List LeeTransaction) (s m t : V03State)
      → block.body.transactions ≡ txs ++ public (clock_invocation ext block.header.timestamp) ∷ []
      → (block.header.block_id == genesis_block_id) ≡ false
      → Executes ext block.header.block_id block.header.timestamp s txs m
      → transition_from_public_transaction ext.ledger m
          (clock_invocation ext block.header.timestamp)
          block.header.block_id
          block.header.timestamp
        ≡ ok (some t)
      → apply_block_to_state ext block s ≡ some (ok t)
  unfolding apply_block_to_state apply_with_clock
  executed_applies block txs s m t holds later done ticks =
      let clock = clock_invocation ext block.header.timestamp in
      rw (holds, split_last-append txs (public clock), apply_block_to_state)
        (rw (transaction_eq_refl clock, apply_with_clock)
          (rw (Executes-apply_user_transactions block 0 s m txs later done) (rw ticks refl)))

module _ (ext : SequencerExternals) (config : SequencerConfig) where
  fill-Executes :
      (height timestamp prev : ℕ) (keys : Option (List ℕ)) (cs left : List Candidate) (s : V03State)
      (e : Draft)
      → fill ext config height timestamp prev keys cs (empty_draft ext config s) ≡ some (e, left)
      → Executes ext.chain height timestamp s e.valid_transactions e.working_state
  fill-Executes height timestamp prev keys cs left s e h =
      fill_keeps ext config height timestamp prev keys
        (λ d. Executes ext.chain height timestamp s d.valid_transactions d.working_state)
        (λ c d o done before. elim done [
          | inl (runs, added, _, _) ↦
              subst (λ xs. Executes ext.chain height timestamp s xs (draft_of o).working_state)
                (sym added)
                (Executes-snoc ext.chain height timestamp s d.working_state
                  (draft_of o).working_state d.valid_transactions c.transaction before runs)
          | inr (state, transactions) ↦ rw (state, transactions) before
        ])
        cs left (empty_draft ext config s) e h refl

  abbrev pub block_of : ℕ → ℕ → ℕ → Draft → Block
  block_of height timestamp prev d =
      into_pending_block ext.chain
        (hashable_of ext config height timestamp prev
          (d.valid_transactions ++ clock_tx ext config height timestamp prev ∷ []))
        config.signing_key

  block_of-validate_against_tip :
      (tip : Tip) (timestamp : ℕ) (d : Draft)
      → ltb tip.block_id u64_max ≡ true
      → validate_against_tip ext.chain (some tip) (block_of (tip.block_id + 1) timestamp tip.hash d)
        ≡ some (ok tt)
  unfolding recompute_hash into_pending_block
  block_of-validate_against_tip tip timestamp d below =
      (validate_against_tip_iff ext.chain (some tip) _).1
        (record { hashed = refl; numbered = ground arith; linked = refl })

  -- A filled draft that could be closed ends in the clock transaction.
  pub close_block-steps :
      (height timestamp prev : ℕ) (d : Draft) (left : List Candidate) (p : Produced)
      → close_block ext config height timestamp prev (d, left) ≡ some (ok p)
      → (p.block ≡ block_of height timestamp prev d)
        × (transition_from_public_transaction ext.chain.ledger d.working_state
              (clock_invocation ext.chain timestamp)
              height
              timestamp
            ≡ ok (some p.working_state))
  unfolding close_block
  close_block-steps height timestamp prev d left p h =
      elim (Result-cases (
        transition_from_public_transaction ext.chain.ledger d.working_state
          (clock_invocation ext.chain timestamp) height timestamp)) [
            | inr (e, fails) ↦
                absurd (ok-ne-err (sym (some-injective (rw (fails, close_block) at h))))
            | inl (none, panics) ↦ absurd (none-ne-some (rw (panics, close_block) at h))
            | inl (some t, ticks) ↦
                let is = ok-injective (some-injective (rw (ticks, close_block) at h)) in
                (sym (ap (λ q. q.block) is), ticks ∙ ap (λ q. ok (some q.working_state)) is)
          ]

  -- What a production on a tip that succeeded went through.
  pub build_block_from_mempool-steps :
      (tip : Tip) (s : V03State) (timestamp : ℕ) (pending_from_store : List LeeTransaction)
      (mempool : List (TransactionOrigin × LeeTransaction)) (keys : Option (List ℕ)) (p : Produced)
      → build_block_from_mempool ext config (some tip) s timestamp pending_from_store mempool keys
        ≡ some (ok p)
      → (ltb tip.block_id u64_max ≡ true)
        × (d : Draft) × (left : List Candidate) × (fill ext config
              (tip.block_id + 1)
              timestamp
              tip.hash
              keys
              (map drained pending_from_store ++ map popped mempool)
              (empty_draft ext config s)
            ≡ some (d, left))
        × (close_block ext config (tip.block_id + 1) timestamp tip.hash (d, left) ≡ some (ok p))
  unfolding build_block_from_mempool next_block_height
  build_block_from_mempool-steps tip s timestamp pending_from_store mempool keys p h =
      elim (Bool-cases (ltb tip.block_id u64_max)) [
        | inr top ↦
            absurd (none-ne-some (rw (top, build_block_from_mempool, next_block_height) at h))
        | inl below ↦
            let h₁ = rw (below, build_block_from_mempool, next_block_height) at h in
            elim (Option-cases (
              fill ext config (tip.block_id + 1) timestamp tip.hash keys
                (map drained pending_from_store ++ map popped mempool)
                (empty_draft ext config s))) [
                  | inl panics ↦ absurd (none-ne-some (rw (panics, fill_and_close) at h₁))
                  | inr ((d, left), fills) ↦
                      (below, d, left, fills, rw (fills, fill_and_close) at h₁)
                ]
      ]

  -- A block that the sequencer produces on a head, out of whatever was drained from the store and popped
  -- from the mempool, is one that the chain accepts on this head: validated against the head's tip and
  -- applied to the head's state it gives just the working state that production ended with. The tip's
  -- identifier is at least that of the genesis block.
  pub produced_block_applies :
      (tip : Tip) (s : V03State) (timestamp : ℕ) (pending_from_store : List LeeTransaction)
      (mempool : List (TransactionOrigin × LeeTransaction)) (keys : Option (List ℕ)) (p : Produced)
      → genesis_block_id ≤ tip.block_id
      → build_block_from_mempool ext config (some tip) s timestamp pending_from_store mempool keys
        ≡ some (ok p)
      → apply_block ext.chain (some tip) p.block s ≡ some (ok p.working_state)
  unfolding apply_block into_pending_block
  produced_block_applies tip s timestamp pending_from_store mempool keys p late h =
      let (below, d, left, fills, closes) =
        build_block_from_mempool-steps tip s timestamp pending_from_store mempool keys p h in
      let (is, ticks) = close_block-steps (tip.block_id + 1) timestamp tip.hash d left p closes in
      let executed = fill-Executes (tip.block_id + 1) timestamp tip.hash keys _ left s d fills in
      subst (λ b. apply_block ext.chain (some tip) b s ≡ some (ok p.working_state)) (sym is)
        (rw (block_of-validate_against_tip tip timestamp d below, apply_block)
          (executed_applies ext.chain (block_of (tip.block_id + 1) timestamp tip.hash d)
            d.valid_transactions s d.working_state p.working_state refl (ground arith) executed
            ticks))
