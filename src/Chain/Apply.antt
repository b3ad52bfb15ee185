-- ===== src/Chain/Apply.antt =====
-- lez/chain_state/src/apply.rs: a block is validated against the tip that it extends and then
-- applied to the state. Of a failure only the error is given: the code's callers drop the state.
use lssa.Prelude.{
  ℕ, suc, ◌+◌, Option, none, some, List, [], ◌∷◌, ltb, ◌==◌, if◌then◌else◌, Result, ok, err, ensure,
  ◌>>◌, length,
}
use lssa.Error.{LeeError}
use lssa.State.{V03State}
use lssa.Transaction.{PublicTransaction}
use lssa.Transition.{transition_from_public_transaction}
use lssa.Common.{
  ChainExternals, HashType, Block, BlockMeta, LeeTransaction, public, privacy_preserving,
  program_deployment,
}
use lssa.Common.Blocks.{recompute_hash}
use lssa.Common.Guards.{clock_invocation, execute_on_state, transaction_eq}
use lssa.Chain.Error.{
  BlockIngestError, unexpected_block_id, broken_chain_link, hash_mismatch, empty_block,
  invalid_clock_transaction, non_public_genesis_transaction, state_transition, u64_max,
}

pub record Tip : Type 0 where
  pub block_id : ℕ
  pub hash : HashType

-- `Tip::from(&Block)`, `Tip::from(BlockMeta)` and `BlockMeta::from(&Tip)`.
abbrev pub tip_of : Block → Tip
tip_of b = record { block_id = b.header.block_id; hash = b.header.hash }

unfoldable pub tip_of_meta : BlockMeta → Tip
tip_of_meta m = record { block_id = m.id; hash = m.hash }

unfoldable pub meta_of_tip : Tip → BlockMeta
meta_of_tip t = record { id = t.block_id; hash = t.hash }

pub data AcceptOutcome : Type 0 where
  applied : AcceptOutcome
  already_applied : AcceptOutcome
  parked : BlockIngestError → AcceptOutcome
  retryable_failure : BlockIngestError → AcceptOutcome

-- `GENESIS_BLOCK_ID`.
abbrev pub genesis_block_id : ℕ
genesis_block_id = 1

-- `split_last` of a slice: the last element and those before it.
abbrev pub split_last {ℓ} : {A : Type ℓ} → List A → Option (A × List A)
split_last [] = none
split_last (x ∷ xs) = elim (split_last xs) [
  | none ↦ some (x, [])
  | some (last, init) ↦ some (last, x ∷ init)
]

-- A transition that may panic, as a step of a block's application.
abbrev pub state_step :
    (LeeError → BlockIngestError)
    → Result LeeError (Option V03State)
    → Option (Result BlockIngestError V03State)
state_step wrap (ok none) = none
state_step wrap (ok (some s)) = some (ok s)
state_step wrap (err e) = some (err (wrap e))

-- The next step, unless the first failed or panicked.
abbrev pub and_then {ℓ} :
    {E : Type ℓ}
    → Option (Result E V03State)
    → (V03State → Option (Result E V03State))
    → Option (Result E V03State)
and_then none next = none
and_then (some (err e)) next = some (err e)
and_then (some (ok s)) next = next s

module _ (ext : ChainExternals) where
  -- The identifier that must come next; `none` is the panic on overflow.
  abbrev pub expected_id : Option Tip → Option ℕ
  expected_id none = some genesis_block_id
  expected_id (some tip) = if ltb tip.block_id u64_max then some (tip.block_id + 1) else none

  -- The link to the tip's hash; a cold state has none.
  abbrev pub check_link : Option Tip → Block → Result BlockIngestError (Unit {0})
  check_link none block = ok tt
  check_link (some tip) block =
      ensure (block.header.prev_block_hash == tip.hash)
        (broken_chain_link tip.hash block.header.prev_block_hash)

  unfoldable pub validate_against_tip :
      Option Tip → Block → Option (Result BlockIngestError (Unit {0}))
  validate_against_tip tip block =
      let computed = recompute_hash ext block in
      if computed == block.header.hash
      then elim (expected_id tip) [
        | none ↦ none
        | some expected ↦ some (
            ensure (block.header.block_id == expected)
              (unexpected_block_id expected block.header.block_id)
            >> check_link tip block)
      ]
      else some (err (hash_mismatch computed block.header.hash))

  -- The application of one user transaction of a block.
  unfoldable pub apply_user_transaction :
      Block → ℕ → LeeTransaction → V03State → Option (Result BlockIngestError V03State)
  apply_user_transaction block tx_index transaction s =
      let wrap : LeeError → BlockIngestError = λ e. state_transition tx_index (ext.error_text e) in
      if block.header.block_id == genesis_block_id
      then elim transaction [
        | public public_tx ↦ state_step wrap (
            transition_from_public_transaction ext.ledger s public_tx block.header.block_id
              block.header.timestamp)
        | privacy_preserving _ ↦ some (err non_public_genesis_transaction)
        | program_deployment _ ↦ some (err non_public_genesis_transaction)
      ]
      else state_step wrap
          (execute_on_state ext transaction s block.header.block_id block.header.timestamp)

  -- The loop over the user transactions.
  unfoldable pub apply_user_transactions :
      Block → ℕ → List LeeTransaction → V03State → Option (Result BlockIngestError V03State)
  unfolding apply_user_transaction
  apply_user_transactions block tx_index [] s = some (ok s)
  apply_user_transactions block tx_index (tx ∷ txs) s =
      and_then (apply_user_transaction block tx_index tx s)
        (apply_user_transactions block (suc tx_index) txs)

  -- What follows once the last transaction is known to be public.
  unfoldable pub apply_with_clock :
      Block
      → PublicTransaction
      → List LeeTransaction
      → V03State
      → Option (Result BlockIngestError V03State)
  unfolding apply_user_transactions
  apply_with_clock block clock_tx user_txs s =
      if transaction_eq clock_tx (clock_invocation ext block.header.timestamp)
      then and_then (apply_user_transactions block 0 user_txs s) (λ t.
        state_step (λ e. state_transition (length user_txs) (ext.error_text e))
          (transition_from_public_transaction ext.ledger t clock_tx block.header.block_id
            block.header.timestamp))
      else some (err invalid_clock_transaction)

  unfoldable pub apply_block_to_state : Block → V03State → Option (Result BlockIngestError V03State)
  unfolding apply_with_clock
  apply_block_to_state block s = elim (split_last block.body.transactions) [
    | none ↦ some (err empty_block)
    | some (clock_tx, user_txs) ↦ elim clock_tx [
      | public tx ↦ apply_with_clock block tx user_txs s
      | privacy_preserving _ ↦ some (err invalid_clock_transaction)
      | program_deployment _ ↦ some (err invalid_clock_transaction)
    ]
  ]

  unfoldable pub apply_block :
      Option Tip → Block → V03State → Option (Result BlockIngestError V03State)
  unfolding validate_against_tip apply_block_to_state
  apply_block tip block s = elim (validate_against_tip tip block) [
    | none ↦ none
    | some (err e) ↦ some (err e)
    | some (ok _) ↦ apply_block_to_state block s
  ]
