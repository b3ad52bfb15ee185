-- ===== src/Sequencer/Production.antt =====
-- lez/sequencer/core/src/lib.rs: a block is built on the head out of what was drained from the
-- store and out of the mempool. The mempool is a list, to which nothing is added meanwhile;
-- `none` is a panic, and an error of the clock transaction ends the production.
use lssa.Prelude.{
  ℕ, ◌+◌, Bool, true, false, not, ◌&&◌, Option, none, some, List, [], ◌∷◌, ◌++◌, map, ltb, leb,
  if◌then◌else◌, length, Result, ok, err,
}
use lssa.State.{V03State, apply_state_diff}
use lssa.Error.{LeeError}
use lssa.Transition.{transition_from_public_transaction}
use lssa.Common.{
  HashType, HashableBlockData, LeeTransaction, public, privacy_preserving, program_deployment,
}
use lssa.Common.Blocks.{into_pending_block}
use lssa.Common.Guards.{clock_invocation, validate_on_state}
use lssa.Chain.Error.{u64_max}
use lssa.Chain.Apply.{Tip, genesis_block_id}
use lssa.Sequencer.{
  SequencerExternals, SequencerConfig, TransactionOrigin, user, sequencer, gossip, WithdrawArg,
  Candidate, Draft, Turn, goes_on, deferred, full, Produced,
}
use lssa.Sequencer.Stakes.{finalize_unstake_is_includable, extract_bridge_withdraw_data}

unfoldable pub next_block_height : Option Tip → Option ℕ
next_block_height none = some genesis_block_id
next_block_height (some tip) = if ltb tip.block_id u64_max then some (tip.block_id + 1) else none

-- `rewound_below_published`, of the mark that the store holds.
unfoldable pub rewound_below_published : Option Tip → Option ℕ → Option (Option ℕ)
unfolding next_block_height
rewound_below_published tip none = some none
rewound_below_published tip (some high_water) = elim (next_block_height tip) [
  | none ↦ none
  | some height ↦ some (if leb height high_water then some high_water else none)
]

abbrev prev_hash : Option Tip → HashType
prev_hash none = 0
prev_hash (some tip) = tip.hash

abbrev pub drained : LeeTransaction → Candidate
drained tx = record { origin = sequencer; transaction = tx; from_store = true }

abbrev pub popped : TransactionOrigin × LeeTransaction → Candidate
popped p = record { origin = p.0; transaction = p.1; from_store = false }

-- What of the candidates that are left stands in the mempool.
unfoldable pub mempool_of : List Candidate → List (TransactionOrigin × LeeTransaction)
mempool_of [] = []
mempool_of (c ∷ cs) =
    if c.from_store then mempool_of cs else (c.origin, c.transaction) ∷ mempool_of cs

abbrev push_some {ℓ} : {A : Type ℓ} → List A → Option A → List A
push_some xs none = xs
push_some xs (some x) = xs ++ x ∷ []

module _ (ext : SequencerExternals) (config : SequencerConfig) where
  -- A transaction of a user or of a peer.
  unfoldable pub apply_submitted :
      V03State
      → LeeTransaction
      → ℕ
      → ℕ
      → List WithdrawArg
      → Option (Bool × V03State × List WithdrawArg)
  apply_submitted s tx block_height timestamp withdrawals =
      elim (validate_on_state ext.chain tx s block_height timestamp) [
        | err _ ↦ some (false, s, withdrawals)
        | ok diff ↦ elim (apply_state_diff ext.chain.ledger.sha256 s diff) [
          | none ↦ none
          | some t ↦ some (true, t, push_some withdrawals (extract_bridge_withdraw_data ext tx))
        ]
      ]

  -- Whether the transaction was applied, the state and the withdrawals.
  unfoldable pub apply_mempool_transaction :
      V03State
      → TransactionOrigin
      → LeeTransaction
      → ℕ
      → ℕ
      → List WithdrawArg
      → Option (Bool × V03State × List WithdrawArg)
  unfolding apply_submitted
  apply_mempool_transaction s sequencer tx block_height timestamp withdrawals = elim tx [
    | public public_tx ↦
        elim (transition_from_public_transaction ext.chain.ledger s public_tx block_height
          timestamp) [
            | err _ ↦ some (false, s, withdrawals)
            | ok none ↦ none
            | ok (some t) ↦ some (true, t, withdrawals)
          ]
    | privacy_preserving _ ↦ none
    | program_deployment _ ↦ none
  ]
  apply_mempool_transaction s user tx block_height timestamp withdrawals =
      apply_submitted s tx block_height timestamp withdrawals
  apply_mempool_transaction s gossip tx block_height timestamp withdrawals =
      apply_submitted s tx block_height timestamp withdrawals

  -- What a block has, at a height and a time and on a parent.
  module _ (height timestamp prev : ℕ) where
    abbrev pub hashable_of : List LeeTransaction → HashableBlockData
    hashable_of txs = record {
      block_id = height;
      transactions = txs;
      prev_block_hash = prev;
      timestamp = timestamp;
    }

    abbrev pub clock_tx : LeeTransaction
    clock_tx = public (clock_invocation ext.chain timestamp)

    -- Borsh's size of the block's contents.
    unfoldable pub block_size : List LeeTransaction → ℕ
    block_size txs = length (ext.chain.block_bytes (hashable_of txs))

    unfoldable pub fits_in_an_empty_block : LeeTransaction → Bool
    unfolding block_size
    fits_in_an_empty_block tx = leb (block_size (tx ∷ clock_tx ∷ [])) config.max_block_size

    -- The draft after an applied or a failed transaction.
    abbrev pub recorded : Draft → LeeTransaction → Bool × V03State × List WithdrawArg → Draft
    recorded d tx (true, t, withdrawals) = record {
      working_state = t;
      valid_transactions = d.valid_transactions ++ tx ∷ [];
      withdrawals = withdrawals;
      failures = d.failures;
    }
    recorded d tx (false, t, withdrawals) = record {
      working_state = t;
      valid_transactions = d.valid_transactions;
      withdrawals = withdrawals;
      failures = d.failures ++ tx ∷ [];
    }

    -- Whether the block has as many transactions as it may.
    abbrev pub close_if_full : Draft → Turn
    close_if_full d =
        if leb config.max_num_tx_in_block (length d.valid_transactions) then full d else goes_on d

    -- A turn on a candidate that fits.
    unfoldable pub include : Option (List ℕ) → Candidate → Draft → Option Turn
    unfolding apply_mempool_transaction
    include keys c d =
        elim (finalize_unstake_is_includable ext d.working_state c.transaction keys) [
          | false ↦ some (goes_on d)
          | true ↦
              elim (apply_mempool_transaction d.working_state c.origin c.transaction height
                timestamp d.withdrawals) [
                  | none ↦ none
                  | some outcome ↦ some (close_if_full (recorded d c.transaction outcome))
                ]
        ]

    -- The body of the loop.
    unfoldable pub turn : Option (List ℕ) → Candidate → Draft → Option Turn
    unfolding block_size fits_in_an_empty_block include
    turn keys c d =
        elim (ltb config.max_block_size
          (block_size (d.valid_transactions ++ c.transaction ∷ clock_tx ∷ []))) [
            | true ↦
                if c.from_store && not (fits_in_an_empty_block c.transaction)
                then some (goes_on (record d { failures = d.failures ++ c.transaction ∷ [] }))
                else some (deferred d)
            | false ↦ include keys c d
          ]

    -- The loop over the candidates: the draft, and the candidates that are left.
    unfoldable pub fill : Option (List ℕ) → List Candidate → Draft → Option (Draft × List Candidate)
    unfolding turn
    fill keys [] d = some (d, [])
    fill keys (c ∷ cs) d = elim (turn keys c d) [
      | none ↦ none
      | some (goes_on e) ↦ fill keys cs e
      | some (deferred e) ↦ some (e, c ∷ cs)
      | some (full e) ↦ some (e, cs)
    ]

    -- The clock transaction, and the block with it.
    unfoldable pub close_block : Draft × List Candidate → Option (Result LeeError Produced)
    unfolding mempool_of
    close_block (d, left) =
        elim (transition_from_public_transaction ext.chain.ledger d.working_state
          (clock_invocation ext.chain timestamp) height timestamp) [
            | err e ↦ some (err e)
            | ok none ↦ none
            | ok (some t) ↦ some (
                ok (record {
                  block =
                      into_pending_block ext.chain
                        (hashable_of (d.valid_transactions ++ clock_tx ∷ [])) config.signing_key;
                  withdrawals = d.withdrawals;
                  working_state = t;
                  failures = d.failures;
                  mempool = mempool_of left;
                }))
          ]

    abbrev pub fill_and_close :
        Option (List ℕ) → List Candidate → Draft → Option (Result LeeError Produced)
    fill_and_close keys candidates d = elim (fill keys candidates d) [
      | none ↦ none
      | some filled ↦ close_block filled
    ]

  abbrev pub empty_draft : V03State → Draft
  empty_draft s = record {
    working_state = s;
    valid_transactions = [];
    withdrawals = [];
    failures = [];
  }

  unfoldable pub build_block_from_mempool :
      Option Tip
      → V03State
      → ℕ
      → List LeeTransaction
      → List (TransactionOrigin × LeeTransaction)
      → Option (List ℕ)
      → Option (Result LeeError Produced)
  unfolding next_block_height fill close_block
  build_block_from_mempool tip s timestamp pending_from_store mempool keys =
      elim (next_block_height tip) [
        | none ↦ none
        | some height ↦
            fill_and_close height timestamp (prev_hash tip) keys
              (map drained pending_from_store ++ map popped mempool) (empty_draft s)
      ]
