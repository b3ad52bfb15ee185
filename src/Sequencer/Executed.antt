-- ===== src/Sequencer/Executed.antt =====
-- lez/sequencer/core/src/lib.rs: what the loop of production puts into a block executes, in this
-- order, on the state that the block is built on.
use lssa.Prelude.{
  ℕ, ◌≡◌, refl, sym, ◌∙◌, subst, Bool, true, false, Bool-cases, inl, inr, Option, none, some, List,
  [], ◌∷◌, ◌++◌, ltb, leb, not, ◌&&◌, Option-cases, ok, Result-cases, length, ap, ◌⊎◌, ok-injective,
  >>=-eq-ok, >>-eq-ok,
}
use lssa.Prelude.Options.{some-injective, none-ne-some}
use lssa.State.{V03State, StateDiff, apply_state_diff}
use lssa.Transition.{transition_from_public_transaction}
use lssa.Common.{ChainExternals, LeeTransaction, public, privacy_preserving, program_deployment}
use lssa.Common.Guards.{
  execute_on_state, compute_state_diff, validate_on_state, restricted_account_ids,
  validate_restricted, validate_bridge_account_modification,
}
use lssa.Sequencer.{
  SequencerExternals, SequencerConfig, TransactionOrigin, user, sequencer, gossip, WithdrawArg,
  Candidate, Draft, Turn, goes_on, deferred, full,
}
use lssa.Sequencer.Stakes.{finalize_unstake_is_includable}
use lssa.Sequencer.Production.{
  apply_submitted, apply_mempool_transaction, recorded, close_if_full, include, turn, fill,
  block_size, clock_tx, fits_in_an_empty_block,
}

module _ (ext : ChainExternals) (height timestamp : ℕ) where
  -- Transactions execute one after the other, from a state to a state.
  abbrev pub Executes : V03State → List LeeTransaction → V03State → Type 0
  Executes s [] t = s ≡ t
  Executes s (tx ∷ txs) t =
      (m : V03State) × (execute_on_state ext tx s height timestamp ≡ ok (some m)) × Executes m txs t

  pub Executes-snoc :
      (s m t : V03State) (txs : List LeeTransaction) (tx : LeeTransaction)
      → Executes s txs m
      → execute_on_state ext tx m height timestamp ≡ ok (some t)
      → Executes s (txs ++ tx ∷ []) t
  Executes-snoc s m t [] tx h k =
      (t, subst (λ r. execute_on_state ext tx r height timestamp ≡ ok (some t)) (sym h) k, refl)
  Executes-snoc s m t (x ∷ txs) tx (n, first, rest) k =
      (n, first, Executes-snoc n m t txs tx rest k)

  validated_execute :
      (tx : LeeTransaction) (s t : V03State) {d : StateDiff}
      → validate_on_state ext tx s height timestamp ≡ ok d
      → apply_state_diff ext.ledger.sha256 s d ≡ some t
      → execute_on_state ext tx s height timestamp ≡ ok (some t)
  unfolding execute_on_state validate_on_state
  validated_execute tx s t h k =
      let (diff, computed, h₁) = >>=-eq-ok (compute_state_diff ext tx s height timestamp) _ h in
      let (restricted, h₂) =
        >>-eq-ok (validate_restricted s diff (restricted_account_ids ext)) _ h₁ in
      let (bridge, h₃) = >>-eq-ok (validate_bridge_account_modification ext tx s diff) _ h₂ in
      rw (computed, execute_on_state)
        (ap (λ x. ok (apply_state_diff ext.ledger.sha256 s x)) (ok-injective h₃) ∙ ap ok k)

-- The draft that a turn leaves.
abbrev pub draft_of : Turn → Draft
draft_of (goes_on d) = d
draft_of (deferred d) = d
draft_of (full d) = d

module _ (ext : SequencerExternals) (config : SequencerConfig) (height timestamp : ℕ) where
  -- A transaction is applied, which executes it, or it fails, which leaves the state.
  abbrev Outcome : V03State → LeeTransaction → Bool × V03State × List WithdrawArg → Type 0
  Outcome s tx r =
      ((r.0 ≡ true) × (execute_on_state ext.chain tx s height timestamp ≡ ok (some r.1)))
      ⊎ ((r.0 ≡ false) × (r.1 ≡ s))

  apply_submitted-Outcome :
      (s : V03State) (tx : LeeTransaction) (w : List WithdrawArg)
      (r : Bool × V03State × List WithdrawArg)
      → apply_submitted ext config s tx height timestamp w ≡ some r
      → Outcome s tx r
  unfolding apply_submitted
  apply_submitted-Outcome s tx w r h =
      elim (Result-cases (validate_on_state ext.chain tx s height timestamp)) [
        | inr (e, fails) ↦
            let is = some-injective (rw (fails, apply_submitted) at h) in
            inr (sym (ap (λ x. x.0) is), sym (ap (λ x. x.1) is))
        | inl (diff, valid) ↦
            elim (Option-cases (apply_state_diff ext.chain.ledger.sha256 s diff)) [
              | inl panics ↦ absurd (none-ne-some (rw (valid, panics, apply_submitted) at h))
              | inr (t, applies) ↦
                  let is = some-injective (rw (valid, applies, apply_submitted) at h) in
                  inl (
                    sym (ap (λ x. x.0) is),
                    validated_execute ext.chain height timestamp tx s t valid applies
                        ∙ ap (λ x. ok (some x.1)) is,
                  )
            ]
      ]

  sequencer-Outcome :
      (s : V03State) (tx : LeeTransaction) (w : List WithdrawArg)
      (r : Bool × V03State × List WithdrawArg)
      → apply_mempool_transaction ext config s sequencer tx height timestamp w ≡ some r
      → Outcome s tx r
  unfolding apply_mempool_transaction transition_from_public_transaction execute_on_state
      compute_state_diff
  sequencer-Outcome s (public p) w r h =
      elim (Result-cases
        (transition_from_public_transaction ext.chain.ledger s p height timestamp)) [
          | inr (e, fails) ↦
              let is = some-injective (rw (fails, apply_mempool_transaction) at h) in
              inr (sym (ap (λ x. x.0) is), sym (ap (λ x. x.1) is))
          | inl (none, runs) ↦ absurd (none-ne-some (rw (runs, apply_mempool_transaction) at h))
          | inl (some t, runs) ↦
              let is = some-injective (rw (runs, apply_mempool_transaction) at h) in
              inl (sym (ap (λ x. x.0) is), runs ∙ ap (λ x. ok (some x.1)) is)
        ]
  sequencer-Outcome s (privacy_preserving p) w r h = absurd (none-ne-some h)
  sequencer-Outcome s (program_deployment p) w r h = absurd (none-ne-some h)

  apply_mempool_transaction-Outcome :
      (s : V03State) (origin : TransactionOrigin) (tx : LeeTransaction) (w : List WithdrawArg)
      (r : Bool × V03State × List WithdrawArg)
      → apply_mempool_transaction ext config s origin tx height timestamp w ≡ some r
      → Outcome s tx r
  unfolding apply_mempool_transaction
  apply_mempool_transaction-Outcome s user tx w r h = apply_submitted-Outcome s tx w r h
  apply_mempool_transaction-Outcome s gossip tx w r h = apply_submitted-Outcome s tx w r h
  apply_mempool_transaction-Outcome s sequencer tx w r h = sequencer-Outcome s tx w r h

  module _ (prev : ℕ) (keys : Option (List ℕ)) where
    -- A turn leaves the block's transactions and the state, or it adds its candidate, which fits
    -- and executes.
    abbrev pub Added : Candidate → Draft → Turn → Type 0
    Added c d o =
        (execute_on_state ext.chain c.transaction d.working_state height timestamp
          ≡ ok (some (draft_of o).working_state))
        × ((draft_of o).valid_transactions ≡ d.valid_transactions ++ c.transaction ∷ [])
        × (ltb config.max_block_size (
              block_size ext config height timestamp prev (
                d.valid_transactions
                ++ c.transaction ∷ clock_tx ext config height timestamp prev ∷ []))
            ≡ false)
        × (o ≡ close_if_full ext config height timestamp prev (draft_of o))

    abbrev pub Skipped : Draft → Turn → Type 0
    Skipped d o =
        ((draft_of o).working_state ≡ d.working_state)
        × ((draft_of o).valid_transactions ≡ d.valid_transactions)

    draft_of-close_if_full :
        (e : Draft) → draft_of (close_if_full ext config height timestamp prev e) ≡ e
    draft_of-close_if_full e =
        elim (Bool-cases (leb config.max_num_tx_in_block (length e.valid_transactions))) [
          | inl h ↦ rw (h, draft_of) refl
          | inr h ↦ rw (h, draft_of) refl
        ]

    recorded-cases :
        (c : Candidate) (d : Draft) (r : Bool × V03State × List WithdrawArg)
        → Outcome d.working_state c.transaction r
        → ltb config.max_block_size (
            block_size ext config height timestamp prev (
              d.valid_transactions
              ++ c.transaction ∷ clock_tx ext config height timestamp prev ∷ []))
          ≡ false
        → Added c d (
            close_if_full ext config height timestamp prev
              (recorded ext config height timestamp prev d c.transaction r))
          ⊎ Skipped d (
              close_if_full ext config height timestamp prev
                (recorded ext config height timestamp prev d c.transaction r))
    recorded-cases c d (true, t, w) (inl (_, runs)) fits =
        let same =
          draft_of-close_if_full
            (recorded ext config height timestamp prev d c.transaction (true, t, w)) in
        inl (
          runs ∙ ap (λ x. ok (some x.working_state)) (sym same),
          ap (λ x. x.valid_transactions) same,
          fits,
          ap (close_if_full ext config height timestamp prev) (sym same),
        )
    recorded-cases c d (false, t, w) (inr (_, kept)) fits =
        let same =
          draft_of-close_if_full
            (recorded ext config height timestamp prev d c.transaction (false, t, w)) in
        inr (ap (λ x. x.working_state) same ∙ kept, ap (λ x. x.valid_transactions) same)
    recorded-cases c d (true, t, w) (inr (e, kept)) fits = cc
    recorded-cases c d (false, t, w) (inl (e, runs)) fits = cc

    skipped :
        (c : Candidate) (d : Draft) (o : Turn) {p : Turn}
        → p ≡ o
        → (draft_of p).working_state ≡ d.working_state
        → (draft_of p).valid_transactions ≡ d.valid_transactions
        → Added c d o ⊎ Skipped d o
    skipped c d o is state transactions =
        subst (λ x. Added c d x ⊎ Skipped d x) is (inr (state, transactions))

    include-cases :
        (c : Candidate) (d : Draft) (o : Turn)
        → ltb config.max_block_size (
            block_size ext config height timestamp prev (
              d.valid_transactions
              ++ c.transaction ∷ clock_tx ext config height timestamp prev ∷ []))
          ≡ false
        → include ext config height timestamp prev keys c d ≡ some o
        → Added c d o ⊎ Skipped d o
    unfolding include
    include-cases c d o fits h =
        elim (Bool-cases (finalize_unstake_is_includable ext d.working_state c.transaction keys)) [
          | inr no_yet ↦ skipped c d o (some-injective (rw (no_yet, include) at h)) refl refl
          | inl may ↦
              elim (Option-cases (
                apply_mempool_transaction ext config d.working_state c.origin c.transaction height
                  timestamp d.withdrawals)) [
                    | inl panics ↦ absurd (none-ne-some (rw (may, panics, include) at h))
                    | inr (r, applies) ↦
                        subst (λ x. Added c d x ⊎ Skipped d x)
                          (some-injective (rw (may, applies, include) at h))
                          (recorded-cases c d r
                            (apply_mempool_transaction-Outcome d.working_state c.origin
                              c.transaction _ r applies)
                            fits)
                  ]
        ]

    pub turn-cases :
        (c : Candidate) (d : Draft) (o : Turn)
        → turn ext config height timestamp prev keys c d ≡ some o
        → Added c d o ⊎ Skipped d o
    unfolding turn
    turn-cases c d o h =
        elim (Bool-cases (
          ltb config.max_block_size (
            block_size ext config height timestamp prev (
              d.valid_transactions
              ++ c.transaction ∷ clock_tx ext config height timestamp prev ∷ [])))) [
                | inr fits ↦ include-cases c d o fits (rw (fits, turn) at h)
                | inl large ↦
                    elim (Bool-cases (
                      c.from_store
                      && not (
                          fits_in_an_empty_block ext config height timestamp prev c.transaction))) [
                            | inl never ↦
                                skipped c d o (some-injective (rw (large, never, turn) at h)) refl
                                  refl
                            | inr later ↦
                                skipped c d o (some-injective (rw (large, later, turn) at h)) refl
                                  refl
                          ]
              ]

    -- What every turn keeps, the loop keeps.
    pub fill_keeps :
        (P : Draft → Type 0)
        → ((c : Candidate) (d : Draft) (o : Turn)
            → Added c d o ⊎ Skipped d o
            → P d
            → P (draft_of o))
        → (cs left : List Candidate) (d e : Draft)
        → fill ext config height timestamp prev keys cs d ≡ some (e, left)
        → P d
        → P e
    unfolding fill
    fill_keeps P step [] left d e h p = subst P (ap (λ x. x.0) (some-injective h)) p
    fill_keeps P step (c ∷ cs) left d e h p =
        elim (Option-cases (turn ext config height timestamp prev keys c d)) [
          | inl panics ↦ absurd (none-ne-some (rw (panics, fill) at h))
          | inr (goes_on f, is) ↦
              fill_keeps P step cs left f e (rw (is, fill) at h)
                (step c d _ (turn-cases c d _ is) p)
          | inr (deferred f, is) ↦
              subst P (ap (λ x. x.0) (some-injective (rw (is, fill) at h)))
                (step c d _ (turn-cases c d _ is) p)
          | inr (full f, is) ↦
              subst P (ap (λ x. x.0) (some-injective (rw (is, fill) at h)))
                (step c d _ (turn-cases c d _ is) p)
        ]
