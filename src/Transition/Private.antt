-- ===== src/Transition/Private.antt =====
-- Nullifiers and commitments along a history of the ledger
-- (lee/state_machine/src/validated_state_diff/mod.rs, state/mod.rs).
use lssa.Prelude.{
  ℕ, ◌≡◌, refl, Bool, true, some, ok, err, >>=-eq-ok, ok-injective, contains, contains-append,
  or_right, Result-cases, inl, inr,
}
use lssa.Commitment.{Commitment, Nullifier}
use lssa.Error.{LeeError}
use lssa.State.{V03State, StateDiff, contains_commitment, nullifiers_of}
use lssa.State.Spent.{
  apply_state_diff-private, extend_commitments-kept, spent_is_refused, known_is_refused,
}
use lssa.Transaction.{
  Externals, PrivacyPreservingTransaction, message_commitments, message_nullifiers,
}
use lssa.Diff.Private.{from_privacy_preserving_transaction}
use lssa.Diff.Private.Checks.{PrivateChecked, from_privacy-PrivateChecked}
use lssa.Transition.{transition_from_privacy_preserving_transaction}
use lssa.Transition.Steps.{Reach, Reach-Extends}

abbrev pub spends : PrivacyPreservingTransaction → Nullifier → Bool
spends tx n = contains n (nullifiers_of (message_nullifiers tx.message.private_actions))

abbrev pub creates : PrivacyPreservingTransaction → Commitment → Bool
creates tx c = contains c (message_commitments tx.message.private_actions)

module _ (ext : Externals) where
  transition-recorded :
      (s s' : V03State) (tx : PrivacyPreservingTransaction) (b t : ℕ)
      → transition_from_privacy_preserving_transaction ext s tx b t ≡ ok (some s')
      → ((n : Nullifier) → spends tx n ≡ true → contains n s'.private_state.nullifier_set ≡ true)
        × ((c : Commitment)
            → creates tx c ≡ true
            → contains_commitment s'.private_state.commitment_set c ≡ true)
  unfolding transition_from_privacy_preserving_transaction
  transition-recorded s s' tx b t h =
      let (diff, validated, applied) =
        >>=-eq-ok (from_privacy_preserving_transaction ext tx s b t) _ h in
      let c : PrivateChecked ext tx s diff =
        from_privacy-PrivateChecked ext tx s b t diff validated in
      let (sets, ns) = apply_state_diff-private ext.sha256 s s' diff (ok-injective applied) in
      let (kept, _, _) = extend_commitments-kept ext.sha256 _ _ diff.new_commitments sets in
      (
        (λ n k.
            rw (ns, c.nullifiers_are, contains-append n _ s.private_state.nullifier_set, k) refl),
        (λ x k. kept x (
            or_right (contains_commitment s.private_state.commitment_set x)
              {b = contains x diff.new_commitments} (rw c.commitments_are k))),
      )

  -- A transaction that the recorded state refuses.
  refused :
      (s : V03State) (tx : PrivacyPreservingTransaction) (b t : ℕ)
      → ((diff : StateDiff) → PrivateChecked ext tx s diff → ⊥)
      → (e : LeeError) × (transition_from_privacy_preserving_transaction ext s tx b t ≡ err e)
  unfolding transition_from_privacy_preserving_transaction
  refused s tx b t no_check =
      elim (Result-cases (from_privacy_preserving_transaction ext tx s b t)) [
        | inl (diff, e) ↦ absurd (no_check diff (from_privacy-PrivateChecked ext tx s b t diff e))
        | inr (failure, e) ↦ (failure, rw e refl)
      ]

  -- Once a privacy-preserving transaction has gone through, every later privacy-preserving
  -- transaction that spends one of its nullifiers is refused, after any history of transitions
  -- in between.
  pub no_double_spend :
      (s s' s'' : V03State) (tx again : PrivacyPreservingTransaction) (b t b' t' : ℕ)
      (n : Nullifier)
      → transition_from_privacy_preserving_transaction ext s tx b t ≡ ok (some s')
      → Reach ext s' s''
      → spends tx n ≡ true
      → spends again n ≡ true
      → (e : LeeError) × (transition_from_privacy_preserving_transaction ext s'' again b' t'
          ≡ err e)
  no_double_spend s s' s'' tx again b t b' t' n h r k k' = refused s'' again b' t' (λ diff c.
      spent_is_refused s'' (message_nullifiers again.message.private_actions) n
        ((Reach-Extends ext r).nullifiers n ((transition-recorded s s' tx b t h).0 n k)) k'
        c.nullifiers_checked)

  -- Once a privacy-preserving transaction has gone through, every later one that creates one
  -- of its commitments again is refused, after any history of transitions in between.
  pub no_second_commitment :
      (s s' s'' : V03State) (tx again : PrivacyPreservingTransaction) (b t b' t' : ℕ)
      (x : Commitment)
      → transition_from_privacy_preserving_transaction ext s tx b t ≡ ok (some s')
      → Reach ext s' s''
      → creates tx x ≡ true
      → creates again x ≡ true
      → (e : LeeError) × (transition_from_privacy_preserving_transaction ext s'' again b' t'
          ≡ err e)
  no_second_commitment s s' s'' tx again b t b' t' x h r k k' = refused s'' again b' t' (λ diff c.
      known_is_refused s'' (message_commitments again.message.private_actions) x
        ((Reach-Extends ext r).commitments x ((transition-recorded s s' tx b t h).1 x k)) k'
        c.commitments_checked)
