-- ===== src/Diff/Public/Calls.antt =====
-- What one call of a public transaction does to the diff (validated_state_diff/mod.rs), read off
-- the checks that it has passed.
use lssa.Prelude.{
  ℕ, zero, suc, ◌≡◌, ◌⊎◌, inl, inr, refl, sym, ap, Option, List, [], ◌∷◌, arith, ok, >>-eq-ok,
  >>=-eq-ok, ensure->>, Map, Option-cases, length, subst, ok-injective, ok_or, Result-cases,
  ok-ne-err,
}
use lssa.Account.{Account, AccountId, AccountWithMetadata, account_eq-eq}
use lssa.Program.{
  ProgramId, ChainedCall, CallerData, Claim, AccountPostState, ProgramOutput, default_program_owner,
  InstructionData,
}
use lssa.Program.Validate.{validate_execution}
use lssa.Program.Validate.WellBehaved.{
  WellBehaved, AreTyped, PairsOk-length, validate_execution-WellBehaved,
}
use lssa.State.{V03State, Program, get_program}
use lssa.Transaction.{Externals}
use lssa.Diff.Public.{
  expected_account, check_pre_state, check_pre_states, update_diff, check_claim, apply_claim,
  apply_claims, check_output, run_program, execute_call, run_calls, push_calls,
}

-- Each pre-state shows the account as the calls so far have left it.
abbrev pub ShowExpected : V03State → Map Account → List AccountWithMetadata → Type 0
ShowExpected s diff [] = Unit {0}
ShowExpected s diff (pre ∷ pres) =
    (pre.account ≡ expected_account s diff pre.account_id) × ShowExpected s diff pres

check_pre_states-ShowExpected :
    (s : V03State) (diff : Map Account) (authorized : List AccountId)
    (pres : List AccountWithMetadata)
    → check_pre_states s diff authorized pres ≡ ok tt
    → ShowExpected s diff pres
unfolding check_pre_states
check_pre_states-ShowExpected s diff authorized [] h = tt
check_pre_states-ShowExpected s diff authorized (pre ∷ pres) h =
    let (first, rest) =
      >>-eq-ok (check_pre_state s diff authorized pre) (check_pre_states s diff authorized pres)
        h in
    (shown first, check_pre_states-ShowExpected s diff authorized pres rest)
  where
    shown :
        check_pre_state s diff authorized pre ≡ ok tt
        → pre.account ≡ expected_account s diff pre.account_id
    shown e = account_eq-eq _ _ (ensure->> _ _ _ e).0

-- What a claim does to a post-state: it may set the owner of an account that had none.
pub record Claims (a b : Account) : Type 0 where
  pub same_nonce : b.nonce ≡ a.nonce
  pub same_balance : b.balance ≡ a.balance
  pub same_data : b.data_bytes ≡ a.data_bytes
  pub owner : (b.program_owner ≡ a.program_owner) ⊎ (a.program_owner ≡ default_program_owner)

abbrev pub AllClaim : List AccountPostState → List AccountPostState → Type 0
AllClaim [] [] = Unit {0}
AllClaim [] (b ∷ bs) = ⊥
AllClaim (a ∷ as') [] = ⊥
AllClaim (a ∷ as') (b ∷ bs) = Claims a.account b.account × AllClaim as' bs

Claims-refl : (a : Account) → Claims a a
Claims-refl a = record {
  same_nonce = refl;
  same_balance = refl;
  same_data = refl;
  owner = inl refl;
}

AllClaim_refl : (posts : List AccountPostState) → AllClaim posts posts
AllClaim_refl [] = tt
AllClaim_refl (p ∷ ps) = (Claims-refl p.account, AllClaim_refl ps)

module _ (ext : Externals) where
  -- The assumption on the machine: the balances of what it decodes are 128-bit numbers.
  abbrev pub TypedOutputs : Type 0
  TypedOutputs =
      (p : Program) (c : Option ProgramId) (pres : List AccountWithMetadata)
      (instruction : InstructionData) (out : ProgramOutput)
      → ext.run p c pres instruction ≡ ok out
      → AreTyped out.pre_states out.post_states

  run_program-typed :
      (s : V03State) (call : ChainedCall) (caller : CallerData) (out : ProgramOutput)
      → TypedOutputs
      → run_program ext s call caller ≡ ok out
      → AreTyped out.pre_states out.post_states
  unfolding run_program
  run_program-typed s call caller out typed h =
      let (account, found, ran) = >>=-eq-ok (ok_or (get_program s call.program_id) _) _ h in
      typed _ _ _ _ out ran

  check_claim-unowned :
      (pid : ProgramId) (pre : AccountWithMetadata) (post : AccountPostState) (c : Claim)
      → check_claim ext pid pre post c ≡ ok tt
      → post.account.program_owner ≡ default_program_owner
  unfolding check_claim
  check_claim-unowned pid pre post Claim.authorized h = ground arith
  check_claim-unowned pid pre post (Claim.pda seed) h = ground arith

  apply_claim-Claims :
      (pid : ProgramId) (pre : AccountWithMetadata) (post : AccountPostState) {q : AccountPostState}
      → apply_claim ext pid pre post ≡ ok q
      → Claims post.account q.account
  unfolding apply_claim
  apply_claim-Claims pid pre post h = elim (Option-cases post.claim) [
    | inl unclaimed ↦ ground arith
    | inr (c, e) ↦ ground (arith, check_claim-unowned pid pre post c)
  ]

  apply_claims-AllClaim :
      (pid : ProgramId) (pres : List AccountWithMetadata) (posts : List AccountPostState)
      {qs : List AccountPostState}
      → length pres ≡ length posts
      → apply_claims ext pid pres posts ≡ ok qs
      → AllClaim posts qs
  unfolding apply_claims
  apply_claims-AllClaim pid [] [] l h = subst (AllClaim []) (ok-injective h) tt
  apply_claims-AllClaim pid [] (post ∷ posts) l h = absurd (omega (arith, l))
  apply_claims-AllClaim pid (pre ∷ pres) [] l h = absurd (omega (arith, l))
  apply_claims-AllClaim pid (pre ∷ pres) (post ∷ posts) l h =
      let (claimed, e, h₁) = >>=-eq-ok (apply_claim ext pid pre post) _ h in
      let (more, es, h₂) = >>=-eq-ok (apply_claims ext pid pres posts) _ h₁ in
      subst (AllClaim (post ∷ posts)) (ok-injective h₂) (
        apply_claim-Claims pid pre post e,
        apply_claims-AllClaim pid pres posts (omega (arith, l)) es,
      )

  check_output-passed :
      (s : V03State) (block_id timestamp : ℕ) (diff : Map Account) (call : ChainedCall)
      (caller : CallerData) (out : ProgramOutput)
      → check_output ext s block_id timestamp diff call caller out ≡ ok tt
      → ShowExpected s diff out.pre_states
        × (validate_execution out.pre_states out.post_states call.program_id ≡ ok tt)
  unfolding check_output
  check_output-passed s block_id timestamp diff call caller out h =
      let (shown, _) = >>-eq-ok (check_pre_states s diff _ out.pre_states) _ h in
      (check_pre_states-ShowExpected s diff _ out.pre_states shown, ground arith)

  -- What a call that succeeds has done.
  pub record CallEffect (s : V03State) (diff : Map Account) (pid : ProgramId) (diff' : Map Account)
      : Type 0 where
    pub pres : List AccountWithMetadata
    pub outputs : List AccountPostState
    pub posts : List AccountPostState
    pub shown : ShowExpected s diff pres
    pub behaved : WellBehaved pid pres outputs
    pub claimed : AllClaim outputs posts
    pub updated : diff' ≡ update_diff diff pres posts

  pub execute_call-CallEffect :
      (s : V03State) (block_id timestamp : ℕ) (diff : Map Account) (call : ChainedCall)
      (caller : CallerData) {diff' : Map Account} {next : CallerData} {calls : List ChainedCall}
      → TypedOutputs
      → execute_call ext s block_id timestamp diff call caller ≡ ok (diff', next, calls)
      → CallEffect s diff call.program_id diff'
  unfolding execute_call
  execute_call-CallEffect s block_id timestamp diff call caller typed h =
      let (out, ran, h₁) = >>=-eq-ok (run_program ext s call caller) _ h in
      let (checked, h₂) =
        >>-eq-ok (check_output ext s block_id timestamp diff call caller out) _ h₁ in
      let (posts, claims, h₃) =
        >>=-eq-ok (apply_claims ext call.program_id out.pre_states out.post_states) _ h₂ in
      let (shown, valid) = check_output-passed s block_id timestamp diff call caller out checked in
      let behaved : WellBehaved call.program_id out.pre_states out.post_states =
        validate_execution-WellBehaved call.program_id out.pre_states out.post_states
          (run_program-typed s call caller out typed ran) valid in
      record {
        pres = out.pre_states;
        outputs = out.post_states;
        posts = posts;
        shown = shown;
        behaved = behaved;
        claimed =
            apply_claims-AllClaim call.program_id out.pre_states out.post_states
              (PairsOk-length _ out.pre_states out.post_states behaved.pairs) claims;
        updated = sym (ap (λ t. t.0) (ok-injective h₃));
      }

  -- What every call keeps, the loop over the calls keeps.
  pub run_calls_inv {ℓ} :
      (s : V03State) (block_id timestamp : ℕ) (P : Map Account → Type ℓ)
      → TypedOutputs
      → ((diff : Map Account) (pid : ProgramId) (diff' : Map Account)
          → CallEffect s diff pid diff'
          → P diff
          → P diff')
      → (left : ℕ) (queue : List (ChainedCall × CallerData)) (diff : Map Account)
      → {final : Map Account} → P diff
      → run_calls ext s block_id timestamp left queue diff ≡ ok final
      → P final
  unfolding run_calls
  run_calls_inv s block_id timestamp P typed keep zero [] diff p h = subst P (ok-injective h) p
  run_calls_inv s block_id timestamp P typed keep zero (c ∷ queue) diff p h = cc
  run_calls_inv s block_id timestamp P typed keep (suc left) [] diff p h =
      subst P (ok-injective h) p
  run_calls_inv s block_id timestamp P typed keep (suc left) ((call, caller) ∷ queue) diff p h =
      elim (Result-cases (execute_call ext s block_id timestamp diff call caller)) [
        | inl ((diff', next, calls), e) ↦
            run_calls_inv s block_id timestamp P typed keep left (push_calls next calls queue) diff'
              (keep diff call.program_id diff'
                (execute_call-CallEffect s block_id timestamp diff call caller typed e) p)
              (rw (e, run_calls) at h)
        | inr (failure, e) ↦ absurd (ok-ne-err (sym (rw (e, run_calls) at h)))
      ]
