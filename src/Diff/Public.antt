-- ===== src/Diff/Public.antt =====
-- lee/state_machine/src/validated_state_diff/mod.rs: `from_public_transaction`. A call's depth
-- is counted down: the code counts up from 0 and fails past `MAX_NUMBER_CHAINED_CALLS`, so
-- eleven calls are left at the start.
pub mod Outcome
pub mod Accepted
pub mod Calls
pub mod Kept
pub mod Conservation
use lssa.Prelude.{
  ℕ, zero, suc, ◌≡◌, Bool, true, false, not, ◌&&◌, ◌||◌, Option, none, some, List, [], ◌∷◌, ◌++◌,
  String, ◌==◌, if◌then◌else◌, Result, ok, err, ensure, ◌>>◌, ◌>>=◌, ok_or, map_err, length,
  contains, Map, lookup, insert, contains_key,
}
use lssa.Account.{Account, AccountId, AccountWithMetadata, account_eq}
use lssa.Program.{
  ProgramId, ChainedCall, CallerData, Claim, AccountPostState, ProgramOutput, default_program_owner,
}
use lssa.Program.Ids.{to_account_id}
use lssa.Program.Pda.{for_public_pda, compute_public_authorized_pdas}
use lssa.Program.Window.{is_valid_for}
use lssa.Program.Validate.{validate_execution}
use lssa.State.{V03State, StateDiff, Program, get_account_by_id, get_program}
use lssa.Error.{
  LeeError, InvalidProgramBehaviorError, invalid_input, invalid_program_behavior,
  max_chained_calls_depth_exceeded, out_of_validity_window, inconsistent_account_pre_state,
  invalid_account_authorization, authorized_account_marked_as_not_authorized, mismatched_program_id,
  mismatched_caller_program_id, execution_validation_failed, claimed_non_default_account,
  claimed_unauthorized_account, mismatched_pda_claim, default_account_modified_without_claim,
  declared_account_missing_from_output,
}
use lssa.Transaction.{
  Externals, PublicMessage, PublicTransaction, Signatures, public_message_hash, signer_account_ids,
  signatures_are_valid,
}
use lssa.Diff.{n_unique, check_nonces, build_pre_states}

-- `MAX_NUMBER_CHAINED_CALLS`.
abbrev pub max_number_chained_calls : ℕ
max_number_chained_calls = 10

abbrev fails : {A : Type 0} → InvalidProgramBehaviorError → Result LeeError A
fails e = err (invalid_program_behavior e)

abbrev demand : Bool → InvalidProgramBehaviorError → Result LeeError (Unit {0})
demand b e = ensure b (invalid_program_behavior e)

-- The account as the calls so far have left it.
unfoldable pub expected_account : V03State → Map Account → AccountId → Account
expected_account s diff id = elim (lookup id diff) [ none ↦ get_account_by_id s id | some a ↦ a ]

-- The derived `==` of `Option<ProgramId>`.
abbrev same_caller : Option ProgramId → Option ProgramId → Bool
same_caller none none = true
same_caller none (some q) = false
same_caller (some p) none = false
same_caller (some p) (some q) = p == q

-- The body of the loop over the output's pre-states.
pub check_pre_state :
    V03State → Map Account → List AccountId → AccountWithMetadata → Result LeeError (Unit {0})
check_pre_state s diff authorized pre = do
  demand (account_eq pre.account (expected_account s diff pre.account_id)) (
      inconsistent_account_pre_state pre.account_id (expected_account s diff pre.account_id)
        pre.account)
  demand (not pre.is_authorized || contains pre.account_id authorized)
      (invalid_account_authorization pre.account_id)
  demand (pre.is_authorized || not (contains pre.account_id authorized))
      (authorized_account_marked_as_not_authorized pre.account_id)

pub check_pre_states :
    V03State → Map Account → List AccountId → List AccountWithMetadata → Result LeeError (Unit {0})
unfolding check_pre_state
check_pre_states s diff authorized [] = ok tt
check_pre_states s diff authorized (pre ∷ pres) =
    let rest = check_pre_states s diff authorized pres in
    check_pre_state s diff authorized pre >> rest

-- The loop that inserts the post-states into the diff; `zip` ends with the shorter list.
pub update_diff : Map Account → List AccountWithMetadata → List AccountPostState → Map Account
update_diff diff [] posts = diff
update_diff diff (pre ∷ pres) [] = diff
update_diff diff (pre ∷ pres) (post ∷ posts) =
    update_diff (insert pre.account_id post.account diff) pres posts

-- The accounts that an output's pre-states mark as authorised.
abbrev pub marked_authorized : List AccountWithMetadata → List AccountId
marked_authorized [] = []
marked_authorized (pre ∷ pres) =
    if pre.is_authorized then pre.account_id ∷ marked_authorized pres else marked_authorized pres

-- The new calls, each with its caller, in front of those that wait: pushed to the front in
-- reverse order they stand in order.
abbrev pub push_calls :
    CallerData
    → List ChainedCall
    → List (ChainedCall × CallerData)
    → List (ChainedCall × CallerData)
push_calls caller [] queue = queue
push_calls caller (c ∷ cs) queue = (c, caller) ∷ push_calls caller cs queue

-- Every account that was uninitialised and is modified must have been claimed.
pub check_claimed : V03State → Map Account → Result LeeError (Unit {0})
check_claimed s [] = ok tt
check_claimed s ((id, post) ∷ diff) =
    let rest = check_claimed s diff in
    let pre = get_account_by_id s id in
    if not (pre.program_owner == default_program_owner) || account_eq pre post
    then rest
    else (demand (not (post.program_owner == default_program_owner))
          (default_account_modified_without_claim id)
        >> rest)

-- Every account of the message must appear in the diff.
pub check_declared : Map Account → List AccountId → Result LeeError (Unit {0})
check_declared diff [] = ok tt
check_declared diff (id ∷ ids) =
    let rest = check_declared diff ids in
    demand (contains_key id diff) (declared_account_missing_from_output id) >> rest

module _ (ext : Externals) where
  -- The owner that a claim gives a post-state.
  pub check_claim :
      ProgramId → AccountWithMetadata → AccountPostState → Claim → Result LeeError (Unit {0})
  check_claim pid pre post Claim.authorized =
      demand (post.account.program_owner == default_program_owner)
        (claimed_non_default_account pre.account_id)
      >> demand pre.is_authorized (claimed_unauthorized_account pre.account_id)
  check_claim pid pre post (Claim.pda seed) =
      demand (post.account.program_owner == default_program_owner)
        (claimed_non_default_account pre.account_id)
      >> demand (pre.account_id == for_public_pda ext.sha256 pid seed)
          (mismatched_pda_claim (for_public_pda ext.sha256 pid seed) pre.account_id)

  -- The body of the loop over the post-states.
  pub apply_claim :
      ProgramId → AccountWithMetadata → AccountPostState → Result LeeError AccountPostState
  unfolding check_claim
  apply_claim pid pre post = elim post.claim [
    | none ↦ ok post
    | some c ↦
        check_claim pid pre post c
        >> ok
            (record post { account = record (post.account) { program_owner = to_account_id pid } })
  ]

  -- The loop over the post-states. Both lists have one length by then.
  pub apply_claims :
      ProgramId
      → List AccountWithMetadata
      → List AccountPostState
      → Result LeeError (List AccountPostState)
  unfolding apply_claim
  apply_claims pid [] posts = ok posts
  apply_claims pid (pre ∷ pres) [] = ok []
  apply_claims pid (pre ∷ pres) (post ∷ posts) =
      let rest = apply_claims pid pres posts in
      apply_claim pid pre post >>= λ claimed. rest >>= λ more. ok (claimed ∷ more)

  abbrev after_call : CallerData → ChainedCall → ProgramOutput → CallerData
  after_call caller call out = record {
    program_id = some call.program_id;
    authorized_accounts = caller.authorized_accounts ++ marked_authorized out.pre_states;
  }

  -- What is checked of an output before its claims.
  pub check_output :
      V03State
      → ℕ
      → ℕ
      → Map Account
      → ChainedCall
      → CallerData
      → ProgramOutput
      → Result LeeError (Unit {0})
  unfolding check_pre_states
  check_output s block_id timestamp diff call caller out = do
    check_pre_states s diff
        (compute_public_authorized_pdas ext.sha256 caller.program_id call.pda_seeds
          ++ caller.authorized_accounts)
        out.pre_states
    demand (out.self_program_id == call.program_id)
        (mismatched_program_id call.program_id out.self_program_id)
    demand (same_caller out.caller_program_id caller.program_id)
        (mismatched_caller_program_id caller.program_id out.caller_program_id)
    map_err (λ e. invalid_program_behavior (execution_validation_failed e))
        (validate_execution out.pre_states out.post_states call.program_id)
    ensure
        (is_valid_for out.block_validity_window block_id
          && is_valid_for out.timestamp_validity_window timestamp)
        out_of_validity_window

  -- The program of a call, run on the call's accounts.
  pub run_program : V03State → ChainedCall → CallerData → Result LeeError ProgramOutput
  run_program s call caller = do
    account ← ok_or (get_program s call.program_id) (invalid_input "Unknown program")
    ext.run (record { id = call.program_id; elf = account.data_bytes }) caller.program_id
        call.pre_states call.instruction_data

  -- The body of the loop over the calls: the new diff, the caller of the new calls, and these.
  pub execute_call :
      V03State
      → ℕ
      → ℕ
      → Map Account
      → ChainedCall
      → CallerData
      → Result LeeError (Map Account × CallerData × List ChainedCall)
  unfolding run_program check_output apply_claims update_diff
  execute_call s block_id timestamp diff call caller = do
    out ← run_program s call caller
    check_output s block_id timestamp diff call caller out
    posts ← apply_claims call.program_id out.pre_states out.post_states
    ok (update_diff diff out.pre_states posts, after_call caller call out, out.chained_calls)

  -- The loop over the calls, for the number of calls that may still be made.
  pub run_calls :
      V03State
      → ℕ
      → ℕ
      → ℕ
      → List (ChainedCall × CallerData)
      → Map Account
      → Result LeeError (Map Account)
  unfolding execute_call
  run_calls s block_id timestamp left [] diff = ok diff
  run_calls s block_id timestamp zero (c ∷ queue) diff = err max_chained_calls_depth_exceeded
  run_calls s block_id timestamp (suc left) ((call, caller) ∷ queue) diff =
      elim (execute_call s block_id timestamp diff call caller) [
        | err e ↦ err e
        | ok (diff', next_caller, calls) ↦
            run_calls s block_id timestamp left (push_calls next_caller calls queue) diff'
      ]

  -- `authenticate_public_transaction_signers`.
  pub authenticate_public_transaction_signers :
      PublicTransaction → V03State → Result LeeError (List AccountId)
  authenticate_public_transaction_signers tx s = do
    ensure (length tx.message.nonces == length tx.signatures_and_public_keys)
        (invalid_input "Mismatch between number of nonces and signatures/public keys")
    ensure
        (signatures_are_valid ext (public_message_hash ext tx.message)
          tx.signatures_and_public_keys)
        (invalid_input "Invalid signature for given message and public key")
    check_nonces s (signer_account_ids ext tx.signatures_and_public_keys) tx.message.nonces
    ok (signer_account_ids ext tx.signatures_and_public_keys)

  abbrev initial_calls : V03State → PublicMessage → List AccountId → List (ChainedCall × CallerData)
  initial_calls s m signers =
      (
        record {
          program_id = m.program_id;
          pre_states = build_pre_states s signers m.account_ids;
          instruction_data = m.instruction_data;
          pda_seeds = [];
        },
        record { program_id = none; authorized_accounts = signers },
      )
      ∷ []

  unfoldable pub from_public_transaction :
      PublicTransaction → V03State → ℕ → ℕ → Result LeeError StateDiff
  unfolding authenticate_public_transaction_signers run_calls check_claimed check_declared
  from_public_transaction tx s block_id timestamp = do
    signers ← authenticate_public_transaction_signers tx s
    ensure (not (length tx.message.account_ids == 0))
        (invalid_input "Public transaction must have at least one account")
    ensure (n_unique tx.message.account_ids == length tx.message.account_ids)
        (invalid_input "Duplicate account_ids found in message")
    diff ←
        run_calls s block_id timestamp (suc max_number_chained_calls)
          (initial_calls s tx.message signers) []
    check_claimed s diff
    check_declared diff tx.message.account_ids
    ok (record {
      signer_account_ids = signers;
      public_diff = diff;
      new_commitments = [];
      new_nullifiers = [];
      program = none;
    })
