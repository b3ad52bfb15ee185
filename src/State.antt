-- ===== src/State.antt =====
-- lee/state_machine/src/state/mod.rs: the ledger's state. Hash maps and sets are association
-- lists and lists; `none` is a panic. Serialisation and the genesis fingerprint are left out.
pub mod Accounts
pub mod Spent
pub mod Deployed
use lssa.Prelude.{
  ℕ, suc, ◌+◌, ◌≡◌, Bool, true, false, Option, none, some, List, [], ◌∷◌, ◌++◌, map, String, ltb,
  ◌==◌, if◌then◌else◌, contains, Map, lookup, insert, contains_key, extend, Result, ok, err, ensure,
  ◌>>◌,
}
use lssa.Prelude.Options.{◌>>=◌}
use lssa.Account.{
  Account, AccountId, default_account, public_account_nonce_increment, data_try_from,
}
use lssa.Program.{ProgramId}
use lssa.Program.Ids.{to_account_id, to_program_id}
use lssa.Commitment.{Commitment, Nullifier, CommitmentSetDigest, MembershipProof, dummy_commitment}
use lssa.Merkle
use lssa.Merkle.{MerkleTree}
use lssa.Error.{LeeError, invalid_input}

-- `PROGRAM_STORAGE_OWNER`, 32 bytes 0xff.
abbrev pub program_storage_owner : AccountId
program_storage_owner = 0xffffffffffffffffffffffffffffffffffffffffffffffffffffffffffffffff

-- lee/state_machine/src/program/mod.rs: a program's image identifier and code.
pub record Program : Type 0 where
  pub id : ProgramId
  pub elf : List ℕ

pub record CommitmentSet : Type 0 where
  pub merkle_tree : MerkleTree
  pub commitments : Map ℕ
  pub root_history : List CommitmentSetDigest

pub record PrivateState : Type 0 where
  pub commitment_set : CommitmentSet
  pub nullifier_set : List Nullifier

pub record V03State : Type 0 where
  pub public_state : Map Account
  pub private_state : PrivateState

-- lee/state_machine/src/validated_state_diff/mod.rs: what a validated transaction changes.
pub record StateDiff : Type 0 where
  pub signer_account_ids : List AccountId
  pub public_diff : Map Account
  pub new_commitments : List Commitment
  pub new_nullifiers : List Nullifier
  pub program : Option Program

-- `CommitmentSet::digest`.
unfoldable pub digest : CommitmentSet → Option CommitmentSetDigest
digest s = Merkle.root s.merkle_tree

-- `CommitmentSet::contains`.
abbrev pub contains_commitment : CommitmentSet → Commitment → Bool
contains_commitment s c = contains_key c s.commitments

-- `CommitmentSet::get_proof_for`: the outer `none` is a panic, the inner one the code's `None`.
pub get_proof_for : CommitmentSet → Commitment → Option (Option MembershipProof)
get_proof_for s c = elim (lookup c s.commitments) [
  | none ↦ some none
  | some index ↦ Merkle.get_authentication_path_for s.merkle_tree index >>= λ path.
      some (elim path [ none ↦ none | some p ↦ some (index, p) ])
]

-- `CommitmentSet::with_capacity`.
pub commitment_set_with_capacity : ℕ → Option CommitmentSet
commitment_set_with_capacity capacity = do
  tree ← Merkle.with_capacity capacity
  some (record { merkle_tree = tree; commitments = []; root_history = [] })

-- `get_account_by_id`: an account that is not stored has its default value.
abbrev pub account_in : Map Account → AccountId → Account
account_in m id = elim (lookup id m) [ none ↦ default_account | some a ↦ a ]

unfoldable pub get_account_by_id : V03State → AccountId → Account
get_account_by_id s id = account_in s.public_state id

-- `get_program`: an account is a program if its owner says so.
unfoldable pub get_program : V03State → ProgramId → Option Account
get_program s program_id = elim (lookup (to_account_id program_id) s.public_state) [
  | none ↦ none
  | some account ↦ if account.program_owner == program_storage_owner then some account else none
]

-- `insert_program`; the code must fit an account's data.
pub insert_program : Map Account → Program → Option (Map Account)
insert_program m program = do
  elf ← data_try_from program.elf
  let account : Account = record default_account {
    program_owner = program_storage_owner;
    data_bytes = elf;
  }
  some (insert (to_account_id program.id) account m)

-- The loop over the signers; each nonce must not overflow.
pub increment_nonces : Map Account → List AccountId → Option (Map Account)
increment_nonces m [] = some m
increment_nonces m (id ∷ ids) = elim (public_account_nonce_increment (account_in m id).nonce) [
  | none ↦ none
  | some n ↦ increment_nonces (insert id (record (account_in m id) { nonce = n }) m) ids
]

-- The last step of `apply_state_diff`.
abbrev insert_new_program : Map Account → Option Program → Option (Map Account)
insert_new_program m none = some m
insert_new_program m (some program) = insert_program m program

module _ (sha256 : List ℕ → ℕ) where
  -- The loop of `CommitmentSet::extend`.
  add_commitments : CommitmentSet → List Commitment → Option CommitmentSet
  add_commitments s [] = some s
  add_commitments s (c ∷ cs) = elim (Merkle.insert sha256 s.merkle_tree c) [
    | none ↦ none
    | some (tree, index) ↦
        add_commitments
          (record s { merkle_tree = tree; commitments = insert c index s.commitments }) cs
  ]

  -- `CommitmentSet::extend`.
  pub extend_commitments : CommitmentSet → List Commitment → Option CommitmentSet
  unfolding add_commitments digest
  extend_commitments s cs = do
    added ← add_commitments s cs
    d ← digest added
    some (record added { root_history = d ∷ added.root_history })

  -- `V03State::default`.
  pub default_state : Option V03State
  unfolding commitment_set_with_capacity extend_commitments
  default_state = do
    empty ← commitment_set_with_capacity 32
    commitment_set ← extend_commitments empty (dummy_commitment ∷ [])
    some (record {
      public_state = [];
      private_state = record { commitment_set = commitment_set; nullifier_set = [] };
    })

  -- `with_private_accounts`.
  pub with_private_accounts : V03State → List (Commitment × Nullifier) → Option V03State
  unfolding extend_commitments
  with_private_accounts s accounts = do
    set ← extend_commitments s.private_state.commitment_set (map (λ a. a.0) accounts)
    some (record s {
      private_state = record {
        commitment_set = set;
        nullifier_set = map (λ a. a.1) accounts ++ s.private_state.nullifier_set;
      };
    })

  unfoldable pub apply_state_diff : V03State → StateDiff → Option V03State
  unfolding increment_nonces extend_commitments insert_program
  apply_state_diff s diff = do
    signed ← increment_nonces (extend s.public_state diff.public_diff) diff.signer_account_ids
    set ← extend_commitments s.private_state.commitment_set diff.new_commitments
    accounts ← insert_new_program signed diff.program
    some (record {
      public_state = accounts;
      private_state = record {
        commitment_set = set;
        nullifier_set = diff.new_nullifiers ++ s.private_state.nullifier_set;
      };
    })

-- `with_public_accounts`.
pub with_public_accounts : V03State → List (AccountId × Account) → V03State
with_public_accounts s accounts = record s { public_state = extend s.public_state accounts }

-- `with_public_account_balances`.
pub with_public_account_balances : V03State → List (AccountId × ℕ) → V03State
unfolding with_public_accounts
with_public_account_balances s balances =
    with_public_accounts s (map (λ b. (b.0, record default_account { balance = b.1 })) balances)

-- `with_programs`.
pub with_programs : V03State → List Program → Option V03State
unfolding insert_program
with_programs s [] = some s
with_programs s (p ∷ ps) = elim (insert_program s.public_state p) [
  | none ↦ none
  | some m ↦ with_programs (record s { public_state = m }) ps
]

unfoldable pub check_commitments_are_new : V03State → List Commitment → Result LeeError (Unit {0})
check_commitments_are_new s [] = ok tt
check_commitments_are_new s (c ∷ cs) =
    let rest = check_commitments_are_new s cs in
    if contains_commitment s.private_state.commitment_set c
    then err (invalid_input "Commitment already seen")
    else rest

-- The nullifiers of a list without their digests.
abbrev pub nullifiers_of : List (Nullifier × CommitmentSetDigest) → List Nullifier
nullifiers_of [] = []
nullifiers_of ((n, d) ∷ ns) = n ∷ nullifiers_of ns

unfoldable pub check_nullifiers_are_valid :
    V03State → List (Nullifier × CommitmentSetDigest) → Result LeeError (Unit {0})
check_nullifiers_are_valid s [] = ok tt
check_nullifiers_are_valid s ((nullifier, d) ∷ ns) =
    let rest = check_nullifiers_are_valid s ns in
    if contains nullifier s.private_state.nullifier_set
    then err (invalid_input "Nullifier already seen")
    else if contains d s.private_state.commitment_set.root_history
    then rest
    else err (invalid_input "Unrecognized commitment set digest")
