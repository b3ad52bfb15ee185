-- ===== src/Commitment.antt =====
-- lee/state_machine/core/src/commitment.rs and nullifier.rs: commitments, nullifiers and
-- membership proofs. SHA-256 is a parameter; a digest stands for the number of its bytes.
use Prim.Native.Char.{code}
use Prim.Native.String.{String}
use lssa.Prelude.{ℕ, ◌/◌, ◌%◌, List, [], ◌∷◌, ◌++◌, replicate, ◌==◌, if◌then◌else◌}
use lssa.Prelude.Digits.{bytes32, to_digits}
use lssa.Account.{Account, AccountId}

abbrev pub Commitment : Type 0
Commitment = ℕ

abbrev pub Nullifier : Type 0
Nullifier = ℕ

abbrev pub CommitmentSetDigest : Type 0
CommitmentSetDigest = ℕ

abbrev pub MembershipProof : Type 0
MembershipProof = ℕ × List ℕ

-- `DUMMY_COMMITMENT`.
abbrev pub dummy_commitment : Commitment
dummy_commitment = 0x1b5ae5033efd7c0ff3a02aeed3334a682db80f9b87474fee31efdd70cfd7e437

-- `DUMMY_COMMITMENT_HASH`.
abbrev dummy_commitment_hash : ℕ
dummy_commitment_hash = 0x290847b8ab8dfd292776f181f9fe4a9ae5c4201a5414b7eb1e77659b71c0edfa

abbrev pub codes : String → List ℕ
codes String.[] = []
codes (String.◌∷◌ c s) = code c ∷ codes s

-- A prefix of 32 bytes: a text and the zeros that fill it up.
abbrev pub prefix : String → ℕ → List ℕ
prefix text zeros = codes text ++ replicate zeros 0

module _ (sha256 : List ℕ → ℕ) where
  -- The bytes that `Commitment::new` hashes.
  commitment_preimage : AccountId → Account → List ℕ
  commitment_preimage account_id account =
      prefix "/LEE/v0.3/Commitment/" 11
      ++ (bytes32 account_id
          ++ (bytes32 account.program_owner
              ++ (to_digits 256 16 account.balance
                  ++ (to_digits 256 16 account.nonce ++ bytes32 (sha256 account.data_bytes)))))

  -- `Commitment::new`.
  pub commitment : AccountId → Account → Commitment
  unfolding commitment_preimage
  commitment account_id account = sha256 (commitment_preimage account_id account)

  -- `Commitment::for_dummy`.
  pub commitment_for_dummy : Nullifier → ℕ → Commitment
  commitment_for_dummy nullifier commitment_seed =
      sha256
        (prefix "/LEE/v0.3/Commitment/Dummy/" 5 ++ (bytes32 nullifier ++ bytes32 commitment_seed))

  -- `Nullifier::for_account_update`.
  pub nullifier_for_account_update : Commitment → ℕ → Nullifier
  nullifier_for_account_update commitment nsk =
      sha256 (prefix "/LEE/v0.3/Nullifier/Update/" 5 ++ (bytes32 commitment ++ bytes32 nsk))

  -- `Nullifier::for_account_initialization`.
  pub nullifier_for_account_initialization : AccountId → Nullifier
  nullifier_for_account_initialization account_id =
      sha256 (prefix "/LEE/v0.3/Nullifier/Initialize/" 1 ++ bytes32 account_id)

  -- `Nullifier::for_dummy`.
  pub nullifier_for_dummy : ℕ → Nullifier
  nullifier_for_dummy nullifier_seed =
      sha256 (prefix "/LEE/v0.3/Nullifier/Dummy/" 6 ++ bytes32 nullifier_seed)

  -- The loop of `compute_digest_for_path` over the nodes of the proof.
  unfoldable pub digest_from : ℕ → ℕ → List ℕ → CommitmentSetDigest
  digest_from result level_index [] = result
  digest_from result level_index (node ∷ nodes) =
      let is_left_child = level_index % 2 == 0 in
      digest_from
        (sha256 (
          if is_left_child then bytes32 result ++ bytes32 node else bytes32 node ++ bytes32 result))
        (level_index / 2) nodes

  unfoldable pub compute_digest_for_path : Commitment → MembershipProof → CommitmentSetDigest
  unfolding digest_from
  compute_digest_for_path commitment (index, nodes) =
      digest_from (sha256 (bytes32 commitment)) index nodes
