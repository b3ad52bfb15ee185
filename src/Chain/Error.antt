-- ===== src/Chain/Error.antt =====
-- lez/chain_state/src/ingest_error.rs and stall_reason.rs: why a block could not be applied, and
-- the record of the first block that broke the final tier.
use lssa.Prelude.{ℕ, ◌+◌, Bool, true, false, Option, none, some, String, ltb, if◌then◌else◌}
use lssa.Common.{HashType, BlockHeader}

pub data BlockIngestError : Type 0 where
  deserialize : String → BlockIngestError
  unexpected_block_id : (expected got : ℕ) → BlockIngestError
  broken_chain_link : (expected_prev got_prev : HashType) → BlockIngestError
  hash_mismatch : (computed header : HashType) → BlockIngestError
  empty_block : BlockIngestError
  invalid_clock_transaction : BlockIngestError
  non_public_genesis_transaction : BlockIngestError
  state_transition : (tx_index : ℕ) (reason : String) → BlockIngestError

unfoldable pub is_retryable : BlockIngestError → Bool
is_retryable (state_transition tx_index reason) = true
is_retryable _ = false

-- An L1 slot is a number.
abbrev pub Slot : Type 0
Slot = ℕ

abbrev pub u64_max : ℕ
u64_max = 18446744073709551615

pub record StallReason : Type 0 where
  pub block_id : Option ℕ
  pub block_hash : Option HashType
  pub prev_block_hash : Option HashType
  pub l1_slot : Slot
  pub error : BlockIngestError
  pub first_seen : Option ℕ
  pub orphans_since : ℕ

-- `StallReason::new`.
abbrev pub header_field {ℓ} : {A : Type ℓ} → (BlockHeader → A) → Option BlockHeader → Option A
header_field f none = none
header_field f (some h) = some (f h)

unfoldable pub new_stall : Option BlockHeader → Slot → BlockIngestError → StallReason
new_stall header l1_slot error = record {
  block_id = header_field (λ h. h.block_id) header;
  block_hash = header_field (λ h. h.hash) header;
  prev_block_hash = header_field (λ h. h.prev_block_hash) header;
  first_seen = header_field (λ h. h.timestamp) header;
  l1_slot = l1_slot;
  error = error;
  orphans_since = 0;
}

-- `StallReason::escalate`; the count stays at its highest value.
unfoldable pub escalate : StallReason → StallReason
escalate r = record r {
  orphans_since = if ltb r.orphans_since u64_max then r.orphans_since + 1 else u64_max;
}
