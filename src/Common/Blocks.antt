-- ===== src/Common/Blocks.antt =====
-- lez/common/src/block.rs: the hash of a block, and its signature.
use lssa.Prelude.{ℕ, Bool, ◌++◌}
use lssa.Commitment.{prefix}
use lssa.Common.{ChainExternals, HashType, Block, BlockMeta, HashableBlockData}
use lssa.Common.{pending}

-- `HashableBlockData::from`.
unfoldable pub hashable : Block → HashableBlockData
hashable b = record {
  block_id = b.header.block_id;
  prev_block_hash = b.header.prev_block_hash;
  timestamp = b.header.timestamp;
  transactions = b.body.transactions;
}

-- `BlockMeta::from(&Block)`.
unfoldable pub block_meta : Block → BlockMeta
block_meta b = record { id = b.header.block_id; hash = b.header.hash }

module _ (ext : ChainExternals) where
  -- `HashableBlockData::compute_hash`.
  unfoldable pub compute_hash : HashableBlockData → HashType
  compute_hash d = ext.ledger.sha256 (prefix "/LEE/v0.3/Message/Block/" 8 ++ ext.block_bytes d)

  -- `Block::recompute_hash`.
  unfoldable pub recompute_hash : Block → HashType
  unfolding compute_hash
  recompute_hash b = compute_hash (record {
    block_id = b.header.block_id;
    prev_block_hash = b.header.prev_block_hash;
    timestamp = b.header.timestamp;
    transactions = b.body.transactions;
  })

  -- `Block::is_signed_by`.
  unfoldable pub is_signed_by : Block → ℕ → Bool
  unfolding compute_hash hashable
  is_signed_by b expected_pubkey =
      ext.ledger.verify_signature b.header.signature (compute_hash (hashable b)) expected_pubkey

  -- `HashableBlockData::into_pending_block`.
  unfoldable pub into_pending_block : HashableBlockData → ℕ → Block
  unfolding compute_hash
  into_pending_block d signing_key = record {
    header = record {
      block_id = d.block_id;
      prev_block_hash = d.prev_block_hash;
      hash = compute_hash d;
      timestamp = d.timestamp;
      signature = ext.sign signing_key (compute_hash d);
    };
    body = record { transactions = d.transactions };
    bedrock_status = pending;
  }
