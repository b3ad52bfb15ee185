-- ===== src/Lib.antt =====
-- The state machine of the Logos execution environment, its token program and automated market
-- maker, and the chain of blocks that the sequencer and the indexer keep on it.
--
-- The state machine (lee/state_machine) keeps a ledger of public accounts and a set of private
-- notes: commitments in a Merkle tree, and the nullifiers of those that were spent. A transaction
-- is first validated against the state, which gives a diff, and the diff is then applied. A public
-- transaction runs a program and the calls that the program makes; a privacy-preserving one
-- carries a proof; a deployment stores a program. The token program (lez/programs/token) and the
-- market maker (lez/programs/amm), which chains calls of the token program, run on it.
--
--   Account             lee/state_machine/core/src/account.rs, account/data.rs
--   Program             lee/state_machine/core/src/program/mod.rs: the data of programs, with
--                       Ids (program and account identifiers), Window (validity windows),
--                       Balances (WrappedBalanceSum), Pda (derived accounts) and Validate
--                       (validate_execution; Validate/WellBehaved is its specification)
--   Commitment          lee/state_machine/core/src/commitment.rs, nullifier.rs
--   Merkle              lee/state_machine/src/merkle_tree; Leaves is what an insertion does
--   State               lee/state_machine/src/state/mod.rs and the record of program/mod.rs;
--                       State/Accounts and State/Spent are what apply_state_diff does to accounts
--                       and to what is recorded
--   Error               lee/state_machine/src/error.rs
--   Transaction         lee/state_machine/src/public_transaction, privacy_preserving_transaction,
--                       the records of core/src/circuit_io.rs, signature/public_key.rs
--   Diff                lee/state_machine/src/validated_state_diff/mod.rs: Public, Private,
--                       what they demand (Public/Accepted, Private/Accepted), and proofs on the
--                       loop over the calls (Public/Calls, Kept, Conservation, Outcome), on
--                       nonces and on the private checks
--   Transition          the transitions of state/mod.rs; Steps has the histories that they make,
--                       Public, Private and Deployment are about the three kinds
--   Token               lez/programs/token/core/src/lib.rs and, in Operations, token/src
--   Amm                 lez/programs/amm/core/src/lib.rs and amm/src: Swap (swap.rs), Liquidity
--                       (add.rs, remove.rs), Pools (new_definition.rs) and Dispatch (main.rs);
--                       Swap/Product and Swap/Reserves are what a swap does to the reserves,
--                       Liquidity/Shares is about the worth of a share,
--                       Chained and Swap/Payments about the calls that are chained
--   Common              lez/common/src/block.rs and transaction.rs: Blocks (hash and signature of a
--                       block), Guards (execution of a transaction under the guards on the
--                       system's accounts), GuardsKept
--   Chain               lez/chain_state/src: Error (ingest_error.rs, stall_reason.rs), Apply
--                       (apply.rs), Head (chain.rs), Consistency (consistency.rs, with
--                       SameChain on its verdict); Replay, Linked, Heights, Effects and Progress are the
--                       lemmas on replays and operations, History has any sequence of operations,
--                       and Adoption, Finality, Produced and Restore are about one each
--   Sequencer           lez/sequencer/core/src: Stakes (committee_discovery.rs and the checks of
--                       lib.rs), Production (lib.rs: build_block_from_mempool); Executed, Accepted
--                       and Limits are about what a block gets
--   Prelude             shared helpers: results, options, maps, digits, Boolean tests
--
-- A block (lez/common) holds transactions and ends with the public transaction that sets the clock.
-- The chain state (lez/chain_state) applies blocks to the ledger in two tiers: a final one, which
-- only grows, and a head over it, which can be reorganised. Its operations come from the channel:
-- adopted, orphaned and finalized blocks, and those that the sequencer produced itself.
--
-- The sequencer (lez/sequencer) produces a block on the head of its chain state out of transactions
-- drained from its store and popped from its mempool. Production is modelled from the drained
-- transactions on; the mempool is a list that nothing is added to meanwhile.
--
-- Functions have the names of the source. A function that changes `self` takes the old value and
-- returns the new one. `Result` is the source's result type; `none` of an `Option` is a panic (an
-- assertion, an `expect`, an index out of range, an arithmetic overflow), unless a comment says
-- that it is the source's own `None`. Hash maps are association lists, hash sets are lists. Byte
-- arrays of 32 bytes (identifiers, keys, hashes) stand for the number that they spell, the lowest
-- byte first, and are written out as bytes where they are hashed or converted. Balances, nonces
-- and amounts are numbers, their 128-bit range checked where the code checks it; `usize`, lengths
-- and indices do not wrap. Unchecked sums and differences of reserves in a swap do, as in the
-- release builds that programs are; `HasRoom` says that both reserves have room for what goes in;
-- the chained transfer demands it of the vault that it goes to, which holds the reserve. Products
-- of reserves and supply wrap as well where liquidity is added or removed.
--
-- Parameters (Transaction.Externals, Common.ChainExternals, Token.Codec, Amm.AmmExternals,
-- Sequencer.SequencerExternals) stand for other packages:
-- SHA-256, Borsh, the signature scheme, the virtual machine and the verifier of receipts.
-- `TypedOutputs` says of the machine that the balances in an output are 128-bit numbers, as
-- their type has it; `RoundTrips` says of Borsh that what was encoded is decoded again.
--
-- The loop over the chained calls counts up to MAX_NUMBER_CHAINED_CALLS and fails beyond; the
-- model counts down from eleven calls, and running out is that error. The path in the Merkle tree
-- has a node index as fuel, which is enough as a parent's index is smaller.
--
-- The build is the one without the `testnet` feature of lez/common, which changes
-- compute_state_diff and clock_invocation.
--
-- Not modelled: serialisation, the genesis fingerprint, private account derivation, the privacy
-- circuit, key management, the other programs, the rest of the sequencer (draining of the store,
-- committee updates, publication, gossip), and the services around it (indexer, storage, wallet,
-- explorer), which are mostly
-- input and output.
pub mod Prelude
pub mod Account
pub mod Merkle
pub mod Program
pub mod Error
pub mod Commitment
pub mod State
pub mod Transaction
pub mod Diff
pub mod Transition
pub mod Token
pub mod Amm
pub mod Common
pub mod Chain
pub mod Sequencer
