-- ===== src/Chain.antt =====
-- lez/chain_state/src: a chain of blocks with a head that can be reorganised, over a final tier.
-- A failure is a value; the outer `none` is a panic.
pub mod Error
pub mod Apply
pub mod Lists
pub mod Head
pub mod Replay
pub mod Effects
pub mod Progress
pub mod Linked
pub mod Heights
pub mod History
pub mod Adoption
pub mod Finality
pub mod Restore
pub mod Produced
pub mod Consistency
pub mod SameChain
pub mod ToyChain
pub mod Tests
use lssa.Prelude.{ℕ, Option, List}
use lssa.State.{V03State}
use lssa.Common.{HashType, Block}
use lssa.Chain.Error.{BlockIngestError, StallReason}
