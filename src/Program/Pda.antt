-- ===== src/Program/Pda.antt =====
-- lee/state_machine/core/src/program/mod.rs: account identifiers derived from a program and a
-- seed, and those that a caller authorises. SHA-256 is a parameter.
use lssa.Prelude.{ℕ, Option, none, some, List, [], ◌++◌, map}
use lssa.Prelude.Digits.{bytes32}
use lssa.Account.{AccountId}
use lssa.Program.{ProgramId, PdaSeed}
use lssa.Program.Ids.{program_words, words_to_bytes}
use lssa.Commitment.{prefix}

module _ (sha256 : List ℕ → ℕ) where
  -- `AccountId::for_public_pda`.
  unfoldable pub for_public_pda : ProgramId → PdaSeed → AccountId
  for_public_pda program_id seed = sha256 (
      prefix "/LEE/v0.2/AccountId/PDA/" 8
      ++ (words_to_bytes (program_words program_id) ++ bytes32 seed))

  unfoldable pub compute_public_authorized_pdas : Option ProgramId → List PdaSeed → List AccountId
  compute_public_authorized_pdas none pda_seeds = []
  compute_public_authorized_pdas (some caller) pda_seeds = map (for_public_pda caller) pda_seeds
