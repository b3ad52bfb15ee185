-- ===== src/Amm/Chained.antt =====
-- lez/programs/amm/src: what the calls of the token program that the market maker chains ask for.
use lssa.Prelude.{◌≡◌, List, [], ◌∷◌, map}
use lssa.Account.{AccountId, AccountWithMetadata}
use lssa.Program.{ChainedCall, ProgramId}
use lssa.Token.{Instruction}
use lssa.Amm.{AmmExternals}

-- The calls are just some instructions to a program, in order, each on two accounts.
abbrev pub Chains :
    AmmExternals
    → ProgramId
    → List ChainedCall
    → List (Instruction × AccountId × AccountId)
    → Type 0
Chains ext program_id [] [] = Unit {0}
Chains ext program_id (call ∷ calls) [] = ⊥
Chains ext program_id [] (order ∷ orders) = ⊥
Chains ext program_id (call ∷ calls) ((instruction, first, second) ∷ orders) =
    (call.program_id ≡ program_id)
    × (call.instruction_data ≡ ext.instruction_words instruction)
    × (map (λ (a : AccountWithMetadata). a.account_id) call.pre_states ≡ first ∷ second ∷ [])
    × Chains ext program_id calls orders
