-- ===== src/Amm/Writes.antt =====
-- What the market maker writes (lez/programs/amm/src): nothing but the data of the pool.
use lssa.Prelude.{ℕ, ◌≡◌, Option, none, some, List, [], ◌∷◌, arith, not, ◌==◌}
use lssa.Account.{AccountId, AccountWithMetadata, data_try_from}
use lssa.Program.{AccountPostState, ChainedCall, ProgramId}
use lssa.Token.Operations.Amounts.{assert->>}
use lssa.Token.Operations.Behaviour.{SameButData}
use lssa.Amm.{AmmExternals}
use lssa.Amm.Swap.{
  swap_with, swap_exact_input, swap_exact_output, swap_logic, exact_output_swap_logic,
  create_swap_post_states,
}
use lssa.Amm.Liquidity.{add_liquidity, remove_liquidity}
use lssa.Amm.Pools.{new_definition}
use lssa.Amm.Dispatch.{AmmInstruction, create_pool, add, remove, swap_input, swap_output, dispatch}

-- Accounts that are given back as they are, without a claim.
abbrev pub Unwritten : List AccountWithMetadata → List AccountPostState → Type 0
Unwritten [] [] = Unit {0}
Unwritten [] (q ∷ posts) = ⊥
Unwritten (p ∷ pres) [] = ⊥
Unwritten (p ∷ pres) (q ∷ posts) =
    ((q.account ≡ p.account) × (q.claim ≡ none)) × Unwritten pres posts

-- The first account may have new data, the others are given back as they are.
abbrev pub OnlyPool : List AccountWithMetadata → List AccountPostState → Type 0
OnlyPool [] posts = ⊥
OnlyPool (pool ∷ pres) [] = ⊥
OnlyPool (pool ∷ pres) (q ∷ posts) = SameButData pool.account q.account × Unwritten pres posts

module _ (ext : AmmExternals) where
  add_liquidity-OnlyPool :
      (pool va vb lp ua ub ul : AccountWithMetadata) (low a b : ℕ)
      (result : List AccountPostState × List ChainedCall)
      → add_liquidity ext pool va vb lp ua ub ul low a b ≡ some result
      → OnlyPool (pool ∷ va ∷ vb ∷ lp ∷ ua ∷ ub ∷ ul ∷ []) result.0
  unfolding add_liquidity data_try_from
  add_liquidity-OnlyPool pool va vb lp ua ub ul low a b result h = ground arith

  remove_liquidity-OnlyPool :
      (pool va vb lp ua ub ul : AccountWithMetadata) (n a b : ℕ)
      (result : List AccountPostState × List ChainedCall)
      → remove_liquidity ext pool va vb lp ua ub ul n a b ≡ some result
      → OnlyPool (pool ∷ va ∷ vb ∷ lp ∷ ua ∷ ub ∷ ul ∷ []) result.0
  unfolding remove_liquidity data_try_from
  remove_liquidity-OnlyPool pool va vb lp ua ub ul n a b result h = ground arith

  new_definition-OnlyPool :
      (pool va vb lp ua ub ul : AccountWithMetadata) (a b : ℕ) (id : ProgramId)
      (result : List AccountPostState × List ChainedCall)
      → new_definition ext pool va vb lp ua ub ul a b id ≡ some result
      → OnlyPool (pool ∷ va ∷ vb ∷ lp ∷ ua ∷ ub ∷ ul ∷ []) result.0
  unfolding new_definition data_try_from
  new_definition-OnlyPool pool va vb lp ua ub ul a b id result h = ground arith

  swap_with-OnlyPool :
      (logic : AccountWithMetadata
        → AccountWithMetadata
        → AccountWithMetadata
        → AccountWithMetadata
        → ℕ
        → ℕ
        → ℕ
        → ℕ
        → AccountId
        → Option (List ChainedCall × ℕ × ℕ))
      (pool va vb ua ub : AccountWithMetadata) (n m : ℕ) (token : AccountId)
      (result : List AccountPostState × List ChainedCall)
      → swap_with ext logic pool va vb ua ub n m token ≡ some result
      → OnlyPool (pool ∷ va ∷ vb ∷ ua ∷ ub ∷ []) result.0
  unfolding swap_with create_swap_post_states data_try_from
  swap_with-OnlyPool logic pool va vb ua ub n m token result h = ground arith

  -- Whatever instruction of the market maker succeeds, it gives one post-state for each account, in
  -- order, keeps the first account, the pool, but for its data and its claim, and gives all others
  -- back as they are, without a claim.
  pub dispatch_writes_pool :
      (i : AmmInstruction) (pres : List AccountWithMetadata)
      (result : List AccountPostState × List ChainedCall)
      → dispatch ext i pres ≡ some result
      → OnlyPool pres result.0
  unfolding dispatch swap_exact_input swap_exact_output
  dispatch_writes_pool (create_pool a b id) (p ∷ va ∷ vb ∷ lp ∷ ua ∷ ub ∷ ul ∷ []) result h =
      let (_, h₁) = assert->> (not (a == 0)) _ h in
      let (_, h₂) = assert->> (not (b == 0)) _ h₁ in
      new_definition-OnlyPool p va vb lp ua ub ul a b id result h₂
  dispatch_writes_pool (add low a b) (p ∷ va ∷ vb ∷ lp ∷ ua ∷ ub ∷ ul ∷ []) result h =
      let (_, h₁) = assert->> (not (low == 0)) _ h in
      add_liquidity-OnlyPool p va vb lp ua ub ul low a b result h₁
  dispatch_writes_pool (remove n a b) (p ∷ va ∷ vb ∷ lp ∷ ua ∷ ub ∷ ul ∷ []) result h =
      let (_, h₁) = assert->> (not (n == 0)) _ h in
      remove_liquidity-OnlyPool p va vb lp ua ub ul n a b result h₁
  dispatch_writes_pool (swap_input n low token) (p ∷ va ∷ vb ∷ ua ∷ ub ∷ []) result h =
      swap_with-OnlyPool (swap_logic ext) p va vb ua ub n low token result h
  dispatch_writes_pool (swap_output n high token) (p ∷ va ∷ vb ∷ ua ∷ ub ∷ []) result h =
      swap_with-OnlyPool (exact_output_swap_logic ext) p va vb ua ub n high token result h
  dispatch_writes_pool _ _ result h = cc
