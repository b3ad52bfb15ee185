-- ===== src/Amm/Swap/Reserves.antt =====
-- What a swap does to a pool's reserves (lez/programs/amm/src/swap.rs).
use lssa.Prelude.{
  ℕ, ◌+◌, ◌-◌, ◌*◌, ◌≤◌, ◌<◌, ◌≡◌, ◌⊎◌, inl, inr, sym, ◌∙◌, ap, subst, arith, Option, some, List,
  ◌==◌, ==_iff, Bool-cases,
}
use native.Mathlib.Nat.{mul_comm}
use lssa.Prelude.Options.{>>=-eq-some, some-injective, none-ne-some}
use lssa.Account.{Account, AccountId, AccountWithMetadata, u128_mod}
use lssa.Program.{ChainedCall, AccountPostState}
use lssa.Token.Operations.{with_data}
use lssa.Token.Operations.Amounts.{data_at, with_data-eq}
use lssa.Amm.{AmmExternals, PoolDefinition}
use lssa.Amm.Swap.{
  swap_with, swap_exact_input, swap_exact_output, swap_logic, exact_output_swap_logic,
  validate_swap_setup, create_swap_post_states, wrapping_add, wrapping_sub,
}
use lssa.Amm.Swap.Payments.{
  Exchange, Exchanged, swap_logic-Exchange, exact_output_swap_logic-Exchange,
}
use lssa.Amm.Swap.Product.{Trade, swap_logic-Trade, exact_output_swap_logic-Trade}

-- The pool after an amount went into the reserve of one token and another out of that of the other.
abbrev pub Moved : PoolDefinition → PoolDefinition → AccountId → ℕ → ℕ → Type 0
Moved p q token i o =
    ((token ≡ p.definition_token_a_id)
      × (q.reserve_a ≡ p.reserve_a + i)
      × (q.reserve_b + o ≡ p.reserve_b))
    ⊎ ((token ≡ p.definition_token_b_id)
        × (q.reserve_b ≡ p.reserve_b + i)
        × (q.reserve_a + o ≡ p.reserve_a))

-- Both reserves have room for an amount.
abbrev pub HasRoom : PoolDefinition → ℕ → Type 0
HasRoom p n = (p.reserve_a + n < u128_mod) × (p.reserve_b + n < u128_mod)

abbrev after : PoolDefinition → ℕ × ℕ → ℕ × ℕ → PoolDefinition
after p a b = record p {
  reserve_a = wrapping_sub (wrapping_add p.reserve_a a.0) a.1;
  reserve_b = wrapping_sub (wrapping_add p.reserve_b b.0) b.1;
}

wrapped_in : (x i : ℕ) → x + i < u128_mod → wrapping_sub (wrapping_add x i) 0 ≡ x + i
wrapped_in x i h = omega (arith, h)

wrapped_out : (y o : ℕ) → y < u128_mod → o ≤ y → wrapping_sub (wrapping_add y 0) o ≡ y - o
wrapped_out y o h k = omega (arith, h, k)

-- What a swap leaves, in terms of what went in and out.
abbrev pub Swapped : PoolDefinition → PoolDefinition → AccountId → ℕ → ℕ → Type 0
Swapped p q token i o =
    Moved p q token i o × (p.reserve_a * p.reserve_b ≤ q.reserve_a * q.reserve_b)

sold_a :
    (p : PoolDefinition) (token : AccountId) (i o cap : ℕ)
    → token ≡ p.definition_token_a_id
    → HasRoom p cap
    → i ≤ cap
    → Trade p.reserve_a p.reserve_b i o
    → Swapped p (after p (i, 0) (0, o)) token i o
sold_a p token i o cap e r k t =
    let into = wrapped_in p.reserve_a i (omega (arith, r.0, k)) in
    let out = wrapped_out p.reserve_b o (omega (arith, r.1)) t.enough in
    (inl (e, into, omega (arith, out, t.enough)), rw (into, out) t.product)

sold_b :
    (p : PoolDefinition) (token : AccountId) (i o cap : ℕ)
    → token ≡ p.definition_token_b_id
    → HasRoom p cap
    → i ≤ cap
    → Trade p.reserve_b p.reserve_a i o
    → Swapped p (after p (0, o) (i, 0)) token i o
sold_b p token i o cap e r k t =
    let into = wrapped_in p.reserve_b i (omega (arith, r.1, k)) in
    let out = wrapped_out p.reserve_a o (omega (arith, r.0)) t.enough in
    (
      inr (e, into, omega (arith, out, t.enough)),
      rw (into, out)
          (omega (
            arith,
            t.product,
            mul_comm p.reserve_a p.reserve_b,
            mul_comm (p.reserve_a - o) (p.reserve_b + i),
          )),
    )

module _ (ext : AmmExternals)
    (borsh : (p : PoolDefinition) → ext.decode_pool (ext.encode_pool p) ≡ some p) where
  created_pool :
      (pool va vb ua ub : AccountWithMetadata) (p : PoolDefinition) (a b : ℕ × ℕ)
      (posts : List AccountPostState)
      → create_swap_post_states ext pool p va vb ua ub a b ≡ some posts
      → ext.decode_pool (data_at 0 posts) ≡ some (after p a b)
  unfolding create_swap_post_states
  created_pool pool va vb ua ub p a b posts h =
      let (post, e, h₁) =
        >>=-eq-some (with_data pool.account (ext.encode_pool (after p a b))) _ h in
      subst (λ ps. ext.decode_pool (data_at 0 ps) ≡ some (after p a b)) (some-injective h₁)
        (ap (λ (r : Account). ext.decode_pool r.data_bytes)
            (with_data-eq pool.account (ext.encode_pool (after p a b)) post e)
          ∙ borsh (after p a b))

  result_pool :
      (pool va vb ua ub : AccountWithMetadata) (p : PoolDefinition) (a b : ℕ × ℕ)
      (posts : List AccountPostState) (calls : List ChainedCall)
      (result : List AccountPostState × List ChainedCall) (P : List ChainedCall → Type 0)
      → create_swap_post_states ext pool p va vb ua ub a b ≡ some posts
      → some (posts, calls) ≡ some result
      → P calls
      → (ext.decode_pool (data_at 0 result.0) ≡ some (after p a b)) × P result.1
  result_pool pool va vb ua ub p a b posts calls result P made h paid =
      subst
        (λ (r : List AccountPostState × List ChainedCall).
          (ext.decode_pool (data_at 0 r.0) ≡ some (after p a b)) × P r.1)
        (some-injective h) (created_pool pool va vb ua ub p a b posts made, paid)

  setup_pool :
      (pool va vb : AccountWithMetadata) (p : PoolDefinition)
      → validate_swap_setup ext pool va vb ≡ some p
      → ext.decode_pool pool.account.data_bytes ≡ some p
  unfolding validate_swap_setup
  setup_pool pool va vb p h = ground arith

  swap_with-Swapped :
      (logic : AccountWithMetadata
        → AccountWithMetadata
        → AccountWithMetadata
        → AccountWithMetadata
        → ℕ
        → ℕ
        → ℕ
        → ℕ
        → AccountId
        → Option (List ChainedCall × ℕ × ℕ))
      (Fits : ℕ → ℕ → Type 0) (cap amount bound : ℕ)
      (good : (ud vd vw uw : AccountWithMetadata) (x y : ℕ) (id : AccountId)
          (moved : List ChainedCall × ℕ × ℕ)
        → x + cap < u128_mod
        → logic ud vd vw uw amount bound x y id ≡ some moved
        → (moved.1 ≤ cap)
          × Fits moved.1 moved.2
          × Trade x y moved.1 moved.2
          × Exchange ext ud vd vw uw moved.0 moved.1 moved.2)
      (pool va vb ua ub : AccountWithMetadata) (token : AccountId) (p : PoolDefinition)
      (result : List AccountPostState × List ChainedCall)
      → ext.decode_pool pool.account.data_bytes ≡ some p
      → HasRoom p cap
      → swap_with ext logic pool va vb ua ub amount bound token ≡ some result
      → (i : ℕ) × (o : ℕ) × (q : PoolDefinition) × (ext.decode_pool (data_at 0 result.0) ≡ some q)
        × Fits i o
        × Swapped p q token i o
        × Exchanged ext p token va vb ua ub result.1 i o
  unfolding swap_with
  swap_with-Swapped logic Fits cap amount bound good pool va vb ua ub token p result is room h =
      let (p', setup, h₁) = >>=-eq-some (validate_swap_setup ext pool va vb) _ h in
      let same : p' ≡ p = some-injective (sym (setup_pool pool va vb p' setup) ∙ is) in
      let h₂ = rw same at h₁ in
      elim (Bool-cases (token == p.definition_token_a_id)) [
        | inl a ↦
            let (moved, e, h₃) =
              >>=-eq-some (logic ua va vb ub amount bound p.reserve_a p.reserve_b pool.account_id) _
                (rw a at h₂) in
            let (posts, made, h₄) =
              >>=-eq-some (create_swap_post_states ext pool p va vb ua ub (moved.1, 0) (0, moved.2))
                _ h₃ in
            let (small, fits, trade, paid) =
              good ua va vb ub p.reserve_a p.reserve_b pool.account_id moved room.0 e in
            let is_a = (==_iff _ _).0 a in
            let (read, chained) =
              result_pool pool va vb ua ub p (moved.1, 0) (0, moved.2) posts moved.0 result
                (λ cs. Exchange ext ua va vb ub cs moved.1 moved.2) made h₄ paid in
            (
              moved.1,
              moved.2,
              after p (moved.1, 0) (0, moved.2),
              read,
              fits,
              sold_a p token moved.1 moved.2 cap is_a room small trade,
              inl (is_a, chained),
            )
        | inr not_a ↦ elim (Bool-cases (token == p.definition_token_b_id)) [
          | inl b ↦
              let (moved, e, h₃) =
                >>=-eq-some (logic ub vb va ua amount bound p.reserve_b p.reserve_a pool.account_id)
                  _ (rw (not_a, b) at h₂) in
              let (posts, made, h₄) =
                >>=-eq-some
                  (create_swap_post_states ext pool p va vb ua ub (0, moved.2) (moved.1, 0)) _ h₃ in
              let (small, fits, trade, paid) =
                good ub vb va ua p.reserve_b p.reserve_a pool.account_id moved room.1 e in
              let is_b = (==_iff _ _).0 b in
              let (read, chained) =
                result_pool pool va vb ua ub p (0, moved.2) (moved.1, 0) posts moved.0 result
                  (λ cs. Exchange ext ub vb va ua cs moved.1 moved.2) made h₄ paid in
              (
                moved.1,
                moved.2,
                after p (0, moved.2) (moved.1, 0),
                read,
                fits,
                sold_b p token moved.1 moved.2 cap is_b room small trade,
                inr (is_b, chained),
              )
          | inr not_b ↦ absurd (none-ne-some (rw (not_a, not_b) at h₂))
        ]
      ]

  -- Under the round trip of Borsh, a swap of an exact input that succeeds, for whose amount the reserves have room, adds
  -- that amount to the reserve of the token in, takes at least the demanded amount from the other reserve, which has
  -- it, and does not lower the product of the reserves. The calls that it chains are two transfers of just these
  -- amounts: from the user to the vault of the token in, and from the other vault to the user.
  pub swap_exact_input-Swapped :
      (pool va vb ua ub : AccountWithMetadata) (amount_in min_out : ℕ) (token : AccountId)
      (p : PoolDefinition) (result : List AccountPostState × List ChainedCall)
      → ext.decode_pool pool.account.data_bytes ≡ some p
      → HasRoom p amount_in
      → swap_exact_input ext pool va vb ua ub amount_in min_out token ≡ some result
      → (i : ℕ) × (o : ℕ) × (q : PoolDefinition) × (ext.decode_pool (data_at 0 result.0) ≡ some q)
        × ((i ≡ amount_in) × (min_out ≤ o))
        × Swapped p q token i o
        × Exchanged ext p token va vb ua ub result.1 i o
  unfolding swap_exact_input
  swap_exact_input-Swapped pool va vb ua ub amount_in min_out token p result is room h =
      swap_with-Swapped (swap_logic ext) (λ i o. (i ≡ amount_in) × (min_out ≤ o)) amount_in
        amount_in min_out
        (λ ud vd vw uw x y id moved r e.
          let (exact, fits, trade) =
            swap_logic-Trade ext ud vd vw uw amount_in min_out x y id moved r e in
          (
            omega (arith, exact),
            (exact, fits),
            trade,
            swap_logic-Exchange ext ud vd vw uw amount_in min_out x y id moved e,
          ))
        pool va vb ua ub token p result is room h

  -- Under the round trip of Borsh, a swap for an exact output that succeeds, for whose highest amount in the reserves
  -- have room, takes exactly that output from one reserve, which has it, adds at most the highest amount to the reserve
  -- of the token in, and does not lower the product of the reserves. The calls that it chains are two transfers of
  -- just these amounts: from the user to the vault of the token in, and from the other vault to the user.
  pub swap_exact_output-Swapped :
      (pool va vb ua ub : AccountWithMetadata) (amount_out max_in : ℕ) (token : AccountId)
      (p : PoolDefinition) (result : List AccountPostState × List ChainedCall)
      → ext.decode_pool pool.account.data_bytes ≡ some p
      → HasRoom p max_in
      → swap_exact_output ext pool va vb ua ub amount_out max_in token ≡ some result
      → (i : ℕ) × (o : ℕ) × (q : PoolDefinition) × (ext.decode_pool (data_at 0 result.0) ≡ some q)
        × ((o ≡ amount_out) × (i ≤ max_in))
        × Swapped p q token i o
        × Exchanged ext p token va vb ua ub result.1 i o
  unfolding swap_exact_output
  swap_exact_output-Swapped pool va vb ua ub amount_out max_in token p result is room h =
      swap_with-Swapped (exact_output_swap_logic ext) (λ i o. (o ≡ amount_out) × (i ≤ max_in))
        max_in amount_out max_in
        (λ ud vd vw uw x y id moved r e.
          let (exact, fits, trade) =
            exact_output_swap_logic-Trade ext ud vd vw uw amount_out max_in x y id moved e in
          (
            fits,
            (exact, fits),
            trade,
            exact_output_swap_logic-Exchange ext ud vd vw uw amount_out max_in x y id moved e,
          ))
        pool va vb ua ub token p result is room h
