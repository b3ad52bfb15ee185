-- ===== src/Amm/Pools/Opened.antt =====
-- What a new pool holds (lez/programs/amm/src/new_definition.rs).
use native.Mathlib.Nat.{mod-eq_of_lt, pow-suc}
use lssa.Prelude.{
  ℕ, zero, suc, ◌+◌, ◌*◌, ◌^◌, ◌≤◌, ◌<◌, ◌≡◌, refl, sym, ◌∙◌, ap, subst, inl, inr, arith, leb,
  leb→le, true, false, Bool-cases, not, ◌==◌, ◌≢◌, some, List,
}
use lssa.Prelude.Options.{>>=-eq-some, some-injective}
use lssa.Account.{Account, AccountWithMetadata}
use lssa.Program.{AccountPostState, ChainedCall, ProgramId}
use lssa.Token.{definition_id}
use lssa.Token.Operations.{with_data}
use lssa.Token.Operations.Amounts.{assert->>, data_at, with_data-eq}
use lssa.Amm.{AmmExternals, PoolDefinition}
use lssa.Amm.Liquidity.{wrapping_mul}
use lssa.Amm.Pools.{
  root_bits, isqrt, stored_pool, check_new_accounts, compute_pool_pda_seed, new_definition,
}

-- The root that is found and the bits that are left enclose the number's root.
root_bits-encloses :
    (k n root : ℕ)
    → root * root ≤ n
    → n < (root + 2 ^ k) * (root + 2 ^ k)
    → (root_bits k n root * root_bits k n root ≤ n)
      × (n < (root_bits k n root + 1) * (root_bits k n root + 1))
root_bits-encloses zero n root h l = (h, l)
root_bits-encloses (suc k) n root h l =
    elim (Bool-cases (leb ((root + 2 ^ k) * (root + 2 ^ k)) n)) [
      | inl fits ↦
          rw fits (root_bits-encloses k n (root + 2 ^ k) (leb→le _ _ fits) (upper root k l))
      | inr over ↦
          rw over (root_bits-encloses k n root h (not_leb ((root + 2 ^ k) * (root + 2 ^ k)) over))
    ]
  where
    not_leb : (m : ℕ) → leb m n ≡ false → n < m
    not_leb m e = ground arith

    upper :
        (r j : ℕ)
        → n < (r + 2 ^ (suc j)) * (r + 2 ^ (suc j))
        → n < (r + 2 ^ j + 2 ^ j) * (r + 2 ^ j + 2 ^ j)
    upper r j e = subst (λ m. n < m * m) (omega (arith, pow-suc 2 j)) e

-- The integer square root of a 128-bit number is exact: its square is at most the number, and the
-- next square is above it.
pub isqrt_exact :
    (n : ℕ) → n < 2 ^ 128 → (isqrt n * isqrt n ≤ n) × (n < (isqrt n + 1) * (isqrt n + 1))
unfolding isqrt
isqrt_exact n h = root_bits-encloses 64 n 0 (omega arith) (omega (arith, h))

module _ (ext : AmmExternals)
    (borsh : (p : PoolDefinition) → ext.decode_pool (ext.encode_pool p) ≡ some p) where
  -- Under the round trip of Borsh, a new pool that is set up, in an account without an active one, is active, holds the two
  -- amounts as reserves of two different tokens, and its liquidity is the integer square root of their product, which stays
  -- below 2^128.
  pub new_definition_opens :
      (pool va vb lp ua ub ul : AccountWithMetadata) (a b : ℕ) (id : ProgramId)
      (result : List AccountPostState × List ChainedCall)
      → a * b < 2 ^ 128
      → new_definition ext pool va vb lp ua ub ul a b id ≡ some result
      → (q : PoolDefinition) × (ext.decode_pool (data_at 0 result.0) ≡ some q)
        × (q.active ≡ true)
        × (q.reserve_a ≡ a)
        × (q.reserve_b ≡ b)
        × (q.definition_token_a_id ≢ q.definition_token_b_id)
        × (q.liquidity_pool_supply * q.liquidity_pool_supply ≤ a * b)
        × (a * b < (q.liquidity_pool_supply + 1) * (q.liquidity_pool_supply + 1))
  unfolding new_definition check_new_accounts
  new_definition_opens pool va vb lp ua ub ul a b id result fits h =
      let (ha, _, h₁) = >>=-eq-some (ext.tokens.decode_holding ua.account.data_bytes) _ h in
      let (hb, _, h₂) = >>=-eq-some (ext.tokens.decode_holding ub.account.data_bytes) _ h₁ in
      let ta = definition_id ha in
      let tb = definition_id hb in
      let (_, checked, h₃) =
        >>=-eq-some (check_new_accounts ext pool va vb lp ua ub ta tb id) _ h₂ in
      let (_, c₁) = assert->> (ub.account.program_owner == ua.account.program_owner) _ checked in
      let (differ, _) = assert->> (not (ta == tb)) _ c₁ in
      let (stored, _, h₄) = >>=-eq-some (stored_pool ext pool.account) _ h₃ in
      let (_, h₅) = assert->> (not stored.active) _ h₄ in
      let q : PoolDefinition = record {
        definition_token_a_id = ta;
        definition_token_b_id = tb;
        vault_a_id = va.account_id;
        vault_b_id = vb.account_id;
        liquidity_pool_id = lp.account_id;
        liquidity_pool_supply = isqrt (wrapping_mul a b);
        reserve_a = a;
        reserve_b = b;
        fees = 0;
        active = true;
      } in
      let (post, made, h₆) = >>=-eq-some (with_data pool.account (ext.encode_pool q)) _ h₅ in
      let (seed, _, h₇) = >>=-eq-some (compute_pool_pda_seed ext ta tb) _ h₆ in
      let exact : wrapping_mul a b ≡ a * b = mod-eq_of_lt fits in
      let (below, above) = isqrt_exact (a * b) fits in
      (
        q,
        subst
            (λ (r : List AccountPostState × List ChainedCall).
              ext.decode_pool (data_at 0 r.0) ≡ some q)
            (some-injective h₇)
            (ap (λ (r : Account). ext.decode_pool r.data_bytes)
                (with_data-eq pool.account (ext.encode_pool q) post made)
              ∙ borsh q),
        refl,
        refl,
        refl,
        tokens_differ ta tb differ,
        subst (λ n. isqrt n * isqrt n ≤ a * b) (sym exact) below,
        subst (λ n. a * b < (isqrt n + 1) * (isqrt n + 1)) (sym exact) above,
      )
    where
      tokens_differ : (x y : ℕ) → not (x == y) ≡ true → x ≢ y
      tokens_differ x y e = ground arith
