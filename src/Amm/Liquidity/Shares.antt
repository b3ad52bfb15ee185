-- ===== src/Amm/Liquidity/Shares.antt =====
-- What a share of a pool is worth when liquidity is added or removed
-- (lez/programs/amm/src/add.rs, remove.rs).
use native.Mathlib.Nat.{mod-eq_of_lt, mul_comm, mul-add, mul-sub, add-mul, mul-le-mul_left}
use lssa.Prelude.{
  ℕ, ◌+◌, ◌-◌, ◌*◌, ◌≤◌, ◌<◌, ◌≡◌, [], ◌∷◌, refl, sym, ◌∙◌, ap, subst, arith, not, some, List, ◌==◌,
}
use lssa.Prelude.Options.{>>=-eq-some, some-injective}
use lssa.Account.{Account, AccountWithMetadata, u128_mod}
use lssa.Program.{ChainedCall, AccountPostState}
use lssa.Program.Ids.{to_program_id}
use lssa.Token.{Instruction}
use lssa.Token.Operations.{with_data}
use lssa.Token.Operations.Amounts.{data_at, with_data-eq}
use lssa.Amm.{AmmExternals, PoolDefinition}
use lssa.Amm.Chained.{Chains}
use lssa.Amm.Swap.{wrapping_add, wrapping_sub}
use lssa.Amm.Liquidity.Amounts.{
  AddedAmounts, RemovedAmounts, added_amounts-AddedAmounts, removed_amounts-RemovedAmounts,
}
use lssa.Amm.Liquidity.{
  added_amounts, removed_amounts, pool_with_added, pool_with_removed, add_liquidity,
  remove_liquidity, check_addition, check_removal,
}

-- No share of the first pool is worth less in the second: for each unit of liquidity, the
-- reserves have not fallen.
abbrev pub IsFair : PoolDefinition → PoolDefinition → Type 0
IsFair p q =
    (q.liquidity_pool_supply * p.reserve_a ≤ p.liquidity_pool_supply * q.reserve_a)
    × (q.liquidity_pool_supply * p.reserve_b ≤ p.liquidity_pool_supply * q.reserve_b)

-- The calls mint an amount of liquidity to the user, who pays both tokens into the vaults.
abbrev pub PaysIn :
    AmmExternals
    → AccountWithMetadata
    → AccountWithMetadata
    → AccountWithMetadata
    → AccountWithMetadata
    → AccountWithMetadata
    → AccountWithMetadata
    → List ChainedCall
    → ℕ
    → ℕ
    → ℕ
    → Type 0
PaysIn ext va vb lp ua ub ul calls a b delta =
    Chains ext (to_program_id ua.account.program_owner) calls (
      (Instruction.mint delta, lp.account_id, ul.account_id)
      ∷ (Instruction.transfer b, ub.account_id, vb.account_id)
      ∷ (Instruction.transfer a, ua.account_id, va.account_id)
      ∷ [])

-- The calls burn an amount of the user's liquidity and pay both tokens out of the vaults.
abbrev pub PaysOut :
    AmmExternals
    → AccountWithMetadata
    → AccountWithMetadata
    → AccountWithMetadata
    → AccountWithMetadata
    → AccountWithMetadata
    → AccountWithMetadata
    → List ChainedCall
    → ℕ
    → ℕ
    → ℕ
    → Type 0
PaysOut ext va vb lp ua ub ul calls a b amount =
    Chains ext (to_program_id ua.account.program_owner) calls (
      (Instruction.burn amount, lp.account_id, ul.account_id)
      ∷ (Instruction.transfer b, vb.account_id, ub.account_id)
      ∷ (Instruction.transfer a, va.account_id, ua.account_id)
      ∷ [])

added_fair : (s r a d : ℕ) → d * r ≤ s * a → (s + d) * r ≤ s * (r + a)
added_fair s r a d h = omega (arith, h, add-mul s d r, mul-add s r a)

removed_fair : (s r a n : ℕ) → n ≤ s → a ≤ r → a * s ≤ r * n → (s - n) * r ≤ s * (r - a)
removed_fair s r a n k l h =
    omega
      (arith, k, l, h, mul_comm (s - n) r, mul-sub r s n, mul-sub s r a, mul_comm a s, mul_comm r s)

wrapped_less : (x y : ℕ) → x < u128_mod → y ≤ x → wrapping_sub x y ≡ x - y
wrapped_less x y h k = omega (arith, h, k)

left_active : (s n : ℕ) → n ≤ s → not (s - n == 0) ≡ not (s == n)
left_active s n h = ground arith

module _ (ext : AmmExternals)
    (borsh : (p : PoolDefinition) → ext.decode_pool (ext.encode_pool p) ≡ some p) where
  post_pool :
      (a : Account) (q : PoolDefinition) (post : Account)
      → with_data a (ext.encode_pool q) ≡ some post
      → ext.decode_pool post.data_bytes ≡ some q
  post_pool a q post e =
      ap (λ (r : Account). ext.decode_pool r.data_bytes) (with_data-eq a (ext.encode_pool q) post e)
      ∙ borsh q

  -- What went through when liquidity was added.
  add_liquidity-steps :
      (pool va vb lp ua ub ul : AccountWithMetadata) (low max_a max_b : ℕ) (p : PoolDefinition)
      (result : List AccountPostState × List ChainedCall)
      → ext.decode_pool pool.account.data_bytes ≡ some p
      → add_liquidity ext pool va vb lp ua ub ul low max_a max_b ≡ some result
      → (m : ℕ × ℕ × ℕ) × (added_amounts p low max_a max_b ≡ some m)
        × (ext.decode_pool (data_at 0 result.0) ≡ some (pool_with_added p m))
        × PaysIn ext va vb lp ua ub ul result.1 m.0 m.1 m.2
  unfolding add_liquidity
  add_liquidity-steps pool va vb lp ua ub ul low max_a max_b p result is h =
      let (p', read, h₁) = >>=-eq-some (ext.decode_pool pool.account.data_bytes) _ h in
      let same : p' ≡ p = some-injective (sym read ∙ is) in
      let (_, _, h₂) = >>=-eq-some (check_addition ext p va vb lp max_a max_b) _ (rw same at h₁) in
      let (m, sums, h₃) = >>=-eq-some (added_amounts p low max_a max_b) _ h₂ in
      let (post, made, h₄) =
        >>=-eq-some (with_data pool.account (ext.encode_pool (pool_with_added p m))) _ h₃ in
      subst
        (λ (r : List AccountPostState × List ChainedCall).
          (k : ℕ × ℕ × ℕ) × (added_amounts p low max_a max_b ≡ some k)
          × (ext.decode_pool (data_at 0 r.0) ≡ some (pool_with_added p k))
          × PaysIn ext va vb lp ua ub ul r.1 k.0 k.1 k.2)
        (some-injective h₄)
        (
          m,
          sums,
          post_pool pool.account (pool_with_added p m) post made,
          (refl, refl, refl, (refl, refl, refl, (refl, refl, refl, tt))),
        )

  -- What went through when liquidity was removed.
  remove_liquidity-steps :
      (pool va vb lp ua ub ul : AccountWithMetadata) (amount min_a min_b : ℕ) (p : PoolDefinition)
      (result : List AccountPostState × List ChainedCall)
      → ext.decode_pool pool.account.data_bytes ≡ some p
      → remove_liquidity ext pool va vb lp ua ub ul amount min_a min_b ≡ some result
      → (m : ℕ × ℕ × ℕ) × (removed_amounts p amount min_a min_b ≡ some m)
        × (ext.decode_pool (data_at 0 result.0) ≡ some (pool_with_removed p m))
        × PaysOut ext va vb lp ua ub ul result.1 m.0 m.1 m.2
  unfolding remove_liquidity
  remove_liquidity-steps pool va vb lp ua ub ul amount min_a min_b p result is h =
      let (p', read, h₁) = >>=-eq-some (ext.decode_pool pool.account.data_bytes) _ h in
      let same : p' ≡ p = some-injective (sym read ∙ is) in
      let (_, _, h₂) =
        >>=-eq-some (check_removal ext p va vb lp ul min_a min_b) _ (rw same at h₁) in
      let (m, sums, h₃) = >>=-eq-some (removed_amounts p amount min_a min_b) _ h₂ in
      let (post, made, h₄) =
        >>=-eq-some (with_data pool.account (ext.encode_pool (pool_with_removed p m))) _ h₃ in
      subst
        (λ (r : List AccountPostState × List ChainedCall).
          (k : ℕ × ℕ × ℕ) × (removed_amounts p amount min_a min_b ≡ some k)
          × (ext.decode_pool (data_at 0 r.0) ≡ some (pool_with_removed p k))
          × PaysOut ext va vb lp ua ub ul r.1 k.0 k.1 k.2)
        (some-injective h₄)
        (
          m,
          sums,
          post_pool pool.account (pool_with_removed p m) post made,
          (refl, refl, refl, (refl, refl, refl, (refl, refl, refl, tt))),
        )

  -- Under the round trip of Borsh, adding liquidity adds at most the given amounts to the reserves and
  -- at least the demanded liquidity to the supply, and no share of the pool is worth less afterwards, provided that
  -- the reserves have room for the amounts and the products with the supply stay below 2^128. The calls that it
  -- chains mint just this liquidity to the user, and transfer just these amounts from the user to the vaults.
  pub add_liquidity-IsFair :
      (pool va vb lp ua ub ul : AccountWithMetadata) (low max_a max_b : ℕ) (p : PoolDefinition)
      (result : List AccountPostState × List ChainedCall)
      → ext.decode_pool pool.account.data_bytes ≡ some p
      → p.reserve_a + max_a < u128_mod
      → p.reserve_b + max_b < u128_mod
      → p.liquidity_pool_supply * (max_a + 1) < u128_mod
      → p.liquidity_pool_supply * max_b < u128_mod
      → add_liquidity ext pool va vb lp ua ub ul low max_a max_b ≡ some result
      → (a : ℕ) × (b : ℕ) × (delta : ℕ) × (q : PoolDefinition) × (ext.decode_pool
            (data_at 0 result.0)
          ≡ some q)
        × (q.reserve_a ≡ p.reserve_a + a)
        × (q.reserve_b ≡ p.reserve_b + b)
        × (q.liquidity_pool_supply ≡ p.liquidity_pool_supply + delta)
        × (a ≤ max_a)
        × (b ≤ max_b)
        × (low ≤ delta)
        × IsFair p q
        × PaysIn ext va vb lp ua ub ul result.1 a b delta
  add_liquidity-IsFair pool va vb lp ua ub ul low max_a max_b p result is room_a room_b fits_a
        fits_b h =
      let (m, sums, read, paid) =
        add_liquidity-steps pool va vb lp ua ub ul low max_a max_b p result is h in
      let s = p.liquidity_pool_supply in
      let more : s * (max_a + 1) ≡ s * max_a + s = omega (arith, mul-add s max_a 1) in
      let k : AddedAmounts p low max_a max_b m =
        added_amounts-AddedAmounts p low max_a max_b m (omega (arith, fits_a, more)) fits_b sums in
      let limit : s * m.0 ≤ s * max_a = mul-le-mul_left s k.a_limited in
      let into_a : wrapping_add p.reserve_a m.0 ≡ p.reserve_a + m.0 =
        mod-eq_of_lt (omega (arith, room_a, k.a_limited)) in
      let into_b : wrapping_add p.reserve_b m.1 ≡ p.reserve_b + m.1 =
        mod-eq_of_lt (omega (arith, room_b, k.b_limited)) in
      let supply : wrapping_add s m.2 ≡ s + m.2 =
        mod-eq_of_lt (omega (arith, k.bounded, limit, more, fits_a)) in
      (
        m.0,
        m.1,
        m.2,
        pool_with_added p m,
        read,
        into_a,
        into_b,
        supply,
        k.a_limited,
        k.b_limited,
        k.paid,
        (
          rw (supply, into_a) (added_fair s p.reserve_a m.0 m.2 k.a_share),
          rw (supply, into_b) (added_fair s p.reserve_b m.1 m.2 k.b_share),
        ),
        paid,
      )

  -- Under the round trip of Borsh, removing liquidity takes exactly that amount from the supply and
  -- at least the demanded amounts from the reserves, which have them, and no share of the pool is worth less afterwards;
  -- the pool stays active exactly if liquidity is left. The products of the amount with the reserves and with the supply
  -- stay below 2^128, and the amount is at most the supply, which the burning that is chained demands of the holder.
  -- The calls that it chains burn just this amount of the user's liquidity, and transfer just what was taken from the
  -- reserves out of the vaults to the user.
  pub remove_liquidity-IsFair :
      (pool va vb lp ua ub ul : AccountWithMetadata) (amount min_a min_b : ℕ) (p : PoolDefinition)
      (result : List AccountPostState × List ChainedCall)
      → ext.decode_pool pool.account.data_bytes ≡ some p
      → p.reserve_a < u128_mod
      → p.reserve_b < u128_mod
      → p.liquidity_pool_supply < u128_mod
      → p.reserve_a * amount < u128_mod
      → p.reserve_b * amount < u128_mod
      → p.liquidity_pool_supply * amount < u128_mod
      → amount ≤ p.liquidity_pool_supply
      → remove_liquidity ext pool va vb lp ua ub ul amount min_a min_b ≡ some result
      → (a : ℕ) × (b : ℕ) × (q : PoolDefinition) × (ext.decode_pool (data_at 0 result.0) ≡ some q)
        × (q.reserve_a + a ≡ p.reserve_a)
        × (q.reserve_b + b ≡ p.reserve_b)
        × (q.liquidity_pool_supply + amount ≡ p.liquidity_pool_supply)
        × (min_a ≤ a)
        × (min_b ≤ b)
        × (q.active ≡ not (p.liquidity_pool_supply == amount))
        × IsFair p q
        × PaysOut ext va vb lp ua ub ul result.1 a b amount
  remove_liquidity-IsFair pool va vb lp ua ub ul amount min_a min_b p result is in_a in_b in_s
        fits_a fits_b fits owned h =
      let (m, taken, read, paid) =
        remove_liquidity-steps pool va vb lp ua ub ul amount min_a min_b p result is h in
      let s = p.liquidity_pool_supply in
      let k : RemovedAmounts p amount min_a min_b m =
        removed_amounts-RemovedAmounts p amount min_a min_b m fits_a fits_b fits taken in
      let out_a = wrapped_less p.reserve_a m.0 in_a (k.a_bounded owned) in
      let out_b = wrapped_less p.reserve_b m.1 in_b (k.b_bounded owned) in
      let less : wrapping_sub s m.2 ≡ s - amount =
        rw (k.burned) (wrapped_less s amount in_s owned) in
      (
        m.0,
        m.1,
        pool_with_removed p m,
        read,
        omega (arith, out_a, k.a_bounded owned),
        omega (arith, out_b, k.b_bounded owned),
        omega (arith, less, owned),
        k.a_paid,
        k.b_paid,
        rw less (left_active s amount owned),
        (
          rw (less, out_a)
              (removed_fair s p.reserve_a m.0 amount owned (k.a_bounded owned) k.a_share),
          rw (less, out_b)
              (removed_fair s p.reserve_b m.1 amount owned (k.b_bounded owned) k.b_share),
        ),
        subst (λ n. PaysOut ext va vb lp ua ub ul result.1 m.0 m.1 n) k.burned paid,
      )
