-- ===== src/Amm/Liquidity/Amounts.antt =====
-- The amounts of an addition or a removal of liquidity
-- (lez/programs/amm/src/add.rs, remove.rs).
use native.Mathlib.Nat.{
  mod-eq_of_lt, div-mul-le_self, div-le_self, mul-div_cancel_left, le_of_mul-le-mul_right,
  mul-le-mul_left, mul-le-mul_right,
}
use lssa.Prelude.{
  ℕ, zero, suc, ◌*◌, ◌/◌, ◌≤◌, ◌<◌, ◌≡◌, sym, ◌∙◌, ap, subst, arith, not, some, leb, ltb, ◌==◌, min,
  if◌then◌else◌, leb→le,
}
use lssa.Prelude.Options.{>>=-eq-some, some-injective}
use lssa.Account.{u128_mod}
use lssa.Token.Operations.Amounts.{assert->>}
use lssa.Amm.{PoolDefinition}
use lssa.Amm.Swap.{divide}
use lssa.Amm.Liquidity.{wrapping_mul, added_amounts, removed_amounts}

-- A quotient of a product that does not overflow.
divide-le : (x y d q : ℕ) → x * y < u128_mod → divide (wrapping_mul x y) d ≡ some q → q * d ≤ x * y
divide-le x y zero q fits h = cc
divide-le x y (suc d) q fits h =
    let is : (wrapping_mul x y) / suc d ≡ q = some-injective h in
    let below : ((wrapping_mul x y) / suc d) * suc d ≤ wrapping_mul x y =
      div-mul-le_self (wrapping_mul x y) (suc d) in
    omega (arith, mod-eq_of_lt fits, rw is at below)

divide-le_product :
    (x y d q : ℕ) → x * y < u128_mod → divide (wrapping_mul x y) d ≡ some q → q ≤ x * y
divide-le_product x y zero q fits h = cc
divide-le_product x y (suc d) q fits h =
    let is : (wrapping_mul x y) / suc d ≡ q = some-injective h in
    let below : (wrapping_mul x y) / suc d ≤ wrapping_mul x y =
      div-le_self (wrapping_mul x y) (suc d) in
    omega (arith, mod-eq_of_lt fits, rw is at below)

-- The amounts of an addition: within the limits, and for no more liquidity than the share that
-- each token adds.
pub record AddedAmounts (p : PoolDefinition) (low max_a max_b : ℕ) (m : ℕ × ℕ × ℕ) : Type 0 where
  pub a_limited : m.0 ≤ max_a
  pub b_limited : m.1 ≤ max_b
  pub paid : low ≤ m.2
  pub a_share : m.2 * p.reserve_a ≤ p.liquidity_pool_supply * m.0
  pub b_share : m.2 * p.reserve_b ≤ p.liquidity_pool_supply * m.1
  pub bounded : m.2 ≤ p.liquidity_pool_supply * m.0

limited-le : (m ideal : ℕ) → (if ltb m ideal then m else ideal) ≤ m
limited-le m ideal = ground arith

min-mul-le_left : (x y r z : ℕ) → x * r ≤ z → min x y * r ≤ z
min-mul-le_left x y r z h =
    let k : min x y * r ≤ x * r = mul-le-mul_right r (omega arith) in omega (arith, h, k)

min-mul-le_right : (x y r z : ℕ) → y * r ≤ z → min x y * r ≤ z
min-mul-le_right x y r z h =
    let k : min x y * r ≤ y * r = mul-le-mul_right r (omega arith) in omega (arith, h, k)

product_fits : (s a m : ℕ) → a ≤ m → s * m < u128_mod → s * a < u128_mod
product_fits s a m h k = let less : s * a ≤ s * m = mul-le-mul_left s h in omega (arith, less, k)

pub added_amounts-AddedAmounts :
    (p : PoolDefinition) (low max_a max_b : ℕ) (m : ℕ × ℕ × ℕ)
    → p.liquidity_pool_supply * max_a < u128_mod
    → p.liquidity_pool_supply * max_b < u128_mod
    → added_amounts p low max_a max_b ≡ some m
    → AddedAmounts p low max_a max_b m
unfolding added_amounts
added_amounts-AddedAmounts p low max_a max_b m fits_a fits_b h =
    let (ideal_a, _, h₁) = >>=-eq-some (divide (wrapping_mul p.reserve_a max_b) p.reserve_b) _ h in
    let (ideal_b, _, h₂) = >>=-eq-some (divide (wrapping_mul p.reserve_b max_a) p.reserve_a) _ h₁ in
    let a : ℕ = if ltb max_a ideal_a then max_a else ideal_a in
    let b : ℕ = if ltb max_b ideal_b then max_b else ideal_b in
    let a_fits : a ≤ max_a = limited-le max_a ideal_a in
    let b_fits : b ≤ max_b = limited-le max_b ideal_b in
    let (_, h₃) = assert->> (leb a max_a) _ h₂ in
    let (_, h₄) = assert->> (leb b max_b) _ h₃ in
    let (_, h₅) = assert->> (not (a == 0)) _ h₄ in
    let (_, h₆) = assert->> (not (b == 0)) _ h₅ in
    let (share_a, e_a, h₇) =
      >>=-eq-some (divide (wrapping_mul p.liquidity_pool_supply a) p.reserve_a) _ h₆ in
    let (share_b, e_b, h₈) =
      >>=-eq-some (divide (wrapping_mul p.liquidity_pool_supply b) p.reserve_b) _ h₇ in
    let (_, h₉) = assert->> (not (min share_a share_b == 0)) _ h₈ in
    let (enough, h₁₀) = assert->> (leb low (min share_a share_b)) _ h₉ in
    let share_of_a =
      divide-le p.liquidity_pool_supply a p.reserve_a share_a
        (product_fits p.liquidity_pool_supply a max_a a_fits fits_a) e_a in
    let share_of_b =
      divide-le p.liquidity_pool_supply b p.reserve_b share_b
        (product_fits p.liquidity_pool_supply b max_b b_fits fits_b) e_b in
    subst (AddedAmounts p low max_a max_b)
      (some-injective {a = (a, b, min share_a share_b)} {b = m} h₁₀)
      (record {
        a_limited = a_fits;
        b_limited = b_fits;
        paid = leb→le low (min share_a share_b) enough;
        a_share = min-mul-le_left share_a share_b p.reserve_a _ share_of_a;
        b_share = min-mul-le_right share_a share_b p.reserve_b _ share_of_b;
        bounded = omega (
          arith,
          divide-le_product p.liquidity_pool_supply a p.reserve_a share_a
              (product_fits p.liquidity_pool_supply a max_a a_fits fits_a) e_a,
        );
      })

-- The amounts of a removal: at least what was asked for, and no more than the share of the
-- liquidity that is burned, which is exactly the requested one.
pub record RemovedAmounts (p : PoolDefinition) (amount min_a min_b : ℕ) (m : ℕ × ℕ × ℕ)
    : Type 0 where
  pub a_paid : min_a ≤ m.0
  pub b_paid : min_b ≤ m.1
  pub burned : m.2 ≡ amount
  pub a_bounded : amount ≤ p.liquidity_pool_supply → m.0 ≤ p.reserve_a
  pub b_bounded : amount ≤ p.liquidity_pool_supply → m.1 ≤ p.reserve_b
  pub a_share : m.0 * p.liquidity_pool_supply ≤ p.reserve_a * amount
  pub b_share : m.1 * p.liquidity_pool_supply ≤ p.reserve_b * amount

divide-bounded :
    (x y d q : ℕ) → x * y < u128_mod → y ≤ d → divide (wrapping_mul x y) d ≡ some q → q ≤ x
divide-bounded x y zero q fits k h = cc
divide-bounded x y (suc d) q fits k h =
    let below : q * suc d ≤ x * y = divide-le x y (suc d) q fits h in
    let more : x * y ≤ x * suc d = mul-le-mul_left x k in
    le_of_mul-le-mul_right {m = q} {n = x} {k = suc d} (omega (arith, below, more)) (omega arith)

divide-exact : (d n q : ℕ) → d * n < u128_mod → divide (wrapping_mul d n) d ≡ some q → q ≡ n
divide-exact zero n q fits h = cc
divide-exact (suc d) n q fits h =
    let is : (wrapping_mul (suc d) n) / suc d ≡ q = some-injective h in
    sym is ∙ ap (λ k. k / suc d) (mod-eq_of_lt fits) ∙ mul-div_cancel_left n (omega arith)

pub removed_amounts-RemovedAmounts :
    (p : PoolDefinition) (amount min_a min_b : ℕ) (m : ℕ × ℕ × ℕ)
    → p.reserve_a * amount < u128_mod
    → p.reserve_b * amount < u128_mod
    → p.liquidity_pool_supply * amount < u128_mod
    → removed_amounts p amount min_a min_b ≡ some m
    → RemovedAmounts p amount min_a min_b m
unfolding removed_amounts
removed_amounts-RemovedAmounts p amount min_a min_b m fits_a fits_b fits h =
    let s = p.liquidity_pool_supply in
    let (a, e_a, h₁) = >>=-eq-some (divide (wrapping_mul p.reserve_a amount) s) _ h in
    let (b, e_b, h₂) = >>=-eq-some (divide (wrapping_mul p.reserve_b amount) s) _ h₁ in
    let (enough_a, h₃) = assert->> (leb min_a a) _ h₂ in
    let (enough_b, h₄) = assert->> (leb min_b b) _ h₃ in
    let (delta, e, h₅) = >>=-eq-some (divide (wrapping_mul s amount) s) _ h₄ in
    subst (RemovedAmounts p amount min_a min_b) (some-injective {a = (a, b, delta)} {b = m} h₅)
      (record {
        a_paid = leb→le min_a a enough_a;
        b_paid = leb→le min_b b enough_b;
        burned = divide-exact s amount delta fits e;
        a_bounded = λ k. divide-bounded p.reserve_a amount s a fits_a k e_a;
        b_bounded = λ k. divide-bounded p.reserve_b amount s b fits_b k e_b;
        a_share = divide-le p.reserve_a amount s a fits_a e_a;
        b_share = divide-le p.reserve_b amount s b fits_b e_b;
      })
