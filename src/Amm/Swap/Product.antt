-- ===== src/Amm/Swap/Product.antt =====
-- The constant product of a pool under swaps (lez/programs/amm/src/swap.rs).
use native.Mathlib.Nat.{
  mod-eq_of_lt, mul-sub, mul-add, mul_comm, add-mul, div-mul-le_self, div-add-mod', lt-div-mul-add,
  div-lt_iff_lt-mul,
}
use lssa.Prelude.{
  ℕ, zero, suc, ◌+◌, ◌-◌, ◌*◌, ◌/◌, ◌≤◌, ◌<◌, ◌≡◌, ◌↔◌, refl, arith, not, some, List, leb, ltb,
  ◌==◌, leb→le, ltb→lt, subst,
}
use lssa.Prelude.Options.{>>=-eq-some, some-injective}
use lssa.Account.{AccountId, AccountWithMetadata, u128_mod}
use lssa.Program.{ChainedCall}
use lssa.Token.Operations.Amounts.{assert->>}
use lssa.Amm.{AmmExternals}
use lssa.Amm.Swap.{
  swap_logic, exact_output_swap_logic, swap_calls, checked_mul, divide, div_ceil, wrapping_add,
}

product_kept : (x y i o : ℕ) → o * (x + i) ≤ y * i → o ≤ y → x * y ≤ (x + i) * (y - o)
product_kept x y i o h k =
    omega (arith, h, k, mul-sub (x + i) y o, mul_comm o (x + i), add-mul x i y, mul_comm i y)

product_kept_out : (x y i o : ℕ) → x * o ≤ i * (y - o) → o ≤ y → x * y ≤ (x + i) * (y - o)
product_kept_out x y i o h k = omega (arith, h, k, add-mul x i (y - o), mul-sub x y o)

-- What a swap takes into one reserve and out of the other.
pub record Trade (x y i o : ℕ) : Type 0 where
  pub enough : o ≤ y
  pub product : x * y ≤ (x + i) * (y - o)

divide-Trade : (x y i o d : ℕ) → d ≡ x + i → divide (y * i) d ≡ some o → Trade x y i o
divide-Trade x y i o zero e h = cc
divide-Trade x y i o (suc b) e h =
    let is : (y * i) / suc b ≡ o = some-injective h in
    let split : (suc y) * suc b ≡ (x + i) + (y * x + y * i) =
      rw e (omega (arith, add-mul 1 y (x + i), mul-add y x i)) in
    let below : o * suc b ≤ y * i = rw is at (div-mul-le_self (y * i) (suc b)) in
    let test : ((y * i) / suc b < suc y) ↔ (y * i < suc y * suc b) =
      div-lt_iff_lt-mul (omega arith) in
    let fits : o < suc y = rw is at (test.1 (omega (arith, split, e))) in
    record {
      enough = omega (arith, fits);
      product = product_kept x y i o (rw e at below) (omega (arith, fits));
    }

div_ceil-Trade : (x y i o d : ℕ) → d ≡ y - o → o ≤ y → div_ceil (x * o) d ≡ some i → Trade x y i o
div_ceil-Trade x y i o zero e k h = cc
div_ceil-Trade x y i o (suc b) e k h =
    let up : x * o ≤ i * suc b = ground (
      arith,
      div-add-mod' (x * o) (suc b),
      lt-div-mul-add {a = x * o} {b = suc b} (omega arith),
      add-mul ((x * o) / suc b) 1 (suc b),
    ) in
    record { enough = k; product = product_kept_out x y i o (rw e at up) k }

checked_mul-eq : (a b c : ℕ) → checked_mul a b ≡ some c → c ≡ a * b
checked_mul-eq a b c h = ground arith

module _ (ext : AmmExternals) where
  pub swap_logic-Trade :
      (ud vd vw uw : AccountWithMetadata) (amount bound x y : ℕ) (pool_id : AccountId)
      (moved : List ChainedCall × ℕ × ℕ)
      → x + amount < u128_mod
      → swap_logic ext ud vd vw uw amount bound x y pool_id ≡ some moved
      → (moved.1 ≡ amount) × (bound ≤ moved.2) × Trade x y moved.1 moved.2
  unfolding swap_logic
  swap_logic-Trade ud vd vw uw amount bound x y pool_id moved room h =
      let (product, e₁, h₁) = >>=-eq-some (checked_mul y amount) _ h in
      let (out, e₂, h₂) = >>=-eq-some (divide product (wrapping_add x amount)) _ h₁ in
      let (fits, h₃) = assert->> (leb bound out) _ h₂ in
      let (positive, h₄) = assert->> (not (out == 0)) _ h₃ in
      let (calls, e₃, h₅) = >>=-eq-some (swap_calls ext ud vd vw uw amount out pool_id) _ h₄ in
      let trade : Trade x y amount out =
        divide-Trade x y amount out (wrapping_add x amount) (mod-eq_of_lt room)
          (rw (checked_mul-eq y amount product e₁) at e₂) in
      subst (λ m. (m.1 ≡ amount) × (bound ≤ m.2) × Trade x y m.1 m.2)
        (some-injective {a = (calls, amount, out)} {b = moved} h₅)
        (refl, leb→le bound out fits, trade)

  pub exact_output_swap_logic-Trade :
      (ud vd vw uw : AccountWithMetadata) (amount bound x y : ℕ) (pool_id : AccountId)
      (moved : List ChainedCall × ℕ × ℕ)
      → exact_output_swap_logic ext ud vd vw uw amount bound x y pool_id ≡ some moved
      → (moved.2 ≡ amount) × (moved.1 ≤ bound) × Trade x y moved.1 moved.2
  unfolding exact_output_swap_logic
  exact_output_swap_logic-Trade ud vd vw uw amount bound x y pool_id moved h =
      let (positive, h₁) = assert->> (not (amount == 0)) _ h in
      let (less, h₂) = assert->> (ltb amount y) _ h₁ in
      let (product, e₁, h₃) = >>=-eq-some (checked_mul x amount) _ h₂ in
      let (cost, e₂, h₄) = >>=-eq-some (div_ceil product (y - amount)) _ h₃ in
      let (fits, h₅) = assert->> (leb cost bound) _ h₄ in
      let (calls, e₃, h₆) = >>=-eq-some (swap_calls ext ud vd vw uw cost amount pool_id) _ h₅ in
      let trade : Trade x y cost amount =
        div_ceil-Trade x y cost amount (y - amount) refl (omega (arith, ltb→lt amount y less))
          (rw (checked_mul-eq x amount product e₁) at e₂) in
      subst (λ m. (m.2 ≡ amount) × (m.1 ≤ bound) × Trade x y m.1 m.2)
        (some-injective {a = (calls, cost, amount)} {b = moved} h₆)
        (refl, leb→le cost bound fits, trade)
