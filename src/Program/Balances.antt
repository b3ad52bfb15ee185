-- ===== src/Program/Balances.antt =====
-- lee/state_machine/core/src/program/mod.rs: `WrappedBalanceSum`, a sum of 128-bit balances kept
-- as `lo + hi * 2^128`.
use lssa.Prelude.{
  ℕ, ◌+◌, ◌*◌, ◌%◌, ◌<◌, ◌≡◌, refl, Bool, true, false, ◌&&◌, Option, none, some, List, [], ◌∷◌,
  arith, ltb, leb, ◌==◌, if◌then◌else◌, All, length, Bool-cases, lt→ltb, inl, inr,
}
use lssa.Account.{u128_mod}

pub record WrappedBalanceSum : Type 0 where
  pub lo : ℕ
  pub hi : ℕ

-- `u128::overflowing_add`.
abbrev overflowing_add : ℕ → ℕ → ℕ × Bool
overflowing_add a b = ((a + b) % u128_mod, leb u128_mod (a + b))

-- `hi.checked_add(1)` where the low part overflowed.
abbrev carry : ℕ → Bool → Option ℕ
carry hi false = some hi
carry hi true = if ltb (hi + 1) u128_mod then some (hi + 1) else none

-- The loop over the balances; `none` is an overflow of the high part.
add_balances : WrappedBalanceSum → List ℕ → Option WrappedBalanceSum
add_balances w [] = some w
add_balances w (b ∷ bs) =
    let (new_sum, did_overflow) = overflowing_add w.lo b in
    elim (carry w.hi did_overflow) [
      | none ↦ none
      | some hi ↦ add_balances (record { lo = new_sum; hi = hi }) bs
    ]

unfoldable pub from_balances : List ℕ → Option WrappedBalanceSum
unfolding add_balances
from_balances bs = add_balances (record { lo = 0; hi = 0 }) bs

-- The derived `==`.
unfoldable pub wrapped_eq : WrappedBalanceSum → WrappedBalanceSum → Bool
wrapped_eq a b = a.lo == b.lo && a.hi == b.hi

abbrev pub sum : List ℕ → ℕ
sum [] = 0
sum (b ∷ bs) = b + sum bs

-- What a wrapped sum stands for.
abbrev pub wrapped_value : WrappedBalanceSum → ℕ
wrapped_value w = w.lo + w.hi * u128_mod

abbrev pub IsU128 : ℕ → Type 0
IsU128 b = b < u128_mod

wrapped_parts :
    (a b : WrappedBalanceSum)
    → IsU128 a.lo
    → IsU128 b.lo
    → wrapped_value a ≡ wrapped_value b
    → (a.lo ≡ b.lo) × (a.hi ≡ b.hi)
wrapped_parts a b ha hb h = (omega arith, omega arith)

add_balances_value :
    (w v : WrappedBalanceSum) (bs : List ℕ)
    → IsU128 w.lo
    → All IsU128 bs
    → add_balances w bs ≡ some v
    → (wrapped_value v ≡ wrapped_value w + sum bs) × IsU128 v.lo
unfolding add_balances
add_balances_value w v [] l a h = ground arith
add_balances_value w v (b ∷ bs) l a h = ground (
  arith,
  add_balances_value (record { lo = (w.lo + b) % u128_mod; hi = w.hi }) v bs,
  add_balances_value (record { lo = (w.lo + b) % u128_mod; hi = w.hi + 1 }) v bs,
)

pub from_balances_parts :
    (bs : List ℕ) (v : WrappedBalanceSum)
    → All IsU128 bs
    → from_balances bs ≡ some v
    → (wrapped_value v ≡ sum bs) × IsU128 v.lo
unfolding from_balances
from_balances_parts bs v a h =
    omega (arith, add_balances_value (record { lo = 0; hi = 0 }) v bs (omega arith) a h)

pub from_balances_value :
    (bs : List ℕ) (v : WrappedBalanceSum)
    → All IsU128 bs
    → from_balances bs ≡ some v
    → wrapped_value v ≡ sum bs
from_balances_value bs v a h = (from_balances_parts bs v a h).0

add_balances_total :
    (w : WrappedBalanceSum) (bs : List ℕ)
    → w.hi + length bs < u128_mod
    → (v : WrappedBalanceSum) × (add_balances w bs ≡ some v)
unfolding add_balances
add_balances_total w [] h = (w, refl)
add_balances_total w (b ∷ bs) h = elim (Bool-cases (leb u128_mod (w.lo + b))) [
  | inl over ↦
      rw (over, add_balances)
        (rw (lt→ltb (w.hi + 1) u128_mod (omega (arith, h)), add_balances)
          (add_balances_total (record { lo = (w.lo + b) % u128_mod; hi = w.hi + 1 }) bs
            (omega (arith, h))))
  | inr fits ↦
      rw (fits, add_balances)
        (add_balances_total (record { lo = (w.lo + b) % u128_mod; hi = w.hi }) bs
          (omega (arith, h)))
]

pub from_balances_total :
    (bs : List ℕ) → length bs < u128_mod → (v : WrappedBalanceSum) × (from_balances bs ≡ some v)
unfolding from_balances
from_balances_total bs h = add_balances_total (record { lo = 0; hi = 0 }) bs (omega (arith, h))

-- Of fewer than 2^128 balances, each of 128 bits, the wrapped sum does not overflow and stands for their exact sum.
pub from_balances_exact :
    (bs : List ℕ)
    → All IsU128 bs
    → length bs < u128_mod
    → (v : WrappedBalanceSum) × (from_balances bs ≡ some v) × (wrapped_value v ≡ sum bs)
from_balances_exact bs a h =
    let (v, e) = from_balances_total bs h in (v, e, from_balances_value bs v a e)

pub wrapped_eq-value :
    (a b : WrappedBalanceSum) → wrapped_eq a b ≡ true → wrapped_value a ≡ wrapped_value b
unfolding wrapped_eq
wrapped_eq-value a b h = ground arith

-- The other way round, the low part being a remainder.
pub value-wrapped_eq :
    (a b : WrappedBalanceSum)
    → IsU128 a.lo
    → IsU128 b.lo
    → wrapped_value a ≡ wrapped_value b
    → wrapped_eq a b ≡ true
unfolding wrapped_eq
value-wrapped_eq a b ha hb h = ground (arith, wrapped_parts a b ha hb h)
