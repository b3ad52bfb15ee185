-- ===== src/Prelude/Digits.antt =====
-- Little-endian digits of a number: `to_le_bytes`, `from_le_bytes` and their word-wise kin.
use Prim.Native.Nat.{ℕ, zero, suc, ◌+◌, ◌*◌, ◌/◌, ◌%◌}
use mathlib.Core.Path.{◌≡◌, refl, ap}
use mathlib.Core.List.{List, [], ◌∷◌}
use lssa.Prelude.Lists.{length}

-- The `n` low digits of `x` in base `b`, the lowest first.
abbrev pub to_digits : ℕ → ℕ → ℕ → List ℕ
to_digits b zero x = []
to_digits b (suc n) x = (x % b) ∷ to_digits b n (x / b)

abbrev pub from_digits : ℕ → List ℕ → ℕ
from_digits b [] = 0
from_digits b (d ∷ ds) = d + b * from_digits b ds

pub length-to_digits : (b n x : ℕ) → length (to_digits b n x) ≡ n
length-to_digits b zero x = refl
length-to_digits b (suc n) x = ap suc (length-to_digits b n (x / b))

-- A 32-byte array.
abbrev pub bytes32 : ℕ → List ℕ
bytes32 x = to_digits 256 32 x
