-- ===== src/Program/Tests.antt =====
-- The theorems on identifiers, windows, balance sums and validation at concrete accounts.
use lssa.Prelude.{ℕ, ◌+◌, ◌^◌, ◌≡◌, ◌⊎◌, ◌↔◌, refl, true, Option, some, List, [], ◌∷◌, arith, ok}
use lssa.Account.{AccountId, AccountWithMetadata}
use lssa.Program.{AccountPostState, ValidityWindow, post_state}
use lssa.Program.Window.{check_window, is_valid_for, try_window, try_window_nonempty}
use lssa.Program.Balances.{WrappedBalanceSum, from_balances, wrapped_value, from_balances_exact}
use lssa.Program.Validate.{validate_execution}
use lssa.Program.Validate.WellBehaved.{WellBehaved, validate_execution_iff}

abbrev upper : Option ℕ
upper = some 9

abbrev window : ValidityWindow
window = record { start = some 3; end = some 9 }

window_is_accepted : try_window (some 3) upper ≡ ok window
unfolding try_window check_window
window_is_accepted = refl

try_window_nonempty_example :
    (window ≡ record { start = some 3; end = upper })
    × ((upper ≡ some 0) ⊎ ((v : ℕ) × (is_valid_for window v ≡ true)))
try_window_nonempty_example = try_window_nonempty (some 3) upper window window_is_accepted

-- Two balances whose sum does not fit into 128 bits.
abbrev large_balances : List ℕ
large_balances = 2 ^ 127 ∷ (2 ^ 127 + 5) ∷ []

from_balances_exact_example :
    (v : WrappedBalanceSum) × (from_balances large_balances ≡ some v)
    × (wrapped_value v ≡ 2 ^ 128 + 5)
from_balances_exact_example =
    from_balances_exact large_balances (ground arith, (ground arith, tt)) (ground arith)

abbrev account_with : AccountId → ℕ → AccountWithMetadata
account_with id n = record {
  account = record { program_owner = 9; balance = n; data_bytes = []; nonce = 2 };
  is_authorized = true;
  account_id = id;
}

abbrev before : List AccountWithMetadata
before = account_with 1 100 ∷ account_with 2 7 ∷ []

abbrev afterwards : List AccountPostState
afterwards = post_state (account_with 1 95).account ∷ post_state (account_with 2 12).account ∷ []

validate_execution_iff_example :
    (validate_execution before afterwards 9 ≡ ok tt) ↔ WellBehaved 9 before afterwards
validate_execution_iff_example =
    validate_execution_iff 9 before afterwards
      ((ground arith, (ground arith, tt)), (ground arith, (ground arith, tt))) (ground arith)
