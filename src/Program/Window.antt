-- ===== src/Program/Window.antt =====
-- lee/state_machine/core/src/program/mod.rs: validity windows of blocks and timestamps.
use lssa.Prelude.{
  ℕ, zero, suc, ◌≤◌, ◌<◌, ◌≡◌, refl, ◌↔◌, Bool, true, ◌&&◌, Option, none, some, arith, ltb, leb,
  if◌then◌else◌, Result, ok, err, ◌>>◌, ◌⊎◌, inl, inr,
}
use lssa.Program.{ValidityWindow}

pub data InvalidWindow : Type 0 where
  invalid_window : InvalidWindow

abbrev is_none_or : Option ℕ → (ℕ → Bool) → Bool
is_none_or none p = true
is_none_or (some a) p = p a

-- `from` is included and `to` is excluded.
unfoldable pub is_valid_for : ValidityWindow → ℕ → Bool
is_valid_for w value = is_none_or w.start (λ s. leb s value) && is_none_or w.end (λ e. ltb value e)

-- `ValidityWindow::check_window`.
abbrev check_bounds : Option ℕ → Option ℕ → Result InvalidWindow (Unit {0})
check_bounds (some s) (some e) = if leb e s then err invalid_window else ok tt
check_bounds _ _ = ok tt

unfoldable pub check_window : ValidityWindow → Result InvalidWindow (Unit {0})
check_window w = check_bounds w.start w.end

-- `TryFrom<(Option<T>, Option<T>)>`.
unfoldable pub try_window : Option ℕ → Option ℕ → Result InvalidWindow ValidityWindow
unfolding check_window
try_window s e = do
  let this : ValidityWindow = record { start = s; end = e }
  check_window this
  ok this

-- The declarative reading of a window.
abbrev pub Within : Option ℕ → Option ℕ → ℕ → Type 0
Within none none v = Unit {0}
Within (some s) none v = s ≤ v
Within none (some e) v = v < e
Within (some s) (some e) v = (s ≤ v) × (v < e)

is_valid_for-Within :
    (s e : Option ℕ) (v : ℕ) → is_valid_for (record { start = s; end = e }) v ≡ true → Within s e v
unfolding is_valid_for
is_valid_for-Within none none v h = tt
is_valid_for-Within (some s) none v h = ground arith
is_valid_for-Within none (some e) v h = ground arith
is_valid_for-Within (some s) (some e) v h = ground arith

Within-is_valid_for :
    (s e : Option ℕ) (v : ℕ) → Within s e v → is_valid_for (record { start = s; end = e }) v ≡ true
unfolding is_valid_for
Within-is_valid_for none none v h = refl
Within-is_valid_for (some s) none v h = ground arith
Within-is_valid_for none (some e) v h = ground arith
Within-is_valid_for (some s) (some e) v h = ground arith

-- A value is valid for a window exactly if it lies between the bounds that the window has, the lower one
-- included and the upper one excluded.
pub is_valid_for_iff :
    (s e : Option ℕ) (v : ℕ)
    → (is_valid_for (record { start = s; end = e }) v ≡ true) ↔ Within s e v
is_valid_for_iff s e v = (is_valid_for-Within s e v, Within-is_valid_for s e v)

-- A window that was accepted has the requested bounds, and it admits some value unless its upper bound is 0.
pub try_window_nonempty :
    (s e : Option ℕ) (w : ValidityWindow)
    → try_window s e ≡ ok w
    → (w ≡ record { start = s; end = e }) × ((e ≡ some 0) ⊎ ((v : ℕ) × (is_valid_for w v ≡ true)))
unfolding try_window is_valid_for
try_window_nonempty none none w h = (ground arith, inr (0, ground arith))
try_window_nonempty (some s) none w h = (ground arith, inr (s, ground arith))
try_window_nonempty none (some zero) w h = (ground arith, inl refl)
try_window_nonempty none (some (suc e)) w h = (ground arith, inr (0, ground arith))
try_window_nonempty (some s) (some e) w h = (ground arith, inr (s, ground arith))
