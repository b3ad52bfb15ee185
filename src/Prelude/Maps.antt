-- ===== src/Prelude/Maps.antt =====
-- Maps keyed by numbers, as association lists. A hash map's iteration order is unspecified; here
-- it is the order of first insertion.
use Prim.Native.Nat.{ℕ}
use mathlib.Core.Path.{◌≡◌, refl}
use mathlib.Core.Bool.{Bool, true, false}
use mathlib.Core.List.{List, [], ◌∷◌}
use mathlib.Core.Option.{Option, none, some}
use native.Mathlib.Omega.{arith}
use lssa.Prelude.Tests.{◌==◌, if◌then◌else◌}
use lssa.Prelude.Lists.{contains, IsDistinct}

abbrev pub Map {ℓ} : Type ℓ → Type ℓ
Map V = List (ℕ × V)

module _ {ℓ} {V : Type ℓ} where
  -- `HashMap::get`.
  abbrev pub lookup : ℕ → Map V → Option V
  lookup k [] = none
  lookup k ((j, v) ∷ m) = if k == j then some v else lookup k m

  -- `HashMap::insert`.
  abbrev pub insert : ℕ → V → Map V → Map V
  insert k v [] = (k, v) ∷ []
  insert k v ((j, w) ∷ m) = if k == j then (j, v) ∷ m else (j, w) ∷ insert k v m

  abbrev pub contains_key : ℕ → Map V → Bool
  contains_key k m = elim (lookup k m) [ none ↦ false | some _ ↦ true ]

  -- `HashMap::extend`: later entries win.
  abbrev pub extend : Map V → List (ℕ × V) → Map V
  extend m [] = m
  extend m ((k, v) ∷ es) = extend (insert k v m) es

  abbrev pub keys : Map V → List ℕ
  keys [] = []
  keys ((k, v) ∷ m) = k ∷ keys m

  pub lookup-insert :
      (j k : ℕ) (v : V) (m : Map V)
      → lookup j (insert k v m) ≡ (if j == k then some v else lookup j m)
  lookup-insert j k v [] = refl
  lookup-insert j k v ((i, w) ∷ m) = ground (arith, lookup-insert j k v m)

  pub contains-keys : (k : ℕ) (m : Map V) → contains k (keys m) ≡ contains_key k m
  contains-keys k [] = refl
  contains-keys k ((j, v) ∷ m) = ground (arith, contains-keys k m)

  pub contains-keys-insert :
      (j k : ℕ) (v : V) (m : Map V)
      → contains j (keys (insert k v m)) ≡ (if j == k then true else contains j (keys m))
  contains-keys-insert j k v [] = ground arith
  contains-keys-insert j k v ((i, w) ∷ m) = ground (arith, contains-keys-insert j k v m)

  pub keys-insert-IsDistinct :
      (k : ℕ) (v : V) (m : Map V) → IsDistinct (keys m) → IsDistinct (keys (insert k v m))
  keys-insert-IsDistinct k v [] h = (refl, tt)
  keys-insert-IsDistinct k v ((j, w) ∷ m) h =
      ground (arith, keys-insert-IsDistinct k v m h.1, contains-keys-insert j k v m)

  -- An entry that no later one overrides is read through the extension.
  pub lookup-extend_ne :
      (j : ℕ) (m : Map V) (es : List (ℕ × V))
      → contains j (keys es) ≡ false
      → lookup j (extend m es) ≡ lookup j m
  lookup-extend_ne j m [] h = refl
  lookup-extend_ne j m ((k, v) ∷ es) h =
      ground (arith, lookup-extend_ne j (insert k v m) es, lookup-insert j k v m)

  -- Where the entries' keys are distinct, the extension reads them first.
  pub lookup-extend :
      (j : ℕ) (m : Map V) (es : List (ℕ × V))
      → IsDistinct (keys es)
      → lookup j (extend m es) ≡ elim (lookup j es) [ none ↦ lookup j m | some v ↦ some v ]
  lookup-extend j m [] h = refl
  lookup-extend j m ((k, v) ∷ es) h =
      ground
        (arith, lookup-extend j (insert k v m) es h.1, lookup-insert j k v m, contains-keys j es)
