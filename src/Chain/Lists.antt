-- ===== src/Chain/Lists.antt =====
-- What `Vec` and its iterators give: the last element, a suffix, a first position.
use lssa.Prelude.{
  ℕ, zero, suc, ◌≡◌, refl, sym, ap, Bool, true, false, Option, none, some, List, [], ◌∷◌, ◌++◌,
  arith, if◌then◌else◌, min, take, length, get_elem?, All, Bool-cases, Option-cases, inl, inr,
  subst,
}
use lssa.Prelude.Options.{some-injective, none-ne-some}

-- `Iterator::min` of numbers.
abbrev pub min_of : List ℕ → Option ℕ
min_of [] = none
min_of (x ∷ xs) = elim (min_of xs) [ none ↦ some x | some y ↦ some (min x y) ]

module _ {ℓ} {A : Type ℓ} where
  abbrev pub last : List A → Option A
  last [] = none
  last (x ∷ xs) = elim (last xs) [ none ↦ some x | some y ↦ some y ]

  abbrev pub drop : ℕ → List A → List A
  drop zero xs = xs
  drop (suc n) [] = []
  drop (suc n) (x ∷ xs) = drop n xs

  -- `Iterator::position`.
  abbrev pub position : (A → Bool) → List A → Option ℕ
  position p [] = none
  position p (x ∷ xs) =
      if p x then some 0 else elim (position p xs) [ none ↦ none | some i ↦ some (suc i) ]

  pub take-drop : (n : ℕ) (xs : List A) → take n xs ++ drop n xs ≡ xs
  take-drop zero xs = refl
  take-drop (suc n) [] = refl
  take-drop (suc n) (x ∷ xs) = ap (λ ys. x ∷ ys) (take-drop n xs)

  pub take_all : (xs : List A) → take (length xs) xs ≡ xs
  take_all [] = refl
  take_all (x ∷ xs) = ap (λ ys. x ∷ ys) (take_all xs)

  pub append_nil : (xs : List A) → xs ++ [] ≡ xs
  append_nil [] = refl
  append_nil (x ∷ xs) = ap (λ ys. x ∷ ys) (append_nil xs)

  pub last-append : (xs : List A) (y : A) → last (xs ++ y ∷ []) ≡ some y
  last-append [] y = refl
  last-append (x ∷ xs) y = rw (last-append xs y) refl

  pub take-length-append : (xs ys : List A) → take (length xs) (xs ++ ys) ≡ xs
  take-length-append [] ys = refl
  take-length-append (x ∷ xs) ys = ap (λ zs. x ∷ zs) (take-length-append xs ys)

  -- What is not found is false of every element.
  pub position-none :
      (p : A → Bool) (xs : List A) → position p xs ≡ none → All (λ x. p x ≡ false) xs
  position-none p [] h = tt
  position-none p (x ∷ xs) h = ground (arith, position-none p xs)

  -- What is found is true there and false of every element before.
  pub position-some :
      (p : A → Bool) (xs : List A) (i : ℕ)
      → position p xs ≡ some i
      → (x : A) × (get_elem? xs i ≡ some x) × (p x ≡ true) × All (λ y. p y ≡ false) (take i xs)
  position-some p [] i h = absurd (none-ne-some h)
  position-some p (x ∷ xs) i h = elim (Bool-cases (p x)) [
    | inl hit ↦
        let zeroth : 0 ≡ i = some-injective (rw (hit, position) at h) in
        subst
          (λ k.
            (y : A) × (get_elem? (x ∷ xs) k ≡ some y)
            × (p y ≡ true)
            × All (λ z. p z ≡ false) (take k (x ∷ xs)))
          zeroth (x, refl, hit, tt)
    | inr miss ↦ elim (Option-cases (position p xs)) [
      | inl nowhere ↦ absurd (none-ne-some (rw (miss, nowhere, position) at h))
      | inr (j, found) ↦
          let later : suc j ≡ i = some-injective (rw (miss, found, position) at h) in
          let (y, here, hit, before) = position-some p xs j found in
          subst
            (λ k.
              (y : A) × (get_elem? (x ∷ xs) k ≡ some y)
              × (p y ≡ true)
              × All (λ z. p z ≡ false) (take k (x ∷ xs)))
            later (y, here, hit, (miss, before))
    ]
  ]

  -- One more element, of which the test is true, is found at the end.
  pub position-append :
      (p : A → Bool) (xs : List A) (y : A)
      → p y ≡ true
      → position p xs ≡ none
      → position p (xs ++ y ∷ []) ≡ some (length xs)
  position-append p [] y h k = rw h refl
  position-append p (x ∷ xs) y h k = elim (Bool-cases (p x)) [
    | inl hit ↦ absurd (none-ne-some (sym (rw (hit, position) at k)))
    | inr miss ↦ elim (Option-cases (position p xs)) [
      | inr (j, found) ↦ absurd (none-ne-some (sym (rw (miss, found, position) at k)))
      | inl nowhere ↦ rw (miss, position-append p xs y h nowhere, position) refl
    ]
  ]

  pub position_found :
      (p : A → Bool) (xs : List A) (y : A)
      → p y ≡ true
      → (i : ℕ) × (position p (xs ++ y ∷ []) ≡ some i)
  position_found p [] y h = (0, rw (h, position) refl)
  position_found p (x ∷ xs) y h = elim (Bool-cases (p x)) [
    | inl hit ↦ (0, rw (hit, position) refl)
    | inr miss ↦
        let (i, found) = position_found p xs y h in (suc i, rw (miss, found, position) refl)
  ]

  pub last-take :
      (xs : List A) (i : ℕ) (x : A) → get_elem? xs i ≡ some x → last (take (suc i) xs) ≡ some x
  last-take [] i x h = absurd (none-ne-some h)
  last-take (y ∷ xs) zero x h = h
  last-take (y ∷ xs) (suc i) x h = rw (last-take xs i x h) refl
