-- ===== src/Prelude/Lists.antt =====
-- Lists measured by native numbers, and predicates on all elements, by recursion.
use Prim.Native.Nat.{ℕ, suc, ◌+◌}
use mathlib.Core.Path.{◌≡◌, refl}
use mathlib.Core.Logic.{◌⊎◌, inl, inr}
use mathlib.Core.Bool.{Bool, true, false, ◌||◌}
use mathlib.Core.List.{List, [], ◌∷◌, ◌++◌}
use native.Mathlib.Omega.{arith}

or-true : (a : Bool) {b : Bool} → b ≡ true → a || b ≡ true
or-true true h = refl
or-true false h = h

or-either : (a : Bool) {b : Bool} → a || b ≡ true → (a ≡ true) ⊎ (b ≡ true)
or-either true h = inl refl
or-either false h = inr h

module _ {ℓ} {A : Type ℓ} where
  abbrev pub length : List A → ℕ
  length [] = 0
  length (x ∷ xs) = suc (length xs)

  -- Go's loops that return at the first element that passes a test.
  abbrev pub any : (A → Bool) → List A → Bool
  any p [] = false
  any p (x ∷ xs) = p x || any p xs

  pub length-append : (xs ys : List A) → length (xs ++ ys) ≡ length xs + length ys
  length-append [] ys = omega arith
  length-append (x ∷ xs) ys = omega (arith, length-append xs ys)

module _ {ℓ κ} {A : Type ℓ} (P : A → Type κ) where
  abbrev pub All : List A → Type κ
  All [] = Unit
  All (x ∷ xs) = P x × All xs

  pub All-append : (xs ys : List A) → All xs → All ys → All (xs ++ ys)
  All-append [] ys _ hy = hy
  All-append (x ∷ xs) ys (px, hx) hy = (px, All-append xs ys hx hy)

-- What is in a list.
pub data Member {ℓ} {A : Type ℓ} (x : A) : List A → Type ℓ where
  here : {xs : List A} → Member x (x ∷ xs)
  there : {y : A} {xs : List A} → Member x xs → Member x (y ∷ xs)

module _ {ℓ} {A : Type ℓ} (test : A → Bool) where
  pub Member-any : {x : A} {xs : List A} → Member x xs → test x ≡ true → any test xs ≡ true
  Member-any here h = rw h
  Member-any (there {y} m) h = or-true (test y) (Member-any m h)

  pub any-Member : (xs : List A) → any test xs ≡ true → (x : A) × Member x xs × (test x ≡ true)
  any-Member [] h = cc
  any-Member (x ∷ xs) h = elim (or-either (test x) h) [
    | inl e ↦ (x, here, e)
    | inr e ↦ let (y, m, t) = any-Member xs e in (y, there m, t)
  ]
