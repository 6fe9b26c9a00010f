-- ===== src/Common/Lists.antt =====
-- Lists measured by native numbers, and the searches of <algorithm> by Boolean tests.
use Prim.Native.Nat.{ℕ, suc, ◌+◌, ◌≤◌, ◌<◌}
use mathlib.Core.Path.{◌≡◌, refl}
use mathlib.Core.List.{List, [], ◌∷◌, ◌++◌}
use mathlib.Core.Bool.{Bool, true, false, not, ◌||◌}
use mathlib.Core.Option.{Option, none, some}
use native.Mathlib.Omega.{arith}
use gz_transport.Common.Tests.{if◌then◌else◌}

-- Every element satisfies `P`.
abbrev pub All {ℓ κ} : {A : Type ℓ} → (A → Type κ) → List A → Type κ
All P [] = Unit
All P (x ∷ xs) = P x × All P xs

module _ {ℓ} {A : Type ℓ} where
  abbrev pub length : List A → ℕ
  length [] = 0
  length (x ∷ xs) = suc (length xs)

  abbrev pub is_empty : List A → Bool
  is_empty [] = true
  is_empty (x ∷ xs) = false

  -- `std::find_if(...) != end()`
  abbrev pub any : (A → Bool) → List A → Bool
  any p [] = false
  any p (x ∷ xs) = p x || any p xs

  -- `*std::find_if(...)`
  abbrev pub find : (A → Bool) → List A → Option A
  find p [] = none
  find p (x ∷ xs) = if p x then some x else find p xs

  -- What `erase(remove_if(...), end())` leaves, by the negated test.
  abbrev pub keep_if : (A → Bool) → List A → List A
  keep_if p [] = []
  keep_if p (x ∷ xs) = if p x then x ∷ keep_if p xs else keep_if p xs

  abbrev pub drop_if : (A → Bool) → List A → List A
  drop_if p = keep_if (λ x. not (p x))

  pub length-append : (xs ys : List A) → length (xs ++ ys) ≡ length xs + length ys
  length-append [] ys = omega arith
  length-append (x ∷ xs) ys = omega (arith, length-append xs ys)

  pub any-append : (p : A → Bool) (xs ys : List A) → any p (xs ++ ys) ≡ any p xs || any p ys
  any-append p [] ys = refl
  any-append p (x ∷ xs) ys = ground (arith, any-append p xs ys)

  pub length-keep_if-le : (p : A → Bool) (xs : List A) → length (keep_if p xs) ≤ length xs
  length-keep_if-le p [] = omega arith
  length-keep_if-le p (x ∷ xs) = ground (arith, length-keep_if-le p xs)

  -- Something is dropped exactly if something satisfies the test.
  pub length-drop_if-lt :
      (p : A → Bool) (xs : List A) → any p xs ≡ true → length (drop_if p xs) < length xs
  length-drop_if-lt p [] h = ground arith
  length-drop_if-lt p (x ∷ xs) h =
      ground (arith, length-drop_if-lt p xs, length-keep_if-le (λ y. not (p y)) xs)

  pub drop_if_of_none : (p : A → Bool) (xs : List A) → any p xs ≡ false → drop_if p xs ≡ xs
  drop_if_of_none p [] h = refl
  drop_if_of_none p (x ∷ xs) h = ground (arith, drop_if_of_none p xs)

  pub any-drop_if : (p : A → Bool) (xs : List A) → any p (drop_if p xs) ≡ false
  any-drop_if p [] = refl
  any-drop_if p (x ∷ xs) = ground (arith, any-drop_if p xs)

module _ {ℓ κ} {A : Type ℓ} (P : A → Type κ) where
  pub All-append : (xs ys : List A) → All P xs → All P ys → All P (xs ++ ys)
  All-append [] ys hx hy = hy
  All-append (x ∷ xs) ys hx hy = (hx.0, All-append xs ys hx.1 hy)

  pub All-keep_if : (p : A → Bool) (xs : List A) → All P xs → All P (keep_if p xs)
  All-keep_if p [] h = h
  All-keep_if p (x ∷ xs) h = ground (arith, All-keep_if p xs h.1)
