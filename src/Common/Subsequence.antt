-- ===== src/Common/Subsequence.antt =====
-- Lists of which some elements are taken out.
use mathlib.Core.List.{List, [], ◌∷◌, ◌++◌}

-- The first list is what is left of the second when some elements are taken out.
pub data Subsequence {ℓ} {A : Type ℓ} : List A → List A → Type ℓ where
  done : Subsequence [] []
  keep : {x : A} {xs ys : List A} → Subsequence xs ys → Subsequence (x ∷ xs) (x ∷ ys)
  skip : {x : A} {xs ys : List A} → Subsequence xs ys → Subsequence xs (x ∷ ys)

pub Subsequence-refl {ℓ} : {A : Type ℓ} → (xs : List A) → Subsequence xs xs
Subsequence-refl [] = done
Subsequence-refl (x ∷ xs) = keep (Subsequence-refl xs)

pub Subsequence-trans {ℓ} :
    {A : Type ℓ} → {xs ys zs : List A} → Subsequence xs ys → Subsequence ys zs → Subsequence xs zs
Subsequence-trans h done = h
Subsequence-trans (keep h) (keep k) = keep (Subsequence-trans h k)
Subsequence-trans (skip h) (keep k) = skip (Subsequence-trans h k)
Subsequence-trans h (skip k) = skip (Subsequence-trans h k)

pub Subsequence-append {ℓ} :
    {A : Type ℓ}
    → (xs : List A) {ys zs : List A} → Subsequence ys zs
    → Subsequence (xs ++ ys) (xs ++ zs)
Subsequence-append [] h = h
Subsequence-append (x ∷ xs) h = keep (Subsequence-append xs h)
