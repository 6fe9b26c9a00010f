-- ===== src/Common/Within.antt =====
-- One list inside another.
use mathlib.Core.Path.{◌≡◌, refl, sym, ◌∙◌, ap}
use mathlib.Core.Bool.{Bool, true}
use mathlib.Core.List.{List, [], ◌∷◌, ◌++◌, append-nil, append_assoc}
use native.Mathlib.Omega.{arith}
use gz_transport.Common.Lists.{keep_if}

module _ {A : Type 0} where
  -- `xs` stands, whole and in order, somewhere in `ys`.
  abbrev pub Within : List A → List A → Type 0
  Within xs ys = (v : List A) × (w : List A) × (ys ≡ v ++ (xs ++ w))

  abbrev pub In : A → List A → Type 0
  In x = Within (x ∷ [])

  pub Within-self : (xs : List A) → Within xs xs
  Within-self xs = ([], [], sym (append-nil xs))

  pub Within-front : (xs ys zs : List A) → Within xs ys → Within xs (ys ++ zs)
  Within-front xs ys zs (v, w, e) = (
    v,
    w ++ zs,
    ap (λ l. l ++ zs) e ∙ append_assoc v (xs ++ w) zs ∙ ap (λ l. v ++ l) (append_assoc xs w zs),
  )

  pub Within-back : (xs ys zs : List A) → Within xs zs → Within xs (ys ++ zs)
  Within-back xs ys zs (v, w, e) =
      (ys ++ v, w, ap (λ l. ys ++ l) e ∙ sym (append_assoc ys v (xs ++ w)))

  pub Within-trans : (xs ys zs : List A) → Within xs ys → Within ys zs → Within xs zs
  Within-trans xs ys zs h (v, w, e) = rw e (Within-back xs v (ys ++ w) (Within-front xs ys w h))

  pub keep_if-append :
      (p : A → Bool) (xs ys : List A) → keep_if p (xs ++ ys) ≡ keep_if p xs ++ keep_if p ys
  keep_if-append p [] ys = refl
  keep_if-append p (x ∷ xs) ys = ground (arith, keep_if-append p xs ys)

  pub In-keep_if : (p : A → Bool) (x : A) (xs : List A) → p x ≡ true → In x xs → In x (keep_if p xs)
  In-keep_if p x xs h (v, w, e) = (
    keep_if p v,
    keep_if p w,
    ap (keep_if p) e ∙ keep_if-append p v (x ∷ w) ∙ ap (λ l. keep_if p v ++ l) (ground arith),
  )
