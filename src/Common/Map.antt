-- ===== src/Common/Map.antt =====
-- `std::map<std::string, V>`: the entries in the order of their keys, which is the order that a
-- range-based `for` visits.
use mathlib.Core.Path.{◌≡◌, refl, subst}
use mathlib.Core.List.{List, [], ◌∷◌}
use mathlib.Core.Bool.{Bool, true, false}
use mathlib.Core.Option.{Option, none, some}
use native.Mathlib.Omega.{arith}
use mathlib.Core.Logic.{inl, inr}
use gz_transport.Common.Tests.{if◌then◌else◌, is_some, Bool-cases}
use gz_transport.Common.Lists.{is_empty}
use gz_transport.Common.Strings.{
  Text, text_eq, text_lt, text_eq_iff, text_eq_refl, text_lt_trans, text_lt_irrefl, text_lt_total,
}

abbrev pub Map {ℓ} : Type ℓ → Type ℓ
Map V = List (Text × V)

module _ {ℓ} {V : Type ℓ} where
  -- `find`, and `at` where the key is there
  unfoldable pub lookup : Text → Map V → Option V
  lookup k [] = none
  lookup k ((j, v) ∷ m) = if text_eq j k then some v else lookup k m

  -- `m[k] = v`
  unfoldable pub insert : Text → V → Map V → Map V
  insert k v [] = (k, v) ∷ []
  insert k v ((j, w) ∷ m) =
      if text_eq j k
      then (k, v) ∷ m
      else if text_lt k j
      then (k, v) ∷ (j, w) ∷ m
      else (j, w) ∷ insert k v m

  -- `erase(k)`
  unfoldable pub erase : Text → Map V → Map V
  erase k [] = []
  erase k ((j, w) ∷ m) = if text_eq j k then erase k m else (j, w) ∷ erase k m

  unfoldable pub contains : Text → Map V → Bool
  unfolding lookup
  contains k m = is_some (lookup k m)

  unfoldable pub keys : Map V → List Text
  keys [] = []
  keys ((j, v) ∷ m) = j ∷ keys m

  pub lookup-insert :
      (k q : Text) (v : V) (m : Map V)
      → lookup q (insert k v m) ≡ (if text_eq k q then some v else lookup q m)
  unfolding lookup insert
  lookup-insert k q v [] = refl
  lookup-insert k q v ((j, w) ∷ m) =
      ground (arith, text_eq_iff k q, text_eq_iff j k, text_eq_iff j q, lookup-insert k q v m)

  pub lookup-erase :
      (k q : Text) (m : Map V) → lookup q (erase k m) ≡ (if text_eq k q then none else lookup q m)
  unfolding lookup erase
  lookup-erase k q [] = ground arith
  lookup-erase k q ((j, w) ∷ m) =
      ground (arith, text_eq_iff k q, text_eq_iff j k, text_eq_iff j q, lookup-erase k q m)

  -- The keys rise strictly from above a bound.
  abbrev pub Above : Text → Map V → Type 0
  Above b [] = Unit {0}
  Above b ((j, v) ∷ m) = (text_lt b j ≡ true) × Above j m

  -- The order that a `std::map` keeps.
  abbrev pub IsSorted : Map V → Type 0
  IsSorted [] = Unit {0}
  IsSorted ((j, v) ∷ m) = Above j m

  pub Above-weaken : (a b : Text) (m : Map V) → text_lt a b ≡ true → Above b m → Above a m
  Above-weaken a b [] h s = tt
  Above-weaken a b ((j, v) ∷ m) h s = (text_lt_trans a b j h s.0, s.1)

  Above-insert :
      (b k : Text) (v : V) (m : Map V) → text_lt b k ≡ true → Above b m → Above b (insert k v m)
  unfolding insert
  Above-insert b k v [] h s = (h, tt)
  Above-insert b k v ((j, w) ∷ m) h s = ground (
    arith,
    text_eq_iff j k,
    Above-insert j k v m,
    text_lt_total j k,
    text_lt_total k j,
    text_eq_iff k j,
  )

  Above-erase : (b k : Text) (m : Map V) → Above b m → Above b (erase k m)
  unfolding erase
  Above-erase b k [] s = tt
  Above-erase b k ((j, w) ∷ m) s =
      ground (arith, Above-erase j k m s.1, Above-weaken b j (erase k m))

  pub insert-IsSorted : (k : Text) (v : V) (m : Map V) → IsSorted m → IsSorted (insert k v m)
  unfolding insert
  insert-IsSorted k v [] s = tt
  insert-IsSorted k v ((j, w) ∷ m) s = ground (
    arith,
    text_eq_iff j k,
    Above-insert j k v m,
    text_lt_total j k,
    text_lt_total k j,
    text_eq_iff k j,
  )

  pub IsSorted-of_Above : (b : Text) (m : Map V) → Above b m → IsSorted m
  IsSorted-of_Above b [] h = tt
  IsSorted-of_Above b ((j, w) ∷ m) h = h.1

  pub erase-IsSorted : (k : Text) (m : Map V) → IsSorted m → IsSorted (erase k m)
  unfolding erase
  erase-IsSorted k [] s = tt
  erase-IsSorted k ((j, w) ∷ m) s =
      ground (arith, Above-erase j k m s, IsSorted-of_Above j (erase k m))

  -- A key at or below the bound is not in the map.
  pub lookup_of_Above : (b : Text) (m : Map V) → Above b m → lookup b m ≡ none
  unfolding lookup
  lookup_of_Above b [] h = refl
  lookup_of_Above b ((j, w) ∷ m) h =
      ground
        (arith, text_eq_iff j b, text_lt_irrefl b, lookup_of_Above b m, Above-weaken b j m h.0 h.1)

  -- A map that is not empty has a key.
  pub first_entry : (m : Map V) → is_empty m ≡ false → (k : Text) × (v : V) × (lookup k m ≡ some v)
  unfolding lookup
  first_entry [] h = cc
  first_entry ((k, v) ∷ m) h = (k, v, ground (arith, text_eq_refl k))

  -- A property of every entry.
  abbrev pub AllEntries {κ} : (Text → V → Type κ) → Map V → Type κ
  AllEntries P [] = Unit
  AllEntries P ((k, v) ∷ m) = P k v × AllEntries P m

module _ {ℓ κ} {V : Type ℓ} (P : Text → V → Type κ) where
  pub AllEntries-insert :
      (k : Text) (v : V) (m : Map V) → P k v → AllEntries P m → AllEntries P (insert k v m)
  unfolding insert
  AllEntries-insert k v [] p h = (p, tt)
  AllEntries-insert k v ((j, w) ∷ m) p h = ground (arith, AllEntries-insert k v m p h.1)

  pub AllEntries-erase : (k : Text) (m : Map V) → AllEntries P m → AllEntries P (erase k m)
  unfolding erase
  AllEntries-erase k [] h = h
  AllEntries-erase k ((j, w) ∷ m) h = ground (arith, AllEntries-erase k m h.1)

  pub AllEntries-lookup :
      (k : Text) (m : Map V) (v : V) → AllEntries P m → lookup k m ≡ some v → P k v
  unfolding lookup
  AllEntries-lookup k [] v h e = cc
  AllEntries-lookup k ((j, w) ∷ m) v h e = elim (Bool-cases (text_eq j k)) [
    | inl t ↦
        let same : w ≡ v = ground arith in
        subst (P k) same (subst (λ i. P i w) ((text_eq_iff j k).0 t) h.0)
    | inr f ↦ AllEntries-lookup k m v h.1 (ground arith)
  ]

module _ {ℓ} {A : Type ℓ} where
  -- `m[k]` where the values are containers: an absent key reads as an empty one.
  unfoldable pub lookup_list : Text → Map (List A) → List A
  lookup_list k m = elim (lookup k m) [ none ↦ [] | some v ↦ v ]

  pub lookup_list-insert :
      (k q : Text) (v : List A) (m : Map (List A))
      → lookup_list q (insert k v m) ≡ (if text_eq k q then v else lookup_list q m)
  unfolding lookup_list
  lookup_list-insert k q v m = ground (arith, lookup-insert k q v m)

  pub lookup_list-erase :
      (k q : Text) (m : Map (List A))
      → lookup_list q (erase k m) ≡ (if text_eq k q then [] else lookup_list q m)
  unfolding lookup_list
  lookup_list-erase k q m = ground (arith, lookup-erase k q m)

module _ {ℓ} {V : Type ℓ} where
  pub insert-insert : (k : Text) (v w : V) (m : Map V) → insert k v (insert k w m) ≡ insert k v m
  unfolding insert
  insert-insert k v w [] = ground (arith, text_eq_refl k)
  insert-insert k v w ((j, x) ∷ m) =
      ground (arith, text_eq_refl k, text_eq_iff j k, insert-insert k v w m)
