-- ===== src/TopicUtils/Qualified/Search.antt =====
-- What the searches of std::string find, and how substr cuts there.
use gz_transport.Common.{
  ℕ, zero, suc, ◌≡◌, refl, inl, inr, true, false, none, some, [], ◌∷◌, ◌++◌, length, Text, has_char,
  starts_with, find_first, find_last, take, drop, arith, Option-cases,
}

pub find_first-cons : (c : ℕ) (s : Text) → find_first c (c ∷ s) ≡ some 0
unfolding find_first
find_first-cons c s = ground arith

pub find_first-zero : (c : ℕ) (s : Text) → find_first c s ≡ some 0 → starts_with c s ≡ true
unfolding find_first
find_first-zero c [] h = ground arith
find_first-zero c (x ∷ s) h = ground arith

find_last-none : (c : ℕ) (s : Text) → find_last c s ≡ none → has_char c s ≡ false
unfolding find_last has_char
find_last-none c [] h = refl
find_last-none c (x ∷ s) h = ground (arith, find_last-none c s)

-- `find_last_of` cuts a text at the last occurrence.
pub find_last-split :
    (c : ℕ) (s : Text) (i : ℕ)
    → find_last c s ≡ some i
    → (s ≡ take i s ++ c ∷ drop (suc i) s) × (has_char c (drop (suc i) s) ≡ false)
unfolding find_last take drop
find_last-split c [] i h = ground arith
find_last-split c (x ∷ s) zero h = elim (Option-cases (find_last c s)) [
  | inl e ↦ ground (arith, find_last-none c s)
  | inr (j, e) ↦ ground arith
]
find_last-split c (x ∷ s) (suc i) h = elim (Option-cases (find_last c s)) [
  | inl e ↦ ground arith
  | inr (j, e) ↦ ground (arith, find_last-split c s i)
]

find_last-absent : (c : ℕ) (s : Text) → has_char c s ≡ false → find_last c s ≡ none
unfolding find_last has_char
find_last-absent c [] h = refl
find_last-absent c (x ∷ s) h = ground (arith, find_last-absent c s)

pub find_last-append :
    (c : ℕ) (s t : Text) → has_char c t ≡ false → find_last c (s ++ c ∷ t) ≡ some (length s)
unfolding find_last
find_last-append c [] t h = ground (arith, find_last-absent c t)
find_last-append c (x ∷ s) t h = ground (arith, find_last-append c s t)

pub take-append : (s t : Text) → take (length s) (s ++ t) ≡ s
unfolding take
take-append [] t = refl
take-append (x ∷ s) t = ground (arith, take-append s t)

pub drop-append : (s t : Text) → drop (length s) (s ++ t) ≡ t
unfolding drop
drop-append [] t = refl
drop-append (x ∷ s) t = drop-append s t
