-- ===== src/TopicUtils/Token/Fields.antt =====
-- How the fields of a liveliness token of src/TopicUtils.cc are read back.
use gz_transport.Common.{
  ℕ, suc, ◌+◌, ◌≤◌, ◌≡◌, refl, false, some, List, [], ◌∷◌, ◌++◌, append_assoc, length, is_empty,
  ◌==◌, Text, bytes, has_char, starts_with, count, arith,
}
use gz_transport.TopicUtils.Names.{starts_with-append}
use gz_transport.TopicUtils.Token.Mangled.{split_first-append}
use gz_transport.TopicUtils.Token.{cut, next_field, slashed}

-- A field that can be read back: not empty, and without a slash.
pub record IsField (f : Text) : Type 0 where
  pub filled : is_empty f ≡ false
  pub plain : has_char b'/' f ≡ false

pub percent-IsField : IsField (bytes "%")
unfolding has_char
percent-IsField = record { filled = refl; plain = refl }

pub cut-slashed :
    (f : Text) (fs : List Text) (r : Text)
    → has_char b'/' f ≡ false
    → cut (slashed (f ∷ fs) ++ r) ≡ (f, slashed fs ++ r)
unfolding cut slashed
cut-slashed f fs r h =
    ground
      (arith, append_assoc f (b'/' ∷ slashed fs) r, split_first-append b'/' f (slashed fs ++ r) h)

first_plain : (f : Text) → IsField f → starts_with b'/' f ≡ false
unfolding has_char
first_plain [] p = refl
first_plain (x ∷ f) p = ground arith

pub next_field-slashed :
    (f : Text) (fs : List Text) (r : Text)
    → IsField f
    → next_field (slashed (f ∷ fs) ++ r) ≡ some (f, slashed fs ++ r)
unfolding next_field slashed
next_field-slashed f fs r p = ground (
  arith,
  cut-slashed f fs r p.plain,
  append_assoc f (b'/' ∷ slashed fs) r,
  starts_with-append b'/' f (b'/' ∷ (slashed fs ++ r)),
  first_plain f p,
  p.filled,
)

count-append : (c : ℕ) (s t : Text) → count c (s ++ t) ≡ count c s + count c t
unfolding count
count-append c [] t = omega arith
count-append c (x ∷ s) t = omega (arith, count-append c s t)

count-absent : (c : ℕ) (s : Text) → has_char c s ≡ false → count c s ≡ 0
unfolding count has_char
count-absent c [] h = refl
count-absent c (x ∷ s) h = ground (arith, count-absent c s)

-- Each field of a token brings a slash.
pub count-slashed-le : (fs : List Text) (r : Text) → length fs ≤ count b'/' (slashed fs ++ r)
count-slashed-le [] r = omega arith
count-slashed-le (f ∷ fs) r =
    let body = count-append b'/' f (b'/' ∷ (slashed fs ++ r)) in
    let here : count b'/' (b'/' ∷ (slashed fs ++ r)) ≡ suc (count b'/' (slashed fs ++ r)) =
      unfold count in omega arith in
    let split : slashed (f ∷ fs) ++ r ≡ f ++ b'/' ∷ (slashed fs ++ r) =
      unfold slashed in append_assoc f (b'/' ∷ slashed fs) r in
    rw split (omega (arith, body, here, count-slashed-le fs r))

-- What stands behind the topic of a token: the type, the hash and the quality of service.
abbrev pub tail_of : Text → Text
tail_of type = slashed (type ∷ bytes "%" ∷ []) ++ bytes "%"

pub count-tail_of : (type : Text) → has_char b'/' type ≡ false → count b'/' (tail_of type) ≡ 2
unfolding slashed
count-tail_of type h =
    let split = append_assoc type (b'/' ∷ bytes "%/") (bytes "%") in
    let sum = count-append b'/' type (bytes "/%/%") in
    rw split (rw (sum, count-absent b'/' type h) (unfold count in refl))

pub starts_with-slashed :
    (c x : ℕ) (f : Text) (fs : List Text) (r : Text)
    → starts_with c (slashed ((x ∷ f) ∷ fs) ++ r) ≡ (x == c)
unfolding slashed
starts_with-slashed c x f fs r = refl
