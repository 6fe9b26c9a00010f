-- ===== src/TopicUtils/Token/Mangled.antt =====
-- `MangleName`, `MangleType` and their inverses, of src/TopicUtils.cc.
use gz_transport.Common.{
  ℕ, zero, suc, ◌<◌, ◌≡◌, refl, ap, ◌∙◌, false, none, some, List, [], ◌∷◌, ◌++◌, append_assoc,
  length, length-append, All, is_empty, ◌==◌, Text, has_char, pop_back, arith,
}
use gz_transport.TopicUtils.{mangle_name, demangle_name, replace}
use gz_transport.TopicUtils.Token.{
  split_first, demangle_loop, demangle_type, mangle_loop, mangle_type,
}

replace-replace : (a b : ℕ) (s : Text) → has_char b s ≡ false → replace b a (replace a b s) ≡ s
unfolding replace has_char
replace-replace a b [] h = refl
replace-replace a b (x ∷ s) h = ground (arith, replace-replace a b s)

-- `DemangleName` undoes `MangleName` on a name without a '%'.
pub demangle_name-mangle_name :
    (s : Text) → has_char b'%' s ≡ false → demangle_name (mangle_name s) ≡ s
unfolding demangle_name mangle_name
demangle_name-mangle_name s h = replace-replace b'/' b'%' s h

has_char-replace : (a b : ℕ) (s : Text) → (b == a) ≡ false → has_char a (replace a b s) ≡ false
unfolding replace has_char
has_char-replace a b [] h = refl
has_char-replace a b (x ∷ s) h = ground (arith, has_char-replace a b s h)

pub has_char-mangle_name : (s : Text) → has_char b'/' (mangle_name s) ≡ false
unfolding mangle_name
has_char-mangle_name s = has_char-replace b'/' b'%' s refl

pub is_empty-mangle_name : (s : Text) → is_empty (mangle_name s) ≡ is_empty s
unfolding mangle_name replace
is_empty-mangle_name [] = refl
is_empty-mangle_name (x ∷ s) = refl

pub split_first-append :
    (c : ℕ) (a b : Text) → has_char c a ≡ false → split_first c (a ++ c ∷ b) ≡ some (a, b)
unfolding split_first has_char
split_first-append c [] b h = ground arith
split_first-append c (x ∷ a) b h = ground (arith, split_first-append c a b)

split_first-absent : (c : ℕ) (a : Text) → has_char c a ≡ false → split_first c a ≡ none
unfolding split_first has_char
split_first-absent c [] h = refl
split_first-absent c (x ∷ a) h = ground (arith, split_first-absent c a)

-- A type that `MangleType` accepts.
pub record IsTypeName (t : Text) : Type 0 where
  pub filled : is_empty t ≡ false
  pub plain : has_char b'&' t ≡ false

-- The types with '&' between them, beginning with `t`.
join : Text → List Text → Text
join t [] = t
join t (u ∷ ts) = t ++ b'&' ∷ join u ts

pop_back-snoc : (c : ℕ) (s : Text) → pop_back (s ++ c ∷ []) ≡ s
unfolding pop_back
pop_back-snoc c [] = refl
pop_back-snoc c (x ∷ []) = refl
pop_back-snoc c (x ∷ y ∷ s) = ground (arith, pop_back-snoc c (y ∷ s))

mangle_loop-step :
    (t : Text) (ts : List Text) (out s : Text)
    → mangle_loop (t ∷ ts) out ≡ some s
    → IsTypeName t × (mangle_loop ts (out ++ (t ++ b'&' ∷ [])) ≡ some s)
unfolding mangle_loop
mangle_loop-step t ts out s h = ground arith

mangle_loop-join :
    (t : Text) (ts : List Text) (out s : Text)
    → mangle_loop (t ∷ ts) out ≡ some s
    → (s ≡ out ++ join t ts) × All IsTypeName (t ∷ ts)
unfolding join
mangle_loop-join t [] out s h =
    let (name, e) = mangle_loop-step t [] out s h in
    (
      unfold mangle_loop in
          ground (arith, append_assoc out t (b'&' ∷ []), pop_back-snoc b'&' (out ++ t)),
      (name, tt),
    )
mangle_loop-join t (u ∷ ts) out s h =
    let (name, e) = mangle_loop-step t (u ∷ ts) out s h in
    let (rest, names) = mangle_loop-join u ts (out ++ (t ++ b'&' ∷ [])) s e in
    (
      rest
          ∙ append_assoc out (t ++ b'&' ∷ []) (join u ts)
          ∙ ap (◌++◌ out) (append_assoc t (b'&' ∷ []) (join u ts)),
      (name, names),
    )

demangle_loop-join :
    (fuel : ℕ) (t : Text) (ts out : List Text)
    → All IsTypeName (t ∷ ts)
    → length (join t ts) < fuel
    → demangle_loop fuel (join t ts) out ≡ some (out ++ t ∷ ts)
unfolding demangle_loop join
demangle_loop-join zero t ts out names h = absurd (omega arith)
demangle_loop-join (suc fuel) t [] out names h =
    ground (arith, split_first-absent b'&' t names.0.plain, names.0.filled)
demangle_loop-join (suc fuel) t (u ∷ ts) out names h =
    let size = length-append t (b'&' ∷ join u ts) in
    ground (
      arith,
      split_first-append b'&' t (join u ts) names.0.plain,
      names.0.filled,
      demangle_loop-join fuel u ts (out ++ t ∷ []) names.1 (omega (arith, size)),
      append_assoc out (t ∷ []) (u ∷ ts),
    )

is_empty-join : (t : Text) (ts : List Text) → is_empty t ≡ false → is_empty (join t ts) ≡ false
unfolding join
is_empty-join [] ts h = absurd (ground arith)
is_empty-join (x ∷ t) [] h = refl
is_empty-join (x ∷ t) (u ∷ ts) h = refl

-- `DemangleType` ends, and undoes `MangleType`: what `MangleType` makes of a list of types gives
-- the list back; each type of the list is then not empty and has no '&'.
pub demangle_type-mangle_type :
    (types : List Text) (s : Text)
    → mangle_type types ≡ some s
    → (demangle_type s ≡ some types) × All IsTypeName types
unfolding mangle_type demangle_type
demangle_type-mangle_type [] s h = absurd (ground arith)
demangle_type-mangle_type (t ∷ ts) s h =
    let (e, names) = mangle_loop-join t ts [] s (ground arith) in
    (
      rw e (
          ground (
            arith,
            is_empty-join t ts names.0.filled,
            demangle_loop-join (suc (length (join t ts))) t ts [] names (omega arith),
          )),
      names,
    )
