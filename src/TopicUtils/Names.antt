-- ===== src/TopicUtils/Names.antt =====
-- The names that src/TopicUtils.cc accepts, as a predicate on their characters.
use gz_transport.Common.{
  ℕ, ◌≤◌, ◌≡◌, refl, ◌↔◌, ◌⊎◌, inl, inr, true, false, ◌&&◌, ◌||◌, [], ◌∷◌, ◌++◌, length, is_empty,
  ◌==◌, if◌then◌else◌, Text, bytes, text_eq, has_char, has_pair, starts_with, ends_with, pop_back,
  arith,
}
use gz_transport.TopicUtils.{is_valid_namespace, is_valid_topic, max_name_length}

-- Nothing in the text is forbidden.
pub record IsClean (s : Text) : Type 0 where
  pub no_tilde : has_char b'~' s ≡ false
  pub no_space : has_char b' ' s ≡ false
  pub no_slashes : has_pair b'/' b'/' s ≡ false
  pub no_at : has_char b'@' s ≡ false
  pub no_assign : has_pair b':' b'=' s ≡ false

-- A topic name, and a partition or namespace that is not empty.
pub record IsName (s : Text) : Type 0 where
  pub filled : is_empty s ≡ false
  pub short : length s ≤ max_name_length
  pub not_root : text_eq s (bytes "/") ≡ false
  pub clean : IsClean s

abbrev pub IsNamespace : Text → Type 0
IsNamespace s = (s ≡ []) ⊎ IsName s

pub is_valid_topic_iff : (s : Text) → (is_valid_topic s ≡ true) ↔ IsName s
unfolding is_valid_topic is_valid_namespace
is_valid_topic_iff s = (λ h. ground arith, λ h. ground arith)

pub is_valid_namespace_iff : (s : Text) → (is_valid_namespace s ≡ true) ↔ IsNamespace s
unfolding is_valid_namespace
is_valid_namespace_iff [] = (λ h. inl refl, λ h. refl)
is_valid_namespace_iff (x ∷ s) = (λ h. inr (ground arith), λ h. ground arith)

pub has_char-append : (c : ℕ) (s t : Text) → has_char c (s ++ t) ≡ (has_char c s || has_char c t)
unfolding has_char
has_char-append c [] t = refl
has_char-append c (x ∷ s) t = ground (arith, has_char-append c s t)

pub starts_with-append :
    (c : ℕ) (s t : Text)
    → starts_with c (s ++ t) ≡ (if is_empty s then starts_with c t else starts_with c s)
starts_with-append c [] t = refl
starts_with-append c (x ∷ s) t = refl

pub has_pair-append :
    (a b : ℕ) (s t : Text)
    → has_pair a b (s ++ t)
      ≡ (has_pair a b s || has_pair a b t || (ends_with a s && starts_with b t))
unfolding has_pair ends_with
has_pair-append a b [] t = ground arith
has_pair-append a b (x ∷ []) t = ground arith
has_pair-append a b (x ∷ y ∷ s) t = ground (arith, has_pair-append a b (y ∷ s) t)

pub ends_with-snoc : (c x : ℕ) (s : Text) → ends_with c (s ++ x ∷ []) ≡ (x == c)
unfolding ends_with
ends_with-snoc c x [] = refl
ends_with-snoc c x (y ∷ []) = refl
ends_with-snoc c x (y ∷ z ∷ s) = ends_with-snoc c x (z ∷ s)

-- Two clean texts join to a clean one, if the joint makes no forbidden pair.
pub IsClean-append :
    (s t : Text)
    → IsClean s
    → IsClean t
    → (ends_with b'/' s && starts_with b'/' t) ≡ false
    → (ends_with b':' s && starts_with b'=' t) ≡ false
    → IsClean (s ++ t)
IsClean-append s t a b p q = ground (
  arith,
  has_char-append b'~' s t,
  has_char-append b' ' s t,
  has_char-append b'@' s t,
  has_pair-append b'/' b'/' s t,
  has_pair-append b':' b'=' s t,
)

-- `pop_back` takes off the last character.
pub pop_back_lem : (c : ℕ) (s : Text) → ends_with c s ≡ true → s ≡ pop_back s ++ c ∷ []
unfolding ends_with pop_back
pop_back_lem c [] h = ground arith
pop_back_lem c (x ∷ []) h = ground arith
pop_back_lem c (x ∷ y ∷ s) h = ground (arith, pop_back_lem c (y ∷ s) h)
