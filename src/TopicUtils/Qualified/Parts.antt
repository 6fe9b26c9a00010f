-- ===== src/TopicUtils/Qualified/Parts.antt =====
-- What `FullyQualifiedName` of src/TopicUtils.cc makes of the partition and of the topic.
use gz_transport.Common.{
  ℕ, ◌≡◌, refl, ◌⊎◌, inl, inr, true, false, [], ◌∷◌, ◌++◌, is_empty, ◌==◌, Text, bytes, text_eq,
  has_char, has_pair, starts_with, ends_with, pop_back, arith, Bool-cases,
}
use gz_transport.TopicUtils.Names.{
  IsClean, IsName, IsNamespace, has_char-append, has_pair-append, starts_with-append,
  ends_with-snoc, IsClean-append, pop_back_lem,
}
use gz_transport.TopicUtils.{strip_slash, qualify_partition, qualify_topic, end_slash, front_slash}

-- A name but for its length.
pub record IsPart (s : Text) : Type 0 where
  pub filled : is_empty s ≡ false
  pub not_root : text_eq s (bytes "/") ≡ false
  pub clean : IsClean s

IsClean-left : (s t : Text) → IsClean (s ++ t) → IsClean s
IsClean-left s t h = ground (
  arith,
  has_char-append b'~' s t,
  has_char-append b' ' s t,
  has_char-append b'@' s t,
  has_pair-append b'/' b'/' s t,
  has_pair-append b':' b'=' s t,
)

root-IsClean : IsClean (bytes "/")
unfolding has_char has_pair
root-IsClean = ground arith

nil-IsClean : IsClean []
unfolding has_char has_pair
nil-IsClean = ground arith

stem : (s t : Text) → s ≡ t ++ b'/' ∷ [] → IsPart s → IsPart t
unfolding text_eq has_pair
stem s [] e p = absurd (ground arith)
stem s (x ∷ []) e p = ground (arith, IsClean-left (x ∷ []) (b'/' ∷ []))
stem s (x ∷ y ∷ t) e p = ground (arith, IsClean-left (x ∷ y ∷ t) (b'/' ∷ []))

pub strip_slash-IsPart : (s : Text) → IsPart s → IsPart (strip_slash s)
unfolding strip_slash
strip_slash-IsPart s p = elim (Bool-cases (ends_with b'/' s)) [
  | inl e ↦ ground (arith, stem s (pop_back s) (pop_back_lem b'/' s e) p)
  | inr e ↦ ground arith
]

slash_cons : (s : Text) → IsPart s → starts_with b'/' s ≡ false → IsPart (b'/' ∷ s)
unfolding text_eq ends_with
slash_cons [] p h = absurd (ground arith)
slash_cons (x ∷ s) p h = record {
  filled = refl;
  not_root = ground arith;
  clean = IsClean-append (b'/' ∷ []) (x ∷ s) root-IsClean p.clean (ground arith) refl;
}

namespace-IsPart : (s : Text) → IsName s → IsPart s
namespace-IsPart s n = record { filled = n.filled; not_root = n.not_root; clean = n.clean }

-- The partition of a qualified name is empty, or clean, and then begins with a slash.
pub qualify_partition-parts :
    (p : Text) → IsNamespace p → (qualify_partition p ≡ []) ⊎ IsPart (qualify_partition p)
unfolding qualify_partition
qualify_partition-parts p (inl e) = inl (rw e (unfold strip_slash in refl))
qualify_partition-parts p (inr n) = elim (Bool-cases (starts_with b'/' p)) [
  | inl e ↦ inr (ground (arith, strip_slash-IsPart p (namespace-IsPart p n)))
  | inr e ↦ inr (
      ground
        (arith, n.filled, strip_slash-IsPart (b'/' ∷ p) (slash_cons p (namespace-IsPart p n) e)))
]

ends_with_both : (a b : ℕ) (s : Text) → ends_with a s ≡ true → ends_with b s ≡ true → a ≡ b
unfolding ends_with
ends_with_both a b [] h k = ground arith
ends_with_both a b (x ∷ []) h k = ground arith
ends_with_both a b (x ∷ y ∷ s) h k = ends_with_both a b (y ∷ s) h k

-- A directory: clean, and closed by a slash.
record IsDir (s : Text) : Type 0 where
  filled : is_empty s ≡ false
  clean : IsClean s
  closed : ends_with b'/' s ≡ true

end_slash-IsDir : (ns : Text) → IsNamespace ns → IsDir (end_slash ns)
unfolding end_slash
end_slash-IsDir ns (inl e) =
    rw e (record { filled = refl; clean = root-IsClean; closed = unfold ends_with in refl })
end_slash-IsDir [] (inr n) = absurd (ground arith)
end_slash-IsDir (x ∷ s) (inr n) = elim (Bool-cases (ends_with b'/' (x ∷ s))) [
  | inl e ↦ ground (arith, n.clean)
  | inr e ↦
      let dir : IsDir ((x ∷ s) ++ b'/' ∷ []) = record {
        filled = refl;
        clean =
            IsClean-append (x ∷ s) (b'/' ∷ []) n.clean root-IsClean (ground arith) (ground arith);
        closed = ends_with-snoc b'/' b'/' (x ∷ s);
      } in
      ground (arith, dir)
]

front_slash-IsDir : (s : Text) → IsDir s → IsDir (front_slash s)
unfolding front_slash ends_with
front_slash-IsDir [] d = absurd (ground arith)
front_slash-IsDir (x ∷ s) d = elim (Bool-cases (x == b'/')) [
  | inl e ↦ ground (arith, d)
  | inr e ↦
      let dir : IsDir (b'/' ∷ x ∷ s) = record {
        filled = refl;
        clean = IsClean-append (b'/' ∷ []) (x ∷ s) root-IsClean d.clean (ground arith) refl;
        closed = d.closed;
      } in
      ground (arith, dir)
]

front_slash-front : (s : Text) → starts_with b'/' (front_slash s) ≡ true
unfolding front_slash
front_slash-front [] = refl
front_slash-front (x ∷ s) = ground arith

dir_join : (d s : Text) → IsDir d → IsPart s → starts_with b'/' s ≡ false → IsPart (d ++ s)
unfolding text_eq
dir_join [] s d p h = absurd (ground arith)
dir_join (x ∷ r) [] d p h = absurd (ground arith)
dir_join (x ∷ r) (y ∷ s) d p h = record {
  filled = refl;
  not_root = ground (arith, starts_with-append b'/' r (y ∷ s));
  clean =
      IsClean-append (x ∷ r) (y ∷ s) d.clean p.clean (ground arith)
        (ground (arith, ends_with_both b'/' b':' (x ∷ r)));
}

-- The rest of a qualified name is clean, not just a slash, and begins with a slash.
pub qualify_topic-parts :
    (ns t : Text)
    → IsNamespace ns
    → IsName t
    → IsPart (qualify_topic ns t) × (starts_with b'/' (qualify_topic ns t) ≡ true)
unfolding qualify_topic
qualify_topic-parts ns t n m =
    let p = strip_slash-IsPart t (namespace-IsPart t m) in
    let d = front_slash-IsDir (end_slash ns) (end_slash-IsDir ns n) in
    elim (Bool-cases (starts_with b'/' (strip_slash t))) [
      | inl e ↦ ground (arith, p)
      | inr e ↦ ground (
        arith,
        dir_join (front_slash (end_slash ns)) (strip_slash t) d p e,
        front_slash-front (end_slash ns),
        starts_with-append b'/' (front_slash (end_slash ns)) (strip_slash t),
        d,
      )
    ]
