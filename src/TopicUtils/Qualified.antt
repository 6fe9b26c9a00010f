-- ===== src/TopicUtils/Qualified.antt =====
-- `FullyQualifiedName` and `DecomposeFullyQualifiedTopic` of src/TopicUtils.cc, against each other.
mod Parts
pub mod Search
use gz_transport.Common.{
  ℕ, zero, suc, ◌+◌, ◌-◌, ◌≤◌, ◌<◌, ◌≡◌, refl, ap, ◌↔◌, ◌⊎◌, inl, inr, Bool, true, false, not, ◌&&◌,
  ◌||◌, Option, none, some, List, [], ◌∷◌, ◌++◌, append_assoc, length, length-append, is_empty, ltb,
  ◌==◌, if◌then◌else◌, Text, bytes, text_eq, has_char, starts_with, find_first, find_last, take,
  drop, arith, Bool-cases, subst, ◌∙◌, Option-cases,
}
use gz_transport.TopicUtils.Names.{
  IsClean, IsName, IsNamespace, is_valid_namespace_iff, is_valid_topic_iff,
}
use gz_transport.TopicUtils.{
  is_valid_namespace, is_valid_partition, is_valid_topic, fully_qualified_name, qualify_partition,
  qualify_topic, decompose_fully_qualified_topic, decompose_at, max_name_length,
}
use Search.{
  find_first-cons, find_first-zero, find_last-split, find_last-append, take-append, drop-append,
}
use Parts.{IsPart, qualify_partition-parts, qualify_topic-parts}

-- Where the searches find the two marks of a name.
last_mark :
    (p t : Text)
    → has_char b'@' t ≡ false
    → find_last b'@' (b'@' ∷ p ++ b'@' ∷ t) ≡ some (suc (length p))
last_mark p t h = find_last-append b'@' (b'@' ∷ p) t h

length_name : (p t : Text) → length (b'@' ∷ p ++ b'@' ∷ t) ≡ length p + length t + 2
length_name p t = omega (arith, length-append p (b'@' ∷ t))

cut_partition :
    (p t : Text) → take (suc (length p) - 0 - 1) (drop (0 + 1) (b'@' ∷ p ++ b'@' ∷ t)) ≡ p
unfolding drop
cut_partition p t =
    let e : suc (length p) - 0 - 1 ≡ length p = omega arith in rw e (take-append p (b'@' ∷ t))

cut_topic : (p t : Text) → drop (suc (length p) + 1) (b'@' ∷ p ++ b'@' ∷ t) ≡ t
unfolding drop
cut_topic p t =
    let e : suc (length p) + 1 ≡ suc (suc (length p)) = omega arith in
    rw e (
      subst (λ s. drop (suc (length p)) s ≡ t) (append_assoc p (b'@' ∷ []) t)
        (subst (λ n. drop n ((p ++ b'@' ∷ []) ++ t) ≡ t) (length_snoc p)
          (drop-append (p ++ b'@' ∷ []) t)))
  where
    length_snoc : (p : Text) → length (p ++ b'@' ∷ []) ≡ suc (length p)
    length_snoc p = omega (arith, length-append p (b'@' ∷ []))

found :
    (p t : Text)
    → IsName t
    → decompose_fully_qualified_topic (b'@' ∷ p ++ b'@' ∷ t)
      ≡ decompose_at (b'@' ∷ p ++ b'@' ∷ t) 0 (suc (length p))
unfolding decompose_fully_qualified_topic
found p t n = ground (arith, find_first-cons b'@' (p ++ b'@' ∷ t), last_mark p t n.clean.no_at)

parts_at :
    (p t : Text)
    → is_valid_partition p ≡ true
    → IsName t
    → decompose_at (b'@' ∷ p ++ b'@' ∷ t) 0 (suc (length p)) ≡ some (p, t)
unfolding decompose_at
parts_at p [] vp n = absurd (ground arith)
parts_at p (x ∷ t) vp n = ground (
  arith,
  cut_partition p (x ∷ t),
  cut_topic p (x ∷ t),
  length_name p (x ∷ t),
  (is_valid_topic_iff (x ∷ t)).1 n,
)

compose :
    (p t : Text)
    → is_valid_partition p ≡ true
    → is_valid_topic t ≡ true
    → decompose_fully_qualified_topic (b'@' ∷ p ++ b'@' ∷ t) ≡ some (p, t)
compose p t vp vt = let n = (is_valid_topic_iff t).0 vt in found p t n ∙ parts_at p t vp n

parts_of :
    (s : Text) (k : ℕ) (p t : Text)
    → decompose_at (b'@' ∷ s) 0 (suc k) ≡ some (p, t)
    → (take k s ≡ p)
      × (drop (suc k) s ≡ t)
      × (is_valid_partition p ≡ true)
      × (is_valid_topic t ≡ true)
unfolding decompose_at
parts_of s k p t h =
    let e : suc k - 0 - 1 ≡ k = omega arith in
    let e' : suc k + 1 ≡ suc (suc k) = omega arith in
    let c : take (suc k - 0 - 1) (drop (0 + 1) (b'@' ∷ s)) ≡ take k s =
      rw e (unfold drop in refl) in
    let d : drop (suc k + 1) (b'@' ∷ s) ≡ drop (suc k) s = rw e' (unfold drop in refl) in
    ground (arith, c, d)

decompose_inverse :
    (name : Text) (l : ℕ) (p t : Text)
    → starts_with b'@' name ≡ true
    → find_last b'@' name ≡ some l
    → decompose_at name 0 l ≡ some (p, t)
    → (name ≡ b'@' ∷ p ++ b'@' ∷ t) × (is_valid_partition p ≡ true) × (is_valid_topic t ≡ true)
decompose_inverse [] l p t first last h = absurd (ground arith)
decompose_inverse (x ∷ s) zero p t first last h = absurd (unfold decompose_at in ground arith)
decompose_inverse (x ∷ s) (suc k) p t first last h =
    let here : b'@' ∷ s ≡ x ∷ s = ground arith in
    let (a, b, v, w) = parts_of s k p t (rw here h) in
    let cut = (find_last-split b'@' (x ∷ s) (suc k) last).0 in
    (unfold take drop in ground (arith, cut, a, b), v, w)

first-zero : (name : Text) (f l : ℕ) (r : Text × Text) → decompose_at name f l ≡ some r → f ≡ 0
unfolding decompose_at
first-zero name f l r h = ground arith

-- `DecomposeFullyQualifiedTopic` succeeds with a partition and a topic exactly when the name is
-- "@", the partition, "@" and the topic, the partition is valid, and the topic is valid.
pub decompose_fully_qualified_topic_iff :
    (name p t : Text)
    → (decompose_fully_qualified_topic name ≡ some (p, t))
      ↔ ((name ≡ b'@' ∷ p ++ b'@' ∷ t) × (is_valid_partition p ≡ true) × (is_valid_topic t ≡ true))
decompose_fully_qualified_topic_iff name p t = (
  λ h. elim (Option-cases (find_first b'@' name)) [
    | inl e ↦ absurd (unfold decompose_fully_qualified_topic in ground arith)
    | inr (f, e) ↦ elim (Option-cases (find_last b'@' name)) [
      | inl e' ↦ absurd (unfold decompose_fully_qualified_topic in ground arith)
      | inr (l, e') ↦
          let h' : decompose_at name f l ≡ some (p, t) =
            unfold decompose_fully_qualified_topic in ground arith in
          let z = first-zero name f l (p, t) h' in
          decompose_inverse name l p t (find_first-zero b'@' name (e ∙ ap some z)) e'
            (subst (λ i. decompose_at name i l ≡ some (p, t)) z h')
    ]
  ],
  λ (e, v, w). rw e (compose p t v w),
)

part_valid : (s : Text) → IsPart s → length s ≤ max_name_length → is_valid_topic s ≡ true
part_valid s p h =
    (is_valid_topic_iff s).1
      (record { filled = p.filled; short = h; not_root = p.not_root; clean = p.clean })

partition_valid :
    (s : Text) → (s ≡ []) ⊎ IsPart s → length s ≤ max_name_length → is_valid_partition s ≡ true
unfolding is_valid_partition is_valid_topic
partition_valid s (inl e) h = rw e (unfold is_valid_namespace in refl)
partition_valid s (inr p) h = ground (arith, part_valid s p h)

-- What a success of `FullyQualifiedName` says of its arguments and of its result.
record Qualifies (partition ns topic name : Text) : Type 0 where
  partition_ok : IsNamespace partition
  ns_ok : IsNamespace ns
  topic_ok : IsName topic
  shape : name ≡ b'@' ∷ qualify_partition partition ++ b'@' ∷ qualify_topic ns topic
  short : length name ≤ max_name_length

qualifies :
    (partition ns topic name : Text)
    → fully_qualified_name partition ns topic ≡ some name
    → Qualifies partition ns topic name
unfolding fully_qualified_name is_valid_partition
qualifies partition ns topic name h = record {
  partition_ok = (is_valid_namespace_iff partition).0 (ground arith);
  ns_ok = (is_valid_namespace_iff ns).0 (ground arith);
  topic_ok = (is_valid_topic_iff topic).0 (ground arith);
  shape = ground (
    arith,
    append_assoc (b'@' ∷ qualify_partition partition) (b'@' ∷ []) (qualify_topic ns topic),
  );
  short = ground arith;
}

-- Of valid inputs whose name is not too long, `FullyQualifiedName` gives a name that
-- `DecomposeFullyQualifiedTopic` takes apart into the adjusted partition and the absolute topic;
-- the absolute topic begins with a slash.
pub decompose-fully_qualified_name :
    (partition ns topic name : Text)
    → fully_qualified_name partition ns topic ≡ some name
    → (decompose_fully_qualified_topic name
        ≡ some (qualify_partition partition, qualify_topic ns topic))
      × (starts_with b'/' (qualify_topic ns topic) ≡ true)
      × (length name ≤ max_name_length)
decompose-fully_qualified_name partition ns topic name h =
    let q = qualifies partition ns topic name h in
    let P = qualify_partition partition in
    let T = qualify_topic ns topic in
    let (part, slash) = qualify_topic-parts ns topic q.ns_ok q.topic_ok in
    let size = ap length q.shape in
    let sum = length_name P T in
    (
      (decompose_fully_qualified_topic_iff name P T).1 (
        q.shape,
        partition_valid P (qualify_partition-parts partition q.partition_ok)
            (omega (arith, size, sum, q.short)),
        part_valid T part (omega (arith, size, sum, q.short)),
      ),
      slash,
      q.short,
    )
