-- ===== src/Node/Listing/Named.antt =====
-- src/Node.cc and src/TopicUtils.cc: which topics the list of a node names.
use gz_transport.Common.{
  ◌-◌, ◌<◌, ◌≡◌, refl, ap, inl, inr, [], ◌∷◌, some, none, true, false, not, ◌||◌, if◌then◌else◌,
  Text, text_eq, text_eq_refl, text_eq_iff, drop, length, pop_back, starts_with, ends_with, arith,
  Bool-cases,
}
use gz_transport.TopicUtils.{fully_qualified_name, qualify_partition, qualify_topic, strip_slash}
use gz_transport.TopicUtils.Qualified.{decompose-fully_qualified_name}
use gz_transport.Node.Listing.{listed_name}

shorter : (a b : Text) → length a < length b → text_eq a b ≡ false
shorter a b h = elim (Bool-cases (text_eq a b)) [
  | inl e ↦ absurd (omega (arith, h, ap length ((text_eq_iff a b).0 e)))
  | inr e ↦ e
]

length-pop_back : (s : Text) → length (pop_back s) ≡ length s - 1
unfolding pop_back
length-pop_back [] = refl
length-pop_back (x ∷ []) = refl
length-pop_back (x ∷ y ∷ s) = omega (arith, length-pop_back (y ∷ s))

length-drop_1 : (s : Text) → length (drop 1 s) ≡ length s - 1
unfolding drop
length-drop_1 [] = refl
length-drop_1 (x ∷ s) = omega arith

-- The partition of a node that has no slash at its front or end.
qualify_partition-back :
    (p : Text)
    → text_eq (drop 1 (qualify_partition p)) p ≡ not (starts_with b'/' p || ends_with b'/' p)
unfolding qualify_partition strip_slash
qualify_partition-back [] = unfold drop text_eq ends_with in refl
qualify_partition-back (c ∷ s) = elim (Bool-cases (starts_with b'/' (c ∷ s))) [
  | inl e ↦ elim (Bool-cases (ends_with b'/' (c ∷ s))) [
    | inl e' ↦
        rw (e, e')
          (shorter (drop 1 (pop_back (c ∷ s))) (c ∷ s)
            (omega (arith, length-drop_1 (pop_back (c ∷ s)), length-pop_back (c ∷ s))))
    | inr e' ↦ rw (e, e') (shorter (drop 1 (c ∷ s)) (c ∷ s) (omega (arith, length-drop_1 (c ∷ s))))
  ]
  | inr e ↦ elim (Bool-cases (ends_with b'/' (c ∷ s))) [
    | inl e' ↦
        let longer : ends_with b'/' (b'/' ∷ c ∷ s) ≡ true = unfold ends_with in e' in
        let back : drop 1 (pop_back (b'/' ∷ c ∷ s)) ≡ pop_back (c ∷ s) =
          unfold drop pop_back in refl in
        rw (e, e', longer, back)
          (shorter (pop_back (c ∷ s)) (c ∷ s) (omega (arith, length-pop_back (c ∷ s))))
    | inr e' ↦
        let longer : ends_with b'/' (b'/' ∷ c ∷ s) ≡ false = unfold ends_with in e' in
        let back : drop 1 (b'/' ∷ c ∷ s) ≡ c ∷ s = unfold drop in refl in
        rw (e, e', longer, back) (text_eq_refl (c ∷ s))
  ]
]

-- The list of a node names a topic that a node with the same partition and namespace made the name
-- of, as the absolute topic, exactly if the partition has no slash at its front or end.
pub listed_name-fully_qualified_name :
    (partition ns topic name : Text)
    → fully_qualified_name partition ns topic ≡ some name
    → listed_name partition name ≡ (
        if starts_with b'/' partition || ends_with b'/' partition
        then none
        else some (qualify_topic ns topic))
unfolding listed_name
listed_name-fully_qualified_name partition ns topic name h =
    rw (decompose-fully_qualified_name partition ns topic name h).0
      (ground (arith, qualify_partition-back partition))
