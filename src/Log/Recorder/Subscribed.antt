-- ===== src/Log/Recorder/Subscribed.antt =====
-- log/src/Recorder.cc: a topic that is advertised after its pattern was added.
use gz_transport.Common.{
  ◌≡◌, refl, Bool, true, false, List, [], ◌∷◌, some, any, is_empty, length, ltb, any-append,
  if◌then◌else◌, Text, text_eq, text_eq_refl, drop, starts_with, ends_with, arith, Bool-cases, inl,
  inr,
}
use gz_transport.TopicUtils.{fully_qualified_name, qualify_partition, qualify_topic, strip_slash}
use gz_transport.TopicUtils.Qualified.{decompose-fully_qualified_name}
use gz_transport.Log.Recorder.{Recorder, add_topic, subscribe_matching, on_advertisement}

abbrev pub is_subscribed : Text → Recorder → Bool
is_subscribed topic r = any (λ t. text_eq t topic) r.already_subscribed

add_topic-subscribed :
    (subscribes : Text → Bool) (topic : Text) (r : Recorder)
    → subscribes topic ≡ true
    → is_subscribed topic (add_topic subscribes topic r).0 ≡ true
unfolding add_topic
add_topic-subscribed subscribes topic r ok =
    ground (
      arith,
      any-append (λ t. text_eq t topic) r.already_subscribed (topic ∷ []),
      text_eq_refl topic,
    )

add_topic-keeps :
    (subscribes : Text → Bool) (topic other : Text) (r : Recorder)
    → is_subscribed other r ≡ true
    → is_subscribed other (add_topic subscribes topic r).0 ≡ true
unfolding add_topic
add_topic-keeps subscribes topic other r h =
    ground (arith, any-append (λ t. text_eq t other) r.already_subscribed (topic ∷ []))

subscribe_matching-keeps :
    (subscribes : Text → Bool) (topic : Text) (ps : List (Text → Bool)) (r : Recorder)
    → is_subscribed topic r ≡ true
    → is_subscribed topic (subscribe_matching subscribes topic ps r).0 ≡ true
unfolding subscribe_matching
subscribe_matching-keeps subscribes topic [] r h = h
subscribe_matching-keeps subscribes topic (p ∷ ps) r h =
    let r' = (add_topic subscribes topic r).0 in
    elim (Bool-cases (p topic)) [
      | inl e ↦ rw e (
          subscribe_matching-keeps subscribes topic ps r'
            (add_topic-keeps subscribes topic topic r h))
      | inr e ↦ rw e (subscribe_matching-keeps subscribes topic ps r h)
    ]

subscribe_matching-subscribed :
    (subscribes : Text → Bool) (topic : Text) (ps : List (Text → Bool)) (r : Recorder)
    → subscribes topic ≡ true
    → any (λ (p : Text → Bool). p topic) ps ≡ true
    → is_subscribed topic (subscribe_matching subscribes topic ps r).0 ≡ true
unfolding subscribe_matching
subscribe_matching-subscribed subscribes topic [] r ok h = absurd (ground arith)
subscribe_matching-subscribed subscribes topic (p ∷ ps) r ok h =
    let r' = (add_topic subscribes topic r).0 in
    elim (Bool-cases (p topic)) [
      | inl e ↦ rw e (
          subscribe_matching-keeps subscribes topic ps r'
            (add_topic-subscribed subscribes topic r ok))
      | inr e ↦ rw e (subscribe_matching-subscribed subscribes topic ps r ok (ground arith))
    ]

-- The comparison of the partitions, where the one of the node has no slash at its end.
same_partition :
    (p : Text)
    → ends_with b'/' p ≡ false
    → text_eq p (drop (if starts_with b'/' p then 0 else 1) (qualify_partition p)) ≡ true
unfolding qualify_partition strip_slash drop
same_partition [] h = unfold text_eq ends_with in refl
same_partition (c ∷ s) h =
    let longer : ends_with b'/' (b'/' ∷ c ∷ s) ≡ false = unfold ends_with in h in
    elim (Bool-cases (starts_with b'/' (c ∷ s))) [
      | inl e ↦ rw (e, h) (text_eq_refl (c ∷ s))
      | inr e ↦ rw (e, longer) (text_eq_refl (c ∷ s))
    ]

-- The comparison starts inside the partition, where the one of the node is not empty.
in_partition :
    (p : Text)
    → is_empty p ≡ false
    → ends_with b'/' p ≡ false
    → ltb (length (qualify_partition p)) (if starts_with b'/' p then 0 else 1) ≡ false
unfolding qualify_partition strip_slash
in_partition [] h no_slash = absurd (ground arith)
in_partition (c ∷ s) h no_slash =
    let longer : ends_with b'/' (b'/' ∷ c ∷ s) ≡ false = unfold ends_with in no_slash in
    elim (Bool-cases (starts_with b'/' (c ∷ s))) [
      | inl e ↦ rw (e, no_slash) (ground arith)
      | inr e ↦ rw (e, longer) (ground arith)
    ]

-- When a publisher of the recorder's partition advertises a topic that one of the patterns matches,
-- and the subscription does not fail, the recorder is subscribed to the topic. The partition is not
-- empty, where the code would read behind its end; it may begin with a slash, but does not end with
-- one.
pub on_advertisement-subscribed :
    (subscribes : Text → Bool) (partition ns topic name : Text) (r : Recorder)
    → fully_qualified_name partition ns topic ≡ some name
    → is_empty partition ≡ false
    → ends_with b'/' partition ≡ false
    → subscribes (qualify_topic ns topic) ≡ true
    → any (λ (p : Text → Bool). p (qualify_topic ns topic)) r.patterns ≡ true
    → (r' : Recorder) × ((calls : List Text) × ((on_advertisement subscribes partition name r
            ≡ some (r', calls))
          × (is_subscribed (qualify_topic ns topic) r' ≡ true)))
unfolding on_advertisement
on_advertisement-subscribed subscribes partition ns topic name r h filled no_slash ok matched =
    let T = qualify_topic ns topic in
    let inside = in_partition partition filled no_slash in
    let parts = (decompose-fully_qualified_name partition ns topic name h).0 in
    elim (Bool-cases (is_subscribed T r)) [
      | inl e ↦ rw (parts, inside, same_partition partition no_slash, e) (r, ([], (refl, e)))
      | inr e ↦
          let (r', calls) = subscribe_matching subscribes T r.patterns r in
          rw (parts, inside, same_partition partition no_slash, e)
            (
              r',
              (calls, (refl, subscribe_matching-subscribed subscribes T r.patterns r ok matched)),
            )
    ]
