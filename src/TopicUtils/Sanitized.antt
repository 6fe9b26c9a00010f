-- ===== src/TopicUtils/Sanitized.antt =====
-- `AsValidTopic` of src/TopicUtils.cc.
use gz_transport.Common.{
  ℕ, ◌≡◌, refl, ◌∙◌, ◌⊎◌, inl, inr, Bool, true, false, not, ◌&&◌, [], ◌∷◌, is_empty, length, ltb,
  Text, text_eq, bytes, has_char, has_pair, arith, Bool-cases,
}
use gz_transport.TopicUtils.Names.{IsClean, is_valid_topic_iff}
use gz_transport.TopicUtils.{
  is_valid_topic, is_valid_namespace, emit, sanitize, as_valid_topic, skips_next, max_name_length,
}

emit-removes :
    (skip : Bool) (c : ℕ) (s rest : Text)
    → (has_char b' ' (emit skip c s rest) ≡ has_char b' ' rest)
      × (has_char b'@' (emit skip c s rest) ≡ has_char b'@' rest)
      × (has_char b'~' (emit skip c s rest) ≡ has_char b'~' rest)
unfolding has_char emit
emit-removes skip c s rest = (ground arith, ground arith, ground arith)

sanitize-removes :
    (skip : Bool) (s : Text)
    → (has_char b' ' (sanitize skip s) ≡ false)
      × (has_char b'@' (sanitize skip s) ≡ false)
      × (has_char b'~' (sanitize skip s) ≡ false)
unfolding sanitize
sanitize-removes skip [] =
    (unfold has_char in refl, unfold has_char in refl, unfold has_char in refl)
sanitize-removes skip (x ∷ s) =
    let rest = sanitize-removes (not skip && skips_next x s) s in
    let (a, b, c) = emit-removes skip x s (sanitize (not skip && skips_next x s) s) in
    (a ∙ rest.0, b ∙ rest.1, c ∙ rest.2)

emit-keep :
    (c : ℕ) (s rest : Text)
    → IsClean (c ∷ s)
    → (emit false c s rest ≡ c ∷ rest) × (skips_next c s ≡ false) × IsClean s
unfolding emit has_char has_pair
emit-keep c s rest h = (ground arith, ground arith, ground arith)

sanitize_clean : (s : Text) → IsClean s → sanitize false s ≡ s
unfolding sanitize
sanitize_clean [] c = refl
sanitize_clean (x ∷ s) c =
    let (a, b, d) = emit-keep x s (sanitize (skips_next x s) s) c in
    ground (arith, a, b, sanitize_clean s d)

-- What is left of a topic by the loop of `AsValidTopic` and cannot be used.
abbrev pub IsHopeless : Text → Type 0
IsHopeless s =
    (is_empty s ≡ true)
    ⊎ ((text_eq s (bytes "/") ≡ true)
        ⊎ ((ltb max_name_length (length s) ≡ true)
            ⊎ ((has_pair b'/' b'/' s ≡ true) ⊎ (has_pair b':' b'=' s ≡ true))))

hopeless :
    (s : Text)
    → is_valid_topic s ≡ false
    → (has_char b' ' s ≡ false) × (has_char b'@' s ≡ false) × (has_char b'~' s ≡ false)
    → IsHopeless s
unfolding is_valid_topic is_valid_namespace
hopeless s h r = ground arith

-- `AsValidTopic` leaves a valid topic as it is.
pub as_valid_topic_same : (t : Text) → is_valid_topic t ≡ true → as_valid_topic t ≡ t
unfolding as_valid_topic
as_valid_topic_same t h = ground (arith, sanitize_clean t ((is_valid_topic_iff t).0 h).clean)

-- `AsValidTopic` gives a valid topic, or it gives the empty text and the text that its loop made is
-- empty, is "/", is too long, or still has "//" or ":=" in it.
as_valid_topic-cases :
    (t : Text)
    → (is_valid_topic (as_valid_topic t) ≡ true)
      ⊎ ((as_valid_topic t ≡ []) × IsHopeless (sanitize false t))
unfolding as_valid_topic
as_valid_topic-cases t = elim (Bool-cases (is_valid_topic (sanitize false t))) [
  | inl e ↦ inl (ground arith)
  | inr e ↦ inr (ground arith, hopeless (sanitize false t) e (sanitize-removes false t))
]
