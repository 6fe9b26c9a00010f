-- ===== src/Log/Command/Remap.antt =====
-- log/src/cmd/LogCommandAPI.cc: the remapping of a topic that is played back.
use gz_transport.Common.{
  ℕ, zero, suc, ◌+◌, ◌≤◌, ◌-◌, ◌≡◌, refl, ap, subst, true, false, none, some, [], ◌∷◌, ◌++◌,
  append_assoc, length, length-append, is_empty, if◌then◌else◌, Text, has_pair, take, drop, arith,
  text_eq,
}
use gz_transport.Common.Map.{lookup, insert, contains, lookup-insert}
use gz_transport.TopicUtils.{is_valid_topic, is_valid_namespace}
use gz_transport.TopicUtils.Qualified.Search.{take-append, drop-append}
use gz_transport.NodeOptions.{NodeOptions, default_options, add_topic_remap, topic_remap}
use gz_transport.Log.Command.{find_delim, parse_remap, playback_options}

find_delim-append :
    (from to : Text)
    → has_pair b':' b'=' from ≡ false
    → find_delim (from ++ b':' ∷ b'=' ∷ to) ≡ some (length from)
unfolding find_delim has_pair
find_delim-append [] to h = refl
find_delim-append (x ∷ []) to h = ground arith
find_delim-append (x ∷ y ∷ s) to h = ground (arith, find_delim-append (y ∷ s) to)

take-long : (n : ℕ) (s : Text) → length s ≤ n → take n s ≡ s
unfolding take
take-long zero [] h = refl
take-long zero (x ∷ s) h = absurd (omega arith)
take-long (suc n) [] h = refl
take-long (suc n) (x ∷ s) h = ap (λ t. x ∷ t) (take-long n s (omega arith))

no_delim : (t : Text) → is_valid_topic t ≡ true → has_pair b':' b'=' t ≡ false
unfolding is_valid_topic is_valid_namespace
no_delim t h = ground arith

-- The two topics are those on the sides of the first delimiter.
parse_remap-append :
    (from to : Text)
    → has_pair b':' b'=' from ≡ false
    → parse_remap (from ++ b':' ∷ b'=' ∷ to) ≡ some (from, to)
unfolding parse_remap
parse_remap-append from to h =
    let remap = from ++ b':' ∷ b'=' ∷ to in
    let ends : length remap ≡ length from + (length to + 2) =
      omega (arith, length-append from (b':' ∷ b'=' ∷ to)) in
    let cut : drop (length from + 2) remap ≡ to =
      subst (λ s. drop (length from + 2) s ≡ to) (append_assoc from (b':' ∷ b'=' ∷ []) to)
        (subst (λ n. drop n ((from ++ b':' ∷ b'=' ∷ []) ++ to) ≡ to)
          (length-append from (b':' ∷ b'=' ∷ [])) (drop-append (from ++ b':' ∷ b'=' ∷ []) to)) in
    let whole : take (length remap - length from - 1) to ≡ to =
      take-long (length remap - length from - 1) to (omega (arith, ends)) in
    rw (parse_remap, find_delim-append from to h, take-append from (b':' ∷ b'=' ∷ to), cut, whole)
      refl

-- A remapping of a valid topic to a valid topic, with the delimiter between them, is accepted, and
-- the options of the playback then map the one topic to the other, and no other topic to anything.
playback_options-remap :
    (host_user from to q : Text)
    → is_valid_topic from ≡ true
    → is_valid_topic to ≡ true
    → (o : NodeOptions) × ((playback_options host_user (from ++ b':' ∷ b'=' ∷ to) ≡ some o)
        × (topic_remap q o ≡ (if text_eq from q then some to else none)))
unfolding playback_options add_topic_remap topic_remap contains lookup
playback_options-remap host_user from to q v w =
    let o = record (default_options host_user) { topics_remap = insert from to [] } in
    let parsed = parse_remap-append from to (no_delim from v) in
    (
      o,
      (
        rw (playback_options, filled from to, parsed, add_topic_remap, v, w) refl,
        lookup-insert from q to [],
      ),
    )
  where
    filled : (s t : Text) → is_empty (s ++ b':' ∷ b'=' ∷ t) ≡ false
    filled [] t = refl
    filled (x ∷ s) t = refl
