-- ===== src/TopicUtils/Tests.antt =====
-- Examples of the names of src/TopicUtils.cc.
use gz_transport.Common.{
  ◌≡◌, refl, ◌↔◌, ◌≤◌, true, some, [], ◌∷◌, ◌++◌, length, bytes, starts_with, has_char, has_pair,
  ends_with, pop_back, find_first, find_last, take, drop, text_eq,
}
use gz_transport.TopicUtils.{
  is_valid_partition, is_valid_namespace, is_valid_topic, fully_qualified_name, qualify_partition,
  qualify_topic, strip_slash, end_slash, front_slash, decompose_fully_qualified_topic, decompose_at,
  as_valid_topic, max_name_length,
}
use gz_transport.TopicUtils.Qualified.{
  decompose_fully_qualified_topic_iff, decompose-fully_qualified_name,
}
use gz_transport.TopicUtils.Token.{mangle_type, decompose_message_token, create_message_token}
use gz_transport.TopicUtils.Token.Fields.{IsField}
use gz_transport.TopicUtils.Token.RoundTrip.{Announces, announced, decompose-create_message_token}

qualified :
    fully_qualified_name (bytes "sim") (bytes "ns") (bytes "odom/") ≡ some (bytes "@/sim@/ns/odom")
unfolding fully_qualified_name is_valid_partition is_valid_namespace is_valid_topic
    qualify_partition qualify_topic strip_slash end_slash front_slash text_eq has_char has_pair
    ends_with pop_back
qualified = refl

taken_apart :
    decompose_fully_qualified_topic (bytes "@/sim@/odom") ≡ some (bytes "/sim", bytes "/odom")
unfolding decompose_fully_qualified_topic decompose_at is_valid_partition is_valid_namespace
    is_valid_topic find_first find_last take drop text_eq has_char has_pair
taken_apart = refl

taken_apart_bare : decompose_fully_qualified_topic (bytes "@@/odom") ≡ some ([], bytes "/odom")
unfolding decompose_fully_qualified_topic decompose_at is_valid_partition is_valid_namespace
    is_valid_topic find_first find_last take drop text_eq has_char has_pair
taken_apart_bare = refl

odom_valid : is_valid_topic (bytes "/odom") ≡ true
unfolding is_valid_topic is_valid_namespace text_eq has_char has_pair
odom_valid = refl

sanitized : as_valid_topic (bytes "a b@c//d:=~") ≡ bytes "a_bcd"
unfolding as_valid_topic is_valid_topic is_valid_namespace text_eq has_char has_pair
sanitized = refl

p1-IsField : IsField (bytes "p1")
unfolding has_char
p1-IsField = record { filled = refl; plain = refl }

odom-Announces :
    Announces
      (bytes "@/sim@/odom")
      (bytes "/sim")
      (bytes "/odom")
      (bytes "p1")
      (bytes "p1")
      (bytes "p1")
unfolding has_char
odom-Announces = record {
  decomposed = taken_apart;
  filled = refl;
  plain_partition = refl;
  plain_topic = refl;
  process = p1-IsField;
  node = p1-IsField;
  entity = p1-IsField;
}

mangled : mangle_type (bytes "Pair" ∷ bytes "Int" ∷ []) ≡ some (bytes "Pair&Int")
unfolding mangle_type has_char pop_back
mangled = refl

decompose-fully_qualified_name_example :
    (decompose_fully_qualified_topic (bytes "@/sim@/ns/odom")
      ≡ some (qualify_partition (bytes "sim"), qualify_topic (bytes "ns") (bytes "odom/")))
    × (starts_with b'/' (qualify_topic (bytes "ns") (bytes "odom/")) ≡ true)
    × (length (bytes "@/sim@/ns/odom") ≤ max_name_length)
decompose-fully_qualified_name_example =
    decompose-fully_qualified_name (bytes "sim") (bytes "ns") (bytes "odom/")
      (bytes "@/sim@/ns/odom") qualified

decompose_fully_qualified_topic_iff_example :
    (decompose_fully_qualified_topic (bytes "@/sim@/odom") ≡ some (bytes "/sim", bytes "/odom")) ↔ (
      (bytes "@/sim@/odom" ≡ b'@' ∷ bytes "/sim" ++ b'@' ∷ bytes "/odom")
      × (is_valid_partition (bytes "/sim") ≡ true)
      × (is_valid_topic (bytes "/odom") ≡ true))
decompose_fully_qualified_topic_iff_example =
    decompose_fully_qualified_topic_iff (bytes "@/sim@/odom") (bytes "/sim") (bytes "/odom")

decompose-create_message_token_example :
    decompose_message_token (
      create_message_token
        (bytes "@/sim@/odom")
        (bytes "p1")
        (bytes "p1")
        (bytes "p1")
        (bytes "Odometry"))
    ≡ some (
      announced
          (bytes "/sim")
          (bytes "/odom")
          (bytes "p1")
          (bytes "p1")
          (bytes "p1")
          (bytes "Odometry"),
      bytes "Odometry",
    )
decompose-create_message_token_example =
    decompose-create_message_token (bytes "@/sim@/odom") (bytes "/sim") (bytes "/odom") (bytes "p1")
      (bytes "p1") (bytes "p1") (bytes "Odometry") odom-Announces (unfold has_char in refl)
