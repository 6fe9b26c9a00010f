-- ===== src/TopicUtils/Token/RoundTrip.antt =====
-- The liveliness tokens of src/TopicUtils.cc, made and taken apart.
use gz_transport.Common.{
  ◌≡◌, refl, ◌∙◌, true, false, none, some, List, [], ◌∷◌, ◌++◌, is_empty, Text, bytes, has_char,
  arith,
}
use gz_transport.TopicUtils.Names.{is_valid_topic_iff}
use gz_transport.TopicUtils.Qualified.{decompose_fully_qualified_topic_iff}
use gz_transport.TopicUtils.Token.Fields.{
  IsField, percent-IsField, cut-slashed, next_field-slashed, count-slashed-le, tail_of,
  count-tail_of, starts_with-slashed,
}
use gz_transport.TopicUtils.Token.Mangled.{
  demangle_name-mangle_name, has_char-mangle_name, is_empty-mangle_name, demangle_type-mangle_type,
}
use gz_transport.TopicUtils.{
  is_valid_partition, is_valid_topic, decompose_fully_qualified_topic, mangle_name, replace,
}
use gz_transport.TopicUtils.Token.{
  Liveliness, next_field, check_names, read_fields, decompose_helper, decompose_message_token,
  decompose_service_token, create_helper, create_message_token, create_service_token, slashed,
  mangle_type, two_types,
}

-- The fields of the token of a node for a partition and a topic.
abbrev fields : Text → Text → Text → Text → Text → List Text
fields partition topic p n e =
    bytes "@gz"
    ∷ mangle_name partition
    ∷ p
    ∷ n
    ∷ n
    ∷ e
    ∷ bytes "%"
    ∷ bytes "%"
    ∷ bytes "%"
    ∷ mangle_name topic
    ∷ []

-- What a reader learns from such a token.
abbrev pub announced : Text → Text → Text → Text → Text → Text → Liveliness
announced partition topic p n e type = record {
  prefix = bytes "@gz";
  partition = partition;
  topic = topic;
  p_uuid = p;
  n_uuid = n;
  entity_type = e;
  remaining = tail_of type;
}

mangled-IsField : (s : Text) → is_empty s ≡ false → IsField (mangle_name s)
mangled-IsField s h = record { filled = is_empty-mangle_name s ∙ h; plain = has_char-mangle_name s }

module _ (partition topic p n e type : Text) (filled : is_empty partition ≡ false)
    (topic_filled : is_empty topic ≡ false) (plain_partition : has_char b'%' partition ≡ false)
    (plain_topic : has_char b'%' topic ≡ false) (partition_ok : is_valid_partition partition ≡ true)
    (topic_ok : is_valid_topic topic ≡ true) (p_field : IsField p) (n_field : IsField n)
    (e_field : IsField e) where
  read_back :
      read_fields (slashed (fields partition topic p n e) ++ tail_of type)
      ≡ some (announced partition topic p n e type)
  unfolding read_fields check_names
  read_back =
      let end = tail_of type in
      let pc = bytes "%" in
      let t₉ = mangle_name topic ∷ [] in
      let t₈ = pc ∷ t₉ in
      let t₇ = pc ∷ t₈ in
      let t₆ = pc ∷ t₇ in
      let t₅ = e ∷ t₆ in
      let t₄ = n ∷ t₅ in
      let t₃ = n ∷ t₄ in
      let t₂ = p ∷ t₃ in
      rw
        (
          cut-slashed (bytes "@gz") (mangle_name partition ∷ t₂) end (unfold has_char in refl),
          next_field-slashed (mangle_name partition) t₂ end (mangled-IsField partition filled),
          next_field-slashed p t₃ end p_field,
          next_field-slashed n t₄ end n_field,
          next_field-slashed n t₅ end n_field,
          next_field-slashed e t₆ end e_field,
          next_field-slashed pc t₇ end percent-IsField,
          next_field-slashed pc t₈ end percent-IsField,
          next_field-slashed pc t₉ end percent-IsField,
          next_field-slashed (mangle_name topic) [] end (mangled-IsField topic topic_filled),
          demangle_name-mangle_name partition plain_partition,
          demangle_name-mangle_name topic plain_topic,
        )
        (rw (partition_ok, topic_ok) (unfold slashed in refl))

  helper_back :
      decompose_helper (slashed (fields partition topic p n e) ++ tail_of type)
      ≡ some (announced partition topic p n e type)
  unfolding decompose_helper
  helper_back = ground (
    arith,
    count-slashed-le (fields partition topic p n e) (tail_of type),
    starts_with-slashed b'@' b'@' (bytes "gz")
        (mangle_name partition
          ∷ p
          ∷ n
          ∷ n
          ∷ e
          ∷ bytes "%"
          ∷ bytes "%"
          ∷ bytes "%"
          ∷ mangle_name topic
          ∷ [])
        (tail_of type),
    read_back,
  )

  message_back :
      has_char b'/' type ≡ false
      → decompose_message_token (slashed (fields partition topic p n e) ++ tail_of type)
        ≡ some (announced partition topic p n e type, type)
  unfolding decompose_message_token
  message_back h = rw (
    helper_back,
    count-tail_of type h,
    cut-slashed type (bytes "%" ∷ []) (bytes "%") h,
    next_field-slashed (bytes "%") [] (bytes "%") percent-IsField,
  )

  service_back :
      (req rep : Text)
      → mangle_type (req ∷ rep ∷ []) ≡ some type
      → has_char b'/' type ≡ false
      → decompose_service_token (slashed (fields partition topic p n e) ++ tail_of type)
        ≡ some (announced partition topic p n e type, req, rep)
  unfolding decompose_service_token two_types
  service_back req rep m h = rw (
    helper_back,
    count-tail_of type h,
    cut-slashed type (bytes "%" ∷ []) (bytes "%") h,
    (demangle_type-mangle_type (req ∷ rep ∷ []) type m).0,
    next_field-slashed (bytes "%") [] (bytes "%") percent-IsField,
  )

-- The token of a node: its topic is a qualified name with a partition, none of its names has a '%',
-- and its UUIDs and its entity type can be fields.
pub record Announces (name partition topic p n e : Text) : Type 0 where
  pub decomposed : decompose_fully_qualified_topic name ≡ some (partition, topic)
  pub filled : is_empty partition ≡ false
  pub plain_partition : has_char b'%' partition ≡ false
  pub plain_topic : has_char b'%' topic ≡ false
  pub process : IsField p
  pub node : IsField n
  pub entity : IsField e

create_helper_eq :
    (name partition topic p n e : Text)
    → decompose_fully_qualified_topic name ≡ some (partition, topic)
    → create_helper name p n e ≡ slashed (fields partition topic p n e)
unfolding create_helper
create_helper_eq name partition topic p n e h = rw (h, create_helper)

-- A message token that `CreateLivelinessToken` makes for a qualified name with a partition, where
-- no '%' stands in the name, the UUIDs and the entity type are not empty and have no slash, and
-- the type has no slash, is taken apart by `DecomposeLivelinessToken` into the same partition,
-- topic, UUIDs, entity type and message type.
pub decompose-create_message_token :
    (name partition topic p n e type : Text)
    → Announces name partition topic p n e
    → has_char b'/' type ≡ false
    → decompose_message_token (create_message_token name p n e type)
      ≡ some (announced partition topic p n e type, type)
unfolding create_message_token
decompose-create_message_token name partition topic p n e type a h =
    let (_, v, w) = (decompose_fully_qualified_topic_iff name partition topic).0 a.decomposed in
    rw (create_helper_eq name partition topic p n e a.decomposed) (
      message_back partition topic p n e type a.filled ((is_valid_topic_iff topic).0 w).filled
        a.plain_partition a.plain_topic v w a.process a.node a.entity h)

-- A service token that `CreateLivelinessToken` makes for a qualified name with a partition, where
-- no '%' stands in the name, the UUIDs and the entity type are not empty and have no slash, and
-- the two types can be mangled and have no slash, is taken apart by `DecomposeLivelinessToken`
-- into the same partition, topic, UUIDs, entity type, request type and response type.
decompose-create_service_token :
    (name partition topic p n e req rep types : Text)
    → Announces name partition topic p n e
    → mangle_type (req ∷ rep ∷ []) ≡ some types
    → has_char b'/' types ≡ false
    → decompose_service_token (create_service_token name p n e req rep)
      ≡ some (announced partition topic p n e types, req, rep)
unfolding create_service_token
decompose-create_service_token name partition topic p n e req rep types a m h =
    let (_, v, w) = (decompose_fully_qualified_topic_iff name partition topic).0 a.decomposed in
    rw (m, create_service_token, create_helper_eq name partition topic p n e a.decomposed)
      (service_back partition topic p n e types a.filled ((is_valid_topic_iff topic).0 w).filled
        a.plain_partition a.plain_topic v w a.process a.node a.entity req rep m h)

refused : (fs : List Text) (r : Text) → read_fields (slashed (bytes "@gz" ∷ [] ∷ fs) ++ r) ≡ none
unfolding read_fields next_field
refused fs r =
    rw (cut-slashed (bytes "@gz") ([] ∷ fs) r (unfold has_char in refl)) (unfold slashed in refl)

helper_refused :
    (fs : List Text) (r : Text) → decompose_helper (slashed (bytes "@gz" ∷ [] ∷ fs) ++ r) ≡ none
unfolding decompose_helper
helper_refused fs r = ground (arith, refused fs r)

mangle_nil : mangle_name [] ≡ []
unfolding mangle_name replace
mangle_nil = refl

-- A token for a name without a partition, which is a valid name, is refused by
-- `DecomposeLivelinessToken`, whatever its other parts are.
decompose-create_no_partition :
    (name topic p n e type : Text)
    → decompose_fully_qualified_topic name ≡ some ([], topic)
    → decompose_message_token (create_message_token name p n e type) ≡ none
unfolding create_message_token decompose_message_token
decompose-create_no_partition name topic p n e type h =
    let rest = p ∷ n ∷ n ∷ e ∷ bytes "%" ∷ bytes "%" ∷ bytes "%" ∷ mangle_name topic ∷ [] in
    rw (create_helper_eq name [] topic p n e h, mangle_nil, helper_refused rest (tail_of type))
