-- ===== src/TopicUtils/Token.antt =====
-- The liveliness tokens and the mangled type lists of src/TopicUtils.cc.
pub mod Mangled
pub mod Fields
pub mod RoundTrip
use gz_transport.Common.{
  ℕ, zero, suc, ◌+◌, Bool, true, false, not, ◌&&◌, ◌||◌, Option, none, some, List, [], ◌∷◌, ◌++◌,
  length, is_empty, ltb, ◌==◌, if◌then◌else◌, ◌>>=◌, Text, bytes, has_char, starts_with, count,
  pop_back,
}
use gz_transport.TopicUtils.{
  is_valid_partition, is_valid_topic, decompose_fully_qualified_topic, mangle_name, demangle_name,
}

-- The text before the first `c` and the text behind it.
unfoldable pub split_first : ℕ → Text → Option (Text × Text)
split_first c [] = none
split_first c (x ∷ s) =
    if x == c
    then some ([], s)
    else elim (split_first c s) [ none ↦ none | some (a, b) ↦ some (x ∷ a, b) ]

-- `firstAt = find("/")`, `substr(0, firstAt)` and `erase(0, firstAt + 1)`. Where nothing is found
-- `firstAt` is `npos` and `firstAt + 1` wraps to 0: the field is the whole token, and nothing is
-- erased.
unfoldable pub cut : Text → Text × Text
unfolding split_first
cut s = elim (split_first b'/' s) [ none ↦ (s, s) | some (a, b) ↦ (a, b) ]

-- The same behind the test `if (firstAt == 0) return false`.
unfoldable pub next_field : Text → Option (Text × Text)
unfolding cut
next_field s = if starts_with b'/' s then none else some (cut s)

-- The output parameters of `DecomposeLivelinessTokenHelper`.
pub record Liveliness : Type 0 where
  pub prefix : Text
  pub partition : Text
  pub topic : Text
  pub p_uuid : Text
  pub n_uuid : Text
  pub entity_type : Text
  pub remaining : Text

-- The end of the helper: the validity of the names.
unfoldable pub check_names : Liveliness → Option Liveliness
check_names l =
    if not (is_valid_partition l.partition) || not (is_valid_topic l.topic) then none else some l

-- The fields of the helper, one after the other. The entity's UUID, the enclave, the namespace and
-- the node name are not used.
unfoldable pub read_fields : Text → Option Liveliness
unfolding check_names
read_fields token = do
  let (prefix, token₀) = cut token
  (partition, token₁) ← next_field token₀
  (p_uuid, token₂) ← next_field token₁
  (n_uuid, token₃) ← next_field token₂
  (entity_uuid, token₄) ← next_field token₃
  (entity_type, token₅) ← next_field token₄
  (enclave, token₆) ← next_field token₅
  (namespace, token₇) ← next_field token₆
  (node_name, token₈) ← next_field token₇
  (topic, token₉) ← next_field token₈
  check_names (record {
    prefix = prefix;
    partition = demangle_name partition;
    topic = demangle_name topic;
    p_uuid = p_uuid;
    n_uuid = n_uuid;
    entity_type = entity_type;
    remaining = token₉;
  })

-- `find_first_of("@") != 0` says that the token does not start with '@'.
unfoldable pub decompose_helper : Text → Option Liveliness
unfolding read_fields
decompose_helper token =
    if ltb (count b'/' token) 10
    then none
    else if not (starts_with b'@' token)
    then none
    else read_fields token

-- `DecomposeLivelinessToken` with one type.
unfoldable pub decompose_message_token : Text → Option (Liveliness × Text)
decompose_message_token token = do
  l ← decompose_helper token
  if not (count b'/' l.remaining == 2) then none else (do
    let (msg_type, token₀) = cut l.remaining
    (type_hash, qos) ← next_field token₀
    some (l, msg_type))

-- The loop of `DemangleType`. A round removes at least one character, so the length of the token
-- and one more is enough fuel.
unfoldable pub demangle_loop : ℕ → Text → List Text → Option (List Text)
demangle_loop zero token output = none
demangle_loop (suc fuel) token output = elim (split_first b'&' token) [
  | none ↦ if is_empty token then none else some (output ++ token ∷ [])
  | some (type, token') ↦
      let rest = demangle_loop fuel token' (output ++ type ∷ []) in
      if is_empty type then none else rest
]

unfoldable pub demangle_type : Text → Option (List Text)
unfolding demangle_loop
demangle_type input = if is_empty input then none else demangle_loop (suc (length input)) input []

-- The loop of `MangleType` over the types, with `_output` so far.
unfoldable pub mangle_loop : List Text → Text → Option Text
mangle_loop [] output = some (pop_back output)
mangle_loop (type ∷ types) output =
    if is_empty type
    then none
    else if has_char b'&' type
    then none
    else mangle_loop types (output ++ (type ++ b'&' ∷ []))

unfoldable pub mangle_type : List Text → Option Text
unfolding mangle_loop
mangle_type input = if is_empty input then none else mangle_loop input []

-- `types.size() != 2u`, `types.at(0)` and `types.at(1)`
unfoldable pub two_types : List Text → Option (Text × Text)
two_types (a ∷ b ∷ []) = some (a, b)
two_types _ = none

-- `DecomposeLivelinessToken` with the types of a request and of a response.
unfoldable pub decompose_service_token : Text → Option (Liveliness × Text × Text)
decompose_service_token token = do
  l ← decompose_helper token
  if not (count b'/' l.remaining == 2) then none else (do
    let (mangled_types, token₀) = cut l.remaining
    types ← demangle_type mangled_types
    (req_type, rep_type) ← two_types types
    (type_hash, qos) ← next_field token₀
    some (l, req_type, rep_type))

-- Each text with `kTokenSeparator` behind it.
unfoldable pub slashed : List Text → Text
slashed [] = []
slashed (f ∷ fs) = f ++ b'/' ∷ slashed fs

-- `CreateLivelinessTokenHelper`
unfoldable pub create_helper : Text → Text → Text → Text → Text
create_helper name p_uuid n_uuid entity_type = elim (decompose_fully_qualified_topic name) [
  | none ↦ []
  | some (partition, topic) ↦ slashed (
      bytes "@gz"
      ∷ mangle_name partition
      ∷ p_uuid
      ∷ n_uuid
      ∷ n_uuid
      ∷ entity_type
      ∷ bytes "%"
      ∷ bytes "%"
      ∷ bytes "%"
      ∷ mangle_name topic
      ∷ [])
]

-- `CreateLivelinessToken` with one type, and with two.
unfoldable pub create_message_token : Text → Text → Text → Text → Text → Text
create_message_token name p_uuid n_uuid entity_type type_name =
    create_helper name p_uuid n_uuid entity_type
    ++ (slashed (type_name ∷ bytes "%" ∷ []) ++ bytes "%")

unfoldable pub create_service_token : Text → Text → Text → Text → Text → Text → Text
create_service_token name p_uuid n_uuid entity_type req_type_name rep_type_name =
    elim (mangle_type (req_type_name ∷ rep_type_name ∷ [])) [
      | none ↦ []
      | some mangled_types ↦
          create_helper name p_uuid n_uuid entity_type
          ++ (slashed (mangled_types ∷ bytes "%" ∷ []) ++ bytes "%")
    ]
