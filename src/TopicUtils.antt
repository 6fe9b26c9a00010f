-- ===== src/TopicUtils.antt =====
-- src/TopicUtils.cc: the rules for names, and the names that nodes exchange.
-- A function with a result of false and an output parameter returns an `Option`.
pub mod Names
pub mod Qualified
pub mod Sanitized
pub mod Token
mod Tests
use gz_transport.Common.{
  ℕ, ◌+◌, ◌-◌, Bool, true, false, not, ◌&&◌, ◌||◌, Option, none, some, List, [], ◌∷◌, ◌++◌, length,
  is_empty, ltb, ◌==◌, if◌then◌else◌, Text, bytes, text_eq, has_char, has_pair, starts_with,
  ends_with, pop_back, find_first, find_last, take, drop,
}

-- `kMaxNameLength`
abbrev pub max_name_length : ℕ
max_name_length = 65535

unfoldable pub is_valid_namespace : Text → Bool
is_valid_namespace ns =
    if is_empty ns
    then true
    else if ltb max_name_length (length ns)
    then false
    else if text_eq ns (bytes "/")
    then false
    else if has_char b'~' ns
    then false
    else if has_char b' ' ns
    then false
    else if has_pair b'/' b'/' ns
    then false
    else if has_char b'@' ns
    then false
    else if has_pair b':' b'=' ns
    then false
    else true

unfoldable pub is_valid_partition : Text → Bool
is_valid_partition partition = is_valid_namespace partition

unfoldable pub is_valid_topic : Text → Bool
is_valid_topic topic = is_valid_namespace topic && not (is_empty topic)

-- The four adjustments of `FullyQualifiedName`: a slash put in front or at the end, or removed
-- from the end.
unfoldable pub strip_slash : Text → Text
strip_slash s = if not (is_empty s) && ends_with b'/' s then pop_back s else s

unfoldable pub qualify_partition : Text → Text
qualify_partition partition = strip_slash (
    if not (is_empty partition) && not (starts_with b'/' partition)
    then b'/' ∷ partition
    else partition)

unfoldable pub end_slash : Text → Text
end_slash ns = if is_empty ns || not (ends_with b'/' ns) then ns ++ b'/' ∷ [] else ns

unfoldable pub front_slash : Text → Text
front_slash ns = if is_empty ns || not (starts_with b'/' ns) then b'/' ∷ ns else ns

-- The part of the name behind the partition.
unfoldable pub qualify_topic : Text → Text → Text
qualify_topic ns topic =
    let topic' = strip_slash topic in
    if not (is_empty topic') && starts_with b'/' topic'
    then topic'
    else front_slash (end_slash ns) ++ topic'

unfoldable pub fully_qualified_name : Text → Text → Text → Option Text
fully_qualified_name partition ns topic =
    if not (is_valid_partition partition)
      || not (is_valid_namespace ns)
      || not (is_valid_topic topic)
    then none
    else (let name = (b'@' ∷ qualify_partition partition ++ b'@' ∷ []) ++ qualify_topic ns topic in
        if ltb max_name_length (length name) then none else some name)

-- The rest of `DecomposeFullyQualifiedTopic`, from the positions of the first and last '@' on.
unfoldable pub decompose_at : Text → ℕ → ℕ → Option (Text × Text)
decompose_at name first_at last_at =
    if not (first_at == 0) || first_at == last_at || last_at == length name - 1
    then none
    else (let partition = take (last_at - first_at - 1) (drop (first_at + 1) name) in
        let topic = drop (last_at + 1) name in
        if not (is_valid_partition partition) || not (is_valid_topic topic)
        then none
        else some (partition, topic))

-- The partition, and the namespace with the topic. Without an '@' the first position is `npos`,
-- which is not 0.
unfoldable pub decompose_fully_qualified_topic : Text → Option (Text × Text)
decompose_fully_qualified_topic name = elim (find_first b'@' name) [
  | none ↦ none
  | some first_at ↦ elim (find_last b'@' name) [
    | none ↦ none
    | some last_at ↦ decompose_at name first_at last_at
  ]
]

-- Whether the loop of `AsValidTopic` passes over the character behind `c`, by its `++i`.
unfoldable pub skips_next : ℕ → Text → Bool
skips_next c s = (c == b':' && starts_with b'=' s) || (c == b'/' && starts_with b'/' s)

-- One round of the loop at the character `c`, with `s` behind it: what it puts in front of the
-- output of the later rounds. The flag says that an earlier `++i` passed over `c`.
unfoldable pub emit : Bool → ℕ → Text → Text → Text
unfolding skips_next
emit skip c s rest =
    if skip
    then rest
    else if c == b' '
    then b'_' ∷ rest
    else if c == b'@' || c == b'~'
    then rest
    else if skips_next c s
    then rest
    else c ∷ rest

-- The loop of `AsValidTopic`.
unfoldable pub sanitize : Bool → Text → Text
unfolding skips_next emit
sanitize skip [] = []
sanitize skip (c ∷ s) = emit skip c s (sanitize (not skip && skips_next c s) s)

unfoldable pub as_valid_topic : Text → Text
unfolding sanitize
as_valid_topic topic =
    let valid_topic = sanitize false topic in if is_valid_topic valid_topic then valid_topic else []

-- `kSlashReplacement` is '%'.
unfoldable pub replace : ℕ → ℕ → Text → Text
replace a b [] = []
replace a b (x ∷ s) = (if x == a then b else x) ∷ replace a b s

unfoldable pub mangle_name : Text → Text
mangle_name s = replace b'/' b'%' s

unfoldable pub demangle_name : Text → Text
demangle_name s = replace b'%' b'/' s
