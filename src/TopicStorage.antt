-- ===== src/TopicStorage.antt =====
-- include/gz/transport/TopicStorage.hh: the publishers known for each topic, by process.
-- A method returns the new storage beside its result; an output parameter is a result.
pub mod Invariant
pub mod AllStored
pub mod Contents
pub mod Removal
pub mod Listing
pub mod Run
mod Tests
use gz_transport.Common.{
  ℕ, ◌+◌, ◌-◌, Bool, true, false, ◌&&◌, ◌||◌, Option, none, some, List, [], ◌∷◌, ◌++◌, length,
  is_empty, any, find, keep_if, drop_if, ltb, if◌then◌else◌, Text, bytes, text_eq,
}
use gz_transport.Common.Map.{Map, lookup, insert, erase, contains, keys, lookup_list}

-- What the template parameter `T` offers: the getters that the storage calls. `MsgTypeName`, which
-- only message publishers have, is an argument of the one method that calls it.
pub record Publishes (P : Type 0) : Type 0 where
  pub topic : P → Text
  pub addr : P → Text
  pub p_uuid : P → Text
  pub n_uuid : P → Text

-- `kGenericMessageType`
abbrev pub generic_message_type : Text
generic_message_type = bytes "google.protobuf.Message"

-- The values are maps from process UUIDs to vectors of publishers.
abbrev pub TopicStorage : Type 0 → Type 0
TopicStorage P = Map (Map (List P))

module _ {ℓ} {A : Type ℓ} where
  -- The first statement of `AddPublisher`.
  unfoldable pub ensure_topic : Text → Map (List A) → Map (List A)
  ensure_topic t s = if contains t s then s else insert t [] s

  -- A vector or map that lost elements is stored again, or erased if it is empty.
  unfoldable pub put_back : Text → List A → Map (List A) → Map (List A)
  put_back k v m = if is_empty v then erase k m else insert k v m

module _ {P : Type 0} (msg_type_name : P → Text) where
  unfoldable pub serves_type : Text → P → Bool
  serves_type type q =
      text_eq (msg_type_name q) type || text_eq (msg_type_name q) generic_message_type

  -- The loop over the processes of a topic.
  unfoldable pub any_proc_serves : Text → Map (List P) → Bool
  any_proc_serves type [] = false
  any_proc_serves type ((u, v) ∷ m) = any (serves_type type) v || any_proc_serves type m

  -- The first test is `HasTopic` of the topic alone.
  unfoldable pub has_topic_type : Text → Text → TopicStorage P → Bool
  unfolding any_proc_serves serves_type
  has_topic_type t type s = contains t s && any_proc_serves type (lookup_list t s)

module _ {P : Type 0} ⦃ops : Publishes P⦄ where
  open ops use {topic, addr, p_uuid, n_uuid}

  -- The test that `AddPublisher` makes of a stored publisher `q`.
  unfoldable pub same_publisher : P → P → Bool
  same_publisher p q = text_eq (addr q) (addr p) && text_eq (n_uuid q) (n_uuid p)

  unfoldable pub add_publisher : P → TopicStorage P → TopicStorage P × Bool
  unfolding ensure_topic same_publisher
  add_publisher p s =
      let s' = ensure_topic (topic p) s in
      let m = lookup_list (topic p) s' in
      let v = lookup_list (p_uuid p) m in
      if contains (p_uuid p) m && any (same_publisher p) v
      then (s', false)
      else (insert (topic p) (insert (p_uuid p) (v ++ p ∷ []) m) s', true)

  unfoldable pub has_topic : Text → TopicStorage P → Bool
  has_topic t s = contains t s

  unfoldable pub has_any_publishers : Text → Text → TopicStorage P → Bool
  unfolding has_topic
  has_any_publishers t u s = has_topic t s && contains u (lookup_list t s)

  unfoldable pub any_proc_at : Text → Map (List P) → Bool
  any_proc_at a [] = false
  any_proc_at a ((u, v) ∷ m) = any (λ q. text_eq (addr q) a) v || any_proc_at a m

  unfoldable pub has_publisher : Text → TopicStorage P → Bool
  unfolding any_proc_at
  has_publisher a [] = false
  has_publisher a ((t, m) ∷ s) = any_proc_at a m || has_publisher a s

  unfoldable pub publisher : Text → Text → Text → TopicStorage P → Option P
  publisher t u n s = elim (lookup t s) [
    | none ↦ none
    | some m ↦ elim (lookup u m) [ none ↦ none | some v ↦ find (λ q. text_eq (n_uuid q) n) v ]
  ]

  -- `none` is a result of false.
  unfoldable pub publishers : Text → TopicStorage P → Option (Map (List P))
  publishers t s = lookup t s

  unfoldable pub del_publisher_by_node : Text → Text → Text → TopicStorage P → TopicStorage P × Bool
  unfolding put_back
  del_publisher_by_node t u n s = elim (lookup t s) [
    | none ↦ (s, false)
    | some m ↦ elim (lookup u m) [
      | none ↦ (s, false)
      | some v ↦
          let v' = drop_if (λ q. text_eq (n_uuid q) n) v in
          (put_back t (put_back u v' m) s, ltb 0 (length v - length v'))
    ]
  ]

  -- The loop of `DelPublishersByProc`, with its counter.
  unfoldable pub del_proc_loop : Text → TopicStorage P → TopicStorage P × ℕ
  del_proc_loop u [] = ([], 0)
  del_proc_loop u ((t, m) ∷ s) =
      let (s', counter) = del_proc_loop u s in
      let m' = erase u m in
      (if is_empty m' then s' else (t, m') ∷ s', (if contains u m then 1 else 0) + counter)

  unfoldable pub del_publishers_by_proc : Text → TopicStorage P → TopicStorage P × Bool
  unfolding del_proc_loop
  del_publishers_by_proc u s = let (s', counter) = del_proc_loop u s in (s', ltb 0 counter)

  -- `_pubs[pub.NUuid()].push_back(pub)` for each publisher of a vector
  unfoldable pub group_by_node : List P → Map (List P) → Map (List P)
  group_by_node [] out = out
  group_by_node (q ∷ v) out =
      group_by_node v (insert (n_uuid q) (lookup_list (n_uuid q) out ++ q ∷ []) out)

  unfoldable pub proc_loop : Text → TopicStorage P → Map (List P) → Map (List P)
  unfolding group_by_node
  proc_loop u [] out = out
  proc_loop u ((t, m) ∷ s) out = proc_loop u s (group_by_node (lookup_list u m) out)

  unfoldable pub publishers_by_proc : Text → TopicStorage P → Map (List P)
  unfolding proc_loop
  publishers_by_proc u s = proc_loop u s []

  unfoldable pub publishers_by_node : Text → Text → TopicStorage P → List P
  publishers_by_node u n [] = []
  publishers_by_node u n ((t, m) ∷ s) =
      keep_if (λ q. text_eq (n_uuid q) n) (lookup_list u m) ++ publishers_by_node u n s

  unfoldable pub topic_list : TopicStorage P → List Text
  topic_list s = keys s

  unfoldable pub clear : TopicStorage P → TopicStorage P
  clear s = []
