-- ===== src/HandlerStorage.antt =====
-- include/gz/transport/HandlerStorage.hh: the handlers of each topic, by the UUID of their node and
-- by their own UUID. A method returns the new storage beside its result; an output parameter is a
-- result.
pub mod Contents
pub mod Histories
mod Tests
use gz_transport.Common.{
  Bool, true, false, not, ◌&&◌, ◌||◌, Option, none, some, List, [], ◌∷◌, ◌++◌, find, is_empty,
  is_some, if◌then◌else◌, Text, text_eq,
}
use gz_transport.Common.Map.{Map, lookup, insert, erase, contains, lookup_list}
use gz_transport.TopicStorage.{generic_message_type, ensure_topic, put_back}

-- What the template parameter `T` offers. The types are those of the handlers of services and of
-- the handlers of messages.
pub record Handles (H : Type 0) : Type 0 where
  pub handler_uuid : H → Text
  pub req_type_name : H → Text
  pub rep_type_name : H → Text
  pub type_name : H → Text

abbrev pub HandlerStorage : Type 0 → Type 0
HandlerStorage H = Map (Map (Map H))

module _ {H : Type 0} where
  -- The first handler of a node that passes a test.
  unfoldable pub first_of_node : (H → Bool) → Map H → Option H
  first_of_node p [] = none
  first_of_node p ((k, h) ∷ m) = if p h then some h else first_of_node p m

  -- The two loops of `FirstHandler`.
  unfoldable pub first_of_topic : (H → Bool) → Map (Map H) → Option H
  unfolding first_of_node
  first_of_topic p [] = none
  first_of_topic p ((n, v) ∷ m) = elim (first_of_node p v) [
    | some h ↦ some h
    | none ↦ first_of_topic p m
  ]

  -- The handlers of a node, and of a topic, in the order in which two nested loops over the map
  -- that `Handlers` gives visit them.
  unfoldable pub node_handlers : Map H → List H
  node_handlers [] = []
  node_handlers ((k, h) ∷ m) = h ∷ node_handlers m

  unfoldable pub topic_handlers : Map (Map H) → List H
  unfolding node_handlers
  topic_handlers [] = []
  topic_handlers ((n, v) ∷ m) = node_handlers v ++ topic_handlers m

  unfoldable pub handlers : Text → HandlerStorage H → Option (Map (Map H))
  handlers t s = lookup t s

  unfoldable pub handler : Text → Text → Text → HandlerStorage H → Option H
  handler t n k s = elim (lookup t s) [
    | none ↦ none
    | some m ↦ elim (lookup n m) [ none ↦ none | some v ↦ lookup k v ]
  ]

  unfoldable pub has_handlers_for_topic : Text → HandlerStorage H → Bool
  has_handlers_for_topic t s = elim (lookup t s) [ none ↦ false | some m ↦ not (is_empty m) ]

  unfoldable pub has_handlers_for_node : Text → Text → HandlerStorage H → Bool
  has_handlers_for_node t n s = elim (lookup t s) [ none ↦ false | some m ↦ contains n m ]

  unfoldable pub remove_handler : Text → Text → Text → HandlerStorage H → HandlerStorage H × Bool
  unfolding put_back
  remove_handler t n k s = elim (lookup t s) [
    | none ↦ (s, false)
    | some m ↦ elim (lookup n m) [
      | none ↦ (s, false)
      | some v ↦ (put_back t (put_back n (erase k v) m) s, contains k v)
    ]
  ]

  unfoldable pub remove_handlers_for_node : Text → Text → HandlerStorage H → HandlerStorage H × Bool
  unfolding put_back
  remove_handlers_for_node t n s = elim (lookup t s) [
    | none ↦ (s, false)
    | some m ↦ (put_back t (erase n m) s, contains n m)
  ]

module _ {H : Type 0} ⦃ops : Handles H⦄ where
  open ops use {handler_uuid, req_type_name, rep_type_name, type_name}

  -- `FirstHandler` for the types of a service, and for the type of a message.
  unfoldable pub first_service_handler : Text → Text → Text → HandlerStorage H → Option H
  unfolding first_of_topic
  first_service_handler t req rep s = elim (lookup t s) [
    | none ↦ none
    | some m ↦
        first_of_topic (λ h. text_eq req (req_type_name h) && text_eq rep (rep_type_name h)) m
  ]

  unfoldable pub first_message_handler : Text → Text → HandlerStorage H → Option H
  unfolding first_of_topic
  first_message_handler t type s = elim (lookup t s) [
    | none ↦ none
    | some m ↦
        first_of_topic
          (λ h. text_eq type (type_name h) || text_eq (type_name h) generic_message_type) m
  ]

  -- `map::insert` keeps what stands under the key.
  unfoldable pub add_handler : Text → Text → H → HandlerStorage H → HandlerStorage H
  unfolding ensure_topic
  add_handler t n h s =
      let s' = ensure_topic t s in
      let m = ensure_topic n (lookup_list t s') in
      let v = lookup_list n m in
      insert t (insert n (if contains (handler_uuid h) v then v else insert (handler_uuid h) h v) m)
        s'
