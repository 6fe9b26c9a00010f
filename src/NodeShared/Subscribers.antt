-- ===== src/NodeShared/Subscribers.antt =====
-- src/NodeShared.cc, `HandlerWrapper`: the subscribers of a process, those that take a message and
-- those that take its bytes.
pub mod Listed
mod Tests
use gz_transport.Common.{
  Bool, true, false, ◌||◌, Option, none, some, List, [], ◌∷◌, ◌++◌, is_some, if◌then◌else◌, Text,
  text_eq,
}
use gz_transport.Common.Map.{Map}
use gz_transport.TopicStorage.{generic_message_type}
use gz_transport.HandlerStorage.{
  HandlerStorage, handlers, has_handlers_for_topic, has_handlers_for_node, remove_handler,
  remove_handlers_for_node, first_message_handler,
}
use gz_transport.Handlers.Subscription.{Subscriber, type_name, subscriber_handles}
use gz_transport.Publisher.{MessagePublisher, new_message_publisher, default_message_options}

pub record HandlerWrapper : Type 0 where
  pub normal : HandlerStorage Subscriber
  pub raw : HandlerStorage Subscriber

unfoldable pub has_subscriber_of_type : Text → Text → HandlerWrapper → Bool
unfolding first_message_handler
has_subscriber_of_type topic type w =
    is_some (first_message_handler topic type w.normal)
    || is_some (first_message_handler topic type w.raw)

unfoldable pub has_subscriber : Text → HandlerWrapper → Bool
has_subscriber topic w = has_handlers_for_topic topic w.normal || has_handlers_for_topic topic w.raw

unfoldable pub has_subscriber_for_node : Text → Text → HandlerWrapper → Bool
has_subscriber_for_node topic n w =
    has_handlers_for_node topic n w.normal || has_handlers_for_node topic n w.raw

-- The test of a handler against the type of a message.
unfoldable pub matches : Text → Subscriber → Bool
matches type h = text_eq (type_name h) type || text_eq (type_name h) generic_message_type

-- What `Handlers` leaves in an empty map.
unfoldable pub or_none : Option (Map (Map Subscriber)) → Map (Map Subscriber)
or_none none = []
or_none (some m) = m

-- `AppendNodeUuids`: the two loops.
unfoldable pub append_of_node : Text → Map Subscriber → List Text → List Text
unfolding matches
append_of_node type [] uuids = uuids
append_of_node type ((k, h) ∷ m) uuids =
    append_of_node type m (if matches type h then uuids ++ h.n_uuid ∷ [] else uuids)

unfoldable pub append_of_topic : Text → Map (Map Subscriber) → List Text → List Text
unfolding append_of_node
append_of_topic type [] uuids = uuids
append_of_topic type ((n, v) ∷ m) uuids = append_of_topic type m (append_of_node type v uuids)

unfoldable pub append_node_uuids : HandlerStorage Subscriber → Text → Text → List Text → List Text
unfolding append_of_topic
append_node_uuids s topic type uuids = elim (handlers topic s) [
  | none ↦ uuids
  | some m ↦ append_of_topic type m uuids
]

unfoldable pub node_uuids : Text → Text → HandlerWrapper → List Text
unfolding append_node_uuids
node_uuids topic type w =
    append_node_uuids w.raw topic type (append_node_uuids w.normal topic type [])

-- `HandlerWrapper::RemoveHandlersForNode`
unfoldable pub remove_subscribers_for_node : Text → Text → HandlerWrapper → HandlerWrapper × Bool
remove_subscribers_for_node topic n w =
    let (normal, removed) = remove_handlers_for_node topic n w.normal in
    let (raw, removed') = remove_handlers_for_node topic n w.raw in
    (record { normal = normal; raw = raw }, removed || removed')

-- `HandlerWrapper::RemoveHandler`: the second storage is asked only if the first had no handler.
unfoldable pub remove_subscriber : Text → Text → Text → HandlerWrapper → HandlerWrapper × Bool
remove_subscriber topic n k w =
    let (normal, removed) = remove_handler topic n k w.normal in
    let (raw, removed') = remove_handler topic n k w.raw in
    if removed
    then (record w { normal = normal }, true)
    else (record { normal = normal; raw = raw }, removed')

-- The loops of `Convert` over one storage.
unfoldable pub convert_node : Text → Text → Text → Text → Map Subscriber → List MessagePublisher
convert_node addr proc topic n [] = []
convert_node addr proc topic n ((k, h) ∷ m) =
    new_message_publisher topic addr [] proc n (type_name h) default_message_options
    ∷ convert_node addr proc topic n m

unfoldable pub convert_topic : Text → Text → Text → Map (Map Subscriber) → List MessagePublisher
unfolding convert_node
convert_topic addr proc topic [] = []
convert_topic addr proc topic ((n, v) ∷ m) =
    convert_node addr proc topic n v ++ convert_topic addr proc topic m

unfoldable pub convert_storage : Text → Text → HandlerStorage Subscriber → List MessagePublisher
unfolding convert_topic
convert_storage addr proc [] = []
convert_storage addr proc ((t, m) ∷ s) = convert_topic addr proc t m ++ convert_storage addr proc s

unfoldable pub convert : Text → Text → HandlerWrapper → List MessagePublisher
unfolding convert_storage
convert addr proc w = convert_storage addr proc w.normal ++ convert_storage addr proc w.raw
