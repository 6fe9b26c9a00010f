-- ===== src/NodeShared/Connections/Unsubscribe.antt =====
-- src/NodeShared.cc: `Unsubscribe`, and what it does to the queue of messages and to the topics of a
-- node.
use gz_transport.Common.{
  Bool, true, false, not, ◌&&◌, Option, none, some, List, [], ◌∷◌, ◌++◌, any, drop_if, is_empty,
  if◌then◌else◌, ◌>>=◌, Text, text_eq,
}
use gz_transport.Common.Map.{Map, lookup, insert, lookup_list}
use gz_transport.TopicStorage.{generic_message_type}
use gz_transport.NodeOptions.{NodeOptions, remapped, unadvertised_name}
use gz_transport.Handlers.Subscription.{Subscriber}
use gz_transport.Publisher.{MessagePublisher, new_message_publisher, default_message_options}
use gz_transport.Discovery.{wire_publishes}
use gz_transport.Discovery.Instances.{message_wire}
use gz_transport.NodeShared.{Process}
use gz_transport.NodeShared.Subscribers.{
  has_subscriber, has_subscriber_for_node, remove_subscribers_for_node, remove_subscriber,
}
use gz_transport.NodeShared.Connections.{
  PublishMsg, Subscriptions, Ask, filter_out, unregister_with, asks_of,
}

-- The publisher of the messages that end a registration.
unfoldable pub end_of_registration : Process → Text → Text → Text → MessagePublisher
end_of_registration me name n proc =
    new_message_publisher name me.my_address proc me.own_uuid n generic_message_type
      default_message_options

-- A loop over the handlers of a message. Where it erases one it goes on with the iterator that the
-- erasure has invalidated, which is undefined: none.
unfoldable pub erase_loop : (Subscriber → Bool) → List Subscriber → Option (List Subscriber)
erase_loop p [] = some []
erase_loop p (h ∷ hs) =
    let rest = erase_loop p hs in
    if p h then none else elim rest [ none ↦ none | some hs' ↦ some (h ∷ hs') ]

module _ {Msg : Type 0} where
  -- `RemoveSubscribedTopic`; `erase` of an `unordered_set` tells whether the topic was there.
  unfoldable pub remove_subscribed_topic :
      Text → Text → Subscriptions Msg → Subscriptions Msg × Bool
  remove_subscribed_topic t n s = elim (lookup n s.topics_subscribed) [
    | none ↦ (s, false)
    | some ts ↦ (
      record s { topics_subscribed = insert n (drop_if (λ u. text_eq u t) ts) s.topics_subscribed },
      any (λ u. text_eq u t) ts,
    )
  ]

  -- `SubscribeHelper`: `discover` is the answer of `msgDiscovery->Discover`.
  unfoldable pub subscribe_helper :
      Process → (Text → Bool) → Text → Text → Subscriptions Msg → Subscriptions Msg × Bool
  subscribe_helper me discover t n s =
      let ts = lookup_list n s.topics_subscribed in
      let ts' = if any (λ u. text_eq u t) ts then ts else ts ++ t ∷ [] in
      (
        record s { topics_subscribed = insert n ts' s.topics_subscribed },
        if me.is_zeromq then discover t else true,
      )

  -- The loops over the messages of `RemoveHandlersFromPubQueue` and of `RemoveHandlerFromPubQueue`,
  -- by their tests.
  unfoldable pub drop_from_queue :
      (Subscriber → Bool) → Text → List (PublishMsg Msg) → Option (List (PublishMsg Msg))
  unfolding erase_loop
  drop_from_queue p t [] = some []
  drop_from_queue p t (d ∷ q) =
      let rest = drop_from_queue p t q in
      if not (text_eq d.info.topic t)
      then elim rest [ none ↦ none | some q' ↦ some (d ∷ q') ]
      else do
        hs ← erase_loop p d.local_handlers
        ks ← erase_loop p d.raw_handlers
        q' ← rest
        some (record d { local_handlers = hs; raw_handlers = ks } ∷ q')

  unfoldable pub remove_handlers_from_pub_queue :
      Text → Text → Subscriptions Msg → Option (Subscriptions Msg)
  unfolding drop_from_queue
  remove_handlers_from_pub_queue t n s = do
    q ← drop_from_queue (λ h. text_eq h.n_uuid n) t s.pub_queue
    some (record s { pub_queue = q })

  unfoldable pub remove_handler_from_pub_queue :
      Text → Text → Text → Subscriptions Msg → Option (Subscriptions Msg)
  unfolding drop_from_queue
  remove_handler_from_pub_queue t n k s = do
    q ← drop_from_queue (λ h. text_eq h.n_uuid n && text_eq k h.h_uuid) t s.pub_queue
    some (record s { pub_queue = q })

  -- `Unsubscribe` once the name is known: the storages, and then the notifications.
  unfoldable pub unsubscribe_name :
      Process
      → (Text → Map (List MessagePublisher))
      → Text
      → Text
      → Text
      → Subscriptions Msg
      → Subscriptions Msg × List Ask
  unfolding remove_subscribed_topic end_of_registration
  unsubscribe_name me addresses name n k s =
      let w =
        (if is_empty k
          then remove_subscribers_for_node name n s.local_subscribers
          else remove_subscriber name n k s.local_subscribers).0 in
      let s' = record s { local_subscribers = w } in
      if has_subscriber_for_node name n w then (s', []) else (
        (remove_subscribed_topic name n s').0,
        (if me.is_zeromq && not (has_subscriber name w) then filter_out name ∷ [] else [])
            ++ asks_of (λ e. unregister_with (end_of_registration me name n e.0)) (addresses name)
            ++ unregister_with (end_of_registration me name n []) ∷ [],
      )

  -- `Unsubscribe`; an empty `_hUuid` stands for all the handlers of the node. The queue is asked
  -- for the remapped topic, the storage for the qualified name of the topic itself. None: undefined.
  unfoldable pub unsubscribe :
      Process
      → (Text → Map (List MessagePublisher))
      → Text
      → Text
      → NodeOptions
      → Text
      → Subscriptions Msg
      → Option (Subscriptions Msg × List Ask × Bool)
  unfolding unsubscribe_name remove_handlers_from_pub_queue remove_handler_from_pub_queue
      unadvertised_name
  unsubscribe me addresses topic n o k s = elim (unadvertised_name topic o) [
    | none ↦ some (s, [], false)
    | some name ↦ do
      s' ←
          if is_empty k
          then remove_handlers_from_pub_queue (remapped topic o) n s
          else remove_handler_from_pub_queue (remapped topic o) n k s
      let (s'', out) = unsubscribe_name me addresses name n k s' in some (s'', out, true)
  ]
