-- ===== src/NodeShared/Connections.antt =====
-- src/NodeShared.cc, the subscriptions of a process and its peers: what it does when a publisher
-- is discovered or lost, when a remote subscriber registers, and when a node unsubscribes.
mod Tests
pub mod Unsubscribe
pub mod Registered
pub mod Unsubscribed
use gz_transport.Common.{
  Bool, true, false, not, ◌&&◌, ◌||◌, Option, none, some, List, [], ◌∷◌, ◌++◌, any, drop_if,
  is_empty, if◌then◌else◌, Text, text_eq,
}
use gz_transport.Common.Map.{Map, lookup, insert, contains, lookup_list}
use gz_transport.TopicStorage.{
  TopicStorage, generic_message_type, add_publisher, has_publisher, publisher, publishers,
  del_publisher_by_node, del_publishers_by_proc, has_topic_type,
}
use gz_transport.HandlerStorage.{HandlerStorage, handlers}
use gz_transport.NodeOptions.{NodeOptions, remapped, unadvertised_name}
use gz_transport.Handlers.Subscription.{Subscriber, MessageInfo}
use gz_transport.Publisher.{MessagePublisher, new_message_publisher, default_message_options}
use gz_transport.Discovery.{wire_publishes}
use gz_transport.Discovery.Instances.{message_wire}
use gz_transport.NodeShared.{Process}
use gz_transport.NodeShared.Subscribers.{
  HandlerWrapper, has_subscriber, has_subscriber_for_node, node_uuids, remove_subscribers_for_node,
  remove_subscriber, convert,
}

-- `PublishMsgDetails`: a message on its way to the subscribers of the process.
pub record PublishMsg (Msg : Type 0) : Type 0 where
  pub local_handlers : List Subscriber
  pub raw_handlers : List Subscriber
  pub shared_buffer : Text
  pub msg_copy : Msg
  pub info : MessageInfo
  pub publisher_node_uuid : Text

-- `localSubscribers`, `remoteSubscribers`, `connections`, `topicsSubscribed` and `pubQueue`.
pub record Subscriptions (Msg : Type 0) : Type 0 where
  pub local_subscribers : HandlerWrapper
  pub remote_subscribers : TopicStorage MessagePublisher
  pub connections : TopicStorage MessagePublisher
  pub topics_subscribed : Map (List Text)
  pub pub_queue : List (PublishMsg Msg)

-- What a process asks of the socket `subscriber` and of its discovery of messages.
pub data Ask : Type 0 where
  connect_subscriber : Text → Ask
  filter_in : Text → Ask
  filter_out : Text → Ask
  register_with : MessagePublisher → Ask
  unregister_with : MessagePublisher → Ask
  reply_subscriber : MessagePublisher → Ask

module _ {A : Type 0} where
  abbrev pub asks_of : (A → Ask) → List A → List Ask
  asks_of f [] = []
  asks_of f (x ∷ xs) = f x ∷ asks_of f xs

-- The publisher that registers the node of the process with the process of the publisher `p`.
unfoldable pub registration : Process → MessagePublisher → Text → MessagePublisher
registration me p n = record p {
  base = record p.base { p_uuid = me.own_uuid; n_uuid = n };
  ctrl = p.base.p_uuid;
}

module _ {Msg : Type 0} (me : Process) where
  unfoldable pub on_new_connection :
      MessagePublisher → Subscriptions Msg → Subscriptions Msg × List Ask
  unfolding registration
  on_new_connection p s =
      let t = p.base.topic in
      let nodes = node_uuids t p.msg_type_name s.local_subscribers in
      if not me.is_zeromq
      then (s, [])
      else if has_subscriber t s.local_subscribers && not (text_eq me.own_uuid p.base.p_uuid)
      then (
        record s { connections = (add_publisher p s.connections).0 },
        (if has_publisher p.base.addr s.connections
              then []
              else connect_subscriber p.base.addr ∷ [])
            ++ filter_in t ∷ asks_of (λ n. register_with (registration me p n)) nodes,
      )
      else (s, [])

  unfoldable pub on_new_registration : MessagePublisher → Subscriptions Msg → Subscriptions Msg
  on_new_registration p s =
      if not (text_eq p.ctrl me.own_uuid)
      then s
      else record s { remote_subscribers = (add_publisher p s.remote_subscribers).0 }

  unfoldable pub on_end_registration : MessagePublisher → Subscriptions Msg → Subscriptions Msg
  on_end_registration p s =
      let b = p.base in
      if not (is_empty p.ctrl) && not (text_eq p.ctrl me.own_uuid) then s else record s {
        remote_subscribers =
            (del_publisher_by_node b.topic b.p_uuid b.n_uuid s.remote_subscribers).0;
      }

  unfoldable pub on_subscribers : Subscriptions Msg → List Ask
  on_subscribers s =
      asks_of reply_subscriber (convert me.my_address me.own_uuid s.local_subscribers)

module _ {Msg : Type 0} where
  unfoldable pub on_new_disconnection : MessagePublisher → Subscriptions Msg → Subscriptions Msg
  on_new_disconnection p s =
      let t = p.base.topic in
      let u = p.base.p_uuid in
      let n = p.base.n_uuid in
      let s' = record s {
        remote_subscribers = (del_publisher_by_node t u n s.remote_subscribers).0;
      } in
      if not (is_empty t) && not (is_empty n)
      then elim (publisher t u n s.connections) [
        | none ↦ s'
        | some c ↦ record s' { connections = (del_publisher_by_node t u n s.connections).0 }
      ]
      else elim (publishers t s.connections) [
        | none ↦ s
        | some info ↦ record s { connections = (del_publishers_by_proc u s.connections).0 }
      ]
