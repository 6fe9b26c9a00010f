-- ===== src/Node/Subscribing.antt =====
-- src/Node.cc and include/gz/transport/detail/Node.hh: how a node subscribes and unsubscribes.
use gz_transport.Common.{
  Bool, true, false, not, ◌&&◌, Option, none, some, List, [], is_empty, if◌then◌else◌, Text,
}
use gz_transport.Common.Map.{Map}
use gz_transport.HandlerStorage.{add_handler}
use gz_transport.NodeOptions.{NodeOptions, advertised_name}
use gz_transport.Handlers.Subscription.{
  Subscriber, Subscribed, SubscribeOptions, raw, subscriber_handles,
}
use gz_transport.Publisher.{MessagePublisher}
use gz_transport.NodeShared.{Process}
use gz_transport.NodeShared.Connections.{Subscriptions, Ask}
use gz_transport.NodeShared.Connections.Unsubscribe.{subscribe_helper, unsubscribe}
use gz_transport.Node.{Node}

-- `Node::Subscriber`
pub record SubscriberHandle : Type 0 where
  pub topic : Text
  pub n_uuid : Text
  pub h_uuid : Text
  pub options : NodeOptions

unfoldable pub is_held : SubscriberHandle → Bool
is_held h = not (is_empty h.topic) && not (is_empty h.h_uuid) && not (is_empty h.n_uuid)

module _ {Msg : Type 0} (me : Process) (discover : Text → Bool) where
  -- `SubscribeImpl`; `k` is the UUID of the new handler. The answer of the helper, which is always
  -- true, does not matter.
  unfoldable pub subscribe_impl :
      Node
      → Text
      → Subscribed
      → SubscribeOptions
      → Text
      → Subscriptions Msg
      → Subscriptions Msg × Option Subscriber
  unfolding advertised_name subscribe_helper
  subscribe_impl node topic kind opts k s = elim (advertised_name topic node.options) [
    | none ↦ (s, none)
    | some name ↦
        let n = node.node_uuid in
        let h : Subscriber = record {
          h_uuid = k;
          n_uuid = n;
          kind = kind;
          opts = opts;
          has_cb = true;
        } in
        let w = s.local_subscribers in
        let s' = record s {
          local_subscribers = record w { normal = add_handler name n h w.normal };
        } in
        if me.is_zeromq then ((subscribe_helper me discover name n s').0, some h) else (s, none)
  ]

  -- `SubscribeRaw`, of a type of message.
  unfoldable pub subscribe_raw :
      Node → Text → Text → SubscribeOptions → Text → Subscriptions Msg → Subscriptions Msg × Bool
  unfolding advertised_name subscribe_helper
  subscribe_raw node topic type opts k s = elim (advertised_name topic node.options) [
    | none ↦ (s, false)
    | some name ↦
        let n = node.node_uuid in
        let h : Subscriber = record {
          h_uuid = k;
          n_uuid = n;
          kind = raw type;
          opts = opts;
          has_cb = true;
        } in
        let w = s.local_subscribers in
        let s' = record s { local_subscribers = record w { raw = add_handler name n h w.raw } } in
        if me.is_zeromq then ((subscribe_helper me discover name n s').0, true) else (s, false)
  ]

  -- `CreateSubscriber`; a default object where the subscription fails.
  unfoldable pub create_subscriber :
      Node
      → Text
      → Subscribed
      → SubscribeOptions
      → Text
      → Subscriptions Msg
      → Subscriptions Msg × Option SubscriberHandle
  unfolding subscribe_impl
  create_subscriber node topic kind opts k s =
      let (s', made) = subscribe_impl node topic kind opts k s in
      elim made [
        | none ↦ (s', none)
        | some h ↦ if is_empty h.h_uuid then (s', none) else (
          s',
          some (record {
            topic = topic;
            n_uuid = h.n_uuid;
            h_uuid = h.h_uuid;
            options = node.options;
          }),
        )
      ]

module _ {Msg : Type 0} (me : Process) (addresses : Text → Map (List MessagePublisher)) where
  -- `Node::Unsubscribe`
  unfoldable pub unsubscribe_topic :
      Node → Text → Subscriptions Msg → Option (Subscriptions Msg × List Ask × Bool)
  unfolding unsubscribe
  unsubscribe_topic node topic s = unsubscribe me addresses topic node.node_uuid node.options [] s

  -- `Node::Subscriber::Unsubscribe`, which leaves the object without a topic.
  unfoldable pub unsubscribe_handle :
      SubscriberHandle → Subscriptions Msg → Option (Subscriptions Msg × List Ask × Bool)
  unfolding is_held unsubscribe
  unsubscribe_handle h s =
      if not (is_held h)
      then some (s, [], false)
      else unsubscribe me addresses h.topic h.n_uuid h.options h.h_uuid s
