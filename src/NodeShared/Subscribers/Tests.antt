-- ===== src/NodeShared/Subscribers/Tests.antt =====
-- Examples of the subscribers of a process, src/NodeShared.cc.
use gz_transport.Common.{◌≡◌, refl, true, [], ◌∷◌, Text, bytes, text_eq}
use gz_transport.Common.Map.{lookup}
use gz_transport.HandlerStorage.{handlers}
use gz_transport.Handlers.Subscription.{
  Subscribed, Subscriber, typed, raw, default_subscribe_options, type_name,
}
use gz_transport.NodeShared.Subscribers.{
  HandlerWrapper, matches, append_of_node, append_of_topic, append_node_uuids, node_uuids,
}

abbrev subscriber_of : Text → Text → Subscribed → Subscriber
subscriber_of k n kind = record {
  h_uuid = k;
  n_uuid = n;
  kind = kind;
  opts = default_subscribe_options;
  has_cb = true;
}

-- Two nodes, one of which has a handler of another type.
abbrev two_nodes : HandlerWrapper
two_nodes = record {
  normal =
      (
        bytes "t",
        (
          bytes "n1",
          (bytes "h1", subscriber_of (bytes "h1") (bytes "n1") (typed (bytes "Int"))) ∷ [],
        )
            ∷ (
              bytes "n2",
              (bytes "h2", subscriber_of (bytes "h2") (bytes "n2") (typed (bytes "Str"))) ∷ [],
            )
            ∷ [],
      )
      ∷ [];
  raw =
      (
        bytes "t",
        (bytes "n2", (bytes "h3", subscriber_of (bytes "h3") (bytes "n2") (raw (bytes "Int"))) ∷ [])
            ∷ [],
      )
      ∷ [];
}

both : node_uuids (bytes "t") (bytes "Int") two_nodes ≡ bytes "n1" ∷ bytes "n2" ∷ []
unfolding node_uuids append_node_uuids append_of_topic append_of_node handlers lookup matches
    type_name text_eq
both = refl
