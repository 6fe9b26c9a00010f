-- ===== src/NodeShared/Connections/Tests.antt =====
-- Examples of src/NodeShared.cc: a process that subscribes to the topic of another.
use gz_transport.Common.{
  ◌≡◌, ◌⊎◌, refl, Bool, true, false, Option, none, some, List, [], ◌∷◌, ◌++◌, any, Text, bytes,
  text_eq,
}
use gz_transport.Common.{has_char, has_pair, ends_with, pop_back}
use gz_transport.Common.Within.{In}
use gz_transport.Common.Map.{Map, lookup, lookup_list}
use gz_transport.TopicStorage.{has_topic_type, publisher}
use gz_transport.TopicStorage.Contents.{stored}
use gz_transport.HandlerStorage.{has_handlers_for_topic, handlers}
use gz_transport.TopicUtils.{
  is_valid_namespace, is_valid_partition, is_valid_topic, fully_qualified_name, qualify_partition,
  qualify_topic, strip_slash, end_slash, front_slash,
}
use gz_transport.NodeOptions.{NodeOptions, unadvertised_name, remapped}
use gz_transport.Handlers.Subscription.{
  blank_info, Subscriber, typed, default_subscribe_options, type_name,
}
use gz_transport.Publisher.{MessagePublisher, new_message_publisher, default_message_options}
use gz_transport.Publisher.Travel.{travelled}
use gz_transport.Discovery.{wire_publishes}
use gz_transport.Discovery.Instances.{message_wire}
use gz_transport.NodeShared.{Process}
use gz_transport.NodeShared.Subscribers.{
  has_subscriber, has_subscriber_for_node, node_uuids, append_node_uuids, append_of_topic,
  append_of_node, matches,
}
use gz_transport.NodeShared.Connections.{
  Subscriptions, Ask, register_with, unregister_with, registration, on_new_connection,
  on_new_registration, on_end_registration,
}
use gz_transport.NodeShared.Connections.Registered.{connection-registers}
use gz_transport.NodeShared.Connections.Unsubscribe.{end_of_registration, unsubscribe}
use gz_transport.NodeShared.Connections.Unsubscribed.{is_queued_for, unsubscribe-forgets}

abbrev process_of : Text → Process
process_of u = record {
  own_uuid = u;
  my_address = bytes "tcp:1";
  my_requester_address = bytes "tcp:2";
  response_receiver_id = bytes "id";
  empty_type = bytes "Empty";
  is_zeromq = true;
}

abbrev reader : Process
reader = process_of (bytes "reader")

abbrev writer : Process
writer = process_of (bytes "writer")

abbrev stranger : Process
stranger = process_of (bytes "stranger")

abbrev odometry : Text
odometry = bytes "@/p@/odom"

abbrev subscriber_of : Text → Text → Subscriber
subscriber_of k n = record {
  h_uuid = k;
  n_uuid = n;
  kind = typed (bytes "Odometry");
  opts = default_subscribe_options;
  has_cb = true;
}

abbrev nothing : Subscriptions Text
nothing = record {
  local_subscribers = record { normal = []; raw = [] };
  remote_subscribers = [];
  connections = [];
  topics_subscribed = [];
  pub_queue = [];
}

abbrev reading : Subscriptions Text
reading = record nothing {
  local_subscribers = record {
    normal =
        (odometry, (bytes "n1", (bytes "h1", subscriber_of (bytes "h1") (bytes "n1")) ∷ []) ∷ [])
        ∷ [];
    raw = [];
  };
}

abbrev odometer : MessagePublisher
odometer =
    new_message_publisher odometry (bytes "tcp:9") (bytes "c") (bytes "writer") (bytes "n2")
      (bytes "Odometry") default_message_options

abbrev registered_as : MessagePublisher
registered_as = travelled (registration reader odometer (bytes "n1"))

connection-registers_example :
    let remote = (on_new_registration writer registered_as nothing).remote_subscribers in
    In
      (register_with (registration reader odometer (bytes "n1")))
      (on_new_connection reader odometer reading).1
    × (stored remote odometry (bytes "reader")
        ≡ stored nothing.remote_subscribers odometry (bytes "reader") ++ registered_as ∷ [])
    × (has_topic_type (λ q. q.msg_type_name) odometry (bytes "Odometry") remote ≡ true)
    × (on_new_registration stranger registered_as reading ≡ reading)
unfolding new_message_publisher registration has_subscriber has_handlers_for_topic lookup
    lookup_list text_eq node_uuids append_node_uuids append_of_topic append_of_node handlers matches
    type_name
connection-registers_example =
    connection-registers reader writer stranger odometer (bytes "n1") reading nothing reading refl
      refl refl ([], [], refl) refl refl refl

abbrev options : NodeOptions
options = record { ns = []; partition = bytes "p"; topics_remap = [] }

abbrev publishers_of : Text → Map (List MessagePublisher)
publishers_of name = (bytes "writer", odometer ∷ []) ∷ []

-- A queued message of the topic, for a handler of another node, before the node unsubscribes.
abbrev queued : Subscriptions Text
queued = record reading {
  pub_queue =
      record {
        local_handlers = subscriber_of (bytes "h3") (bytes "n3") ∷ [];
        raw_handlers = [];
        shared_buffer = bytes "x";
        msg_copy = bytes "x";
        info = record blank_info { topic = bytes "/odom" };
        publisher_node_uuid = bytes "n2";
      }
      ∷ [];
}

abbrev left : Option (Subscriptions Text × List Ask × Bool)
left = unsubscribe reader publishers_of (bytes "/odom") (bytes "n1") options [] queued

odometry_name : unadvertised_name (bytes "/odom") options ≡ some odometry
unfolding unadvertised_name fully_qualified_name is_valid_partition is_valid_namespace
    is_valid_topic qualify_partition qualify_topic strip_slash end_slash front_slash text_eq
    has_char has_pair ends_with pop_back
odometry_name = refl

unsubscribe-forgets_example :
    let r = end_of_registration reader odometry (bytes "n1") (bytes "writer") in
    let remote = (on_end_registration writer (travelled r) reading).remote_subscribers in
    let waits =
      any (is_queued_for (remapped (bytes "/odom") options) (bytes "n1")) queued.pub_queue in
    ((waits ≡ true) × (left ≡ none))
    ⊎ ((waits ≡ false)
        × ((s' : Subscriptions Text) × ((out : List Ask) × ((left ≡ some (s', out, true))
                × ((s'.pub_queue ≡ queued.pub_queue)
                    × ((has_subscriber_for_node odometry (bytes "n1") s'.local_subscribers ≡ false)
                        × (In (unregister_with r) out
                            × (publisher odometry (bytes "reader") (bytes "n1") remote
                                ≡ none))))))))
unsubscribe-forgets_example =
    unsubscribe-forgets reader writer publishers_of (bytes "/odom") (bytes "n1") options queued
      reading odometry_name ([], [], refl)

-- The message is not for the node that unsubscribes.
not_waiting :
    any (is_queued_for (remapped (bytes "/odom") options) (bytes "n1")) queued.pub_queue ≡ false
unfolding text_eq remapped lookup
not_waiting = refl
