-- ===== src/Node/Advertising/Tests.antt =====
-- Examples of a node that advertises, src/Node.cc.
use gz_transport.Common.{
  ◌≡◌, refl, true, false, some, none, List, [], Option, bytes, text_eq, has_char, has_pair,
  ends_with, find_first, find_last, take, drop, text_lt, pop_back,
}
use gz_transport.Common.Map.{lookup, insert, lookup_list, contains}
use gz_transport.TopicStorage.{add_publisher, ensure_topic, publishers_by_node, same_publisher}
use gz_transport.TopicUtils.{
  fully_qualified_name, qualify_partition, qualify_topic, is_valid_partition, is_valid_topic,
  is_valid_namespace, strip_slash, end_slash, front_slash, decompose_fully_qualified_topic,
  decompose_at,
}
use gz_transport.NodeOptions.{advertised_name, remapped, topic_remap}
use gz_transport.Publisher.{MessagePublisher, default_message_options, new_message_publisher}
use gz_transport.Discovery.{Env, Effect, Discovery, advertise_pub}
use gz_transport.NodeShared.{Process}
use gz_transport.Node.{Node}
use gz_transport.Node.Listing.{advertised_topics, collect, names_of}
use gz_transport.Node.Advertising.{advertise_topic}
use gz_transport.Node.Advertising.Once.{advertise_topic-once}

abbrev small : Env
small = record { set_sub_topic = λ t m. m; byte_size = λ m. 100; inet_addr = λ a. 0 }

abbrev here : Process
here = record {
  own_uuid = bytes "here";
  my_address = bytes "tcp:1";
  my_requester_address = bytes "tcp:2";
  response_receiver_id = bytes "id";
  empty_type = bytes "Empty";
  is_zeromq = true;
}

abbrev node : Node
node = record {
  node_uuid = bytes "n1";
  options = record { ns = []; partition = bytes "p"; topics_remap = [] };
  srvs_advertised = [];
}

abbrev quiet : Discovery MessagePublisher
quiet = record {
  host_interfaces = [];
  p_uuid = bytes "here";
  silence_interval = 3000;
  activity_interval = 100;
  heartbeat_interval = 1000;
  connection_cb = false;
  disconnection_cb = false;
  registration_cb = false;
  unregistration_cb = false;
  subscribers_cb = false;
  info = [];
  remote_subscribers = [];
  activity = [];
  relay_addrs = [];
  time_next_heartbeat = 0;
  time_next_activity = 0;
  initialized = true;
  num_heartbeats_uninitialized = 0;
  enabled = true;
  use_zenoh = false;
  wire_version = 10;
}

abbrev counting : MessagePublisher
counting =
    new_message_publisher (bytes "@/p@/count") (bytes "tcp:1") (bytes "unused") (bytes "here")
      (bytes "n1") (bytes "Int") default_message_options

abbrev first_try :
    Discovery MessagePublisher × List (Effect MessagePublisher) × Option MessagePublisher
first_try =
    advertise_topic small here node (bytes "count") (bytes "Int") default_message_options quiet

advertised : first_try ≡ (first_try.0, first_try.1, some counting)
unfolding advertise_topic fully_qualified_name is_valid_partition is_valid_namespace text_eq
    has_char has_pair is_valid_topic lookup qualify_partition strip_slash ends_with qualify_topic
    front_slash end_slash decompose_fully_qualified_topic find_first find_last contains insert
    lookup_list drop pop_back take text_lt advertise_pub advertised_topics collect names_of
    advertised_name remapped topic_remap new_message_publisher add_publisher ensure_topic
    publishers_by_node same_publisher decompose_at
advertised = refl

advertise_topic-once_example :
    advertise_topic small here node
      (bytes "count")
      (bytes "Str")
      default_message_options
      first_try.0
    ≡ (first_try.0, [], none)
advertise_topic-once_example =
    advertise_topic-once small here node (bytes "count") (bytes "Int") (bytes "Str")
      default_message_options default_message_options quiet first_try.0 first_try.1 counting
      advertised
