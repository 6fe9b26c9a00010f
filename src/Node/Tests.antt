-- ===== src/Node/Tests.antt =====
-- Examples of a node, src/Node.cc.
use gz_transport.Common.{
  has_char, has_pair, ◌||◌, is_empty, All, List, starts_with, ends_with, ◌≡◌, refl, ◌&&◌, Bool,
  true, false, some, none, [], ◌∷◌, keep_if, if◌then◌else◌, Text, bytes, text_eq,
}
use gz_transport.Common.Map.{lookup}
use gz_transport.Common.Within.{In}
use gz_transport.TopicUtils.{
  fully_qualified_name, qualify_partition, qualify_topic, is_valid_partition, is_valid_topic,
  is_valid_namespace, strip_slash, end_slash, front_slash,
}
use gz_transport.TopicStorage.{has_topic_type}
use gz_transport.HandlerStorage.{handler}
use gz_transport.Handlers.{Protobuf}
use gz_transport.Handlers.Request.{ReqHandler, typed}
use gz_transport.Handlers.Subscription.{Subscriber, Subscribed, raw, default_subscribe_options}
use gz_transport.Publisher.{
  ServicePublisher, new_service_publisher, all, new_message_publisher, default_message_options,
  throttled,
}
use gz_transport.NodeShared.{Process}
use gz_transport.NodeShared.Subscribers.Listed.{subscribers}
use gz_transport.NodeShared.Connections.{Subscriptions}
use gz_transport.NodeShared.Callbacks.{publish}
use gz_transport.NodeShared.Callbacks.Queue.{publish_next}
use gz_transport.NodeShared.Services.{Services, progress_of}
use gz_transport.NodeShared.Services.Replies.{recv_srv_response}
use gz_transport.Node.Publishing.{
  NodePublisher, Sending, is_usable, update_publisher, create_message_info, publish_message,
}
use gz_transport.Node.Delivered.{publish_message-delivers}
use gz_transport.Node.Delivering.{takes_from, deliver_local}
use gz_transport.Node.{Node}
use gz_transport.Node.Listing.{listed_name}
use gz_transport.Node.Listing.Named.{listed_name-fully_qualified_name}
use gz_transport.Node.Listing.Resolving.{
  Resolution, resolved, compatible, poll_until, offers_types, resolve_service_types,
  resolve_service_types-agrees,
}
use gz_transport.Node.Asking.{finish_request}
use gz_transport.Node.Asking.Late.{finish_request-late}

-- Messages that are their own bytes, all of one type.
instance abbrev text_protobuf : Protobuf Text
text_protobuf = record {
  type_name_of = λ m. bytes "Int";
  parse_from_string = λ type s. (s, true);
  serialize_to_string = λ m. some m;
}

abbrev here : Process
here = record {
  own_uuid = bytes "here";
  my_address = bytes "tcp:1";
  my_requester_address = bytes "tcp:2";
  response_receiver_id = bytes "id";
  empty_type = bytes "Empty";
  is_zeromq = true;
}

abbrev counter : Text
counter = bytes "@/p@/count"

abbrev counting : NodePublisher
counting = record {
  publisher =
      new_message_publisher counter (bytes "tcp:1") (bytes "unused") (bytes "here") (bytes "n1")
        (bytes "Int") default_message_options;
  last = 0;
}

-- A reader of the publishing node that ignores its own messages, and a reader of bytes.
abbrev own_reader : Subscriber
own_reader = record {
  h_uuid = bytes "h1";
  n_uuid = bytes "n1";
  kind = Subscribed.typed (bytes "Int");
  opts = record default_subscribe_options { ignore_local_messages = true };
  has_cb = true;
}

abbrev byte_reader : Subscriber
byte_reader = record own_reader { h_uuid = bytes "h2"; kind = raw (bytes "Int") }

abbrev shared : Subscriptions Text
shared = record {
  local_subscribers = record {
    normal = (counter, (bytes "n1", (bytes "h1", own_reader) ∷ []) ∷ []) ∷ [];
    raw = (counter, (bytes "n1", (bytes "h2", byte_reader) ∷ []) ∷ []) ∷ [];
  };
  remote_subscribers = [];
  connections = [];
  topics_subscribed = [];
  pub_queue = [];
}

abbrev plain : Sending
plain = record { stats = false; meta_of = λ seq stamp. []; stamp = 0; succeeds = true }

publish_message-delivers_example :
    let r = publish_message here plain 5 6 counting (bytes "7") shared [] [] in
    let info = record (create_message_info counting.publisher) { is_intra_process = true } in
    let locals =
      keep_if
        (takes_from counting.publisher.base.n_uuid)
        (subscribers counting.publisher.base.topic (bytes "Int") shared.local_subscribers.normal) in
    let raws =
      subscribers counting.publisher.base.topic (bytes "Int") shared.local_subscribers.raw in
    (publish_next 9 r.shared.pub_queue [] ≡ (
      let (m', calls) = deliver_local 9 info (bytes "7") (bytes "7") locals raws [] in
      ([], m', calls)))
    × (r.sent ≡ (
        if has_topic_type
          (λ q. q.msg_type_name)
          counting.publisher.base.topic
          counting.publisher.msg_type_name
          shared.remote_subscribers
        then (publish false
            (λ seq stamp. [])
            0
            (bytes "tcp:1")
            counting.publisher.base.topic
            (bytes "7")
            (bytes "Int")
            []).1
          ∷ []
        else []))
unfolding new_message_publisher is_usable update_publisher throttled text_eq
publish_message-delivers_example =
    publish_message-delivers here plain 5 6 9 counting (bytes "7") (bytes "7") shared [] [] refl
      refl refl refl refl refl

abbrev question : ReqHandler Text
question = record {
  h_uuid = bytes "r1";
  n_uuid = bytes "n1";
  kind = typed (bytes "Int") (bytes "Int") (bytes "41") false;
}

abbrev waiting : Services Text
waiting = record {
  requests = (counter, (bytes "n1", (bytes "r1", question) ∷ []) ∷ []) ∷ [];
  progress = [];
  repliers = [];
  srv_connections = [];
  srv_queue = [];
}

abbrev gave_up : Services Text × Bool × Bool
gave_up = finish_request (λ s. true) counter question waiting

finish_request-late_example :
    (gave_up.1 ≡ false)
    × (recv_srv_response
          (bytes "s" ∷ counter ∷ bytes "n1" ∷ bytes "r1" ∷ bytes "42" ∷ bytes "1" ∷ [])
          gave_up.0
        ≡ (gave_up.0, []))
    × ((t n k : Text)
        → handler t n k gave_up.0.requests ≡ (
            if text_eq counter t && (text_eq (bytes "n1") n && text_eq (bytes "r1") k)
            then none
            else handler t n k waiting.requests))
unfolding progress_of lookup
finish_request-late_example =
    finish_request-late (λ s. true) counter (bytes "s") (bytes "42") (bytes "1") question waiting
      refl

-- A service with two providers of the same types, which come one after the other, and one of
-- other types.
abbrev provider : ServicePublisher
provider =
    new_service_publisher counter (bytes "tcp:3") (bytes "s") (bytes "there") (bytes "n2")
      (bytes "Int") (bytes "Bool") all

abbrev other_provider : ServicePublisher
other_provider = record provider { rep_type_name = bytes "Text" }

abbrev polls : List (List ServicePublisher)
polls = (other_provider ∷ []) ∷ (other_provider ∷ provider ∷ provider ∷ []) ∷ []

abbrev asking : Node
asking = record {
  node_uuid = bytes "n1";
  options = record { ns = []; partition = bytes "p"; topics_remap = [] };
  srvs_advertised = [];
}

abbrev asked : Resolution × Text × Text
asked = resolve_service_types asking (bytes "count") [] (bytes "Bool") polls

asked_types : asked ≡ (resolved, bytes "Int", bytes "Bool")
unfolding resolve_service_types compatible poll_until text_eq new_service_publisher
    fully_qualified_name is_valid_partition is_valid_namespace has_char has_pair is_valid_topic
    qualify_partition strip_slash ends_with qualify_topic front_slash end_slash
asked_types = refl

resolve_service_types-agrees_example :
    (l : List ServicePublisher) × In l polls
    × (is_empty (keep_if (compatible [] (bytes "Bool")) l) ≡ false)
    × All
        (λ p. offers_types (bytes "Int") (bytes "Bool") p ≡ true)
        (keep_if (compatible [] (bytes "Bool")) l)
resolve_service_types-agrees_example =
    resolve_service_types-agrees asking (bytes "count") [] (bytes "Bool") (bytes "Int")
      (bytes "Bool") polls refl asked_types

-- The name that a node with the partition "/p" gives the topic "count".
slashed : fully_qualified_name (bytes "/p") [] (bytes "count") ≡ some counter
unfolding text_eq fully_qualified_name is_valid_partition is_valid_namespace has_char has_pair
    is_valid_topic qualify_partition strip_slash ends_with qualify_topic front_slash end_slash
slashed = refl

listed_name-fully_qualified_name_example : listed_name (bytes "/p") counter ≡ (
    if starts_with b'/' (bytes "/p") || ends_with b'/' (bytes "/p")
    then none
    else some (qualify_topic [] (bytes "count")))
listed_name-fully_qualified_name_example =
    listed_name-fully_qualified_name (bytes "/p") [] (bytes "count") counter slashed
