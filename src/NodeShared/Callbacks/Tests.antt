-- ===== src/NodeShared/Callbacks/Tests.antt =====
-- Examples of src/NodeShared.cc: a message for three one of them of another type.
use gz_transport.Common.{
  ◌≡◌, refl, ℕ, ◌&&◌, Bool, true, false, some, List, [], ◌∷◌, any, Text, bytes, text_eq,
}
use gz_transport.Common.Map.{Map, lookup}
use gz_transport.HandlerStorage.{handlers, topic_handlers, node_handlers}
use gz_transport.Handlers.{Protobuf}
use gz_transport.Handlers.Subscription.{
  Subscriber, Subscribed, MessageInfo, typed, raw, local_called, raw_called, blank_info,
  set_topic_and_partition, default_subscribe_options, type_name, run_raw_callback,
  run_local_callback, update_throttling, create_msg_from_buffer, casts,
}
use gz_transport.NodeShared.Subscribers.Listed.{subscribers}
use gz_transport.NodeShared.Subscribers.{or_none, HandlerWrapper, matches}
use gz_transport.NodeShared.Callbacks.{
  check_handler_info, publish, trigger_callbacks, recv_msg_update,
}
use gz_transport.NodeShared.Callbacks.Matching.{
  run_raws, run_locals, deliver_made, deliver_to, trigger_callbacks-matching,
  recv_msg_update-publish,
}

-- Messages that are their own bytes, all of one type.
instance abbrev text_protobuf : Protobuf Text
text_protobuf = record {
  type_name_of = λ m. bytes "Int";
  parse_from_string = λ type s. (s, true);
  serialize_to_string = λ m. some m;
}

abbrev topic : Text
topic = bytes "@/p@/count"

abbrev subscriber_of : Text → Subscribed → Subscriber
subscriber_of k kind = record {
  h_uuid = k;
  n_uuid = bytes "n1";
  kind = kind;
  opts = default_subscribe_options;
  has_cb = true;
}

abbrev int_reader : Subscriber
int_reader = subscriber_of (bytes "h1") (typed (bytes "Int"))

abbrev str_reader : Subscriber
str_reader = subscriber_of (bytes "h2") (typed (bytes "Str"))

abbrev byte_reader : Subscriber
byte_reader = subscriber_of (bytes "h3") (raw (bytes "Int"))

abbrev readers : HandlerWrapper
readers = record {
  normal =
      (topic, (bytes "n1", (bytes "h1", int_reader) ∷ (bytes "h2", str_reader) ∷ []) ∷ []) ∷ [];
  raw = (topic, (bytes "n1", (bytes "h3", byte_reader) ∷ []) ∷ []) ∷ [];
}

abbrev no_types : Text → Bool
no_types type = false

abbrev int_info : MessageInfo
int_info = record blank_info { topic = bytes "/count"; partition = bytes "/p"; type = bytes "Int" }

-- The reader of another type is not called.
two_called :
    deliver_to 5 no_types int_info
      (bytes "7")
      (subscribers topic (bytes "Int") readers.raw)
      (subscribers topic (bytes "Int") readers.normal)
      []
    ≡ (
      [],
      raw_called (bytes "h3") (bytes "7") int_info
          ∷ local_called (bytes "h1") (bytes "7") int_info
          ∷ [],
    )
unfolding deliver_to subscribers or_none run_raws run_locals deliver_made handlers topic_handlers
    node_handlers lookup matches type_name text_eq run_raw_callback run_local_callback
    update_throttling create_msg_from_buffer casts
two_called = refl

trigger_callbacks-matching_example :
    trigger_callbacks {Msg = Text} 5 no_types int_info
      (bytes "7")
      (check_handler_info topic readers)
      []
    ≡ deliver_to 5 no_types int_info
        (bytes "7")
        (subscribers topic (bytes "Int") readers.raw)
        (subscribers topic (bytes "Int") readers.normal)
        []
trigger_callbacks-matching_example =
    trigger_callbacks-matching 5 no_types int_info (bytes "7") topic readers []

abbrev sent : Map ℕ × List Text
sent = publish true (λ seq stamp. bytes "meta") 9 (bytes "tcp:1") topic (bytes "7") (bytes "Int") []

recv_msg_update-publish_example :
    let info = record (set_topic_and_partition topic blank_info).0 { type = bytes "Int" } in
    recv_msg_update {Msg = Text} 5 no_types true (topic ∷ []) sent.1 readers [] ≡ (
      let (m', out) =
        deliver_to 5 no_types info
          (bytes "7")
          (subscribers topic (bytes "Int") readers.raw)
          (subscribers topic (bytes "Int") readers.normal)
          [] in
      (m', out, true && any (λ t. text_eq t topic) (topic ∷ [])))
recv_msg_update-publish_example =
    recv_msg_update-publish true (λ seq stamp. bytes "meta") 9 (bytes "tcp:1") topic (bytes "7")
      (bytes "Int") [] 5 no_types (topic ∷ []) readers []
