-- ===== src/Node/Publishing.antt =====
-- src/Node.cc, `Node::Publisher`: how a node publishes.
use gz_transport.Common.{
  ℕ, ◌-◌, ◌*◌, ◌^◌, Bool, true, false, not, ◌&&◌, ◌||◌, none, some, List, [], ◌∷◌, ◌++◌, is_empty,
  keep_if, ltb, if◌then◌else◌, Text, text_eq,
}
use gz_transport.Common.Map.{Map}
use gz_transport.TopicStorage.{generic_message_type, has_topic_type}
use gz_transport.HandlerStorage.{topic_handlers}
use gz_transport.Handlers.{Protobuf}
use gz_transport.Handlers.Subscription.{
  MessageInfo, Timestamps, Called, blank_info, set_topic_and_partition,
}
use gz_transport.Publisher.{MessagePublisher, throttled}
use gz_transport.NodeShared.{Process}
use gz_transport.NodeShared.Subscribers.{has_subscriber_of_type, matches}
use gz_transport.NodeShared.Connections.{PublishMsg, Subscriptions}
use gz_transport.NodeShared.Callbacks.{
  HandlerInfo, SubscriberInfo, check_subscriber_info, publish, trigger_callbacks,
}

-- `PublisherPrivate`: the publisher and the time of the last publication.
pub record NodePublisher : Type 0 where
  pub publisher : MessagePublisher
  pub last : ℕ

-- `Valid`
unfoldable pub is_usable : NodePublisher → Bool
is_usable p = not (is_empty p.publisher.base.topic)

-- `ThrottledUpdateReady`. As in the handlers, the comparison with the period is multiplied by the
-- rate.
unfoldable pub is_ready : ℕ → NodePublisher → Bool
is_ready now p =
    let o = p.publisher.msg_opts in
    if not (throttled o) then true else not (ltb ((now - p.last) * o.msgs_per_sec) (10 ^ 9))

-- `UpdateThrottling`, which reads the clock twice.
unfoldable pub update_publisher : ℕ → ℕ → NodePublisher → NodePublisher × Bool
unfolding is_ready
update_publisher now now' p =
    if not (throttled p.publisher.msg_opts)
    then (p, true)
    else if not (is_ready now p)
    then (p, false)
    else (record p { last = now' }, true)

-- `CreateMessageInfo`
unfoldable pub create_message_info : MessagePublisher → MessageInfo
create_message_info p = record (set_topic_and_partition p.base.topic blank_info).0 {
  type = p.msg_type_name;
}

unfoldable pub has_connections : {Msg : Type 0} → NodePublisher → Subscriptions Msg → Bool
unfolding is_usable
has_connections p s =
    let t = p.publisher.base.topic in
    let type = p.publisher.msg_type_name in
    is_usable p
    && (has_subscriber_of_type t type s.local_subscribers
        || has_topic_type (λ q. q.msg_type_name) t type s.remote_subscribers)

-- What changes when a node publishes: the publisher, the shared object, the sequence numbers and
-- the times of the callbacks; the messages that the socket sends; the callbacks; and the answer.
pub record Published (Msg : Type 0) : Type 0 where
  pub by : NodePublisher
  pub shared : Subscriptions Msg
  pub seqs : Map ℕ
  pub times : Timestamps
  pub sent : List (List Text)
  pub calls : List (Called Msg)
  pub answer : Bool

-- What `NodeShared::Publish` uses beside the message: whether there are topic statistics, the
-- layout of the metadata, the time stamp, and whether ZeroMQ sends without an error.
pub record Sending : Type 0 where
  pub stats : Bool
  pub meta_of : ℕ → ℕ → Text
  pub stamp : ℕ
  pub succeeds : Bool

module _ {Msg : Type 0} (me : Process) (out : Sending) where
  -- The part for the remote subscribers.
  unfoldable pub send_remote : Bool → Text → Text → Published Msg → Published Msg
  unfolding publish
  send_remote have_remote content type r =
      let t = r.by.publisher.base.topic in
      let (seqs, frames) =
        publish out.stats out.meta_of out.stamp me.my_address t content type r.seqs in
      if not have_remote
      then r
      else record r { seqs = seqs; sent = frames ∷ []; answer = out.succeeds }

module _ {Msg : Type 0} ⦃pb : Protobuf Msg⦄ where
  open pb use {type_name_of}

  -- The entry of the queue; the buffer is made for the first handler that takes bytes.
  unfoldable pub queue_entry : MessagePublisher → Msg → Text → HandlerInfo → PublishMsg Msg
  unfolding matches topic_handlers create_message_info
  queue_entry p msg content i =
      let type = type_name_of msg in
      let raws =
        if i.have_raw then keep_if (matches type) (topic_handlers i.raw_handlers) else [] in
      record {
        local_handlers =
            if i.have_local then keep_if (matches type) (topic_handlers i.local_handlers) else [];
        raw_handlers = raws;
        shared_buffer = if is_empty raws then [] else content;
        msg_copy = msg;
        info = record (create_message_info p) { is_intra_process = true };
        publisher_node_uuid = p.base.n_uuid;
      }

module _ {Msg : Type 0} ⦃pb : Protobuf Msg⦄ (me : Process) (out : Sending) where
  open pb use {type_name_of, serialize_to_string}

  -- `Publish` once the message is serialized: the queue, and the remote subscribers.
  unfoldable pub publish_content :
      NodePublisher
      → Msg
      → Text
      → SubscriberInfo
      → Subscriptions Msg
      → Map ℕ
      → Timestamps
      → Published Msg
  unfolding queue_entry send_remote
  publish_content p msg content i s seqs times =
      let queue =
        if i.here.have_local || i.here.have_raw
        then s.pub_queue ++ queue_entry p.publisher msg content i.here ∷ []
        else s.pub_queue in
      let r : Published Msg = record {
        by = p;
        shared = record s { pub_queue = queue };
        seqs = seqs;
        times = times;
        sent = [];
        calls = [];
        answer = me.is_zeromq;
      } in
      if me.is_zeromq then send_remote me out i.have_remote content (type_name_of msg) r else r

  -- `Publish`; a message that nobody takes as bytes is not serialized.
  unfoldable pub publish_message :
      ℕ → ℕ → NodePublisher → Msg → Subscriptions Msg → Map ℕ → Timestamps → Published Msg
  unfolding is_usable update_publisher check_subscriber_info publish_content
  publish_message now now' p msg s seqs times =
      let type = p.publisher.msg_type_name in
      let refused : Published Msg = record {
        by = p;
        shared = s;
        seqs = seqs;
        times = times;
        sent = [];
        calls = [];
        answer = false;
      } in
      let (p', due) = update_publisher now now' p in
      let i =
        check_subscriber_info p.publisher.base.topic type s.local_subscribers
          s.remote_subscribers in
      if not (is_usable p)
      then refused
      else if not (text_eq type (type_name_of msg))
      then refused
      else if not due
      then record refused { by = p'; answer = true }
      else if i.here.have_raw || i.have_remote
      then elim (serialize_to_string msg) [
        | none ↦ record refused { by = p' }
        | some content ↦ publish_content p' msg content i s seqs times
      ]
      else publish_content p' msg [] i s seqs times

  -- `PublishRaw`: the callbacks run at once.
  unfoldable pub publish_raw :
      ℕ
      → ℕ
      → (Text → Bool)
      → NodePublisher
      → Text
      → Text
      → Subscriptions Msg
      → Map ℕ
      → Timestamps
      → Published Msg
  unfolding is_usable update_publisher check_subscriber_info trigger_callbacks send_remote
  publish_raw now now' known p content type s seqs times =
      let t = p.publisher.base.topic in
      let own = p.publisher.msg_type_name in
      let refused : Published Msg = record {
        by = p;
        shared = s;
        seqs = seqs;
        times = times;
        sent = [];
        calls = [];
        answer = false;
      } in
      let (p', due) = update_publisher now now' p in
      let i = check_subscriber_info t type s.local_subscribers s.remote_subscribers in
      let info = record (set_topic_and_partition t blank_info).0 {
        type = type;
        is_intra_process = true;
      } in
      let (times', calls) = trigger_callbacks now known info content i.here times in
      let r = record refused {
        by = p';
        times = times';
        calls = calls;
        answer = not i.have_remote || me.is_zeromq;
      } in
      if not (is_usable p)
      then refused
      else if not (text_eq own type) && not (text_eq own generic_message_type)
      then refused
      else if not due
      then record refused { by = p'; answer = true }
      else if me.is_zeromq
      then send_remote me out i.have_remote content type r
      else r
