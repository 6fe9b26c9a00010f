-- ===== src/NodeShared/Callbacks.antt =====
-- src/NodeShared.cc: a message on its way from a publisher to the callbacks of its subscribers.
pub mod Matching
pub mod Queue
mod Tests
use gz_transport.Common.{
  ℕ, ◌+◌, ◌%◌, ◌^◌, Bool, true, false, not, ◌&&◌, ◌||◌, Option, none, some, List, [], ◌∷◌, ◌++◌,
  is_some, any, if◌then◌else◌, Text, text_eq,
}
use gz_transport.Common.Map.{Map, lookup, insert}
use gz_transport.TopicStorage.{TopicStorage, has_topic_type}
use gz_transport.HandlerStorage.{handlers, topic_handlers}
use gz_transport.Handlers.{Protobuf}
use gz_transport.Handlers.Subscription.{
  Subscriber, MessageInfo, Timestamps, Called, blank_info, set_topic_and_partition,
  run_raw_callback, run_local_callback, create_msg_from_buffer,
}
use gz_transport.Publisher.{MessagePublisher}
use gz_transport.NodeShared.Subscribers.{or_none, HandlerWrapper, matches}
use gz_transport.NodeShared.Connections.{PublishMsg}

-- `HandlerInfo` and `SubscriberInfo`
pub record HandlerInfo : Type 0 where
  pub local_handlers : Map (Map Subscriber)
  pub raw_handlers : Map (Map Subscriber)
  pub have_local : Bool
  pub have_raw : Bool

pub record SubscriberInfo : Type 0 where
  pub here : HandlerInfo
  pub have_remote : Bool

unfoldable pub check_handler_info : Text → HandlerWrapper → HandlerInfo
unfolding or_none
check_handler_info topic w = record {
  local_handlers = or_none (handlers topic w.normal);
  raw_handlers = or_none (handlers topic w.raw);
  have_local = is_some (handlers topic w.normal);
  have_raw = is_some (handlers topic w.raw);
}

unfoldable pub check_subscriber_info :
    Text → Text → HandlerWrapper → TopicStorage MessagePublisher → SubscriberInfo
unfolding check_handler_info
check_subscriber_info topic type w remote = record {
  here = check_handler_info topic w;
  have_remote = has_topic_type (λ q. q.msg_type_name) topic type remote;
}

-- What `RecvMsgUpdate` reads; with topic statistics there is a frame of metadata.
pub record Received : Type 0 where
  pub topic : Text
  pub sender : Text
  pub content : Text
  pub msg_type : Text
  pub meta : Option Text

unfoldable pub read_message : Bool → List Text → Option Received
read_message true (t ∷ a ∷ d ∷ type ∷ meta ∷ rest) =
    some (record { topic = t; sender = a; content = d; msg_type = type; meta = some meta })
read_message false (t ∷ a ∷ d ∷ type ∷ rest) =
    some (record { topic = t; sender = a; content = d; msg_type = type; meta = none })
read_message _ _ = none

-- `Publish`: the frames that it sends, and the sequence numbers of the topics, which are 64 bits
-- wide. `meta_of` lays out a sequence number and a time in memory.
unfoldable pub sequence_of : Text → Map ℕ → ℕ
sequence_of topic seqs = elim (lookup topic seqs) [ none ↦ 0 | some n ↦ n ]

unfoldable pub publish :
    Bool → (ℕ → ℕ → Text) → ℕ → Text → Text → Text → Text → Map ℕ → Map ℕ × List Text
unfolding sequence_of
publish stats meta_of stamp my_address topic content msg_type seqs =
    let seq = sequence_of topic seqs in
    if stats
    then (
      insert topic ((seq + 1) % 2 ^ 64) seqs,
      topic ∷ my_address ∷ content ∷ msg_type ∷ meta_of seq stamp ∷ [],
    )
    else (seqs, topic ∷ my_address ∷ content ∷ msg_type ∷ [])

module _ {Msg : Type 0} where
  -- The loops of `TriggerCallbacks` over the handlers that take bytes, and one turn of them.
  unfoldable pub raw_one :
      ℕ → Text → MessageInfo → Subscriber → Timestamps → Timestamps × List (Called Msg)
  unfolding matches run_raw_callback
  raw_one now content info h m =
      let r : Timestamps × List (Called Msg) × Bool = run_raw_callback now content info h m in
      if matches info.type h then (r.0, r.1) else (m, [])

  unfoldable pub raw_loop :
      ℕ → Text → MessageInfo → List Subscriber → Timestamps → Timestamps × List (Called Msg)
  unfolding raw_one
  raw_loop now content info [] m = (m, [])
  raw_loop now content info (h ∷ hs) m =
      let (m', out) = raw_one now content info h m in
      let (m'', out') = raw_loop now content info hs m' in (m'', out ++ out')

module _ {Msg : Type 0} ⦃pb : Protobuf Msg⦄ where
  -- The loops over the handlers that take a message. The message is made once; if that fails, the
  -- function returns.
  unfoldable pub local_loop :
      ℕ
      → (Text → Bool)
      → Text
      → MessageInfo
      → List Subscriber
      → Option Msg
      → Timestamps
      → Timestamps × List (Called Msg)
  unfolding matches create_msg_from_buffer run_local_callback
  local_loop now known content info [] made m = (m, [])
  local_loop now known content info (h ∷ hs) made m =
      let made' = if is_some made then made else create_msg_from_buffer known content info.type h in
      let skipped = local_loop now known content info hs made m in
      if not (matches info.type h) then skipped else elim made' [
        | none ↦ (m, [])
        | some msg ↦
            let r = run_local_callback now msg info h m in
            let (m'', out') = local_loop now known content info hs (some msg) r.0 in
            (m'', r.1 ++ out')
      ]

  unfoldable pub trigger_raw :
      ℕ → MessageInfo → Text → HandlerInfo → Timestamps → Timestamps × List (Called Msg)
  unfolding raw_loop topic_handlers
  trigger_raw now info content i m =
      if i.have_raw then raw_loop now content info (topic_handlers i.raw_handlers) m else (m, [])

  unfoldable pub trigger_local :
      ℕ
      → (Text → Bool)
      → MessageInfo
      → Text
      → HandlerInfo
      → Timestamps
      → Timestamps × List (Called Msg)
  unfolding local_loop topic_handlers
  trigger_local now known info content i m =
      if i.have_local
      then local_loop now known content info (topic_handlers i.local_handlers) none m
      else (m, [])

  unfoldable pub trigger_callbacks :
      ℕ
      → (Text → Bool)
      → MessageInfo
      → Text
      → HandlerInfo
      → Timestamps
      → Timestamps × List (Called Msg)
  unfolding trigger_raw trigger_local
  trigger_callbacks now known info content i m =
      if not i.have_local && not i.have_raw
      then (m, [])
      else (let (m', out) = trigger_raw now info content i m in
          let (m'', out') = trigger_local now known info content i m' in (m'', out ++ out'))

  -- `RecvMsgUpdate` once the frames are read. The last result says that the statistics of the topic
  -- take note of the sender and the metadata: `enabled` are the topics with statistics.
  unfoldable pub on_msg_update :
      ℕ
      → (Text → Bool)
      → List Text
      → Received
      → HandlerWrapper
      → Timestamps
      → Timestamps × List (Called Msg) × Bool
  unfolding trigger_callbacks check_handler_info set_topic_and_partition
  on_msg_update now known enabled r w m =
      let info = record (set_topic_and_partition r.topic blank_info).0 { type = r.msg_type } in
      let (m', out) = trigger_callbacks now known info r.content (check_handler_info r.topic w) m in
      (m', out, is_some r.meta && any (λ t. text_eq t r.topic) enabled)

  unfoldable pub recv_msg_update :
      ℕ
      → (Text → Bool)
      → Bool
      → List Text
      → List Text
      → HandlerWrapper
      → Timestamps
      → Timestamps × List (Called Msg) × Bool
  unfolding on_msg_update read_message
  recv_msg_update now known stats enabled frames w m = elim (read_message stats frames) [
    | none ↦ (m, [], false)
    | some r ↦ on_msg_update now known enabled r w m
  ]
