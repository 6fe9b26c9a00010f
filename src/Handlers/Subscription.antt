-- ===== src/Handlers/Subscription.antt =====
-- src/SubscriptionHandler.cc and include/gz/transport/SubscriptionHandler.hh, with the options of
-- src/SubscribeOptions.cc and the `MessageInfo` of src/MessageInfo.cc. The time of the last
-- callback, which changes, is kept by the UUID of the handler.
pub mod Throttled
use gz_transport.Common.{
  ℕ, ◌-◌, ◌*◌, ◌^◌, Bool, true, false, not, Option, none, some, List, [], ◌∷◌, ◌==◌, ltb,
  if◌then◌else◌, Text, text_eq,
}
use gz_transport.Common.Map.{Map, lookup, insert}
use gz_transport.TopicStorage.{generic_message_type}
use gz_transport.TopicUtils.{decompose_fully_qualified_topic}
use gz_transport.HandlerStorage.{Handles}
use gz_transport.Publisher.{unthrottled}
use gz_transport.Handlers.{Protobuf}

-- `MessageInfo`
pub record MessageInfo : Type 0 where
  pub topic : Text
  pub type : Text
  pub partition : Text
  pub is_intra_process : Bool

abbrev pub blank_info : MessageInfo
blank_info = record { topic = []; type = []; partition = []; is_intra_process = false }

-- A name that cannot be decomposed changes nothing.
unfoldable pub set_topic_and_partition : Text → MessageInfo → MessageInfo × Bool
set_topic_and_partition name i = elim (decompose_fully_qualified_topic name) [
  | none ↦ (i, false)
  | some (p, t) ↦ (record i { topic = t; partition = p }, true)
]

-- `SubscribeOptions`
pub record SubscribeOptions : Type 0 where
  pub msgs_per_sec : ℕ
  pub ignore_local_messages : Bool

abbrev pub default_subscribe_options : SubscribeOptions
default_subscribe_options = record { msgs_per_sec = unthrottled; ignore_local_messages = false }

-- `SubscriptionHandler<T>`, `SubscriptionHandler<ProtoMsg>` and `RawSubscriptionHandler`, by the
-- name of their type.
pub data Subscribed : Type 0 where
  typed : Text → Subscribed
  generic : Subscribed
  raw : Text → Subscribed

-- `has_cb` says that a callback is set.
pub record Subscriber : Type 0 where
  pub h_uuid : Text
  pub n_uuid : Text
  pub kind : Subscribed
  pub opts : SubscribeOptions
  pub has_cb : Bool

-- `TypeName`
unfoldable pub type_name : Subscriber → Text
type_name h = elim h.kind [ typed t ↦ t | generic ↦ generic_message_type | raw t ↦ t ]

instance abbrev pub subscriber_handles : Handles Subscriber
subscriber_handles = record {
  handler_uuid = λ h. h.h_uuid;
  req_type_name = λ h. [];
  rep_type_name = λ h. [];
  type_name = type_name;
}

-- `lastCbTimestamp` of each handler, in nanoseconds; it starts at 0.
abbrev pub Timestamps : Type 0
Timestamps = Map ℕ

unfoldable pub last_cb : Text → Timestamps → ℕ
last_cb k m = elim (lookup k m) [ none ↦ 0 | some t ↦ t ]

-- `UpdateThrottling` at the time `now` of the steady clock. The comparison with `periodNs`, which
-- is 1e9 divided by the rate, is multiplied by the rate: for integers the rounding of the quotient
-- to a double changes nothing.
unfoldable pub update_throttling : ℕ → Subscriber → Timestamps → Timestamps × Bool
unfolding last_cb
update_throttling now h m =
    if h.opts.msgs_per_sec == unthrottled
    then (m, true)
    else if ltb ((now - last_cb h.h_uuid m) * h.opts.msgs_per_sec) (10 ^ 9)
    then (m, false)
    else (insert h.h_uuid now m, true)

-- The call of a user's callback, with the UUID of the handler.
pub data Called (Msg : Type 0) : Type 0 where
  local_called : Text → Msg → MessageInfo → Called Msg
  raw_called : Text → Text → MessageInfo → Called Msg

-- `RunRawCallback`
unfoldable pub run_raw_callback :
    {Msg : Type 0}
    → ℕ
    → Text
    → MessageInfo
    → Subscriber
    → Timestamps
    → Timestamps × List (Called Msg) × Bool
unfolding update_throttling
run_raw_callback now data_ info h m =
    let (m', due) = update_throttling now h m in
    if not h.has_cb
    then (m, [], false)
    else if due
    then (m', raw_called h.h_uuid data_ info ∷ [], true)
    else (m', [], true)

module _ {Msg : Type 0} ⦃pb : Protobuf Msg⦄ where
  open pb use {type_name_of, parse_from_string}

  -- The dynamic cast to the type of the handler.
  unfoldable pub casts : Subscribed → Msg → Bool
  casts (typed t) m = text_eq (type_name_of m) t
  casts _ m = true

  -- `RunLocalCallback`. The handler is marked as called before the cast.
  unfoldable pub run_local_callback :
      ℕ → Msg → MessageInfo → Subscriber → Timestamps → Timestamps × List (Called Msg) × Bool
  unfolding update_throttling casts
  run_local_callback now msg info h m =
      let (m', due) = update_throttling now h m in
      if not h.has_cb
      then (m, [], false)
      else if not due
      then (m', [], true)
      else if casts h.kind msg
      then (m', local_called h.h_uuid msg info ∷ [], true)
      else (m', [], false)

  -- `CreateMsgFromBuffer`, by the factory that the constructor registers. A generic handler asks
  -- whether there is a type with this name, and gives nothing if the data cannot be parsed.
  unfoldable pub create_msg_from_buffer : (Text → Bool) → Text → Text → Subscriber → Option Msg
  create_msg_from_buffer known data_ type h =
      let (msg, ok) = parse_from_string type data_ in
      elim h.kind [
        | typed t ↦ some (parse_from_string t data_).0
        | generic ↦ if known type then (if ok then some msg else none) else none
        | raw t ↦ none
      ]
