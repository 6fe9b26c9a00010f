-- ===== src/Log/Recorder.antt =====
-- log/src/Recorder.cc: the queue of received messages, the thread that writes them to the log, and
-- the topics that are recorded.
pub mod Drained
pub mod Lossless
pub mod Subscribed
use gz_transport.Common.{
  ℕ, ◌+◌, ◌-◌, ◌*◌, ◌/◌, ◌%◌, ◌^◌, ltb, leb, ◌==◌, Bool, true, false, not, ◌&&◌, Option, none, some,
  List, [], ◌∷◌, ◌++◌, any, is_empty, is_some, length, if◌then◌else◌, Text, text_eq, drop,
  starts_with,
}
use gz_transport.Common.Int.{ℤ, pos, negsuc}
use gz_transport.Handlers.Subscription.{MessageInfo}
use gz_transport.TopicUtils.{decompose_fully_qualified_topic}

-- `RecorderError`
pub data RecorderError : Type 0 where
  success failed_to_open failed_to_subscribe already_recording : RecorderError
  invalid_topic topic_not_found already_subscribed_to_topic : RecorderError

unfoldable pub error_code : RecorderError → ℤ
error_code success = pos 0
error_code failed_to_open = negsuc 0
error_code failed_to_subscribe = negsuc 1
error_code already_recording = negsuc 2
error_code invalid_topic = negsuc 3
error_code topic_not_found = negsuc 4
error_code already_subscribed_to_topic = negsuc 5

pub record LogData : Type 0 where
  pub stamp : ℤ
  pub msg_data : Text
  pub msg_info : MessageInfo

-- The members that change. The log file is given by its name; a pattern is its test of a topic.
pub record Recorder : Type 0 where
  pub log_file : Option Text
  pub patterns : List (Text → Bool)
  pub already_subscribed : List Text
  pub max_buffer_size : ℕ
  pub buffer_size : ℕ
  pub data_queue : List LogData
  pub data_writer_state : Bool

-- A new recorder; the size of its buffer is 1000 << 20.
abbrev pub new_recorder : Recorder
new_recorder = record {
  log_file = none;
  patterns = [];
  already_subscribed = [];
  max_buffer_size = 1000 * 2 ^ 20;
  buffer_size = 0;
  data_queue = [];
  data_writer_state = false;
}

unfoldable pub decrement_buffer_size : ℕ → ℕ → ℕ
decrement_buffer_size len size = if leb len size then size - len else 0

-- The first message leaves a queue that is not empty.
unfoldable pub evict_front : Recorder → Recorder
unfolding decrement_buffer_size
evict_front r = elim r.data_queue [
  | [] ↦ r
  | d ∷ ds ↦ record r {
    buffer_size = decrement_buffer_size (length d.msg_data) r.buffer_size;
    data_queue = ds;
  }
]

-- What `OnMessageReceived` does behind its test of the clock; sizes are 64 bits wide, and `now` is
-- the time of the clock.
unfoldable pub queue_message : ℤ → Text → MessageInfo → Recorder → Recorder
unfolding evict_front
queue_message now content info r =
    let len = length content in
    let full = ltb r.max_buffer_size ((r.buffer_size + len) % 2 ^ 64) in
    let r' : Recorder =
      if ltb 0 r.max_buffer_size && (full && not (is_empty r.data_queue))
      then evict_front r
      else r in
    if not r.data_writer_state then r else record r' {
      buffer_size = (r'.buffer_size + len) % 2 ^ 64;
      data_queue =
          r'.data_queue ++ record { stamp = now; msg_data = content; msg_info = info } ∷ [];
    }

-- `OnMessageReceived`; `ready` is the answer of the clock's `IsReady`. The second part tells whether
-- it warns "Clock isn't ready yet. Dropping message"; it goes on all the same.
unfoldable pub on_message_received : Bool → ℤ → Text → MessageInfo → Recorder → Recorder × Bool
unfolding queue_message
on_message_received ready now content info r = (queue_message now content info r, not ready)

-- `WriteToLogFile`: what is handed to `InsertMessage`.
unfoldable pub write_to_log_file : LogData → Recorder → List LogData
write_to_log_file d r = if is_some r.log_file then d ∷ [] else []

-- One turn of the loop of `DataWriterThread`, where the queue has a message.
unfoldable pub writer_turn : Recorder → Recorder × List LogData
unfolding write_to_log_file
writer_turn r = if not r.data_writer_state then (r, []) else elim r.data_queue [
  | [] ↦ (r, [])
  | d ∷ ds ↦ (record r { data_queue = ds }, write_to_log_file d r)
]

-- `FlushDataQueue`: the messages that it writes, from the queue on.
unfoldable pub flush_data_queue : List LogData → Recorder → List LogData
unfolding write_to_log_file
flush_data_queue [] r = []
flush_data_queue (d ∷ ds) r = write_to_log_file d r ++ flush_data_queue ds r

-- `Recorder::Start`; `opens` is the answer of `Log::Open`.
unfoldable pub start_recording : (Text → Bool) → Text → Recorder → Recorder × RecorderError
start_recording opens file r =
    if is_some r.log_file
    then (r, already_recording)
    else if not (opens file)
    then (r, failed_to_open)
    else (record r { log_file = some file; data_writer_state = true }, success)

-- `Recorder::Stop`
unfoldable pub stop_recording : Recorder → Recorder × List LogData
unfolding flush_data_queue
stop_recording r = if not (is_some r.log_file) then (r, []) else (
  record r { log_file = none; data_queue = []; data_writer_state = false },
  flush_data_queue r.data_queue r,
)

-- `Recorder::BufferSize` and `Recorder::SetBufferSize`, in megabytes.
unfoldable pub buffer_size_mb : Recorder → ℕ
buffer_size_mb r = r.max_buffer_size / 2 ^ 20

unfoldable pub set_buffer_size : ℕ → Recorder → Recorder
set_buffer_size size r = record r { max_buffer_size = size * 2 ^ 20 % 2 ^ 64 }

-- `AddTopic` of a name; `subscribes` is the answer of `Node::SubscribeRaw`. The last part is the
-- call of it.
unfoldable pub add_topic : (Text → Bool) → Text → Recorder → Recorder × RecorderError × List Text
add_topic subscribes topic r =
    if any (λ t. text_eq t topic) r.already_subscribed
    then (r, already_subscribed_to_topic, [])
    else if not (subscribes topic)
    then (r, failed_to_subscribe, topic ∷ [])
    else (record r { already_subscribed = r.already_subscribed ++ topic ∷ [] }, success, topic ∷ [])

-- The loop of `AddTopic` of a pattern, over the topics of the node's list: the number of topics
-- that match, or none where a subscription fails.
unfoldable pub add_topics :
    (Text → Bool) → (Text → Bool) → List Text → ℕ → Recorder → Recorder × Option ℕ × List Text
unfolding add_topic
add_topics subscribes pattern_ [] n r = (r, some n, [])
add_topics subscribes pattern_ (t ∷ ts) n r =
    let (r', e, calls) = add_topic subscribes t r in
    let rest = add_topics subscribes pattern_ ts (n + 1) r' in
    let skipped = add_topics subscribes pattern_ ts n r in
    if not (pattern_ t)
    then skipped
    else elim e [ failed_to_subscribe ↦ (r', none, calls) | _ ↦ (rest.0, rest.1, calls ++ rest.2) ]

-- `AddTopic` of a pattern. A pattern is kept where no subscription fails.
unfoldable pub add_pattern :
    (Text → Bool) → (Text → Bool) → List Text → Recorder → Recorder × ℤ × List Text
unfolding add_topics error_code
add_pattern subscribes pattern_ topics r =
    let (r', answer, calls) = add_topics subscribes pattern_ topics 0 r in
    elim answer [
      | none ↦ (r', error_code failed_to_subscribe, calls)
      | some n ↦ (record r' { patterns = r'.patterns ++ pattern_ ∷ [] }, pos n, calls)
    ]

-- The loop of `OnAdvertisement` over the patterns.
unfoldable pub subscribe_matching :
    (Text → Bool) → Text → List (Text → Bool) → Recorder → Recorder × List Text
unfolding add_topic
subscribe_matching subscribes topic [] r = (r, [])
subscribe_matching subscribes topic (p ∷ ps) r =
    let (r', e, calls) = add_topic subscribes topic r in
    let (r'', calls') = subscribe_matching subscribes topic ps (if p topic then r' else r) in
    (r'', if p topic then calls ++ calls' else calls')

-- `OnAdvertisement`. A comparison that starts behind the first character of an empty partition reads
-- behind its end, which is undefined: none. A topic that cannot be decomposed leaves both parts empty.
unfoldable pub on_advertisement :
    (Text → Bool) → Text → Text → Recorder → Option (Recorder × List Text)
unfolding subscribe_matching
on_advertisement subscribes node_partition name r =
    let parts : Text × Text = elim (decompose_fully_qualified_topic name) [
      | none ↦ ([], [])
      | some p ↦ p
    ] in
    let from = if starts_with b'/' node_partition then 0 else 1 in
    if ltb (length parts.0) from
    then none
    else if not (text_eq node_partition (drop from parts.0))
    then some (r, [])
    else if any (λ t. text_eq t parts.1) r.already_subscribed
    then some (r, [])
    else some (subscribe_matching subscribes parts.1 r.patterns r)
