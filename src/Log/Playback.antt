-- ===== src/Log/Playback.antt =====
-- log/src/Playback.cc: the choice of topics that are played back, and the thread that publishes the
-- messages of a log, which other threads pause, step, move and stop.
pub mod Selected
pub mod Played
pub mod Turns
pub mod Paced
pub mod Ends
mod Tests
use gz_transport.Common.{
  ℕ, ◌+◌, ◌-◌, ◌^◌, Bool, true, false, not, ◌&&◌, ◌||◌, Option, none, some, List, [], ◌∷◌, ◌++◌,
  any, is_empty, is_some, if◌then◌else◌, Text, text_eq,
}
use gz_transport.Common.Map.{Map, lookup}
use gz_transport.Common.Int.{ℤ, pos, negsuc, leb_ℤ, eq_ℤ, ◌+ℤ◌, ◌-ℤ◌}
use gz_transport.Log.Iterator.{LogMessage}

-- The members of a playback that change: the set of topics, and whether it was chosen.
pub record Choice : Type 0 where
  pub topic_names : List Text
  pub add_topic_was_used : Bool

unfoldable pub has_name : Text → List Text → Bool
has_name t names = any (λ n. text_eq n t) names

-- `unordered_set::insert` and `erase`.
unfoldable pub insert_name : Text → List Text → List Text
unfolding has_name
insert_name t names = if has_name t names then names else names ++ t ∷ []

unfoldable pub erase_if : (Text → Bool) → List Text → List Text
erase_if p [] = []
erase_if p (n ∷ names) = let rest = erase_if p names in if p n then rest else n ∷ rest

unfoldable pub count_if : (Text → Bool) → List Text → ℕ
count_if p [] = 0
count_if p (n ∷ names) = let rest = count_if p names in if p n then 1 + rest else rest

unfoldable pub insert_names : List Text → List Text → List Text
unfolding insert_name
insert_names [] names = names
insert_names (t ∷ ts) names = insert_names ts (insert_name t names)

unfoldable pub topics_of : Map (Map ℤ) → List Text
topics_of [] = []
topics_of ((t, types) ∷ m) = t ∷ topics_of m

-- `topics` is the map of the topics of the log, for a log that is valid and has a descriptor.
unfoldable pub default_to_all_topics : Map (Map ℤ) → Choice → Choice
unfolding insert_names topics_of
default_to_all_topics topics c = if c.add_topic_was_used then c else record {
  topic_names = insert_names (topics_of topics) c.topic_names;
  add_topic_was_used = true;
}

-- `AddTopic` of a name; none is the map of a log that is not valid.
unfoldable pub add_topic : Option (Map (Map ℤ)) → Text → Choice → Choice × Bool
unfolding insert_name
add_topic topics topic c =
    let used = record c { add_topic_was_used = true } in
    elim topics [
      | none ↦ (used, false)
      | some m ↦ elim (lookup topic m) [
        | none ↦ (used, false)
        | some types ↦ (record used { topic_names = insert_name topic c.topic_names }, true)
      ]
    ]

-- `AddTopic` of a pattern.
unfoldable pub add_matching : Option (Map (Map ℤ)) → (Text → Bool) → Choice → Choice × ℤ
unfolding insert_names topics_of erase_if count_if
add_matching topics matches_ c =
    let used = record c { add_topic_was_used = true } in
    elim topics [
      | none ↦ (used, negsuc 0)
      | some m ↦ (
        record used {
          topic_names = insert_names (erase_if (λ t. not (matches_ t)) (topics_of m)) c.topic_names;
        },
        pos (count_if matches_ (topics_of m)),
      )
    ]

-- `RemoveTopic` of a name and of a pattern.
unfoldable pub remove_topic : Map (Map ℤ) → Text → Choice → Choice × Bool
unfolding default_to_all_topics erase_if has_name
remove_topic topics topic c =
    let d = default_to_all_topics topics c in
    (
      record d { topic_names = erase_if (λ n. text_eq n topic) d.topic_names },
      has_name topic d.topic_names,
    )

unfoldable pub remove_matching : Map (Map ℤ) → (Text → Bool) → Choice → Choice × ℕ
unfolding default_to_all_topics erase_if count_if
remove_matching topics matches_ c =
    let d = default_to_all_topics topics c in
    (record d { topic_names = erase_if matches_ d.topic_names }, count_if matches_ d.topic_names)

-- The topics that `Start` takes.
unfoldable pub topics_to_play : Map (Map ℤ) → Choice → List Text
unfolding insert_names topics_of
topics_to_play topics c =
    if not c.add_topic_was_used then insert_names (topics_of topics) [] else c.topic_names

-- Where the thread of a handle stands: at the head of its loop, in the wait of a pause, in
-- `WaitUntil` for a time, before it publishes or before it pauses after a step, or behind the loop.
pub data Phase : Type 0 where
  looping blocked ended : Phase
  waiting_to_publish waiting_to_pause : ℤ → Phase

-- The members of a handle. The iterator is given by the messages from it on.
pub record Player : Type 0 where
  pub stop : Bool
  pub finished : Bool
  pub paused : Bool
  pub playback_time : ℤ
  pub boundary_time : ℤ
  pub next_message_time : ℤ
  pub last_event_time : ℤ
  pub first_message_time : ℤ
  pub msg_waiting : Bool
  pub rest : List LogMessage
  pub phase : Phase

-- `nanoseconds::max()`
abbrev pub max_time : ℤ
max_time = pos (2 ^ 63 - 1)

-- `StartPlayback` with the rest of the constructor, on messages that are not empty; `start` is the
-- start time of the log and `now` the time of the clock.
unfoldable pub start_playback : ℤ → ℤ → Bool → LogMessage → List LogMessage → Player
start_playback now start waits m ms = record {
  stop = false;
  finished = false;
  paused = false;
  playback_time = start;
  boundary_time = max_time;
  next_message_time = m.time_received;
  last_event_time = now;
  first_message_time = m.time_received;
  msg_waiting = waits;
  rest = m ∷ ms;
  phase = looping;
}

-- The publishing of the next message. Behind the last one the iterator keeps the last message.
unfoldable pub publish_next : ℤ → Player → Player × List LogMessage
publish_next now p = elim p.rest [
  | [] ↦ (p, [])
  | m ∷ ms ↦ (
    record p {
      rest = ms;
      phase = looping;
      playback_time = p.next_message_time;
      last_event_time = now;
      next_message_time = elim ms [ [] ↦ m.time_received | n ∷ ns ↦ n.time_received ];
    },
    m ∷ [],
  )
]

unfoldable pub pause : ℤ → Player → Player
pause now p = if p.paused then p else record p {
  paused = true;
  playback_time = (p.playback_time +ℤ now) -ℤ p.last_event_time;
  last_event_time = now;
  boundary_time = max_time;
}

unfoldable pub resume : Player → Player
resume p = if p.paused then record p { paused = false } else p

unfoldable pub step_playback : ℤ → Player → Player
unfolding resume
step_playback d p =
    if eq_ℤ d (pos 0) then p else resume (record p { boundary_time = p.playback_time +ℤ d })

-- `Stop`, of a log that is valid, up to the joining of the thread.
unfoldable pub stop_playback : Player → Player
stop_playback p = record p { stop = true; paused = false }

-- `Seek`; the messages are those that the log gives from a time on, and none of the result is the
-- reading of a message through a null pointer.
unfoldable pub seek : (ℤ → List LogMessage) → ℤ → ℤ → Player → Option Player
seek query now elapsed p =
    if p.stop then some p else elim (query (p.first_message_time +ℤ elapsed)) [
      | [] ↦ none
      | m ∷ ms ↦ some (record p {
        rest = m ∷ ms;
        playback_time = m.time_received;
        next_message_time = m.time_received;
        boundary_time = max_time;
        last_event_time = now;
      })
    ]

-- The test that ends a wait; `wait_for` answers with it.
unfoldable pub finished_waiting : ℤ → ℤ → Player → Bool
finished_waiting target now p = leb_ℤ target now || (p.stop || p.paused)

-- The thread goes on, at a time of the clock: from one wait to the next, or to the end.
unfoldable pub turn : ℤ → Player → Player × List LogMessage
unfolding publish_next pause finished_waiting
turn now p = elim p.phase [
  | ended ↦ (p, [])
  | blocked ↦
      if p.paused then (p, []) else (record p { last_event_time = now; phase = looping }, [])
  | looping ↦
      let due = p.last_event_time +ℤ (p.next_message_time -ℤ p.playback_time) in
      let step_end = p.last_event_time +ℤ (p.boundary_time -ℤ p.playback_time) in
      if p.stop || is_empty p.rest
      then (record p { finished = true; phase = ended }, [])
      else if p.paused
      then (record p { phase = blocked }, [])
      else if leb_ℤ p.next_message_time p.boundary_time
      then (if p.msg_waiting
          then (record p { phase = waiting_to_publish due }, [])
          else publish_next now p)
      else (record p { phase = waiting_to_pause step_end }, [])
  | waiting_to_publish target ↦
      if finished_waiting target now p then publish_next now p else (p, [])
  | waiting_to_pause target ↦
      if finished_waiting target now p
      then (record (pause now p) { phase = looping }, [])
      else (p, [])
]
