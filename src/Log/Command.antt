-- ===== src/Log/Command.antt =====
-- log/src/cmd/LogCommandAPI.cc: what the commands that record and play back do with their arguments.
pub mod Remap
use gz_transport.Common.{
  ℕ, ◌+◌, ◌-◌, ◌==◌, ◌&&◌, Bool, true, false, not, Option, none, some, List, [], ◌∷◌, ◌++◌,
  is_empty, length, if◌then◌else◌, Text, starts_with, take, drop,
}
use gz_transport.Common.Map.{Map}
use gz_transport.Common.Int.{ℤ, pos, leb_ℤ}
use gz_transport.NodeOptions.{NodeOptions, default_options, add_topic_remap}
use gz_transport.Log.Recorder.{
  Recorder, RecorderError, success, new_recorder, add_pattern, start_recording, stop_recording,
  LogData,
}
use gz_transport.Log.Playback.{Choice, add_matching, topics_to_play}

-- `remap.find(":=")`
unfoldable pub find_delim : Text → Option ℕ
find_delim [] = none
find_delim (x ∷ s) =
    let rest : Option ℕ = elim (find_delim s) [ none ↦ none | some i ↦ some (i + 1) ] in
    if x == b':' && starts_with b'=' s then some 0 else rest

-- The two topics of a remapping.
unfoldable pub parse_remap : Text → Option (Text × Text)
unfolding find_delim
parse_remap remap = elim (find_delim remap) [
  | none ↦ none
  | some d ↦ some (take d remap, take (length remap - d - 1) (drop (d + 2) remap))
]

-- The options of the node that plays back; none ends the command.
unfoldable pub playback_options : Text → Text → Option NodeOptions
unfolding parse_remap
playback_options host_user remap =
    let o = default_options host_user in
    if is_empty remap then some o else elim (parse_remap remap) [
      | none ↦ none
      | some (from, to) ↦ let (o', ok) = add_topic_remap from to o in if ok then some o' else none
    ]

-- `playbackTopics`, up to the start: none where it ends before, and otherwise the options, the
-- topics and whether the playback waits. `pattern_` is the regular expression, if it is one, and
-- `topics` the map of the topics of the log, if it is valid.
unfoldable pub playback_topics :
    Option (Text → Bool)
    → Text
    → Text
    → Option (Map (Map ℤ))
    → Bool
    → Option (NodeOptions × List Text × Bool)
unfolding playback_options add_matching topics_to_play
playback_topics none host_user remap topics fast = none
playback_topics (some pattern_) host_user remap topics fast =
    elim (playback_options host_user remap) [
      | none ↦ none
      | some o ↦ elim topics [
        | none ↦ none
        | some m ↦
            let c : Choice = record { topic_names = []; add_topic_was_used = false } in
            let (c', n) = add_matching (some m) pattern_ c in
            if not (leb_ℤ (pos 0) n) then none else some (o, topics_to_play m c', not fast)
      ]
    ]

-- `recordTopics`, up to the wait for the end: none where it ends before. `removes` is the answer of
-- the removal of the file, where it is asked for.
unfoldable pub record_topics :
    Bool
    → Bool
    → Option (Text → Bool)
    → (Text → Bool)
    → List Text
    → (Text → Bool)
    → Text
    → Option Recorder
unfolding add_pattern start_recording
record_topics force removes none subscribes topics opens file = none
record_topics force removes (some pattern_) subscribes topics opens file =
    let (r, n, calls) = add_pattern subscribes pattern_ topics new_recorder in
    let (r', e) = start_recording opens file r in
    if force && not removes
    then none
    else if not (leb_ℤ (pos 0) n)
    then none
    else elim e [ success ↦ some r' | _ ↦ none ]
