-- ===== src/Log/Playback/Tests.antt =====
-- Examples of log/src/Playback.cc.
use gz_transport.Common.{
  ◌≡◌, refl, true, false, List, [], ◌∷◌, ◌++◌, bytes, text_eq, starts_with, arith,
}
use gz_transport.Common.Map.{Map, lookup}
use gz_transport.Common.Int.{ℤ, pos}
use gz_transport.Log.Iterator.{LogMessage}
use gz_transport.Log.Playback.{
  Player, ended, waiting_to_publish, start_playback, topics_to_play, has_name,
}
use gz_transport.Log.Playback.Selected.{
  adds, removes, removes_matching, make_calls, new_choice, topics_to_play-meaning, meaning,
  meanings, ChoiceCall,
}
use gz_transport.Log.Playback.Played.{
  Event, turns, pauses, resumes, run_events, run_events-published, run_events-publishes, stops,
}
use gz_transport.Log.Playback.Turns.{run_turns}
use gz_transport.Log.Playback.Paced.{IsPacedFrom, start_playback-paced}
use gz_transport.Log.Playback.Ends.{messages_of, start_playback-ends}

abbrev topics : Map (Map ℤ)
topics = (bytes "/a", (bytes "T", pos 1) ∷ []) ∷ (bytes "/b", (bytes "T", pos 2) ∷ []) ∷ []

abbrev choices : List ChoiceCall
choices = removes (bytes "/a") ∷ adds (bytes "/a") ∷ removes_matching (starts_with b'/') ∷ []

topics_to_play-meaning_example :
    has_name (bytes "/a") (topics_to_play topics (make_calls topics choices new_choice)) ≡ false
unfolding lookup text_eq meanings meaning
topics_to_play-meaning_example = topics_to_play-meaning (bytes "/a") topics choices

abbrev message : ℤ → LogMessage
message t = record { time_received = t; content = bytes "x"; type = bytes "T"; topic = bytes "/a" }

abbrev player : Player
player = start_playback (pos 100) (pos 3) true (message (pos 3)) (message (pos 8) ∷ [])

abbrev happenings : List Event
happenings =
    turns (pos 100)
    ∷ turns (pos 100)
    ∷ pauses (pos 101)
    ∷ turns (pos 102)
    ∷ resumes
    ∷ turns (pos 103)
    ∷ []

run_events-published_example :
    let r = run_events happenings player in
    (r.1 ++ r.0.rest ≡ message (pos 3) ∷ message (pos 8) ∷ [])
    × (r.0.phase ≡ ended → r.0.stop ≡ false → r.1 ≡ message (pos 3) ∷ message (pos 8) ∷ [])
unfolding start_playback
run_events-published_example = run_events-published happenings player (λ e. absurd (ground arith))

abbrev waiting : Player
waiting = record player { phase = waiting_to_publish (pos 105); rest = message (pos 8) ∷ [] }

run_events-publishes_example :
    let history = pauses (pos 101) ∷ stops ∷ turns (pos 105) ∷ turns (pos 106) ∷ [] in
    (out : List LogMessage) × ((run_events history waiting).1 ≡ message (pos 8) ∷ out)
run_events-publishes_example =
    run_events-publishes (pos 105) (message (pos 8)) []
      (pauses (pos 101) ∷ stops ∷ turns (pos 105) ∷ turns (pos 106) ∷ []) waiting refl refl refl

start_playback-paced_example :
    IsPacedFrom (pos 3) (pos 100) (run_turns (pos 100 ∷ pos 100 ∷ pos 101 ∷ pos 106 ∷ []) player).1
start_playback-paced_example =
    start_playback-paced (pos 100 ∷ pos 100 ∷ pos 101 ∷ pos 106 ∷ []) (pos 100) (pos 3)
      (message (pos 3)) (message (pos 8) ∷ []) (refl, (refl, tt))

start_playback-ends_example :
    let fast = start_playback (pos 100) (pos 3) false (message (pos 3)) (message (pos 8) ∷ []) in
    let r = run_turns (pos 100 ∷ pos 100 ∷ pos 100 ∷ []) fast in
    (r.0.finished ≡ true) × (messages_of r.1 ≡ message (pos 3) ∷ message (pos 8) ∷ [])
start_playback-ends_example =
    start_playback-ends (pos 100 ∷ pos 100 ∷ pos 100 ∷ []) (pos 100) (pos 3) (message (pos 3))
      (message (pos 8) ∷ []) (refl, (refl, tt)) (omega arith)
