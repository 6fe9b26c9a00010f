-- ===== src/Log/Playback/Paced.antt =====
-- log/src/Playback.cc: the times at which a playback publishes, when nothing but the thread acts.
use gz_transport.Common.{◌≡◌, refl, true, List, [], ◌∷◌, inl, inr}
use gz_transport.Common.Int.{ℤ, leb_ℤ, ◌-ℤ◌}
use gz_transport.Log.Iterator.{LogMessage}
use gz_transport.Log.Playback.{max_time, start_playback, Player, turn}
use gz_transport.Log.Playback.Turns.{run_turns, Fits, IsPlaying, turn-Plays}

-- From one message to the next passes no less time than between their time stamps.
abbrev pub IsPacedFrom : ℤ → ℤ → List (ℤ × LogMessage) → Type 0
IsPacedFrom stamp now [] = Unit {0}
IsPacedFrom stamp now ((n, m) ∷ out) =
    (leb_ℤ (m.time_received -ℤ stamp) (n -ℤ now) ≡ true) × IsPacedFrom m.time_received n out

run_turns-IsPaced :
    (nows : List ℤ) (stamp last : ℤ) (p : Player)
    → IsPlaying stamp last p
    → IsPacedFrom stamp last (run_turns nows p).1
unfolding run_turns
run_turns-IsPaced [] stamp last p h = tt
run_turns-IsPaced (now ∷ nows) stamp last p h = elim (turn-Plays now stamp last p h) [
  | inl (quiet, h') ↦ rw quiet (run_turns-IsPaced nows stamp last (turn now p).0 h')
  | inr (m, (out, (paced, h'))) ↦
      rw out (paced, run_turns-IsPaced nows m.time_received now (turn now p).0 h')
]

-- When a playback that waits between messages is neither paused, stepped, moved nor stopped, it
-- never publishes faster than the messages were recorded, at whatever times its thread goes on:
-- from its start to the first message, and from each message to the next, passes at least the time
-- between the start of the log and the time stamp of the message, or between the two time stamps.
pub start_playback-paced :
    (nows : List ℤ) (now start : ℤ) (m : LogMessage) (ms : List LogMessage)
    → Fits max_time (m ∷ ms)
    → IsPacedFrom start now (run_turns nows (start_playback now start true m ms)).1
unfolding start_playback
start_playback-paced nows now start m ms fits =
    run_turns-IsPaced nows start now (start_playback now start true m ms) (record {
      runs = refl;
      going = refl;
      waits = refl;
      stamped = refl;
      timed = refl;
      next = refl;
      fits = fits;
      stands = tt;
    })
