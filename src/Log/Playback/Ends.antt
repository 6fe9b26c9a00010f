-- ===== src/Log/Playback/Ends.antt =====
-- log/src/Playback.cc: a playback that does not wait between messages comes to its end.
use gz_transport.Common.{◌+◌, ◌≡◌, refl, ◌∙◌, ap, subst, true, false, List, [], ◌∷◌, length, arith}
use gz_transport.Common.Int.{ℤ, leb_ℤ}
use gz_transport.Log.Iterator.{LogMessage}
use gz_transport.Log.Playback.{max_time, start_playback, looping, ended, Player, turn}
use gz_transport.Log.Playback.Turns.{run_turns, Fits, head_time, head_time-twice, publish_next_eq}

abbrev pub messages_of : List (ℤ × LogMessage) → List LogMessage
messages_of [] = []
messages_of ((now, m) ∷ out) = m ∷ messages_of out

-- The thread plays, and does not wait.
record IsFast (p : Player) : Type 0 where
  runs : p.stop ≡ false
  going : p.paused ≡ false
  hurries : p.msg_waiting ≡ false
  at_head : p.phase ≡ looping
  next : p.next_message_time ≡ head_time p.next_message_time p.rest
  fits : Fits p.boundary_time p.rest

run_turns-ends :
    (nows : List ℤ) (ms : List LogMessage) (p : Player)
    → IsFast p
    → p.rest ≡ ms
    → length nows ≡ length ms + 1
    → let (q, out) = run_turns nows p in (q.finished ≡ true) × (messages_of out ≡ ms)
unfolding run_turns turn
run_turns-ends [] ms p h e n = absurd (omega arith)
run_turns-ends (now ∷ a ∷ nows) [] p h e n = absurd (omega arith)
run_turns-ends (now ∷ []) [] p h e n =
    let eq : turn now p ≡ (record p { finished = true; phase = ended }, []) =
      ground (arith, h.runs, h.at_head) in
    rw eq (refl, refl)
run_turns-ends (now ∷ nows) (m ∷ ms) p h e n =
    let same : p.next_message_time ≡ m.time_received =
      h.next ∙ ap (head_time p.next_message_time) e in
    let soon : leb_ℤ p.next_message_time p.boundary_time ≡ true =
      ap (λ t. leb_ℤ t p.boundary_time) same ∙ (subst (Fits p.boundary_time) e h.fits).0 in
    let q = record p {
      rest = ms;
      phase = looping;
      playback_time = p.next_message_time;
      last_event_time = now;
      next_message_time = head_time m.time_received ms;
    } in
    let eq : turn now p ≡ (q, m ∷ []) =
      ground (arith, h.runs, h.going, h.hurries, h.at_head, publish_next_eq now p m ms e) in
    let h' : IsFast q = record {
      runs = h.runs;
      going = h.going;
      hurries = h.hurries;
      at_head = refl;
      next = head_time-twice m.time_received ms;
      fits = (subst (Fits p.boundary_time) e h.fits).1;
    } in
    let (done_, all) = run_turns-ends nows ms q h' refl (omega arith) in
    rw eq (done_, ap (λ l. m ∷ l) all)

-- A playback that does not wait between messages has ended after as many turns of its thread as it
-- has messages, and one more, whenever they come, and has published all of them in order; the time
-- stamps are at most the largest time.
pub start_playback-ends :
    (nows : List ℤ) (now start : ℤ) (m : LogMessage) (ms : List LogMessage)
    → Fits max_time (m ∷ ms)
    → length nows ≡ length ms + 2
    → let (q, out) = run_turns nows (start_playback now start false m ms) in
      (q.finished ≡ true) × (messages_of out ≡ m ∷ ms)
unfolding start_playback
start_playback-ends nows now start m ms fits n =
    run_turns-ends nows (m ∷ ms) (start_playback now start false m ms)
      (record {
        runs = refl;
        going = refl;
        hurries = refl;
        at_head = refl;
        next = refl;
        fits = fits;
      })
      refl (omega arith)
