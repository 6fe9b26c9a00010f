-- ===== src/Log/Playback/Played.antt =====
-- log/src/Playback.cc: which messages a playback publishes, and when.
use gz_transport.Common.{
  ◌≡◌, ◌⊎◌, refl, ◌∙◌, ap, inl, inr, Bool, true, false, any, ◌||◌, List, [], ◌∷◌, ◌++◌,
  append_assoc, is_empty, arith, Bool-cases,
}
use gz_transport.Common.Int.{ℤ, leb_ℤ}
use gz_transport.Log.Iterator.{LogMessage}
use gz_transport.Log.Playback.{
  Phase, looping, blocked, ended, waiting_to_publish, waiting_to_pause, Player, publish_next, pause,
  resume, step_playback, stop_playback, finished_waiting, turn,
}

-- What happens to a handle, but for a seek.
pub data Event : Type 0 where
  turns pauses : ℤ → Event
  resumes stops : Event
  steps : ℤ → Event

unfoldable pub handle_event : Event → Player → Player × List LogMessage
unfolding turn pause resume step_playback stop_playback
handle_event (turns now) p = turn now p
handle_event (pauses now) p = (pause now p, [])
handle_event resumes p = (resume p, [])
handle_event stops p = (stop_playback p, [])
handle_event (steps d) p = (step_playback d p, [])

unfoldable pub run_events : List Event → Player → Player × List LogMessage
unfolding handle_event
run_events [] p = (p, [])
run_events (e ∷ es) p =
    let (p', out) = handle_event e p in let (p'', out') = run_events es p' in (p'', out ++ out')

-- The thread has left its loop only with the flag, or behind the last message.
abbrev pub IsOrderly : Player → Type 0
IsOrderly p = p.phase ≡ ended → (p.stop || is_empty p.rest) ≡ true

publish_next_lem :
    (now : ℤ) (p : Player)
    → ((publish_next now p).1 ++ (publish_next now p).0.rest ≡ p.rest)
      × (is_empty p.rest ≡ false → (publish_next now p).0.phase ≡ looping)
unfolding publish_next
publish_next_lem now p = go p.rest refl
  where
    go :
        (ms : List LogMessage)
        → p.rest ≡ ms
        → ((publish_next now p).1 ++ (publish_next now p).0.rest ≡ p.rest)
          × (is_empty p.rest ≡ false → (publish_next now p).0.phase ≡ looping)
    go [] e = ground arith
    go (m ∷ ms) e = ground arith

turn_lem :
    (now : ℤ) (p : Player)
    → IsOrderly p
    → ((turn now p).1 ++ (turn now p).0.rest ≡ p.rest) × IsOrderly (turn now p).0
unfolding turn pause publish_next
turn_lem now p h = go p.phase refl
  where
    go :
        (ph : Phase)
        → p.phase ≡ ph
        → ((turn now p).1 ++ (turn now p).0.rest ≡ p.rest) × IsOrderly (turn now p).0
    go ended e = ground (arith, e)
    go blocked e = ground (arith, e)
    go looping e = ground (arith, e, publish_next_lem now p)
    go (waiting_to_publish target) e = ground (arith, e, publish_next_lem now p)
    go (waiting_to_pause target) e = ground (arith, e)

handle_event_lem :
    (e : Event) (p : Player)
    → IsOrderly p
    → ((handle_event e p).1 ++ (handle_event e p).0.rest ≡ p.rest) × IsOrderly (handle_event e p).0
unfolding handle_event turn pause resume step_playback stop_playback
handle_event_lem (turns now) p h = turn_lem now p h
handle_event_lem (pauses now) p h = ground arith
handle_event_lem resumes p h = ground arith
handle_event_lem stops p h = (refl, λ e. refl)
handle_event_lem (steps d) p h = ground arith

-- Whatever the order of the turns of the thread and of pauses, steps, resumptions and stops, what is
-- published and what is left are the messages that the playback had, in order and none twice; and
-- when the thread has ended without a stop, all of them have been published.
pub run_events-published :
    (es : List Event) (p : Player)
    → IsOrderly p
    → let (q, out) = run_events es p in
      (out ++ q.rest ≡ p.rest) × (q.phase ≡ ended → q.stop ≡ false → out ≡ p.rest)
unfolding run_events
run_events-published [] p h = (refl, λ e s. ground (arith, h e))
run_events-published (e ∷ es) p h =
    let (p', out) = handle_event e p in
    let (q, out') = run_events es p' in
    let (split, h') = handle_event_lem e p h in
    let (split', all) = run_events-published es p' h' in
    (
      append_assoc out out' q.rest ∙ ap (λ ms. out ++ ms) split' ∙ split,
      λ x s. ap (λ ms. out ++ ms) (all x s) ∙ split,
    )

-- Whether the thread has a turn at a time that is not before the target.
abbrev pub is_due : ℤ → Event → Bool
is_due target (turns now) = leb_ℤ target now
is_due target _ = false

-- The thread waits until a time, and then publishes the first of these messages.
record Waits (target : ℤ) (m : LogMessage) (ms : List LogMessage) (p : Player) : Type 0 where
  waiting : p.phase ≡ waiting_to_publish target
  left : p.rest ≡ m ∷ ms

handle_event-Waits :
    (target : ℤ) (m : LogMessage) (ms : List LogMessage) (e : Event) (p : Player)
    → Waits target m ms p
    → ((handle_event e p).1 ≡ m ∷ [])
      ⊎ ((is_due target e ≡ false)
          × (((handle_event e p).1 ≡ []) × Waits target m ms (handle_event e p).0))
unfolding handle_event turn pause resume step_playback stop_playback publish_next finished_waiting
handle_event-Waits target m ms (turns now) p w =
    elim (Bool-cases (leb_ℤ target now || (p.stop || p.paused))) [
      | inl e ↦ inl (ground (arith, w.waiting, w.left))
      | inr e ↦ inr (ground arith, (ground (arith, w.waiting), ground (arith, w.waiting)))
    ]
handle_event-Waits target m ms (pauses now) p w = inr (refl, (refl, ground arith))
handle_event-Waits target m ms resumes p w = inr (refl, (refl, ground arith))
handle_event-Waits target m ms stops p w =
    inr (refl, (refl, record { waiting = w.waiting; left = w.left }))
handle_event-Waits target m ms (steps d) p w = inr (refl, (refl, ground arith))

-- While the thread waits for the time of a message, no pause, step, resumption or stop holds that
-- message back, whatever their order: once the thread has had a turn at that time or later, it is
-- the first message that was published.
pub run_events-publishes :
    (target : ℤ) (m : LogMessage) (ms : List LogMessage) (es : List Event) (p : Player)
    → p.phase ≡ waiting_to_publish target
    → p.rest ≡ m ∷ ms
    → any (is_due target) es ≡ true
    → (out : List LogMessage) × ((run_events es p).1 ≡ m ∷ out)
unfolding run_events
run_events-publishes target m ms [] p waits left due = absurd (ground arith)
run_events-publishes target m ms (e ∷ es) p waits left due =
    let (p', out) = handle_event e p in
    elim (handle_event-Waits target m ms e p (record { waiting = waits; left = left })) [
      | inl published ↦ ((run_events es p').1, ap (λ l. l ++ (run_events es p').1) published)
      | inr (early, (quiet, w)) ↦
          let (more, first) =
            run_events-publishes target m ms es p' w.waiting w.left (ground arith) in
          (more, ap (λ l. l ++ (run_events es p').1) quiet ∙ first)
    ]
