-- ===== src/Log/Playback/Turns.antt =====
-- log/src/Playback.cc: what a turn of the thread does while nothing but the thread acts.
use gz_transport.Common.{
  ◌≡◌, ◌⊎◌, refl, ◌∙◌, ap, sym, subst, true, false, List, [], ◌∷◌, ◌++◌, All, arith, Bool-cases,
  inl, inr,
}
use gz_transport.Common.Int.{ℤ, leb_ℤ, ◌+ℤ◌, ◌-ℤ◌}
use gz_transport.Log.Iterator.{LogMessage}
use gz_transport.Log.Playback.{
  Phase, looping, blocked, ended, waiting_to_publish, waiting_to_pause, Player, publish_next,
  finished_waiting, turn,
}

-- The turns of the thread at some times, with the time of each message that they publish.
abbrev pub at_times : ℤ → List LogMessage → List (ℤ × LogMessage)
at_times now [] = []
at_times now (m ∷ ms) = (now, m) ∷ at_times now ms

unfoldable pub run_turns : List ℤ → Player → Player × List (ℤ × LogMessage)
unfolding turn
run_turns [] p = (p, [])
run_turns (now ∷ nows) p =
    let (p', out) = turn now p in
    let (p'', out') = run_turns nows p' in (p'', at_times now out ++ out')

shift : (a b c d : ℤ) → leb_ℤ (a +ℤ (b -ℤ c)) d ≡ true → leb_ℤ (b -ℤ c) (d -ℤ a) ≡ true
unfolding ◌+ℤ◌ ◌-ℤ◌
shift a b c d h = ground arith

abbrev pub Fits : ℤ → List LogMessage → Type 0
Fits boundary ms = All (λ m. leb_ℤ m.time_received boundary ≡ true) ms

-- Where the thread stands when nothing but it acts.
abbrev Stands : ℤ → ℤ → ℤ → Phase → Type 0
Stands stamp last next looping = Unit {0}
Stands stamp last next ended = Unit {0}
Stands stamp last next (waiting_to_publish t) = t ≡ last +ℤ (next -ℤ stamp)
Stands stamp last next _ = ⊥

abbrev pub head_time : ℤ → List LogMessage → ℤ
head_time t [] = t
head_time t (m ∷ ms) = m.time_received

pub head_time-twice :
    (t : ℤ) (ms : List LogMessage) → head_time t ms ≡ head_time (head_time t ms) ms
head_time-twice t [] = refl
head_time-twice t (m ∷ ms) = refl

pub publish_next_eq :
    (now : ℤ) (p : Player) (m : LogMessage) (ms : List LogMessage)
    → p.rest ≡ m ∷ ms
    → publish_next now p ≡ (
      record p {
        rest = ms;
        phase = looping;
        playback_time = p.next_message_time;
        last_event_time = now;
        next_message_time = head_time m.time_received ms;
      },
      m ∷ [],
    )
unfolding publish_next
publish_next_eq now p m [] e = rw (publish_next, e) refl
publish_next_eq now p m (n ∷ ns) e = rw (publish_next, e) refl

-- The thread plays, and has last published a message with this stamp, at this time.
pub record IsPlaying (stamp last : ℤ) (p : Player) : Type 0 where
  pub runs : p.stop ≡ false
  pub going : p.paused ≡ false
  pub waits : p.msg_waiting ≡ true
  pub stamped : p.playback_time ≡ stamp
  pub timed : p.last_event_time ≡ last
  pub next : p.next_message_time ≡ head_time p.next_message_time p.rest
  pub fits : Fits p.boundary_time p.rest
  pub stands : Stands stamp last p.next_message_time p.phase

-- What a turn leads to: nothing is published, or the next message, not too early.
abbrev Plays : ℤ → ℤ → ℤ → Player × List LogMessage → Type 0
Plays now stamp last r =
    ((r.1 ≡ []) × IsPlaying stamp last r.0)
    ⊎ ((m : LogMessage) × ((r.1 ≡ m ∷ [])
          × ((leb_ℤ (m.time_received -ℤ stamp) (now -ℤ last) ≡ true)
              × IsPlaying m.time_received now r.0)))

turn-looping :
    (now stamp last : ℤ) (p : Player) (ms : List LogMessage)
    → p.rest ≡ ms
    → p.phase ≡ looping
    → IsPlaying stamp last p
    → Plays now stamp last (turn now p)
unfolding turn
turn-looping now stamp last p [] e f h =
    let eq : turn now p ≡ (record p { finished = true; phase = ended }, []) =
      ground (arith, h.runs) in
    subst (Plays now stamp last) (sym eq) (
      inl (
        refl,
        record {
          runs = h.runs;
          going = h.going;
          waits = h.waits;
          stamped = h.stamped;
          timed = h.timed;
          next = h.next;
          fits = h.fits;
          stands = tt;
        },
      ))
turn-looping now stamp last p (m ∷ ms) e f h =
    let due = p.last_event_time +ℤ (p.next_message_time -ℤ p.playback_time) in
    let same : p.next_message_time ≡ m.time_received =
      h.next ∙ ap (head_time p.next_message_time) e in
    let soon : leb_ℤ p.next_message_time p.boundary_time ≡ true =
      ap (λ t. leb_ℤ t p.boundary_time) same ∙ (subst (Fits p.boundary_time) e h.fits).0 in
    let eq : turn now p ≡ (record p { phase = waiting_to_publish due }, []) =
      ground (arith, h.runs, h.going, h.waits) in
    subst (Plays now stamp last) (sym eq) (
      inl (
        refl,
        record {
          runs = h.runs;
          going = h.going;
          waits = h.waits;
          stamped = h.stamped;
          timed = h.timed;
          next = h.next;
          fits = h.fits;
          stands = rw (h.timed, h.stamped) refl;
        },
      ))

turn-waiting :
    (now stamp last target : ℤ) (p : Player) (ms : List LogMessage)
    → p.rest ≡ ms
    → p.phase ≡ waiting_to_publish target
    → IsPlaying stamp last p
    → Plays now stamp last (turn now p)
unfolding turn publish_next finished_waiting
turn-waiting now stamp last target p [] e f h =
    let eq : turn now p ≡ (p, []) = ground arith in
    subst (Plays now stamp last) (sym eq) (inl (refl, h))
turn-waiting now stamp last target p (m ∷ ms) e f h =
    let same : p.next_message_time ≡ m.time_received =
      h.next ∙ ap (head_time p.next_message_time) e in
    let due : target ≡ last +ℤ (m.time_received -ℤ stamp) =
      subst (Stands stamp last p.next_message_time) f h.stands
      ∙ ap (λ t. last +ℤ (t -ℤ stamp)) same in
    elim (Bool-cases (leb_ℤ target now)) [
      | inr early ↦
          let eq : turn now p ≡ (p, []) = ground (arith, h.runs, h.going) in
          subst (Plays now stamp last) (sym eq) (inl (refl, h))
      | inl late ↦
          let q = record p {
            rest = ms;
            phase = looping;
            playback_time = p.next_message_time;
            last_event_time = now;
            next_message_time = head_time m.time_received ms;
          } in
          let eq : turn now p ≡ (q, m ∷ []) =
            ground (arith, h.runs, h.going, publish_next_eq now p m ms e) in
          let paced =
            shift last m.time_received stamp now (ap (λ t. leb_ℤ t now) (sym due) ∙ late) in
          subst (Plays now stamp last) (sym eq) (
            inr (
              m,
              (
                refl,
                (
                  paced,
                  record {
                    runs = h.runs;
                    going = h.going;
                    waits = h.waits;
                    stamped = same;
                    timed = refl;
                    next = head_time-twice m.time_received ms;
                    fits = (subst (Fits p.boundary_time) e h.fits).1;
                    stands = tt;
                  },
                ),
              ),
            ))
    ]

pub turn-Plays :
    (now stamp last : ℤ) (p : Player) → IsPlaying stamp last p → Plays now stamp last (turn now p)
unfolding turn
turn-Plays now stamp last p h = go p.phase refl
  where
    go : (ph : Phase) → p.phase ≡ ph → Plays now stamp last (turn now p)
    go looping f = turn-looping now stamp last p p.rest refl f h
    go (waiting_to_publish target) f = turn-waiting now stamp last target p p.rest refl f h
    go ended f =
        let eq : turn now p ≡ (p, []) = ground arith in
        subst (Plays now stamp last) (sym eq) (inl (refl, h))
    go blocked f = absurd (subst (Stands stamp last p.next_message_time) f h.stands)
    go (waiting_to_pause target) f =
        absurd (subst (Stands stamp last p.next_message_time) f h.stands)
