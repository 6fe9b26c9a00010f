-- ===== src/Clock.antt =====
-- src/Clock.cc: a clock that takes its time from messages, and the one of the host.
pub mod Exchange
mod Tests
use gz_transport.Common.{ℕ, ◌*◌, ◌^◌, Bool, not, Option, none, some}
use gz_transport.Common.Int.{ℤ, pos, eq_ℤ, ◌+ℤ◌, ◌-ℤ◌, to_int32, quot_ℤ, scale_ℤ}

pub data TimeBase : Type 0 where
  real_time sim_time sys_time : TimeBase

-- The messages `Time` and `Clock`, by the fields that the clock sets and reads.
pub record TimeMsg : Type 0 where
  pub sec : ℤ
  pub nsec : ℤ

pub record ClockMsg : Type 0 where
  pub system : Option TimeMsg
  pub real : Option TimeMsg
  pub sim : Option TimeMsg

abbrev pub blank_clock : ClockMsg
blank_clock = record { system = none; real = none; sim = none }

-- `SetTime`: the message that it publishes, which the clock gets too.
unfoldable pub set_time : TimeBase → ℤ → ClockMsg
set_time base t =
    let in_secs = quot_ℤ t 1000000000 in
    let time : TimeMsg = record {
      sec = to_int32 in_secs;
      nsec = to_int32 (t -ℤ scale_ℤ in_secs 1000000000);
    } in
    elim base [
      | sim_time ↦ record blank_clock { sim = some time }
      | real_time ↦ record blank_clock { real = some time }
      | sys_time ↦ record blank_clock { system = some time }
    ]

-- `UpdateTimeFromMessage`
unfoldable pub time_from_message : TimeMsg → ℤ
time_from_message m = scale_ℤ m.sec 1000000000 +ℤ m.nsec

-- `OnClockMessageReceived`, on the time of the clock.
unfoldable pub on_clock_message : TimeBase → ClockMsg → ℤ → ℤ
unfolding time_from_message
on_clock_message real_time m t = elim m.real [ none ↦ t | some x ↦ time_from_message x ]
on_clock_message sim_time m t = elim m.sim [ none ↦ t | some x ↦ time_from_message x ]
on_clock_message sys_time m t = elim m.system [ none ↦ t | some x ↦ time_from_message x ]

-- `NetworkClock::IsReady`
unfoldable pub is_ready : ℤ → Bool
is_ready t = not (eq_ℤ t (pos 0))

-- `WallClock`: its offset, from the time of the host in seconds and that of the steady clock, and
-- its time.
unfoldable pub wall_minus_mono : ℕ → ℕ → ℤ
wall_minus_mono wall mono = pos (wall * 1000000000) -ℤ pos mono

unfoldable pub wall_time : ℤ → ℕ → ℤ
wall_time offset now = offset +ℤ pos now
