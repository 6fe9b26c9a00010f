-- ===== src/Clock/Exchange.antt =====
-- src/Clock.cc: a time that a clock sets is the time of the clocks that get its message.
use gz_transport.Common.{◌+◌, ◌*◌, ◌^◌, ◌<◌, ◌≡◌, arith}
use gz_transport.Common.Int.{
  ℤ, pos, negsuc, pos_part, neg_part, ◌+ℤ◌, ◌-ℤ◌, to_int32, quot_ℤ, scale_ℤ,
}
use gz_transport.Clock.{
  TimeBase, real_time, sim_time, sys_time, set_time, time_from_message, on_clock_message,
}

to_int32-small : (t : ℤ) → pos_part t + neg_part t < 2 ^ 31 → to_int32 t ≡ t
unfolding to_int32
to_int32-small (pos n) h = ground arith
to_int32-small (negsuc n) h = ground arith

quot-small :
    (t : ℤ)
    → pos_part t + neg_part t < 2 ^ 31 * 1000000000
    → pos_part (quot_ℤ t 1000000000) + neg_part (quot_ℤ t 1000000000) < 2 ^ 31
unfolding quot_ℤ
quot-small (pos n) h = omega arith
quot-small (negsuc n) h = ground arith

rest-small :
    (t : ℤ)
    → let r = t -ℤ scale_ℤ (quot_ℤ t 1000000000) 1000000000 in pos_part r + neg_part r < 2 ^ 31
unfolding quot_ℤ scale_ℤ ◌-ℤ◌
rest-small (pos n) = ground arith
rest-small (negsuc n) = ground arith

parts :
    (t : ℤ) → let q = quot_ℤ t 1000000000 in scale_ℤ q 1000000000 +ℤ (t -ℤ scale_ℤ q 1000000000) ≡ t
unfolding quot_ℤ scale_ℤ ◌-ℤ◌ ◌+ℤ◌
parts (pos n) = ground arith
parts (negsuc n) = ground arith

-- A clock of the same time base that gets the message that SetTime publishes has the time that was
-- set, whatever its time was, if the time in seconds, less its sign, is below 2^31.
pub on_clock_message-set_time :
    (base : TimeBase) (t old : ℤ)
    → pos_part t + neg_part t < 2 ^ 31 * 1000000000
    → on_clock_message base (set_time base t) old ≡ t
unfolding on_clock_message set_time time_from_message
on_clock_message-set_time base t old h = go base
  where
    q : ℤ
    q = quot_ℤ t 1000000000

    same : scale_ℤ (to_int32 q) 1000000000 +ℤ to_int32 (t -ℤ scale_ℤ q 1000000000) ≡ t
    same = rw (to_int32-small q (quot-small t h), to_int32-small _ (rest-small t)) (parts t)

    go : (b : TimeBase) → on_clock_message b (set_time b t) old ≡ t
    go real_time = same
    go sim_time = same
    go sys_time = same
