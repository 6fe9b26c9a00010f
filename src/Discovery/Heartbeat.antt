-- ===== src/Discovery/Heartbeat.antt =====
-- The heartbeats and the timeout of src/Discovery.hh.
use gz_transport.Common.{ℕ, zero, suc, ◌+◌, ◌*◌, ◌≤◌, ◌≡◌, min, true, false, ◌||◌, ◌⊎◌, leb, arith}
use gz_transport.Discovery.{Wire, wire_publishes, Env, Discovery}
use gz_transport.Discovery.Timers.{update_heartbeat, next_timeout, ms}

module _ {P : Type 0} ⦃w : Wire P⦄ (env : Env) where
  -- The state after `n` heartbeats, each due when it comes: the times of a heartbeat are given by
  -- its number.
  pub beat : (ℕ → ℕ) → ℕ → Discovery P → Discovery P
  beat at zero d = d
  beat at (suc n) d =
      let d' = beat at n d in (update_heartbeat env d'.time_next_heartbeat (at n) d').0

  -- The count that a new discovery has after `n` heartbeats.
  record IsCounted (n : ℕ) (d : Discovery P) : Type 0 where
    flag : d.initialized ≡ leb 3 n
    counter : d.num_heartbeats_uninitialized ≡ min n 3

  beat-IsCounted :
      (at : ℕ → ℕ) (n : ℕ) (d : Discovery P)
      → d.initialized ≡ false
      → d.num_heartbeats_uninitialized ≡ 0
      → IsCounted n (beat at n d)
  unfolding beat update_heartbeat
  beat-IsCounted at zero d h k = ground arith
  beat-IsCounted at (suc n) d h k = ground (arith, beat-IsCounted at n d h k)

  -- A new discovery counts as initialized from its third heartbeat on: after `n` heartbeats it is
  -- initialized exactly if `n` is at least 3.
  beat-initialized :
      (at : ℕ → ℕ) (n : ℕ) (d : Discovery P)
      → d.initialized ≡ false
      → d.num_heartbeats_uninitialized ≡ 0
      → (beat at n d).initialized ≡ leb 3 n
  beat-initialized at n d h k = (beat-IsCounted at n d h k).flag

-- The timeout is at most 250 milliseconds. It is 0 where the heartbeat or the activity check is
-- due. Where neither is due, the timeout ends before the nearer of the two times, or at it.
next_timeout_bounds :
    {P : Type 0} (now : ℕ) (d : Discovery P)
    → (next_timeout now d ≤ 250)
      × ((leb d.time_next_heartbeat now || leb d.time_next_activity now) ≡ false
          ⊎ (next_timeout now d ≡ 0))
      × ((leb d.time_next_heartbeat now || leb d.time_next_activity now) ≡ true
          ⊎ (now + next_timeout now d * ms ≤ min d.time_next_heartbeat d.time_next_activity))
unfolding next_timeout
next_timeout_bounds now d = (ground arith, ground arith, ground arith)
