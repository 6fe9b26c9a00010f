-- ===== src/Discovery/Timers.antt =====
-- src/Discovery.hh, the periodic tasks: `UpdateActivity`, `UpdateHeartbeat` and `NextTimeout`.
use gz_transport.Common.{
  ℕ, ◌+◌, ◌-◌, ◌*◌, ◌/◌, ◌%◌, ◌^◌, min, Bool, List, [], ◌∷◌, ◌++◌, map, ltb, leb, ◌==◌,
  if◌then◌else◌, Text,
}
use gz_transport.Common.Map.{Map}
use gz_transport.TopicStorage.{TopicStorage, del_publishers_by_proc, publishers_by_proc}
use gz_transport.Publisher.Messages.{advertise, heartbeat}
use gz_transport.Discovery.{
  Wire, wire_publishes, Env, Discovery, Effect, disconnected, flat_map, send_own, send_pub,
}

-- Nanoseconds in a millisecond.
abbrev pub ms : ℕ
ms = 1000000

-- `duration_cast<milliseconds>(now - stamp).count() > silenceInterval`; a stamp in the future gives
-- a duration that is not positive, which does not exceed the interval.
unfoldable pub is_expired : ℕ → ℕ → ℕ → Bool
is_expired silence now stamp = ltb silence ((now - stamp) / ms)

-- The loop of `UpdateActivity`: the activity that stays, the expired processes, and the two
-- storages.
pub record Sweep (P : Type 0) : Type 0 where
  pub activity : Map ℕ
  pub uuids : List Text
  pub info : TopicStorage P
  pub remote_subscribers : TopicStorage P

module _ {P : Type 0} ⦃w : Wire P⦄ where
  unfoldable pub sweep : ℕ → ℕ → Map ℕ → TopicStorage P → TopicStorage P → Sweep P
  sweep silence now [] info remote = record {
    activity = [];
    uuids = [];
    info = info;
    remote_subscribers = remote;
  }
  sweep silence now ((u, stamp) ∷ rest) info remote =
      let gone = is_expired silence now stamp in
      let r =
        sweep silence now rest (if gone then (del_publishers_by_proc u info).0 else info)
          (if gone then (del_publishers_by_proc u remote).0 else remote) in
      if gone
      then record r { uuids = u ∷ r.uuids }
      else record r { activity = (u, stamp) ∷ r.activity }

  -- `now` is the time at the start, `later` the time at the end of the update.
  unfoldable pub update_activity : ℕ → ℕ → Discovery P → Discovery P × List (Effect P)
  update_activity now later d =
      if ltb now d.time_next_activity
      then (d, [])
      else (let r = sweep d.silence_interval now d.activity d.info d.remote_subscribers in
          (
            record d {
              info = r.info;
              remote_subscribers = r.remote_subscribers;
              activity = r.activity;
              time_next_activity = later + d.activity_interval * ms;
            },
            if d.disconnection_cb then map (λ u. disconnected (w.bare [] u)) r.uuids else [],
          ))

  -- The end of `UpdateHeartbeat`.
  unfoldable pub count_heartbeat : Discovery P → Discovery P
  count_heartbeat d = if d.initialized then d else record d {
    initialized = d.num_heartbeats_uninitialized == 2;
    num_heartbeats_uninitialized = d.num_heartbeats_uninitialized + 1;
  }

  unfoldable pub readvertise : Env → Discovery P → List (Effect P)
  readvertise env d =
      flat_map (λ e. flat_map (send_pub env d advertise) e.1) (publishers_by_proc d.p_uuid d.info)

  unfoldable pub update_heartbeat : Env → ℕ → ℕ → Discovery P → Discovery P × List (Effect P)
  unfolding count_heartbeat readvertise
  update_heartbeat env now later d = if ltb now d.time_next_heartbeat then (d, []) else (
    (let d' = count_heartbeat d in
        record d' { time_next_heartbeat = later + d.heartbeat_interval * ms }),
    send_own env d heartbeat ++ readvertise env d,
  )

-- `static_cast<int>` of a count of milliseconds that is not negative, then the two bounds: what
-- becomes negative by the cast gives 0. A timer that is due gives a count of at most 0, so 0.
unfoldable pub next_timeout : {P : Type 0} → ℕ → Discovery P → ℕ
next_timeout now d =
    let t = ((min d.time_next_heartbeat d.time_next_activity - now) / ms) % 2 ^ 32 in
    if leb (2 ^ 31) t then 0 else min t 250
