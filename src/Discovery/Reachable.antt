-- ===== src/Discovery/Reachable.antt =====
-- Histories of a discovery object of src/Discovery.hh: any order of calls, received messages and
-- ticks of the timers.
use gz_transport.Common.{ℕ, ◌≡◌, Bool, List, [], ◌∷◌, Text, arith}
use gz_transport.Common.Map.{IsSorted, insert, insert-IsSorted, erase-IsSorted}
use gz_transport.TopicStorage.Invariant.{
  IsWellFormed, add_publisher-IsWellFormed, del_publisher_by_node-IsWellFormed,
  del_publishers_by_proc-IsWellFormed,
}
use gz_transport.Publisher.Messages.{
  DiscoveryMsg, MsgType, advertise, subscribe, unadvertise, heartbeat, bye, new_connection,
  end_connection, subscribers_req, subscribers_rep,
}
use gz_transport.Discovery.{
  Wire, wire_publishes, Env, Discovery, advertise_pub, unadvertise_pub, start,
}
use gz_transport.Discovery.Dispatch.{
  on_advertise, on_subscribe, on_end_connection, on_bye, on_unadvertise, handle, dispatch,
  add_relay_address, is_sender_local,
}
use gz_transport.Discovery.Expiry.{
  live-IsSorted, purge-IsWellFormed, after_sweep, update_activity_eq,
}
use gz_transport.Discovery.Timers.{update_activity, update_heartbeat}

-- What can happen to the object.
pub data Event (P : Type 0) : Type 0 where
  advertises : P → Event P
  unadvertises : Text → Text → Event P
  receives : Text → ℕ → DiscoveryMsg → Event P
  checks_activity : ℕ → ℕ → Event P
  beats : ℕ → ℕ → Event P
  starts : ℕ → Event P

module _ {P : Type 0} ⦃w : Wire P⦄ where
  pub record IsValid (d : Discovery P) : Type 0 where
    pub info_ok : IsWellFormed d.info
    pub remote_ok : IsWellFormed d.remote_subscribers
    pub activity_ok : IsSorted d.activity

  unfoldable pub step : Env → Event P → Discovery P → Discovery P
  step env (advertises p) d = (advertise_pub env p d).0
  step env (unadvertises t n) d = (unadvertise_pub env t n d).0
  step env (receives from now m) d = (dispatch env from now m d).0
  step env (checks_activity now later) d = (update_activity now later d).0
  step env (beats now later) d = (update_heartbeat env now later d).0
  step env (starts now) d = start now d

  unfoldable pub run : Env → List (Event P) → Discovery P → Discovery P
  run env [] d = d
  run env (e ∷ es) d = run env es (step env e d)

  advertise_pub-IsValid :
      (env : Env) (p : P) (d : Discovery P) → IsValid d → IsValid (advertise_pub env p d).0
  unfolding advertise_pub
  advertise_pub-IsValid env p d v = ground (arith, add_publisher-IsWellFormed p d.info v.info_ok)

  unadvertise_pub-IsValid :
      (env : Env) (t n : Text) (d : Discovery P) → IsValid d → IsValid (unadvertise_pub env t n d).0
  unfolding unadvertise_pub
  unadvertise_pub-IsValid env t n d v =
      ground (arith, del_publisher_by_node-IsWellFormed t d.p_uuid n d.info v.info_ok)

  on_advertise-IsValid :
      (is_local : Bool) (m : DiscoveryMsg) (d : Discovery P)
      → IsValid d
      → IsValid (on_advertise is_local m d).0
  unfolding on_advertise
  on_advertise-IsValid is_local m d v =
      ground (arith, add_publisher-IsWellFormed (w.from_discovery m) d.info v.info_ok)

  pub on_subscribe_same :
      (env : Env) (is_local : Bool) (m : DiscoveryMsg) (d : Discovery P)
      → (on_subscribe env is_local m d).0 ≡ d
  unfolding on_subscribe
  on_subscribe_same env is_local m d = ground arith

  on_bye-IsValid : (m : DiscoveryMsg) (d : Discovery P) → IsValid d → IsValid (on_bye m d).0
  unfolding on_bye
  on_bye-IsValid m d v = record {
    info_ok = del_publishers_by_proc-IsWellFormed m.process_uuid d.info v.info_ok;
    remote_ok = del_publishers_by_proc-IsWellFormed m.process_uuid d.remote_subscribers v.remote_ok;
    activity_ok = erase-IsSorted m.process_uuid d.activity v.activity_ok;
  }

  on_unadvertise-IsValid :
      (is_local : Bool) (m : DiscoveryMsg) (d : Discovery P)
      → IsValid d
      → IsValid (on_unadvertise is_local m d).0
  unfolding on_unadvertise
  on_unadvertise-IsValid is_local m d v =
      let p = w.from_discovery m in
      ground (
        arith,
        del_publisher_by_node-IsWellFormed (w.topic p) (w.p_uuid p) (w.n_uuid p) d.info v.info_ok,
      )

  on_end_connection-IsValid :
      (m : DiscoveryMsg) (d : Discovery P) → IsValid d → IsValid (on_end_connection m d).0
  unfolding on_end_connection
  on_end_connection-IsValid m d v =
      let p = w.from_discovery m in
      record {
        info_ok = v.info_ok;
        remote_ok =
            del_publisher_by_node-IsWellFormed (w.topic p) (w.p_uuid p) (w.n_uuid p)
              d.remote_subscribers v.remote_ok;
        activity_ok = v.activity_ok;
      }

  pub handle-IsValid :
      (env : Env) (type : MsgType) (is_local : Bool) (m : DiscoveryMsg) (d : Discovery P)
      → IsValid d
      → IsValid (handle env type is_local m d).0
  unfolding handle
  handle-IsValid env advertise is_local m d v = on_advertise-IsValid is_local m d v
  handle-IsValid env subscribe is_local m d v = rw (on_subscribe_same env is_local m d) v
  handle-IsValid env unadvertise is_local m d v = on_unadvertise-IsValid is_local m d v
  handle-IsValid env bye is_local m d v = on_bye-IsValid m d v
  handle-IsValid env end_connection is_local m d v = on_end_connection-IsValid m d v
  handle-IsValid env subscribers_rep is_local m d v = record {
    info_ok = v.info_ok;
    remote_ok = add_publisher-IsWellFormed (w.from_discovery m) d.remote_subscribers v.remote_ok;
    activity_ok = v.activity_ok;
  }
  handle-IsValid env heartbeat is_local m d v = v
  handle-IsValid env new_connection is_local m d v = v
  handle-IsValid env subscribers_req is_local m d v = v
  handle-IsValid env (MsgType.other n) is_local m d v = v

  stamp-IsValid :
      (u : Text) (now : ℕ) (d : Discovery P)
      → IsValid d
      → IsValid (record d { activity = insert u now d.activity })
  stamp-IsValid u now d v = record {
    info_ok = v.info_ok;
    remote_ok = v.remote_ok;
    activity_ok = insert-IsSorted u now d.activity v.activity_ok;
  }

  add_relay_address-IsValid :
      (env : Env) (ip : Text) (d : Discovery P) → IsValid d → IsValid (add_relay_address env ip d)
  unfolding add_relay_address
  add_relay_address-IsValid env ip d v = ground arith

  pub dispatch-IsValid :
      (env : Env) (from : Text) (now : ℕ) (m : DiscoveryMsg) (d : Discovery P)
      → IsValid d
      → IsValid (dispatch env from now m d).0
  unfolding dispatch
  dispatch-IsValid env from now m d v = ground (
    arith,
    add_relay_address-IsValid env from d v,
    handle-IsValid env m.type (is_sender_local d from) m _ (stamp-IsValid m.process_uuid now d v),
  )

  after_sweep-IsValid :
      (now later : ℕ) (d : Discovery P) → IsValid d → IsValid (after_sweep now later d).0
  unfolding after_sweep
  after_sweep-IsValid now later d v = record {
    info_ok = purge-IsWellFormed _ d.info v.info_ok;
    remote_ok = purge-IsWellFormed _ d.remote_subscribers v.remote_ok;
    activity_ok = live-IsSorted d.silence_interval now d.activity v.activity_ok;
  }

  update_activity-IsValid :
      (now later : ℕ) (d : Discovery P) → IsValid d → IsValid (update_activity now later d).0
  update_activity-IsValid now later d v =
      ground (arith, update_activity_eq now later d, after_sweep-IsValid now later d v)

  update_heartbeat-IsValid :
      (env : Env) (now later : ℕ) (d : Discovery P)
      → IsValid d
      → IsValid (update_heartbeat env now later d).0
  unfolding update_heartbeat
  update_heartbeat-IsValid env now later d v = ground arith

  start-IsValid : (now : ℕ) (d : Discovery P) → IsValid d → IsValid (start now d)
  unfolding start
  start-IsValid now d v = ground arith

  pub step-IsValid :
      (env : Env) (e : Event P) (d : Discovery P) → IsValid d → IsValid (step env e d)
  unfolding step
  step-IsValid env (advertises p) d v = advertise_pub-IsValid env p d v
  step-IsValid env (unadvertises t n) d v = unadvertise_pub-IsValid env t n d v
  step-IsValid env (receives from now m) d v = dispatch-IsValid env from now m d v
  step-IsValid env (checks_activity now later) d v = update_activity-IsValid now later d v
  step-IsValid env (beats now later) d v = update_heartbeat-IsValid env now later d v
  step-IsValid env (starts now) d v = start-IsValid now d v
