-- ===== src/Discovery/Kept.antt =====
-- src/Discovery.hh: what each operation keeps of the storage of a discovery.
use gz_transport.Common.{ℕ, ◌≡◌, ◌⊎◌, inl, inr, Bool, false, List, Text, arith, Bool-cases}
use gz_transport.Common.Map.{IsSorted, insert}
use gz_transport.TopicStorage.{TopicStorage, add_publisher, del_publisher_by_node}
use gz_transport.TopicStorage.Invariant.{IsWellFormed}
use gz_transport.Publisher.Messages.{
  DiscoveryMsg, MsgType, advertise, subscribe, unadvertise, heartbeat, bye, new_connection,
  end_connection, subscribers_req, subscribers_rep,
}
use gz_transport.Publisher.{process, scope_eq}
use gz_transport.Discovery.{
  Wire, wire_publishes, Env, Discovery, advertise_pub, unadvertise_pub, start,
}
use gz_transport.Discovery.Dispatch.{
  out_of_scope, on_advertise, on_unadvertise, handle, dispatch, add_relay_address, is_sender_local,
}
use gz_transport.Discovery.Timers.{update_heartbeat}
use gz_transport.Discovery.Expiry.{listed, expired_keys, purge, purge-stored, after_sweep}
use gz_transport.Discovery.Reachable.{on_subscribe_same}
use gz_transport.TopicStorage.AllStored.{
  AllStored, or_nil, add_publisher-AllStored, del_by_node-AllStored, del_by_proc-AllStored,
}

module _ {P : Type 0} ⦃w : Wire P⦄ where
  open w use {topic, p_uuid, n_uuid, scope, from_discovery}

  -- The publisher is the process's own, or is not meant for its own process alone.
  abbrev pub IsAllowed : Text → P → Type 0
  IsAllowed me p = (p_uuid p ≡ me) ⊎ (scope_eq (scope p) process ≡ false)

  -- What a step has to keep, beside the validity.
  pub record IsKept (me : Text) (d : Discovery P) : Type 0 where
    pub mine : d.p_uuid ≡ me
    pub allowed : AllStored (IsAllowed me) d.info

  in_scope :
      (is_local : Bool) (p : P)
      → out_of_scope is_local p ≡ false
      → scope_eq (scope p) process ≡ false
  unfolding out_of_scope
  in_scope is_local p h = ground arith

  on_advertise-IsKept :
      (me : Text) (is_local : Bool) (m : DiscoveryMsg) (d : Discovery P)
      → IsKept me d
      → IsKept me (on_advertise is_local m d).0
  unfolding on_advertise
  on_advertise-IsKept me is_local m d k =
      let p = from_discovery m in
      elim (Bool-cases (out_of_scope is_local p)) [
        | inl e ↦ rw (e, on_advertise) k
        | inr e ↦
            rw (e, on_advertise)
              (record {
                mine = k.mine;
                allowed =
                    add_publisher-AllStored (IsAllowed me) p d.info (inr (in_scope is_local p e))
                      k.allowed;
              })
      ]

  on_unadvertise-IsKept :
      (me : Text) (is_local : Bool) (m : DiscoveryMsg) (d : Discovery P)
      → IsKept me d
      → IsKept me (on_unadvertise is_local m d).0
  unfolding on_unadvertise
  on_unadvertise-IsKept me is_local m d k =
      let p = from_discovery m in
      elim (Bool-cases (out_of_scope is_local p)) [
        | inl e ↦ rw (e, on_unadvertise) k
        | inr e ↦
            rw (e, on_unadvertise)
              (record {
                mine = k.mine;
                allowed =
                    del_by_node-AllStored (IsAllowed me) (topic p) (p_uuid p) (n_uuid p) d.info
                      k.allowed;
              })
      ]

  handle-IsKept :
      (me : Text) (env : Env) (type : MsgType) (is_local : Bool) (m : DiscoveryMsg)
      (d : Discovery P)
      → IsSorted d.info
      → IsKept me d
      → IsKept me (handle env type is_local m d).0
  unfolding handle
  handle-IsKept me env advertise is_local m d s k = on_advertise-IsKept me is_local m d k
  handle-IsKept me env subscribe is_local m d s k = rw (on_subscribe_same env is_local m d) k
  handle-IsKept me env unadvertise is_local m d s k = on_unadvertise-IsKept me is_local m d k
  handle-IsKept me env bye is_local m d s k = record {
    mine = k.mine;
    allowed = del_by_proc-AllStored (IsAllowed me) m.process_uuid d.info s k.allowed;
  }
  handle-IsKept me env end_connection is_local m d s k = record {
    mine = k.mine;
    allowed = k.allowed;
  }
  handle-IsKept me env subscribers_rep is_local m d s k = record {
    mine = k.mine;
    allowed = k.allowed;
  }
  handle-IsKept me env heartbeat is_local m d s k = k
  handle-IsKept me env new_connection is_local m d s k = k
  handle-IsKept me env subscribers_req is_local m d s k = k
  handle-IsKept me env (MsgType.other n) is_local m d s k = k

  relay-IsKept :
      (me : Text) (env : Env) (ip : Text) (d : Discovery P)
      → IsKept me d
      → IsKept me (add_relay_address env ip d)
  unfolding add_relay_address
  relay-IsKept me env ip d k = ground arith

  pub dispatch-IsKept :
      (me : Text) (env : Env) (from : Text) (now : ℕ) (m : DiscoveryMsg) (d : Discovery P)
      → IsSorted d.info
      → IsKept me d
      → IsKept me (dispatch env from now m d).0
  unfolding dispatch
  dispatch-IsKept me env from now m d s k = ground (
    arith,
    relay-IsKept me env from d k,
    handle-IsKept me env m.type (is_sender_local d from) m
        (record d { activity = insert m.process_uuid now d.activity }) s
        (record { mine = k.mine; allowed = k.allowed }),
  )

  purge-AllStored :
      (Q : P → Type 0) (us : List Text) (s : TopicStorage P)
      → IsWellFormed s
      → AllStored Q s
      → AllStored Q (purge us s)
  purge-AllStored Q us s i h t u = rw (purge-stored us s t u i) (or_nil Q (listed u us) _ (h t u))

  pub advertise_pub-IsKept :
      (me : Text) (env : Env) (p : P) (d : Discovery P)
      → p_uuid p ≡ me
      → IsKept me d
      → IsKept me (advertise_pub env p d).0
  unfolding advertise_pub
  advertise_pub-IsKept me env p d own k =
      let added : IsKept me (record d { info = (add_publisher p d.info).0 }) = record {
        mine = k.mine;
        allowed = add_publisher-AllStored (IsAllowed me) p d.info (inl own) k.allowed;
      } in
      ground (arith, added)

  pub unadvertise_pub-IsKept :
      (me : Text) (env : Env) (t n : Text) (d : Discovery P)
      → IsKept me d
      → IsKept me (unadvertise_pub env t n d).0
  unfolding unadvertise_pub
  unadvertise_pub-IsKept me env t n d k =
      let removed : IsKept me (record d { info = (del_publisher_by_node t d.p_uuid n d.info).0 }) =
        record {
          mine = k.mine;
          allowed = del_by_node-AllStored (IsAllowed me) t d.p_uuid n d.info k.allowed;
        } in
      ground (arith, removed)

  pub after_sweep-IsKept :
      (me : Text) (now later : ℕ) (d : Discovery P)
      → IsWellFormed d.info
      → IsKept me d
      → IsKept me (after_sweep now later d).0
  unfolding after_sweep
  after_sweep-IsKept me now later d i k = record {
    mine = k.mine;
    allowed =
        purge-AllStored (IsAllowed me) (expired_keys d.silence_interval now d.activity) d.info i
          k.allowed;
  }

  pub update_heartbeat-IsKept :
      (me : Text) (env : Env) (now later : ℕ) (d : Discovery P)
      → IsKept me d
      → IsKept me (update_heartbeat env now later d).0
  unfolding update_heartbeat
  update_heartbeat-IsKept me env now later d k = ground arith

  pub start-IsKept : (me : Text) (now : ℕ) (d : Discovery P) → IsKept me d → IsKept me (start now d)
  unfolding start
  start-IsKept me now d k = ground arith
