-- ===== src/Discovery/Dispatch.antt =====
-- src/Discovery.hh, the receiving side: `RecvDiscoveryUpdate`, `DispatchDiscoveryMsg`,
-- `AddRelayAddress` and `TopicList`.
use gz_transport.Common.{
  ℕ, ◌+◌, ◌%◌, ◌^◌, Bool, true, false, not, ◌&&◌, ◌||◌, Option, none, some, List, [], ◌∷◌, ◌++◌,
  any, ◌==◌, if◌then◌else◌, Text, bytes, text_eq, is_empty, length, take, drop,
}
use gz_transport.Common.Map.{insert, erase, lookup_list}
use gz_transport.TopicStorage.{
  add_publisher, publishers, has_any_publishers, del_publisher_by_node, del_publishers_by_proc,
  topic_list,
}
use gz_transport.Publisher.Messages.{
  DiscoveryMsg, MsgType, advertise, subscribe, unadvertise, heartbeat, bye, new_connection,
  end_connection, subscribers_req, subscribers_rep, flags_of,
}
use gz_transport.Publisher.{process, host, scope_eq}
use gz_transport.Discovery.{
  Wire, wire_publishes, Env, Discovery, Effect, connected, disconnected, registered, unregistered,
  subscribers_requested, call, flat_map, send_multicast, send_unicast, set_relay, send_pub,
  send_own,
}

-- Addresses are compared and stored by the value that `inet_addr` gives.
unfoldable pub add_relay_address : {P : Type 0} → Env → Text → Discovery P → Discovery P
add_relay_address env ip d =
    let a = env.inet_addr ip in
    if any (λ b. b == a) d.relay_addrs
    then d
    else record d { relay_addrs = d.relay_addrs ++ a ∷ [] }

-- `find("127.") == 0`
unfoldable pub is_loopback : Text → Bool
is_loopback (a ∷ b ∷ c ∷ x ∷ s) = text_eq (a ∷ b ∷ c ∷ x ∷ []) (bytes "127.")
is_loopback _ = false

unfoldable pub is_sender_local : {P : Type 0} → Discovery P → Text → Bool
unfolding is_loopback
is_sender_local d from = any (λ i. text_eq i from) d.host_interfaces || is_loopback from

-- The message that goes on to the multicast group.
unfoldable pub unrelayed : DiscoveryMsg → DiscoveryMsg
unrelayed m =
    let f = flags_of m in record m { flags = some (record f { relay = false; no_relay = true }) }

-- The loop of `TopicList` over the topics of the remote subscribers.
unfoldable pub add_topics : List Text → List Text → List Text
add_topics [] topics = topics
add_topics (t ∷ ts) topics =
    add_topics ts (if any (λ u. text_eq u t) topics then topics else topics ++ t ∷ [])

module _ {P : Type 0} ⦃w : Wire P⦄ where
  open w use {topic, p_uuid, n_uuid, scope, bare, from_discovery}

  -- The test of a scope: the publisher is not for the sender of the message.
  unfoldable pub out_of_scope : Bool → P → Bool
  out_of_scope is_local p = scope_eq (scope p) process || (scope_eq (scope p) host && not is_local)

  unfoldable pub on_advertise : Bool → DiscoveryMsg → Discovery P → Discovery P × List (Effect P)
  unfolding out_of_scope
  on_advertise is_local m d =
      let p = from_discovery m in
      if out_of_scope is_local p
      then (d, [])
      else (let (info, added) = add_publisher p d.info in
          (record d { info = info }, call (added && d.connection_cb) (connected p)))

  unfoldable pub on_subscribe :
      Env → Bool → DiscoveryMsg → Discovery P → Discovery P × List (Effect P)
  unfolding out_of_scope
  on_subscribe env is_local m d = elim m.subscriber [
    | none ↦ (d, [])
    | some t ↦
        if not (has_any_publishers t d.p_uuid d.info) then (d, []) else elim (publishers t d.info) [
          | none ↦ (d, [])
          | some addresses ↦ (
            d,
            flat_map (λ q. if out_of_scope is_local q then [] else send_pub env d advertise q)
                (lookup_list d.p_uuid addresses),
          )
        ]
  ]

  unfoldable pub on_end_connection : DiscoveryMsg → Discovery P → Discovery P × List (Effect P)
  on_end_connection m d =
      let p = from_discovery m in
      (
        record d {
          remote_subscribers =
              (del_publisher_by_node (topic p) (p_uuid p) (n_uuid p) d.remote_subscribers).0;
        },
        call d.unregistration_cb (unregistered p),
      )

  unfoldable pub on_bye : DiscoveryMsg → Discovery P → Discovery P × List (Effect P)
  on_bye m d = (
    record d {
      info = (del_publishers_by_proc m.process_uuid d.info).0;
      remote_subscribers = (del_publishers_by_proc m.process_uuid d.remote_subscribers).0;
      activity = erase m.process_uuid d.activity;
    },
    call d.disconnection_cb (disconnected (bare [] m.process_uuid)),
  )

  unfoldable pub on_unadvertise : Bool → DiscoveryMsg → Discovery P → Discovery P × List (Effect P)
  unfolding out_of_scope
  on_unadvertise is_local m d =
      let p = from_discovery m in
      if out_of_scope is_local p then (d, []) else (
        record d { info = (del_publisher_by_node (topic p) (p_uuid p) (n_uuid p) d.info).0 },
        call d.disconnection_cb (disconnected p),
      )

  -- The `switch` over the type of the message.
  unfoldable pub handle :
      Env → MsgType → Bool → DiscoveryMsg → Discovery P → Discovery P × List (Effect P)
  unfolding on_advertise on_subscribe on_end_connection on_bye on_unadvertise
  handle env advertise is_local m d = on_advertise is_local m d
  handle env subscribe is_local m d = on_subscribe env is_local m d
  handle env unadvertise is_local m d = on_unadvertise is_local m d
  handle env heartbeat is_local m d = (d, [])
  handle env bye is_local m d = on_bye m d
  handle env new_connection is_local m d =
      (d, call d.registration_cb (registered (from_discovery m)))
  handle env end_connection is_local m d = on_end_connection m d
  handle env subscribers_req is_local m d = (d, call d.subscribers_cb subscribers_requested)
  handle env subscribers_rep is_local m d = (
    record d { remote_subscribers = (add_publisher (from_discovery m) d.remote_subscribers).0 },
    [],
  )
  handle env (MsgType.other n) is_local m d = (d, [])

  -- What is sent on to the relays before the message is handled.
  unfoldable pub forward : Env → DiscoveryMsg → Discovery P → List (Effect P)
  forward env m d = if not (flags_of m).no_relay then send_unicast env d (set_relay m) else []

  -- The part of `DispatchDiscoveryMsg` behind the relaying: the timestamp, and the `switch`.
  unfoldable pub process_msg :
      Env → Text → ℕ → DiscoveryMsg → Discovery P → Discovery P × List (Effect P)
  unfolding is_sender_local
  process_msg env from now m d =
      handle env m.type (is_sender_local d from) m
        (record d { activity = insert m.process_uuid now d.activity })

  unfoldable pub dispatch :
      Env → Text → ℕ → DiscoveryMsg → Discovery P → Discovery P × List (Effect P)
  unfolding forward process_msg unrelayed add_relay_address
  dispatch env from now m d =
      if not (d.wire_version == m.version)
      then (d, [])
      else if text_eq m.process_uuid d.p_uuid
      then (d, [])
      else if (flags_of m).relay
      then (add_relay_address env from d, send_multicast env (unrelayed m))
      else (let (d', effects) = process_msg env from now m d in (d', forward env m d ++ effects))

  -- The answer of `RecvDiscoveryUpdate`, and what it does with a datagram: `load` is the number
  -- that `memcpy` reads from the first two bytes, and `parse` the parser of the body. Nothing
  -- received is a failure.
  unfoldable pub recv_discovery_update :
      Env
      → (List ℕ → Option DiscoveryMsg)
      → (List ℕ → ℕ)
      → Text
      → ℕ
      → List ℕ
      → Discovery P
      → Discovery P × List (Effect P) × Bool
  unfolding dispatch
  recv_discovery_update env parse load from now raw d =
      let len = load raw in
      if is_empty raw
      then (d, [], false)
      else if not (len + 2 == length raw % 2 ^ 16)
      then (d, [], true)
      else elim (parse (take len (drop 2 raw))) [
        | none ↦ (d, [], true)
        | some m ↦ let (d', effects) = dispatch env from now m d in (d', effects, true)
      ]

  -- What `TopicList` sends first; the flag says that `Pub` is `MessagePublisher`.
  unfoldable pub request_subscribers : Env → Bool → Discovery P → List (Effect P)
  request_subscribers env is_message d =
      if is_message && not d.use_zenoh then send_own env d subscribers_req else []

  -- The list that `TopicList` gives.
  unfoldable pub all_topics : Discovery P → List Text
  all_topics d = add_topics (topic_list d.remote_subscribers) (topic_list d.info)
