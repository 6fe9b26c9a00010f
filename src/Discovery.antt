-- ===== src/Discovery.antt =====
-- src/Discovery.hh: the discovery of topics and services over UDP. A method that changes the
-- object returns the new state and what it sends and calls, in order; a callback is recorded as
-- an effect. Times are in nanoseconds of the steady clock, and arguments.
pub mod Dispatch
pub mod Timers
pub mod Liveliness
pub mod Kept
pub mod Scoped
pub mod Expiry
pub mod Relay
pub mod Instances
pub mod Exchange
pub mod Heartbeat
pub mod Readvertise
pub mod Reachable
mod Tests
use gz_transport.Common.{
  ℕ, ◌+◌, Bool, true, false, not, ◌&&◌, ◌||◌, Option, none, some, List, [], ◌∷◌, ◌++◌, any, ltb,
  ◌==◌, if◌then◌else◌, Text, text_eq,
}
use gz_transport.Common.Map.{Map, insert, lookup_list}
use gz_transport.TopicStorage.{
  Publishes, TopicStorage, add_publisher, publisher, publishers, del_publisher_by_node, topic_list,
}
use gz_transport.Publisher.Messages.{
  DiscoveryMsg, MsgType, advertise, subscribe, unadvertise, heartbeat, bye, new_connection,
  end_connection, subscribers_req, subscribers_rep, Flags, flags_of,
}
use gz_transport.Publisher.{
  MessagePublisher, fill_message_discovery, Scope, process, host, all, scope_eq, Publisher, blank,
  fill_discovery,
}

-- What the template parameter `Pub` offers. `bare` is a default object with its topic and its
-- process UUID set; `from_discovery` is a default object after `SetFromDiscovery`.
pub record Wire (P : Type 0) : Type 0 where
  pub publishes : Publishes P
  pub open publishes use *
  pub scope : P → Scope
  pub bare : Text → Text → P
  pub from_discovery : DiscoveryMsg → P
  pub fill : P → DiscoveryMsg → DiscoveryMsg

instance abbrev pub wire_publishes : {P : Type 0} ⦃w : Wire P⦄ → Publishes P
wire_publishes ⦃w⦄ = w.publishes

-- What the code takes from the libraries: `mutable_sub()->set_topic`, `ByteSizeLong` and
-- `inet_addr`.
pub record Env : Type 0 where
  pub set_sub_topic : Text → DiscoveryMsg → DiscoveryMsg
  pub byte_size : DiscoveryMsg → ℕ
  pub inet_addr : Text → ℕ

-- A callback field is true where a callback is registered.
pub record Discovery (P : Type 0) : Type 0 where
  pub host_interfaces : List Text
  pub p_uuid : Text
  pub silence_interval : ℕ
  pub activity_interval : ℕ
  pub heartbeat_interval : ℕ
  pub connection_cb : Bool
  pub disconnection_cb : Bool
  pub registration_cb : Bool
  pub unregistration_cb : Bool
  pub subscribers_cb : Bool
  pub info : TopicStorage P
  pub remote_subscribers : TopicStorage P
  pub activity : Map ℕ
  pub relay_addrs : List ℕ
  pub time_next_heartbeat : ℕ
  pub time_next_activity : ℕ
  pub initialized : Bool
  pub num_heartbeats_uninitialized : ℕ
  pub enabled : Bool
  pub use_zenoh : Bool
  pub wire_version : ℕ

-- What a method does beside changing the state: a datagram to the multicast group through every
-- socket, a datagram to each relay, or a call of a callback.
pub data Effect (P : Type 0) : Type 0 where
  multicasts : DiscoveryMsg → Effect P
  unicasts : List ℕ → DiscoveryMsg → Effect P
  connected disconnected registered unregistered : P → Effect P
  subscribers_requested : Effect P

-- `DestinationType`
pub data Destination : Type 0 where
  unicast multicast everywhere : Destination

-- `kMaxRcvStr`
abbrev pub max_rcv_str : ℕ
max_rcv_str = 65535

abbrev pub flat_map {ℓ} : {A B : Type ℓ} → (A → List B) → List A → List B
flat_map f [] = []
flat_map f (x ∷ xs) = f x ++ flat_map f xs

-- `if (cb) cb(...)`
abbrev pub call {ℓ} : {A : Type ℓ} → Bool → A → List A
call cb e = if cb then e ∷ [] else []

module _ {P : Type 0} (env : Env) where
  -- `SendMulticast` and `SendUnicast`: a message that is too long is not sent.
  unfoldable pub send_multicast : DiscoveryMsg → List (Effect P)
  send_multicast m = if ltb max_rcv_str (env.byte_size m + 2) then [] else multicasts m ∷ []

  unfoldable pub send_unicast : Discovery P → DiscoveryMsg → List (Effect P)
  send_unicast d m =
      if ltb max_rcv_str (env.byte_size m + 2) then [] else unicasts d.relay_addrs m ∷ []

-- `mutable_flags()->set_relay(true)`
unfoldable pub set_relay : DiscoveryMsg → DiscoveryMsg
set_relay m = let f = flags_of m in record m { flags = some (record f { relay = true }) }

-- The message of `SendMsg`, for a publisher with a topic and a `FillDiscovery`.
unfoldable pub compose_msg :
    {P : Type 0} (env : Env) (d : Discovery P)
    → MsgType
    → (DiscoveryMsg → DiscoveryMsg)
    → Text
    → Option DiscoveryMsg
compose_msg env d type fill topic =
    let m = fill (record {
      version = d.wire_version;
      type = type;
      process_uuid = d.p_uuid;
      flags = none;
      subscriber = none;
      publisher = none;
    }) in
    elim type [
      | advertise ↦ some (fill m)
      | unadvertise ↦ some (fill m)
      | new_connection ↦ some (fill m)
      | end_connection ↦ some (fill m)
      | subscribe ↦ some (env.set_sub_topic topic m)
      | heartbeat ↦ some m
      | bye ↦ some m
      | subscribers_req ↦ some m
      | subscribers_rep ↦ some m
      | MsgType.other n ↦ none
    ]

unfoldable pub send_msg :
    {P : Type 0} (env : Env) (d : Discovery P)
    → Destination
    → MsgType
    → (DiscoveryMsg → DiscoveryMsg)
    → Text
    → List (Effect P)
unfolding compose_msg send_multicast send_unicast set_relay
send_msg env d dest type fill topic = elim (compose_msg env d type fill topic) [
  | none ↦ []
  | some m ↦ elim dest [
    | multicast ↦ send_multicast env m
    | unicast ↦ send_unicast env d (set_relay m)
    | everywhere ↦ send_multicast env m ++ send_unicast env d (set_relay m)
  ]
]

-- A message of `SendMsg` to all, about the process alone.
unfoldable pub send_own : {P : Type 0} (env : Env) (d : Discovery P) → MsgType → List (Effect P)
unfolding send_msg
send_own env d type =
    send_msg env d everywhere type (fill_discovery (record blank { p_uuid = d.p_uuid })) []

-- `Start` without the thread that receives: `now` is the time.
unfoldable pub start : {P : Type 0} → ℕ → Discovery P → Discovery P
start now d =
    if d.enabled
    then d
    else record d { enabled = true; time_next_heartbeat = now; time_next_activity = now }

module _ {P : Type 0} (env : Env) (d : Discovery P) (p : MessagePublisher) where
  -- `SendSubscribersRep`, `Register` and `Unregister`
  unfoldable pub send_subscribers_rep : List (Effect P)
  unfolding send_msg
  send_subscribers_rep =
      send_msg env d everywhere subscribers_rep (fill_message_discovery p) p.base.topic

  unfoldable pub register : List (Effect P)
  unfolding send_msg
  register = send_msg env d everywhere new_connection (fill_message_discovery p) p.base.topic

  unfoldable pub unregister : List (Effect P)
  unfolding send_msg
  unregister = send_msg env d everywhere end_connection (fill_message_discovery p) p.base.topic

module _ {P : Type 0} ⦃w : Wire P⦄ (env : Env) where
  open w use {topic, scope, bare, fill}

  -- A message of `SendMsg` to all, about a publisher.
  unfoldable pub send_pub : Discovery P → MsgType → P → List (Effect P)
  unfolding send_msg
  send_pub d type p = send_msg env d everywhere type (fill p) (topic p)

  unfoldable pub advertise_pub : P → Discovery P → Discovery P × List (Effect P) × Bool
  unfolding send_pub
  advertise_pub p d =
      if not d.enabled
      then (d, [], false)
      else (let (info, added) = add_publisher p d.info in
          let d' = record d { info = info } in
          if not added then (d', [], false) else (
            d',
            call d.connection_cb (connected p)
                ++ (if not (scope_eq (scope p) process) then send_pub d' advertise p else []),
            true,
          ))

  unfoldable pub discover : Text → Discovery P → List (Effect P) × Bool
  unfolding send_pub
  discover t d = if not d.enabled then ([], false) else (
    send_pub d subscribe (bare t d.p_uuid) ++ elim (publishers t d.info) [
      | none ↦ []
      | some addresses ↦
          flat_map (λ e. flat_map (λ q. call d.connection_cb (connected q)) e.1) addresses
    ],
    true,
  )

  unfoldable pub unadvertise_pub : Text → Text → Discovery P → Discovery P × List (Effect P) × Bool
  unfolding send_pub
  unadvertise_pub t n d =
      if not d.enabled && not d.use_zenoh
      then (d, [], false)
      else elim (publisher t d.p_uuid n d.info) [
        | none ↦ (d, [], true)
        | some inf ↦
            let d' = record d { info = (del_publisher_by_node t d.p_uuid n d.info).0 } in
            (
              d',
              if not (scope_eq (scope inf) process) then send_pub d' unadvertise inf else [],
              true,
            )
      ]
