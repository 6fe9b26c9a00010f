-- ===== src/Discovery/Tests.antt =====
-- Examples of the discovery objects of src/Discovery.hh.
use gz_transport.Common.{
  ◌+◌, ◌*◌, ◌≡◌, refl, ◌&&◌, true, false, none, some, List, [], ◌∷◌, ◌++◌, map, ltb, length,
  if◌then◌else◌, Text, bytes, text_eq, text_lt, has_char, find_first, find_last, take, drop,
  has_pair, arith,
}
use gz_transport.Common.Map.{IsSorted, lookup, lookup_list}
use gz_transport.TopicStorage.{add_publisher, del_publisher_by_node}
use gz_transport.TopicStorage.Contents.{stored, known}
use gz_transport.TopicUtils.{
  decompose_fully_qualified_topic, decompose_at, is_valid_partition, is_valid_namespace,
  is_valid_topic,
}
use gz_transport.TopicUtils.Token.{create_message_token}
use gz_transport.TopicUtils.Token.RoundTrip.{Announces}
use gz_transport.Publisher.Messages.{advertise, heartbeat, DiscoveryMsg, bye}
use gz_transport.Publisher.{process, all, scope_eq, MessagePublisher, unthrottled}
use gz_transport.Discovery.{
  send_own, send_pub, wire_publishes, Env, Discovery, multicasts, unicasts, connected, disconnected,
  call, set_relay, advertise_pub, max_rcv_str,
}
use gz_transport.Discovery.Dispatch.{dispatch}
use gz_transport.Discovery.Timers.{readvertise, update_heartbeat, update_activity, ms}
use gz_transport.Discovery.Expiry.{expires, expired_keys, listed, update_activity-expires}
use gz_transport.Discovery.Readvertise.{update_heartbeat-readvertises}
use gz_transport.Common.Within.{Within, In}
use gz_transport.Discovery.Reachable.{
  Event, advertises, receives, checks_activity, beats, starts, IsValid, run,
}
use gz_transport.Discovery.Scoped.{IsSafe, run-IsSafe}
use gz_transport.Discovery.Exchange.{advert, advertise_pub-reaches}
use gz_transport.Discovery.Liveliness.{live_message, put, delete, alive, live_message-token}
use gz_transport.Discovery.Instances.{message_wire}

abbrev small : Env
small = record {
  set_sub_topic = λ t m. record m { subscriber = some t };
  byte_size = λ m. 100;
  inet_addr = λ t. length t;
}

abbrev fresh_at : Text → Discovery MessagePublisher
fresh_at u = record {
  host_interfaces = bytes "10.0.0.1" ∷ [];
  p_uuid = u;
  silence_interval = 3000;
  activity_interval = 100;
  heartbeat_interval = 1000;
  connection_cb = true;
  disconnection_cb = true;
  registration_cb = false;
  unregistration_cb = false;
  subscribers_cb = false;
  info = [];
  remote_subscribers = [];
  activity = [];
  relay_addrs = 7 ∷ [];
  time_next_heartbeat = 0;
  time_next_activity = 0;
  initialized = false;
  num_heartbeats_uninitialized = 0;
  enabled = true;
  use_zenoh = false;
  wire_version = 10;
}

abbrev here : Discovery MessagePublisher
here = fresh_at (bytes "p1")

abbrev there : Discovery MessagePublisher
there = fresh_at (bytes "p2")

-- A process that is long silent, and one that is not.
abbrev noted : Discovery MessagePublisher
noted = record there { activity = (bytes "p1", 0) ∷ (bytes "p3", 5000 * ms) ∷ [] }

abbrev odometry : MessagePublisher
odometry = record {
  base = record {
    topic = bytes "@/sim@/odom";
    addr = bytes "tcp";
    p_uuid = bytes "p1";
    n_uuid = bytes "n1";
    opts = all;
  };
  ctrl = bytes "ctrl";
  msg_type_name = bytes "Odometry";
  msg_opts = record { scope = all; msgs_per_sec = unthrottled };
}

abbrev farewell : DiscoveryMsg
farewell = record {
  version = 10;
  type = bye;
  process_uuid = bytes "p1";
  flags = none;
  subscriber = none;
  publisher = none;
}

abbrev relayed : DiscoveryMsg
relayed = record farewell { flags = some (record { relay = true; no_relay = false }) }

other_process : text_eq (bytes "p1") (bytes "p2") ≡ false
unfolding text_eq
other_process = refl

empty-IsValid : (u : Text) → IsValid (fresh_at u)
empty-IsValid u = record {
  info_ok = record { sorted = tt; procs = tt };
  remote_ok = record { sorted = tt; procs = tt };
  activity_ok = tt;
}

none_stored : (t u : Text) → stored {P = MessagePublisher} [] t u ≡ []
unfolding lookup lookup_list
none_stored t u = refl

noted-IsSorted : IsSorted noted.activity
unfolding text_lt
noted-IsSorted = (refl, tt)

not_known : known here.info odometry ≡ false
unfolding lookup lookup_list
not_known = refl

here-IsSafe : IsSafe (bytes "p1") here
here-IsSafe = record {
  valid = empty-IsValid (bytes "p1");
  mine = refl;
  allowed = λ t u. rw (none_stored t u) tt;
}

abbrev events : List (Event MessagePublisher)
events =
    advertises odometry
    ∷ receives (bytes "10.0.0.2") 5 (advert there odometry)
    ∷ beats 0 1
    ∷ receives (bytes "10.0.0.2") 6 farewell
    ∷ checks_activity 9 9
    ∷ starts 9
    ∷ []

advertise_pub-reaches_example :
    ((advertise_pub small odometry here).1
      ≡ call true (connected odometry)
        ++ (multicasts (advert here odometry)
            ∷ (if ltb max_rcv_str 102
                then []
                else unicasts (7 ∷ []) (set_relay (advert here odometry)) ∷ [])))
    × ((dispatch small (bytes "10.0.0.2") 5 (advert here odometry) there).0.info
        ≡ (add_publisher odometry []).0)
unfolding scope_eq
advertise_pub-reaches_example =
    advertise_pub-reaches small here odometry refl not_known refl refl (ground arith)
      (bytes "10.0.0.2") 5 there refl other_process refl

run-IsSafe_example : IsSafe (bytes "p1") (run small events here)
run-IsSafe_example =
    run-IsSafe (bytes "p1") small events here (refl, (tt, (tt, (tt, (tt, (tt, tt)))))) here-IsSafe

update_activity-expires_example :
    let gone = expires 3000 (6000 * ms) noted.activity in
    let r = update_activity (6000 * ms) (6001 * ms) noted in
    (stored r.0.info (bytes "t") (bytes "p1") ≡ (if gone (bytes "p1") then [] else []))
    × (stored r.0.remote_subscribers (bytes "t") (bytes "p1")
        ≡ (if gone (bytes "p1") then [] else []))
    × (lookup (bytes "p1") r.0.activity
        ≡ (if gone (bytes "p1") then none else lookup (bytes "p1") noted.activity))
    × (r.1
        ≡ map
            (λ v. disconnected (message_wire.bare [] v))
            (expired_keys 3000 (6000 * ms) noted.activity))
    × (listed (bytes "p1") (expired_keys 3000 (6000 * ms) noted.activity) ≡ gone (bytes "p1"))
    × (r.0.time_next_activity ≡ 6001 * ms + 100 * ms)
unfolding lookup lookup_list
update_activity-expires_example =
    update_activity-expires (6000 * ms) (6001 * ms) noted (bytes "t") (bytes "p1")
      (record { sorted = tt; procs = tt }) (record { sorted = tt; procs = tt }) noted-IsSorted
      (ground arith)

odom-Announces :
    Announces
      (bytes "@/sim@/odom")
      (bytes "/sim")
      (bytes "/odom")
      (bytes "p1")
      (bytes "n1")
      (bytes "MP")
unfolding decompose_fully_qualified_topic decompose_at is_valid_partition is_valid_namespace
    is_valid_topic find_first find_last take drop text_eq has_char has_pair
odom-Announces = record {
  decomposed = refl;
  filled = refl;
  plain_partition = refl;
  plain_topic = refl;
  process = record { filled = refl; plain = refl };
  node = record { filled = refl; plain = refl };
  entity = record { filled = refl; plain = refl };
}

abbrev odom_token : Text
odom_token =
    create_message_token (bytes "@/sim@/odom") (bytes "p1") (bytes "n1") (bytes "MP")
      (bytes "Odometry")

live_message-token_example :
    (live_message put odom_token there ≡ (
      let p =
        alive (bytes "p2") (bytes "@/sim@/odom") (bytes "p1") (bytes "n1") (bytes "Odometry") in
      let r = add_publisher p [] in
      (record there { info = r.0 }, call (r.1 && true) (connected p))))
    × (live_message delete odom_token there ≡ (
      record there {
        info = (del_publisher_by_node (bytes "@/sim@/odom") (bytes "p1") (bytes "n1") []).0;
      },
      [],
    ))
live_message-token_example =
    live_message-token (bytes "@/sim@/odom") (bytes "/sim") (bytes "/odom") (bytes "p1")
      (bytes "n1") (bytes "Odometry") there odom-Announces (unfold has_char in refl)

-- A publisher for its own process only.
abbrev secret : MessagePublisher
secret = record odometry {
  base = record odometry.base { opts = process };
  msg_opts = record { scope = process; msgs_per_sec = unthrottled };
}

abbrev holding : Discovery MessagePublisher
holding = record here { info = (bytes "@/sim@/odom", (bytes "p1", secret ∷ []) ∷ []) ∷ [] }

secret-In : In secret (stored holding.info (bytes "@/sim@/odom") (bytes "p1"))
unfolding lookup lookup_list text_eq
secret-In = ([], [], refl)

update_heartbeat-readvertises_example :
    ((update_heartbeat small 5 6 holding).1
      ≡ send_own small holding heartbeat ++ readvertise small holding)
    × Within (send_pub small holding advertise secret) (readvertise small holding)
update_heartbeat-readvertises_example =
    update_heartbeat-readvertises small 5 6 holding (bytes "@/sim@/odom") secret (ground arith)
      secret-In
