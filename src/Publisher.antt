-- ===== src/Publisher.antt =====
-- src/Publisher.cc and src/AdvertiseOptions.cc: what a node advertises, and how it travels in a
-- discovery message. A getter of the source is a field.
pub mod Messages
pub mod Travel
mod Tests
use gz_transport.Common.{
  ℕ, ◌-◌, ◌^◌, Bool, true, false, not, ◌&&◌, Option, none, some, List, [], ◌==◌, if◌then◌else◌,
  Text, text_eq,
}
use Messages.{
  DiscoveryMsg, PubInfo, MsgPubInfo, SrvPubInfo, MsgScope, pub_of, msg_pub_of, srv_pub_of,
}

-- `Scope_t`
pub data Scope : Type 0 where
  process host all : Scope

unfoldable pub scope_eq : Scope → Scope → Bool
scope_eq process process = true
scope_eq host host = true
scope_eq all all = true
scope_eq _ _ = false

-- `kUnthrottled`
abbrev pub unthrottled : ℕ
unthrottled = 2 ^ 64 - 1

-- `AdvertiseMessageOptions`
pub record MessageOptions : Type 0 where
  pub scope : Scope
  pub msgs_per_sec : ℕ

abbrev pub default_message_options : MessageOptions
default_message_options = record { scope = all; msgs_per_sec = unthrottled }

unfoldable pub throttled : MessageOptions → Bool
throttled o = not (o.msgs_per_sec == unthrottled)

unfoldable pub message_options_eq : MessageOptions → MessageOptions → Bool
unfolding scope_eq
message_options_eq a b = scope_eq a.scope b.scope && a.msgs_per_sec == b.msgs_per_sec

-- `Publisher`; its `AdvertiseOptions` hold the scope alone.
pub record Publisher : Type 0 where
  pub topic : Text
  pub addr : Text
  pub p_uuid : Text
  pub n_uuid : Text
  pub opts : Scope

-- The state of `Publisher() = default`.
abbrev pub blank : Publisher
blank = record { topic = []; addr = []; p_uuid = []; n_uuid = []; opts = all }

-- `MessagePublisher`: beside the options of the base class it has options of its own.
pub record MessagePublisher : Type 0 where
  pub base : Publisher
  pub ctrl : Text
  pub msg_type_name : Text
  pub msg_opts : MessageOptions

-- `ServicePublisher`; its `AdvertiseServiceOptions` hold the scope alone.
pub record ServicePublisher : Type 0 where
  pub base : Publisher
  pub socket_id : Text
  pub req_type_name : Text
  pub rep_type_name : Text
  pub srv_opts : Scope

-- The constructors: both copies of the options come from one argument.
unfoldable pub new_message_publisher :
    Text → Text → Text → Text → Text → Text → MessageOptions → MessagePublisher
new_message_publisher topic addr ctrl p_uuid n_uuid msg_type_name o = record {
  base = record { topic = topic; addr = addr; p_uuid = p_uuid; n_uuid = n_uuid; opts = o.scope };
  ctrl = ctrl;
  msg_type_name = msg_type_name;
  msg_opts = o;
}

unfoldable pub new_service_publisher :
    Text → Text → Text → Text → Text → Text → Text → Scope → ServicePublisher
new_service_publisher topic addr socket_id p_uuid n_uuid req_type rep_type o = record {
  base = record { topic = topic; addr = addr; p_uuid = p_uuid; n_uuid = n_uuid; opts = o };
  socket_id = socket_id;
  req_type_name = req_type;
  rep_type_name = rep_type;
  srv_opts = o;
}

-- `MessagePublisher::SetOptions` and `ServicePublisher::SetOptions`: the derived class's options.
unfoldable pub set_message_options : MessageOptions → MessagePublisher → MessagePublisher
set_message_options o p = record p { msg_opts = o }

unfoldable pub set_service_options : Scope → ServicePublisher → ServicePublisher
set_service_options o p = record p { srv_opts = o }

unfoldable pub wire_scope : Scope → MsgScope
wire_scope process = MsgScope.process
wire_scope host = MsgScope.host
wire_scope all = MsgScope.all

unfoldable pub read_scope : MsgScope → Scope
read_scope MsgScope.process = process
read_scope MsgScope.host = host
read_scope MsgScope.all = all
read_scope (MsgScope.other n) = all

unfoldable pub fill_discovery : Publisher → DiscoveryMsg → DiscoveryMsg
unfolding wire_scope
fill_discovery p m =
    let info = pub_of m in
    record m {
      publisher = some (record info {
        topic = p.topic;
        address = p.addr;
        process_uuid = p.p_uuid;
        node_uuid = p.n_uuid;
        scope = wire_scope p.opts;
      });
    }

unfoldable pub set_from_discovery : DiscoveryMsg → Publisher → Publisher
unfolding read_scope
set_from_discovery m p = elim m.subscriber [
  | some topic ↦ record p { topic = topic }
  | none ↦ elim m.publisher [
    | none ↦ p
    | some info ↦ record {
      topic = info.topic;
      addr = info.address;
      p_uuid = info.process_uuid;
      n_uuid = info.node_uuid;
      opts = read_scope info.scope;
    }
  ]
]

unfoldable pub publisher_eq : Publisher → Publisher → Scope → Scope → Bool
unfolding scope_eq
publisher_eq p q o o' =
    text_eq p.topic q.topic
    && text_eq p.addr q.addr
    && text_eq p.p_uuid q.p_uuid
    && text_eq p.n_uuid q.n_uuid
    && scope_eq o o'

unfoldable pub fill_message_discovery : MessagePublisher → DiscoveryMsg → DiscoveryMsg
unfolding fill_discovery throttled
fill_message_discovery p m =
    let m' = fill_discovery p.base m in
    let info = pub_of m' in
    record m' {
      publisher = some (record info {
        msg_pub = some (record {
          ctrl = p.ctrl;
          msg_type = p.msg_type_name;
          throttled = throttled p.msg_opts;
          msgs_per_sec = p.msg_opts.msgs_per_sec;
        });
      });
    }

unfoldable pub set_message_from_discovery : DiscoveryMsg → MessagePublisher → MessagePublisher
unfolding set_from_discovery
set_message_from_discovery m p =
    let base = set_from_discovery m p.base in
    let info = msg_pub_of (pub_of m) in
    record {
      base = base;
      ctrl = info.ctrl;
      msg_type_name = info.msg_type;
      msg_opts = record {
        scope = base.opts;
        msgs_per_sec = if not info.throttled then unthrottled else info.msgs_per_sec;
      };
    }

-- `MessagePublisher::operator==`, where `Options()` is the derived class's.
unfoldable pub message_publisher_eq : MessagePublisher → MessagePublisher → Bool
unfolding publisher_eq
message_publisher_eq p q =
    publisher_eq p.base q.base p.msg_opts.scope q.msg_opts.scope
    && text_eq p.ctrl q.ctrl
    && text_eq p.msg_type_name q.msg_type_name

unfoldable pub fill_service_discovery : ServicePublisher → DiscoveryMsg → DiscoveryMsg
unfolding fill_discovery
fill_service_discovery p m =
    let m' = fill_discovery p.base m in
    let info = pub_of m' in
    record m' {
      publisher = some (record info {
        srv_pub = some (record {
          socket_id = p.socket_id;
          request_type = p.req_type_name;
          response_type = p.rep_type_name;
        });
      });
    }

unfoldable pub set_service_from_discovery : DiscoveryMsg → ServicePublisher → ServicePublisher
unfolding set_from_discovery
set_service_from_discovery m p =
    let base = set_from_discovery m p.base in
    let info = srv_pub_of (pub_of m) in
    record {
      base = base;
      socket_id = info.socket_id;
      req_type_name = info.request_type;
      rep_type_name = info.response_type;
      srv_opts = base.opts;
    }

unfoldable pub service_publisher_eq : ServicePublisher → ServicePublisher → Bool
unfolding publisher_eq
service_publisher_eq p q =
    publisher_eq p.base q.base p.srv_opts q.srv_opts
    && text_eq p.socket_id q.socket_id
    && text_eq p.req_type_name q.req_type_name
    && text_eq p.rep_type_name q.rep_type_name
