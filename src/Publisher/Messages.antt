-- ===== src/Publisher/Messages.antt =====
-- The discovery messages that src/Discovery.hh and src/Publisher.cc exchange: the fields of the
-- generated class `msgs::Discovery` that they set and read. A submessage that was not set is
-- `none`, and reads as one whose fields have their default values.
use gz_transport.Common.{ℕ, Bool, false, Option, none, some, [], Text}

pub data MsgScope : Type 0 where
  process host all : MsgScope
  other : ℕ → MsgScope

-- `msgs::Discovery::Type`, with the values that the code does not know.
pub data MsgType : Type 0 where
  advertise subscribe unadvertise heartbeat bye new_connection end_connection : MsgType
  subscribers_req subscribers_rep : MsgType
  other : ℕ → MsgType

pub record MsgPubInfo : Type 0 where
  pub ctrl : Text
  pub msg_type : Text
  pub throttled : Bool
  pub msgs_per_sec : ℕ

pub record SrvPubInfo : Type 0 where
  pub socket_id : Text
  pub request_type : Text
  pub response_type : Text

pub record PubInfo : Type 0 where
  pub topic : Text
  pub address : Text
  pub process_uuid : Text
  pub node_uuid : Text
  pub scope : MsgScope
  pub msg_pub : Option MsgPubInfo
  pub srv_pub : Option SrvPubInfo

pub record Flags : Type 0 where
  pub relay : Bool
  pub no_relay : Bool

pub record DiscoveryMsg : Type 0 where
  pub version : ℕ
  pub type : MsgType
  pub process_uuid : Text
  pub flags : Option Flags
  pub subscriber : Option Text
  pub publisher : Option PubInfo

abbrev pub pub_of : DiscoveryMsg → PubInfo
pub_of m = elim m.publisher [
  | none ↦ record {
    topic = [];
    address = [];
    process_uuid = [];
    node_uuid = [];
    scope = MsgScope.other 0;
    msg_pub = none;
    srv_pub = none;
  }
  | some info ↦ info
]

abbrev pub msg_pub_of : PubInfo → MsgPubInfo
msg_pub_of i = elim i.msg_pub [
  | none ↦ record { ctrl = []; msg_type = []; throttled = false; msgs_per_sec = 0 }
  | some info ↦ info
]

abbrev pub srv_pub_of : PubInfo → SrvPubInfo
srv_pub_of i = elim i.srv_pub [
  | none ↦ record { socket_id = []; request_type = []; response_type = [] }
  | some info ↦ info
]

abbrev pub flags_of : DiscoveryMsg → Flags
flags_of m = elim m.flags [ none ↦ record { relay = false; no_relay = false } | some f ↦ f ]
