-- ===== src/Publisher/Tests.antt =====
-- Examples of the publishers of src/Publisher.cc.
use gz_transport.Common.{none, [], bytes}
use gz_transport.Publisher.Messages.{DiscoveryMsg, advertise}
use gz_transport.Publisher.{
  host, all, MessagePublisher, ServicePublisher, blank, default_message_options,
}

abbrev empty_msg : DiscoveryMsg
empty_msg = record {
  version = 10;
  type = advertise;
  process_uuid = bytes "p1";
  flags = none;
  subscriber = none;
  publisher = none;
}

abbrev blank_msg_pub : MessagePublisher
blank_msg_pub = record {
  base = blank;
  ctrl = [];
  msg_type_name = [];
  msg_opts = default_message_options;
}

abbrev odometry : MessagePublisher
odometry = record {
  base = record {
    topic = bytes "/odom";
    addr = bytes "tcp";
    p_uuid = bytes "p1";
    n_uuid = bytes "n1";
    opts = host;
  };
  ctrl = bytes "ctrl";
  msg_type_name = bytes "Odometry";
  msg_opts = record { scope = all; msgs_per_sec = 10 };
}

abbrev add_two : ServicePublisher
add_two = record {
  base = record {
    topic = bytes "/add";
    addr = bytes "tcp";
    p_uuid = bytes "p1";
    n_uuid = bytes "n1";
    opts = host;
  };
  socket_id = bytes "s";
  req_type_name = bytes "Pair";
  rep_type_name = bytes "Int";
  srv_opts = host;
}
