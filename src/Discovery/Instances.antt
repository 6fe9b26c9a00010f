-- ===== src/Discovery/Instances.antt =====
-- `MsgDiscovery` and `SrvDiscovery` of src/Discovery.hh: the two publishers of src/Publisher.cc as
-- the template parameter.
use gz_transport.Common.{[]}
use gz_transport.Publisher.{
  MessagePublisher, ServicePublisher, blank, default_message_options, all, fill_message_discovery,
  set_message_from_discovery, fill_service_discovery, set_service_from_discovery,
}
use gz_transport.Discovery.{Wire}

-- The default objects.
abbrev pub blank_message : MessagePublisher
blank_message = record {
  base = blank;
  ctrl = [];
  msg_type_name = [];
  msg_opts = default_message_options;
}

abbrev pub blank_service : ServicePublisher
blank_service = record {
  base = blank;
  socket_id = [];
  req_type_name = [];
  rep_type_name = [];
  srv_opts = all;
}

instance abbrev pub message_wire : Wire MessagePublisher
message_wire = record {
  publishes = record {
    topic = λ p. p.base.topic;
    addr = λ p. p.base.addr;
    p_uuid = λ p. p.base.p_uuid;
    n_uuid = λ p. p.base.n_uuid;
  };
  scope = λ p. p.msg_opts.scope;
  bare = λ t u. record blank_message { base = record blank { topic = t; p_uuid = u } };
  from_discovery = λ m. set_message_from_discovery m blank_message;
  fill = fill_message_discovery;
}

instance abbrev pub service_wire : Wire ServicePublisher
service_wire = record {
  publishes = record {
    topic = λ p. p.base.topic;
    addr = λ p. p.base.addr;
    p_uuid = λ p. p.base.p_uuid;
    n_uuid = λ p. p.base.n_uuid;
  };
  scope = λ p. p.srv_opts;
  bare = λ t u. record blank_service { base = record blank { topic = t; p_uuid = u } };
  from_discovery = λ m. set_service_from_discovery m blank_service;
  fill = fill_service_discovery;
}
