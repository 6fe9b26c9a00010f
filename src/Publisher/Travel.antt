-- ===== src/Publisher/Travel.antt =====
-- What of a publisher of src/Publisher.cc survives a discovery message.
use gz_transport.Common.{◌≡◌, refl, none, arith}
use gz_transport.Publisher.Messages.{DiscoveryMsg, pub_of}
use gz_transport.Publisher.{
  Scope, process, host, all, MessagePublisher, ServicePublisher, MessageOptions, wire_scope,
  read_scope, fill_message_discovery, set_message_from_discovery, fill_service_discovery,
  set_service_from_discovery, set_message_options,
}

pub read-wire : (s : Scope) → read_scope (wire_scope s) ≡ s
unfolding read_scope wire_scope
read-wire process = refl
read-wire host = refl
read-wire all = refl

-- What a message publisher becomes: both of its scopes are the base class's.
abbrev pub travelled : MessagePublisher → MessagePublisher
travelled p = record p {
  msg_opts = record { scope = p.base.opts; msgs_per_sec = p.msg_opts.msgs_per_sec };
}

-- A message publisher that is filled into a message with no subscriber and read back is the same,
-- but that the scope of its own options becomes the scope of the base class's options.
pub set_message-fill_message :
    (p q : MessagePublisher) (m : DiscoveryMsg)
    → m.subscriber ≡ none
    → set_message_from_discovery (fill_message_discovery p m) q ≡ travelled p
unfolding set_message_from_discovery fill_message_discovery
set_message-fill_message p q m h = ground (arith, read-wire p.base.opts)

pub travelled_same : (p : MessagePublisher) → p.msg_opts.scope ≡ p.base.opts → travelled p ≡ p
travelled_same p h = ground (arith)

-- A service publisher that is filled into a message with no subscriber and read back is the same,
-- but that its own scope becomes the base class's.
pub set_service-fill_service :
    (p q : ServicePublisher) (m : DiscoveryMsg)
    → m.subscriber ≡ none
    → set_service_from_discovery (fill_service_discovery p m) q
      ≡ record p { srv_opts = p.base.opts }
unfolding set_service_from_discovery fill_service_discovery
set_service-fill_service p q m h = ground (arith, read-wire p.base.opts)

-- `SetOptions` of a message publisher does not reach the discovery message: whatever the new
-- scope is, the message carries the scope of the base class's options.
pub fill_message-set_options :
    (o : MessageOptions) (p : MessagePublisher) (m : DiscoveryMsg)
    → (pub_of (fill_message_discovery (set_message_options o p) m)).scope ≡ wire_scope p.base.opts
unfolding fill_message_discovery set_message_options
fill_message-set_options o p m = refl
