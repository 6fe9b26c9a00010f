-- ===== src/Discovery/Exchange.antt =====
-- Two discovery objects of src/Discovery.hh: what the one advertises, as the other receives it.
use gz_transport.Common.{
  ℕ, ◌+◌, ◌≤◌, ◌≡◌, refl, ◌∙◌, sym, ap, Bool, true, false, not, ◌&&◌, none, [], ◌∷◌, ◌++◌, ltb,
  if◌then◌else◌, Text, text_eq, arith,
}
use gz_transport.Common.Map.{insert}
use gz_transport.TopicStorage.{add_publisher}
use gz_transport.TopicStorage.Contents.{known, add_publisher-stored}
use gz_transport.Publisher.Messages.{DiscoveryMsg, advertise, flags_of}
use gz_transport.Publisher.{
  process, host, scope_eq, MessagePublisher, fill_message_discovery, set_message_from_discovery,
}
use gz_transport.Publisher.Travel.{set_message-fill_message, travelled_same}
use gz_transport.Discovery.{
  wire_publishes, Env, Discovery, multicasts, unicasts, connected, call, set_relay, advertise_pub,
  max_rcv_str,
}
use gz_transport.Discovery.Dispatch.{
  dispatch, handle, on_advertise, out_of_scope, is_sender_local, process_msg,
}
use gz_transport.Discovery.Relay.{dispatch_state}
use gz_transport.Discovery.Instances.{message_wire, blank_message}

-- The ADVERTISE message that `SendMsg` makes for a publisher: it is filled twice.
once : Discovery MessagePublisher → MessagePublisher → DiscoveryMsg
once d p = fill_message_discovery p (record {
  version = d.wire_version;
  type = advertise;
  process_uuid = d.p_uuid;
  flags = none;
  subscriber = none;
  publisher = none;
})

once_bare : (d : Discovery MessagePublisher) (p : MessagePublisher) → (once d p).subscriber ≡ none
unfolding once fill_message_discovery
once_bare d p = refl

unfoldable pub advert : Discovery MessagePublisher → MessagePublisher → DiscoveryMsg
unfolding once
advert d p = fill_message_discovery p (once d p)

advert_head :
    (d : Discovery MessagePublisher) (p : MessagePublisher)
    → ((advert d p).version ≡ d.wire_version)
      × ((advert d p).process_uuid ≡ d.p_uuid)
      × ((advert d p).type ≡ advertise)
      × ((advert d p).flags ≡ none)
      × ((advert d p).subscriber ≡ none)
unfolding advert fill_message_discovery
advert_head d p = (refl, refl, refl, refl, refl)

advert_read :
    (d : Discovery MessagePublisher) (p : MessagePublisher)
    → p.msg_opts.scope ≡ p.base.opts
    → set_message_from_discovery (advert d p) blank_message ≡ p
unfolding advert
advert_read d p h =
    set_message-fill_message p blank_message (once d p) (once_bare d p) ∙ travelled_same p h

-- A message that advertises is handled by its case of the `switch`, behind the timestamp.
handled :
    (env : Env) (m : DiscoveryMsg) (from : Text) (now : ℕ) (d : Discovery MessagePublisher)
    → m.type ≡ advertise
    → process_msg env from now m d
      ≡ on_advertise
          (is_sender_local d from)
          m
          (record d { activity = insert m.process_uuid now d.activity })
unfolding process_msg handle
handled env m from now d e = rw e refl

unflagged : (m : DiscoveryMsg) → m.flags ≡ none → (flags_of m).relay ≡ false
unflagged m h = rw (flags_of, h) refl

module _ (env : Env) (d : Discovery MessagePublisher) (p : MessagePublisher)
    (enabled : d.enabled ≡ true) (fresh : known d.info p ≡ false)
    (one_scope : p.msg_opts.scope ≡ p.base.opts)
    (shared : scope_eq p.msg_opts.scope process ≡ false)
    (short : env.byte_size (advert d p) + 2 ≤ max_rcv_str) where
  receive :
      (is_local : Bool) (d' : Discovery MessagePublisher)
      → (scope_eq p.msg_opts.scope host && not is_local) ≡ false
      → on_advertise is_local (advert d p) d' ≡ (
          let r = add_publisher p d'.info in
          (record d' { info = r.0 }, call (r.1 && d'.connection_cb) (connected p)))
  unfolding on_advertise out_of_scope
  receive is_local d' h = rw (on_advertise, advert_read d p one_scope, shared, h) refl

  sent :
      (advertise_pub env p d).1
      ≡ call d.connection_cb (connected p)
        ++ (multicasts (advert d p)
            ∷ (if ltb max_rcv_str (env.byte_size (set_relay (advert d p)) + 2)
                then []
                else unicasts d.relay_addrs (set_relay (advert d p)) ∷ []))
  unfolding advertise_pub advert
  sent = ground (arith, (add_publisher-stored p d.info [] []).0)

  received :
      (from : Text) (now : ℕ) (d' : Discovery MessagePublisher)
      → d'.wire_version ≡ d.wire_version
      → text_eq d.p_uuid d'.p_uuid ≡ false
      → (scope_eq p.msg_opts.scope host && not (is_sender_local d' from)) ≡ false
      → (dispatch env from now (advert d p) d').0.info ≡ (add_publisher p d'.info).0
  received from now d' v u h =
      let (version, sender, type, flags, _) = advert_head d p in
      ap (λ r. r.info)
        (dispatch_state env from now (advert d p) d'
            (v ∙ sym version, ap (λ x. text_eq x d'.p_uuid) sender ∙ u)
            (unflagged (advert d p) flags)
          ∙ ap (λ r. r.0) (handled env (advert d p) from now d' type))
      ∙ ap (λ r. r.0.info)
          (receive (is_sender_local d' from)
            (record d' { activity = insert (advert d p).process_uuid now d'.activity }) h)

  -- An enabled discovery that advertises a publisher it does not hold, not of scope process, with
  -- both scopes equal and its message short enough, reports it, sends the message to the multicast
  -- group and, if it is short enough with the relay flag, to the relays; with that message a discovery
  -- of the same version and of another process, on the same host if the scope is
  -- host, adds that publisher to what it knows.
  pub advertise_pub-reaches :
      (from : Text) (now : ℕ) (d' : Discovery MessagePublisher)
      → d'.wire_version ≡ d.wire_version
      → text_eq d.p_uuid d'.p_uuid ≡ false
      → (scope_eq p.msg_opts.scope host && not (is_sender_local d' from)) ≡ false
      → ((advertise_pub env p d).1
          ≡ call d.connection_cb (connected p)
            ++ (multicasts (advert d p)
                ∷ (if ltb max_rcv_str (env.byte_size (set_relay (advert d p)) + 2)
                    then []
                    else unicasts d.relay_addrs (set_relay (advert d p)) ∷ [])))
        × ((dispatch env from now (advert d p) d').0.info ≡ (add_publisher p d'.info).0)
  advertise_pub-reaches from now d' v u h = (sent, received from now d' v u h)
