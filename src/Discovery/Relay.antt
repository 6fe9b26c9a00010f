-- ===== src/Discovery/Relay.antt =====
-- The relaying of messages by `DispatchDiscoveryMsg` of src/Discovery.hh.
use gz_transport.Common.{
  ℕ, ◌+◌, ◌≤◌, ◌≡◌, true, false, [], ◌∷◌, ◌++◌, any, ltb, ◌⊎◌, ◌==◌, if◌then◌else◌, Text, text_eq,
  arith,
}
use gz_transport.Publisher.Messages.{DiscoveryMsg, flags_of}
use gz_transport.Discovery.{
  Wire, wire_publishes, Env, Discovery, multicasts, unicasts, send_multicast, send_unicast,
  set_relay, max_rcv_str,
}
use gz_transport.Discovery.Dispatch.{dispatch, process_msg, unrelayed}

module _ {P : Type 0} ⦃w : Wire P⦄ (env : Env) (from : Text) (now : ℕ) (m : DiscoveryMsg)
    (d : Discovery P) where
  -- The message is of this protocol and of another process.
  abbrev pub IsForeign : Type 0
  IsForeign = (d.wire_version ≡ m.version) × (text_eq m.process_uuid d.p_uuid ≡ false)

  -- A message of another version of the protocol, or of the process itself, changes nothing and
  -- has no effect.
  pub dispatch_discards :
      ((d.wire_version == m.version) ≡ false) ⊎ (text_eq m.process_uuid d.p_uuid ≡ true)
      → dispatch env from now m d ≡ (d, [])
  unfolding dispatch
  dispatch_discards h = ground arith

  -- A message of this version and of another process with the relay flag changes nothing but the relay addresses, to which its sender is
  -- added if it is not among them; its only effect is that the message goes to the multicast
  -- group, if it is not too long. Any other discovery that receives it there, of its version and
  -- of another process than its sender's, handles it without sending it on.
  dispatch_relayed :
      (from' : Text) (now' : ℕ) (d' : Discovery P)
      → IsForeign
      → (flags_of m).relay ≡ true
      → d'.wire_version ≡ m.version
      → text_eq m.process_uuid d'.p_uuid ≡ false
      → (dispatch env from now m d ≡ (
        (if any (λ a. a == env.inet_addr from) d.relay_addrs
            then d
            else record d { relay_addrs = d.relay_addrs ++ env.inet_addr from ∷ [] }),
        (if ltb max_rcv_str (env.byte_size (unrelayed m) + 2)
            then []
            else multicasts (unrelayed m) ∷ []),
      ))
        × (dispatch env from' now' (unrelayed m) d' ≡ process_msg env from' now' (unrelayed m) d')
  unfolding dispatch unrelayed send_multicast
  dispatch_relayed from' now' d' f r v u = (ground arith, ground arith)

  -- A message of this version and of another process without the two flags is sent to every relay with the relay
  -- flag, before it is handled, if it is not too long.
  dispatch_forwards :
      IsForeign
      → (flags_of m).relay ≡ false
      → (flags_of m).no_relay ≡ false
      → env.byte_size (set_relay m) + 2 ≤ max_rcv_str
      → dispatch env from now m d ≡ (
          let r = process_msg env from now m d in (r.0, unicasts d.relay_addrs (set_relay m) ∷ r.1))
  unfolding dispatch send_unicast
  dispatch_forwards f r n s = ground arith

  -- The state after a foreign message without the relay flag is that of its handling.
  pub dispatch_state :
      IsForeign
      → (flags_of m).relay ≡ false
      → (dispatch env from now m d).0 ≡ (process_msg env from now m d).0
  unfolding dispatch
  dispatch_state f r = ground arith
