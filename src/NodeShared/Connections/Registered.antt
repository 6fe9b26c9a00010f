-- ===== src/NodeShared/Connections/Registered.antt =====
-- src/NodeShared.cc: how a subscriber registers with the process of a publisher, and how that
-- process forgets it.
use gz_transport.Common.{
  ◌≡◌, refl, ap, ◌∙◌, inl, inr, true, false, ◌||◌, List, [], ◌∷◌, ◌++◌, any, if◌then◌else◌, Text,
  text_eq, text_eq_refl, arith, Option-cases, any-append,
}
use gz_transport.Common.Within.{In, Within-back}
use gz_transport.Common.Map.{Map, lookup, contains, lookup_list}
use gz_transport.TopicStorage.{
  TopicStorage, add_publisher, has_publisher, serves_type, any_proc_serves, has_topic_type,
}
use gz_transport.TopicStorage.Contents.{stored, known, add_publisher-stored}
use gz_transport.Publisher.{MessagePublisher}
use gz_transport.Publisher.Travel.{travelled}
use gz_transport.Discovery.{wire_publishes}
use gz_transport.Discovery.Instances.{message_wire}
use gz_transport.NodeShared.{Process}
use gz_transport.NodeShared.Subscribers.{has_subscriber, node_uuids}
use gz_transport.NodeShared.Connections.{
  Subscriptions, Ask, connect_subscriber, filter_in, register_with, asks_of, registration,
  on_new_connection, on_new_registration,
}

module _ {A : Type 0} where
  asks_of-append :
      (f : A → Ask) (xs ys : List A) → asks_of f (xs ++ ys) ≡ asks_of f xs ++ asks_of f ys
  asks_of-append f [] ys = refl
  asks_of-append f (x ∷ xs) ys = ap (λ l. f x ∷ l) (asks_of-append f xs ys)

  pub In-asks_of : (f : A → Ask) (x : A) (xs : List A) → In x xs → In (f x) (asks_of f xs)
  In-asks_of f x xs (v, w, e) =
      (asks_of f v, asks_of f w, ap (asks_of f) e ∙ asks_of-append f v (x ∷ w))

module _ {P : Type 0} (msg_type_name : P → Text) where
  any_proc-serves :
      (type u : Text) (m : Map (List P))
      → any (serves_type msg_type_name type) (lookup_list u m) ≡ true
      → any_proc_serves msg_type_name type m ≡ true
  unfolding any_proc_serves lookup_list lookup
  any_proc-serves type u [] h = cc
  any_proc-serves type u ((j, v) ∷ m) h = ground (arith, any_proc-serves type u m)

  -- A storage with a publisher of the type, in any process, has the topic with that type.
  pub has_topic_type-stored :
      (t u type : Text) (s : TopicStorage P)
      → any (serves_type msg_type_name type) (stored s t u) ≡ true
      → has_topic_type msg_type_name t type s ≡ true
  unfolding has_topic_type contains lookup_list
  has_topic_type-stored t u type s h = elim (Option-cases (lookup t s)) [
    | inl e ↦ ground (arith, any_proc-serves type u [])
    | inr (m, e) ↦ ground (arith, any_proc-serves type u m)
  ]

module _ {Msg : Type 0} where
  asks-registration :
      (me : Process) (p : MessagePublisher) (n : Text) (s : Subscriptions Msg)
      → me.is_zeromq ≡ true
      → has_subscriber p.base.topic s.local_subscribers ≡ true
      → text_eq me.own_uuid p.base.p_uuid ≡ false
      → In n (node_uuids p.base.topic p.msg_type_name s.local_subscribers)
      → In (register_with (registration me p n)) (on_new_connection me p s).1
  unfolding on_new_connection
  asks-registration me p n s z wanted other found =
      let nodes = node_uuids p.base.topic p.msg_type_name s.local_subscribers in
      let asks = asks_of (λ n. register_with (registration me p n)) nodes in
      let first =
        if has_publisher p.base.addr s.connections
        then []
        else connect_subscriber p.base.addr ∷ [] in
      let ask = register_with (registration me p n) in
      let asked = In-asks_of (λ n. register_with (registration me p n)) n nodes found in
      rw (z, wanted, other)
        (Within-back (ask ∷ []) first (filter_in p.base.topic ∷ asks)
          (Within-back (ask ∷ []) (filter_in p.base.topic ∷ []) asks asked))

  -- When a process that subscribes to a topic discovers a publisher of another process, it asks
  -- discovery to register each of its nodes that has a handler for the publisher's type. As
  -- discovery delivers the registration, the process of the publisher stores it, unless it knew
  -- the node already, and then has a remote subscriber for the topic and type; every process with
  -- another UUID discards it.
  pub connection-registers :
      (me peer third : Process) (p : MessagePublisher) (n : Text) (s t u : Subscriptions Msg)
      → let r = travelled (registration me p n) in
        me.is_zeromq ≡ true
        → has_subscriber p.base.topic s.local_subscribers ≡ true
        → text_eq me.own_uuid p.base.p_uuid ≡ false
        → In n (node_uuids p.base.topic p.msg_type_name s.local_subscribers)
        → text_eq p.base.p_uuid peer.own_uuid ≡ true
        → known t.remote_subscribers r ≡ false
        → text_eq p.base.p_uuid third.own_uuid ≡ false
        → let remote = (on_new_registration peer r t).remote_subscribers in
          In (register_with (registration me p n)) (on_new_connection me p s).1
          × (stored remote p.base.topic me.own_uuid
              ≡ stored t.remote_subscribers p.base.topic me.own_uuid ++ r ∷ [])
          × (has_topic_type (λ q. q.msg_type_name) p.base.topic p.msg_type_name remote ≡ true)
          × (on_new_registration third r u ≡ u)
  unfolding on_new_registration registration serves_type
  connection-registers me peer third p n s t u z wanted other found here new away =
      let r = travelled (registration me p n) in
      let before = stored t.remote_subscribers p.base.topic me.own_uuid in
      let added : stored (add_publisher r t.remote_subscribers).0 p.base.topic me.own_uuid
          ≡ before ++ r ∷ [] =
        (add_publisher-stored r t.remote_subscribers p.base.topic me.own_uuid).1
        ∙ rw (new, text_eq_refl p.base.topic, text_eq_refl me.own_uuid) refl in
      let serves = serves_type (λ (q : MessagePublisher). q.msg_type_name) p.msg_type_name in
      let last : any serves before || any serves (r ∷ []) ≡ true =
        ground (arith, text_eq_refl p.msg_type_name) in
      rw (here, away)
        (
          asks-registration me p n s z wanted other found,
          added,
          has_topic_type-stored (λ q. q.msg_type_name) p.base.topic me.own_uuid p.msg_type_name
              (add_publisher r t.remote_subscribers).0
              (ap (any serves) added ∙ any-append serves before (r ∷ []) ∙ last),
          refl,
        )
