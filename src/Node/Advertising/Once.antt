-- ===== src/Node/Advertising/Once.antt =====
-- src/Node.cc: a node that advertises a topic again.
use gz_transport.Common.{
  ◌≡◌, refl, inl, inr, Bool, true, ◌||◌, some, none, List, [], ◌∷◌, ◌++◌, any, keep_if,
  if◌then◌else◌, Text, text_eq, text_eq_iff, text_eq_refl, arith, any-append, Option-cases,
}
use gz_transport.Common.{bytes, subst, ◌∙◌}
use gz_transport.Common.Within.{keep_if-append}
use gz_transport.NodeOptions.{advertised_name}
use gz_transport.Node.{Node}
use gz_transport.NodeShared.{Process}
use gz_transport.Discovery.{Env, Effect, Discovery, wire_publishes, advertise_pub}
use gz_transport.Discovery.Instances.{message_wire}
use gz_transport.Node.Advertising.{advertise_topic}
use gz_transport.Common.Map.{lookup, lookup_list}
use gz_transport.TopicStorage.{TopicStorage, Publishes, add_publisher, publishers_by_node}
use gz_transport.TopicStorage.Contents.{stored, add_publisher-stored}
use gz_transport.TopicUtils.{decompose_fully_qualified_topic, decompose_at}
use gz_transport.Publisher.{MessagePublisher, MessageOptions, new_message_publisher}
use gz_transport.Node.Listing.{advertised_topics, collect, names_of, without_partition, topics_of}

module _ {P : Type 0} ⦃ops : Publishes P⦄ where
  open ops use {n_uuid}

  any-publishers_by_node :
      (f : P → Bool) (t u n : Text) (s : TopicStorage P)
      → any f (keep_if (λ q. text_eq (n_uuid q) n) (stored s t u)) ≡ true
      → any f (publishers_by_node u n s) ≡ true
  unfolding publishers_by_node lookup_list lookup
  any-publishers_by_node f t u n [] h = h
  any-publishers_by_node f t u n ((t', m) ∷ s) h = ground (
    arith,
    any-append f (keep_if (λ q. text_eq (n_uuid q) n) (lookup_list u m)) (publishers_by_node u n s),
    any-publishers_by_node f t u n s,
  )

any-topics_of :
    (t : Text) (ps : List MessagePublisher)
    → any (λ q. text_eq q t) (topics_of ps) ≡ any (λ p. text_eq p.base.topic t) ps
any-topics_of t [] = refl
any-topics_of t (p ∷ ps) = ground (arith, any-topics_of t ps)

any-collect :
    (t : Text) (out ts : List Text)
    → any (λ q. text_eq q t) (collect (λ q u. text_eq q u) out ts)
      ≡ any (λ q. text_eq q t) out || any (λ q. text_eq q t) ts
unfolding collect
any-collect t out [] = ground arith
any-collect t out (u ∷ ts) = ground (
  arith,
  any-collect t (if any (λ q. text_eq q u) out then out else out ++ u ∷ []) ts,
  any-append (λ q. text_eq q t) out (u ∷ []),
  text_eq_iff u t,
)

any-names_of :
    (t : Text) (ts : List Text)
    → any (λ q. text_eq q t) ts ≡ true
    → any (λ q. text_eq q (without_partition t)) (names_of ts) ≡ true
unfolding names_of
any-names_of t [] h = h
any-names_of t (u ∷ ts) h =
    ground (arith, any-names_of t ts, text_eq_iff u t, text_eq_refl (without_partition t))

without_partition-decompose :
    (name p t : Text)
    → decompose_fully_qualified_topic name ≡ some (p, t)
    → without_partition name ≡ t
unfolding decompose_fully_qualified_topic decompose_at without_partition
without_partition-decompose name p t h = ground arith

-- A publisher of the node that the storage holds under the topic makes the topic an advertised one.
stored-advertised :
    (me : Process) (node : Node) (name p t : Text) (info : TopicStorage MessagePublisher)
    → decompose_fully_qualified_topic name ≡ some (p, t)
    → any
        (λ q. text_eq q.base.topic name)
        (keep_if (λ q. text_eq q.base.n_uuid node.node_uuid) (stored info name me.own_uuid))
      ≡ true
    → any (λ q. text_eq q t) (advertised_topics me node info) ≡ true
unfolding advertised_topics
stored-advertised me node name p t info parts held =
    let ps = publishers_by_node me.own_uuid node.node_uuid info in
    let here =
      any-publishers_by_node (λ q. text_eq q.base.topic name) name me.own_uuid node.node_uuid info
        held in
    let ts = collect (λ q u. text_eq q u) [] (topics_of ps) in
    let there : any (λ q. text_eq q name) ts ≡ true =
      any-collect name [] (topics_of ps) ∙ any-topics_of name ps ∙ here in
    subst (λ u. any (λ q. text_eq q u) (names_of ts) ≡ true)
      (without_partition-decompose name p t parts) (any-names_of name ts there)

-- A publisher that is new to the storage is then held by it.
added-held :
    (p : MessagePublisher) (info : TopicStorage MessagePublisher)
    → (add_publisher p info).1 ≡ true
    → any
        (λ q. text_eq q.base.topic p.base.topic)
        (keep_if
          (λ q. text_eq q.base.n_uuid p.base.n_uuid)
          (stored (add_publisher p info).0 p.base.topic p.base.p_uuid))
      ≡ true
added-held p info added =
    let (reports, now) = add_publisher-stored p info p.base.topic p.base.p_uuid in
    let old = stored info p.base.topic p.base.p_uuid in
    let of_node : MessagePublisher → Bool = λ q. text_eq q.base.n_uuid p.base.n_uuid in
    let of_topic : MessagePublisher → Bool = λ q. text_eq q.base.topic p.base.topic in
    let held : stored (add_publisher p info).0 p.base.topic p.base.p_uuid ≡ old ++ p ∷ [] =
      ground (arith, now, reports, added, text_eq_refl p.base.topic, text_eq_refl p.base.p_uuid) in
    rw held (
      ground (
        arith,
        keep_if-append of_node old (p ∷ []),
        any-append of_topic (keep_if of_node old) (p ∷ []),
        text_eq_refl p.base.topic,
        text_eq_refl p.base.n_uuid,
      ))

advertise_pub-adds :
    (env : Env) (p : MessagePublisher) (d : Discovery MessagePublisher)
    → (advertise_pub env p d).2 ≡ true
    → ((advertise_pub env p d).0.info ≡ (add_publisher p d.info).0)
      × ((add_publisher p d.info).1 ≡ true)
unfolding advertise_pub
advertise_pub-adds env p d h = ground arith

-- When a node advertises a topic and gets a publisher, the node does not get another one for the
-- same topic from the state that this leaves, whatever the type and the options: the second call
-- sends nothing and changes nothing.
pub advertise_topic-once :
    (env : Env) (me : Process) (node : Node) (topic type type' : Text) (opts opts' : MessageOptions)
    (d d' : Discovery MessagePublisher) (out : List (Effect MessagePublisher))
    (p : MessagePublisher)
    → advertise_topic env me node topic type opts d ≡ (d', out, some p)
    → advertise_topic env me node topic type' opts' d' ≡ (d', [], none)
unfolding advertise_topic new_message_publisher
advertise_topic-once env me node topic type type' opts opts' d d' out p h =
    elim (Option-cases (advertised_name topic node.options)) [
      | inl e ↦ absurd (ground arith)
      | inr (name, e) ↦ elim (Option-cases (decompose_fully_qualified_topic name)) [
        | inl e' ↦ absurd (ground arith)
        | inr (parts, e') ↦
            let q =
              new_message_publisher name me.my_address (bytes "unused") me.own_uuid node.node_uuid
                type opts in
            let h' = rw (e, e', advertise_topic) at h in
            let ok : (advertise_pub env q d).2 ≡ true = ground (arith, h') in
            let same : d'.info ≡ (advertise_pub env q d).0.info = ground (arith, h') in
            let (info, added) = advertise_pub-adds env q d ok in
            let seen : any (λ t. text_eq t parts.1) (advertised_topics me node d'.info) ≡ true =
              rw (same, info)
                (stored-advertised me node name parts.0 parts.1 (add_publisher q d.info).0 e'
                  (added-held q d.info added)) in
            rw (e, e', seen, advertise_topic) refl
      ]
    ]
