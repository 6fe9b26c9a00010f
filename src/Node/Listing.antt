-- ===== src/Node/Listing.antt =====
-- src/Node.cc: what a node tells of its topics and services, and of those that discovery knows.
pub mod Resolving
pub mod Named
use gz_transport.Common.{
  bytes, ℕ, ◌+◌, ◌-◌, ◌==◌, Bool, true, false, not, ◌&&◌, ◌||◌, Option, none, some, List, [], ◌∷◌,
  ◌++◌, any, drop_if, keep_if, is_empty, if◌then◌else◌, Text, text_eq, find_last, take, drop,
}
use gz_transport.Common.Map.{Map, lookup_list}
use gz_transport.TopicStorage.{TopicStorage, publishers, publishers_by_node, topic_list}
use gz_transport.TopicUtils.{fully_qualified_name, decompose_fully_qualified_topic}
use gz_transport.Publisher.{
  MessagePublisher, MessageOptions, ServicePublisher, new_message_publisher, message_publisher_eq,
  service_publisher_eq,
}
use gz_transport.NodeOptions.{NodeOptions, advertised_name, unadvertised_name}
use gz_transport.Discovery.{Wire, Env, Effect, Discovery, wire_publishes, advertise_pub}
use gz_transport.Discovery.Instances.{message_wire, service_wire}
use gz_transport.NodeShared.{Process}
use gz_transport.NodeShared.Subscribers.{HandlerWrapper, convert}
use gz_transport.Node.{Node}

module _ {A : Type 0} (eq : A → A → Bool) where
  -- `push_back` of what `std::find` does not find in the output, one by one.
  unfoldable pub collect : List A → List A → List A
  collect out [] = out
  collect out (x ∷ xs) = collect (if any (λ q. eq q x) out then out else out ++ x ∷ []) xs

  -- The two loops that copy the publishers of a topic.
  unfoldable collect_all : List A → Map (List A) → List A
  unfolding collect
  collect_all out [] = out
  collect_all out ((u, v) ∷ m) = collect_all (collect out v) m

-- `erase(0, find_last_of("@") + 1)`
unfoldable pub without_partition : Text → Text
without_partition name = elim (find_last b'@' name) [ none ↦ name | some i ↦ drop (i + 1) name ]

unfoldable pub names_of : List Text → List Text
unfolding without_partition
names_of [] = []
names_of (t ∷ ts) = without_partition t ∷ names_of ts

abbrev pub topics_of : List MessagePublisher → List Text
topics_of [] = []
topics_of (p ∷ ps) = p.base.topic ∷ topics_of ps

-- `AdvertisedTopics`; the order, that of a hash set, is here that of the first publishers.
unfoldable pub advertised_topics : Process → Node → TopicStorage MessagePublisher → List Text
unfolding collect names_of
advertised_topics me node info = names_of (
    collect (λ t u. text_eq t u) []
      (topics_of (publishers_by_node me.own_uuid node.node_uuid info)))

unfoldable subscribed_topics : Node → Map (List Text) → List Text
unfolding names_of
subscribed_topics node subscribed = names_of (lookup_list node.node_uuid subscribed)

unfoldable advertised_services : Node → List Text
unfolding names_of
advertised_services node = names_of node.srvs_advertised

-- What `Discovery::TopicList` gives: the topics with a publisher, and the others with a remote
-- subscriber.
unfoldable known_topics : {P : Type 0} ⦃wire : Wire P⦄ → Discovery P → List Text
unfolding collect
known_topics d = collect (λ t u. text_eq t u) (topic_list d.info) (topic_list d.remote_subscribers)

-- What the loop of `TopicList` does with a name, for the partition of the node. Where the name has
-- no parts, both are empty.
unfoldable pub listed_name : Text → Text → Option Text
listed_name partition name =
    let parts : Text × Text = elim (decompose_fully_qualified_topic name) [
      | none ↦ ([], [])
      | some r ↦ r
    ] in
    if text_eq (drop 1 parts.0) partition then some parts.1 else none

unfoldable listed_names : Text → List Text → List Text
unfolding listed_name
listed_names partition [] = []
listed_names partition (t ∷ ts) = elim (listed_name partition t) [
  | none ↦ listed_names partition ts
  | some u ↦ u ∷ listed_names partition ts
]

-- `Node::TopicList`
unfoldable node_topic_list :
    Process → Node → Discovery MessagePublisher → HandlerWrapper → List Text
unfolding collect known_topics listed_names
node_topic_list me node d w = listed_names node.options.partition (
    collect (λ t u. text_eq t u) (known_topics d) (topics_of (convert me.my_address me.own_uuid w)))

-- `service.substr(1, service.find_last_of("@") - 1)`, which throws for an empty name. A length of
-- `npos - 1` or `npos` reaches the end of the name.
unfoldable service_partition : Text → Option Text
service_partition [] = none
service_partition (c ∷ s) =
    some
      (elim (find_last b'@' (c ∷ s)) [ none ↦ s | some i ↦ if i == 0 then s else take (i - 1) s ])

-- `ServiceList`, from the names that discovery knows; none where it throws.
unfoldable service_list : Text → List Text → Option (List Text)
unfolding service_partition without_partition
service_list partition [] = some []
service_list partition (s ∷ ss) = elim (service_partition s) [
  | none ↦ none
  | some p ↦ elim (service_list partition ss) [
    | none ↦ none
    | some rest ↦ some (if text_eq (drop 1 p) partition then without_partition s ∷ rest else rest)
  ]
]

-- `convert`, where there are publishers; otherwise the output stays.
unfoldable publishers_or :
    List MessagePublisher → Option (Map (List MessagePublisher)) → List MessagePublisher
unfolding collect_all
publishers_or out none = out
publishers_or out (some m) = collect_all message_publisher_eq [] m

-- `TopicInfoHelper`, on the two outputs that the caller gives.
unfoldable topic_info_helper :
    Process
    → Node
    → Discovery MessagePublisher
    → HandlerWrapper
    → Text
    → List MessagePublisher × List MessagePublisher
    → (List MessagePublisher × List MessagePublisher) × Bool
unfolding collect publishers_or
topic_info_helper me node d w topic (pubs, subs) =
    elim (fully_qualified_name node.options.partition node.options.ns topic) [
      | none ↦ ((pubs, subs), false)
      | some name ↦
          let eq = message_publisher_eq in
          let found = publishers_or pubs (publishers name d.info) in
          let remote = publishers_or subs (publishers name d.remote_subscribers) in
          let own =
            keep_if (λ p. text_eq p.base.topic name) (convert me.my_address me.own_uuid w) in
          ((found, collect eq remote own), true)
    ]

-- `AllTopicInfo`, from the names of `TopicList` on.
unfoldable all_topic_info :
    Process
    → Node
    → Discovery MessagePublisher
    → HandlerWrapper
    → List Text
    → List (Text × List MessagePublisher × List MessagePublisher) × Bool
unfolding topic_info_helper
all_topic_info me node d w [] = ([], true)
all_topic_info me node d w (t ∷ ts) =
    let (info, ok) = topic_info_helper me node d w t ([], []) in
    let (rest, ok') = all_topic_info me node d w ts in
    if ok then ((t, info.0, info.1) ∷ rest, ok') else ([], false)

-- `ServiceInfo`, on the output that the caller gives.
unfoldable service_info :
    Node → Discovery ServicePublisher → Text → List ServicePublisher → List ServicePublisher × Bool
unfolding collect_all
service_info node d service out =
    elim (fully_qualified_name node.options.partition node.options.ns service) [
      | none ↦ (out, false)
      | some name ↦ elim (publishers name d.info) [
        | none ↦ (out, false)
        | some m ↦ (collect_all service_publisher_eq [] m, true)
      ]
    ]
