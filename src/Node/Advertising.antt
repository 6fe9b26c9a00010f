-- ===== src/Node/Advertising.antt =====
-- src/Node.cc: how a node advertises a topic.
pub mod Once
mod Tests
use gz_transport.Common.{
  bytes, not, Option, none, some, List, [], any, if◌then◌else◌, Text, text_eq,
}
use gz_transport.TopicUtils.{decompose_fully_qualified_topic}
use gz_transport.Publisher.{MessagePublisher, MessageOptions, new_message_publisher}
use gz_transport.NodeOptions.{advertised_name}
use gz_transport.Discovery.{Env, Effect, Discovery, wire_publishes, advertise_pub}
use gz_transport.Discovery.Instances.{message_wire, service_wire}
use gz_transport.NodeShared.{Process}
use gz_transport.Node.{Node}
use gz_transport.Node.Listing.{advertised_topics}

-- `Advertise` of a topic: the publisher of the new `Node::Publisher`, or none for the empty one.
unfoldable pub advertise_topic :
    Env
    → Process
    → Node
    → Text
    → Text
    → MessageOptions
    → Discovery MessagePublisher
    → Discovery MessagePublisher × List (Effect MessagePublisher) × Option MessagePublisher
unfolding advertised_name advertised_topics advertise_pub
advertise_topic env me node topic type opts d = elim (advertised_name topic node.options) [
  | none ↦ (d, [], none)
  | some name ↦ elim (decompose_fully_qualified_topic name) [
    | none ↦ (d, [], none)
    | some parts ↦
        let p =
          new_message_publisher name me.my_address (bytes "unused") me.own_uuid node.node_uuid type
            opts in
        let (d', out, ok) = advertise_pub env p d in
        if any (λ t. text_eq t parts.1) (advertised_topics me node d.info)
        then (d, [], none)
        else if not me.is_zeromq
        then (d, [], none)
        else (d', out, if ok then some p else none)
  ]
]
