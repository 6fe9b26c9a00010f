-- ===== src/NodeOptions.antt =====
-- src/NodeOptions.cc: the partition, the namespace and the remapped topics of a node.
-- A method returns the new options beside its result; an output parameter is a result.
pub mod Valid
mod Tests
use gz_transport.Common.{
  Bool, true, false, not, ◌&&◌, ◌||◌, Option, none, some, List, [], ◌∷◌, if◌then◌else◌, Text,
}
use gz_transport.Common.Map.{Map, lookup, insert, contains}
use gz_transport.TopicUtils.{
  is_valid_namespace, is_valid_partition, is_valid_topic, fully_qualified_name,
}

pub record NodeOptions : Type 0 where
  pub ns : Text
  pub partition : Text
  pub topics_remap : Map Text

unfoldable pub set_name_space : Text → NodeOptions → NodeOptions × Bool
set_name_space ns o =
    if not (is_valid_namespace ns) then (o, false) else (record o { ns = ns }, true)

unfoldable pub set_partition : Text → NodeOptions → NodeOptions × Bool
set_partition p o =
    if not (is_valid_partition p) then (o, false) else (record o { partition = p }, true)

-- The members before a constructor's body runs. The default partition is the host's and the
-- user's name, an argument.
abbrev pub default_options : Text → NodeOptions
default_options host_user = record { ns = []; partition = host_user; topics_remap = [] }

-- The constructor; the first argument is the value of the environment variable, if it is set.
unfoldable pub new_node_options : Option Text → Text → NodeOptions
unfolding set_partition
new_node_options gz_partition host_user = elim gz_partition [
  | none ↦ default_options host_user
  | some p ↦ (set_partition p (default_options host_user)).0
]

-- The assignment of `other`.
unfoldable pub assign : NodeOptions → NodeOptions → NodeOptions
unfolding set_name_space set_partition
assign other o = record (set_partition other.partition (set_name_space other.ns o).0).0 {
  topics_remap = other.topics_remap;
}

unfoldable pub add_topic_remap : Text → Text → NodeOptions → NodeOptions × Bool
add_topic_remap from to o =
    if not (is_valid_topic from)
    then (o, false)
    else if not (is_valid_topic to)
    then (o, false)
    else if contains from o.topics_remap
    then (o, false)
    else (record o { topics_remap = insert from to o.topics_remap }, true)

-- `none` is a result of false.
unfoldable pub topic_remap : Text → NodeOptions → Option Text
topic_remap from o = lookup from o.topics_remap

-- What `TopicRemap` leaves in a variable that holds the topic.
unfoldable pub remapped : Text → NodeOptions → Text
unfolding topic_remap
remapped t o = elim (topic_remap t o) [ none ↦ t | some u ↦ u ]

-- The name under which `Node::Advertise` of a service advertises it.
unfoldable pub advertised_name : Text → NodeOptions → Option Text
unfolding remapped
advertised_name t o = fully_qualified_name o.partition o.ns (remapped t o)

-- The name that `Node::UnadvertiseSrv` withdraws: it does not use the remapped topic.
unfoldable pub unadvertised_name : Text → NodeOptions → Option Text
unadvertised_name t o = fully_qualified_name o.partition o.ns t
