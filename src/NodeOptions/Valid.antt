-- ===== src/NodeOptions/Valid.antt =====
-- Which options of src/NodeOptions.cc can be reached, and the names that a node makes with them.
use gz_transport.Common.{◌≡◌, ◌≢◌, refl, true, Option, none, some, List, [], ◌∷◌, Text, arith}
use gz_transport.Common.Map.{IsSorted, AllEntries, AllEntries-insert, insert-IsSorted}
use gz_transport.TopicUtils.{is_valid_namespace, is_valid_partition, is_valid_topic, qualify_topic}
use gz_transport.TopicUtils.Qualified.{decompose-fully_qualified_name}
use gz_transport.NodeOptions.{
  NodeOptions, set_name_space, set_partition, new_node_options, assign, add_topic_remap,
  topic_remap, remapped, advertised_name, unadvertised_name,
}

-- The calls that change options.
pub data Call : Type 0 where
  sets_name_space sets_partition : Text → Call
  remaps : Text → Text → Call

pub record IsValid (o : NodeOptions) : Type 0 where
  pub ns_ok : is_valid_namespace o.ns ≡ true
  pub partition_ok : is_valid_partition o.partition ≡ true
  pub sorted : IsSorted o.topics_remap
  pub remaps_ok :
      AllEntries
        (λ from to. (is_valid_topic from ≡ true) × (is_valid_topic to ≡ true))
        o.topics_remap

unfoldable pub step : Call → NodeOptions → NodeOptions
step (sets_name_space ns) o = (set_name_space ns o).0
step (sets_partition p) o = (set_partition p o).0
step (remaps from to) o = (add_topic_remap from to o).0

unfoldable pub run : List Call → NodeOptions → NodeOptions
run [] o = o
run (c ∷ cs) o = run cs (step c o)

set_name_space-IsValid : (ns : Text) (o : NodeOptions) → IsValid o → IsValid (set_name_space ns o).0
unfolding set_name_space
set_name_space-IsValid ns o v = ground arith

set_partition-IsValid : (p : Text) (o : NodeOptions) → IsValid o → IsValid (set_partition p o).0
unfolding set_partition
set_partition-IsValid p o v = ground arith

add_topic_remap-IsValid :
    (from to : Text) (o : NodeOptions) → IsValid o → IsValid (add_topic_remap from to o).0
unfolding add_topic_remap
add_topic_remap-IsValid from to o v = ground (
  arith,
  insert-IsSorted from to o.topics_remap v.sorted,
  AllEntries-insert (λ a b. (is_valid_topic a ≡ true) × (is_valid_topic b ≡ true)) from to
      o.topics_remap,
)

step-IsValid : (c : Call) (o : NodeOptions) → IsValid o → IsValid (step c o)
unfolding step
step-IsValid (sets_name_space ns) o v = set_name_space-IsValid ns o v
step-IsValid (sets_partition p) o v = set_partition-IsValid p o v
step-IsValid (remaps from to) o v = add_topic_remap-IsValid from to o v

run_from-IsValid : (cs : List Call) (o : NodeOptions) → IsValid o → IsValid (run cs o)
unfolding run
run_from-IsValid [] o v = v
run_from-IsValid (c ∷ cs) o v = run_from-IsValid cs (step c o) (step-IsValid c o v)

-- New options, if the default partition is valid, whatever the environment says, and after any
-- calls of the setters: the namespace and the partition are valid, and so are both topics of every
-- remapping.
pub run-new_node_options :
    (cs : List Call) (gz_partition : Option Text) (host_user : Text)
    → is_valid_partition host_user ≡ true
    → IsValid (run cs (new_node_options gz_partition host_user))
unfolding new_node_options set_partition is_valid_namespace
run-new_node_options cs none h v =
    run_from-IsValid cs _ (record { ns_ok = refl; partition_ok = v; sorted = tt; remaps_ok = tt })
run-new_node_options cs (some p) h v = run_from-IsValid cs _ (
    set_partition-IsValid p _
      (record { ns_ok = refl; partition_ok = v; sorted = tt; remaps_ok = tt }))

-- The assignment of valid options gives the same options.
pub assign_same : (other o : NodeOptions) → IsValid other → assign other o ≡ other
unfolding assign
assign_same other o v = ground arith

-- Where a topic is remapped to one with another absolute name and both names can be made, the
-- service is advertised under one name and `UnadvertiseSrv` withdraws another.
pub unadvertised_name-remapped :
    (o : NodeOptions) (from to name name' : Text)
    → topic_remap from o ≡ some to
    → qualify_topic o.ns from ≢ qualify_topic o.ns to
    → advertised_name from o ≡ some name
    → unadvertised_name from o ≡ some name'
    → name' ≢ name
unfolding advertised_name unadvertised_name remapped
unadvertised_name-remapped o from to name name' r n a u =
    let there = (decompose-fully_qualified_name o.partition o.ns to name (ground arith)).0 in
    let here = (decompose-fully_qualified_name o.partition o.ns from name' u).0 in
    λ e. n (ground (arith, e))
