-- ===== src/NodeOptions/Tests.antt =====
-- Examples of the options of src/NodeOptions.cc.
use gz_transport.Common.{
  ◌≡◌, ◌≢◌, refl, true, false, some, List, [], ◌∷◌, bytes, text_eq, text_eq_iff, has_char, has_pair,
  ends_with, pop_back, arith,
}
use gz_transport.Common.Map.{lookup}
use gz_transport.TopicUtils.{
  is_valid_namespace, is_valid_partition, is_valid_topic, fully_qualified_name, qualify_partition,
  qualify_topic, strip_slash, end_slash, front_slash,
}
use gz_transport.NodeOptions.{
  NodeOptions, topic_remap, remapped, advertised_name, unadvertised_name,
}
use gz_transport.NodeOptions.Valid.{
  Call, sets_name_space, remaps, IsValid, unadvertised_name-remapped,
}

abbrev calls : List Call
calls =
    sets_name_space (bytes "ns")
    ∷ remaps (bytes "/a") (bytes "/b")
    ∷ remaps (bytes "/a") (bytes "")
    ∷ []

abbrev options : NodeOptions
options = record {
  ns = bytes "ns";
  partition = bytes "host:user";
  topics_remap = (bytes "/a", bytes "/b") ∷ [];
}

host_valid : is_valid_partition (bytes "host:user") ≡ true
unfolding is_valid_partition is_valid_namespace text_eq has_char has_pair
host_valid = refl

options-IsValid : IsValid options
unfolding is_valid_partition is_valid_namespace is_valid_topic text_eq has_char has_pair
options-IsValid = record {
  ns_ok = refl;
  partition_ok = refl;
  sorted = tt;
  remaps_ok = ((refl, refl), tt);
}

a_remapped : topic_remap (bytes "/a") options ≡ some (bytes "/b")
unfolding topic_remap lookup text_eq
a_remapped = refl

a_advertised : advertised_name (bytes "/a") options ≡ some (bytes "@/host:user@/b")
unfolding advertised_name remapped topic_remap lookup fully_qualified_name is_valid_partition
    is_valid_namespace is_valid_topic qualify_partition qualify_topic strip_slash end_slash
    front_slash text_eq has_char has_pair ends_with pop_back
a_advertised = refl

a_unadvertised : unadvertised_name (bytes "/a") options ≡ some (bytes "@/host:user@/a")
unfolding unadvertised_name fully_qualified_name is_valid_partition is_valid_namespace
    is_valid_topic qualify_partition qualify_topic strip_slash end_slash front_slash text_eq
    has_char has_pair ends_with pop_back
a_unadvertised = refl

other_topic : qualify_topic (bytes "ns") (bytes "/a") ≢ qualify_topic (bytes "ns") (bytes "/b")
unfolding qualify_topic strip_slash ends_with text_eq
other_topic h = let e : false ≡ true = (text_eq_iff (bytes "/a") (bytes "/b")).1 h in ground arith

unadvertised_name-remapped_example : bytes "@/host:user@/a" ≢ bytes "@/host:user@/b"
unadvertised_name-remapped_example =
    unadvertised_name-remapped options (bytes "/a") (bytes "/b") (bytes "@/host:user@/b")
      (bytes "@/host:user@/a") a_remapped other_topic a_advertised a_unadvertised
