-- ===== src/Log/Descriptor.antt =====
-- log/src/Descriptor.cc: the rows of the topics of a log, by topic and type of message.
pub mod Rows
use gz_transport.Common.{none, some, List, [], ◌∷◌, Text}
use gz_transport.Common.Map.{Map, lookup, insert, lookup_list}
use gz_transport.Common.Int.{ℤ, negsuc}

pub record TopicKey : Type 0 where
  pub topic : Text
  pub type : Text

-- The two maps of the class.
pub record Descriptor : Type 0 where
  pub by_topic : Map (Map ℤ)
  pub by_type : Map (Map ℤ)

abbrev pub no_rows : Descriptor
no_rows = record { by_topic = []; by_type = [] }

-- `m[a][b] = id`
unfoldable pub put : Text → Text → ℤ → Map (Map ℤ) → Map (Map ℤ)
put a b id m = insert a (insert b id (lookup_list a m)) m

unfoldable pub reset_loop : List (TopicKey × ℤ) → Descriptor → Descriptor
unfolding put
reset_loop [] d = d
reset_loop ((key, id) ∷ columns) d = reset_loop columns (record {
  by_topic = put key.topic key.type id d.by_topic;
  by_type = put key.type key.topic id d.by_type;
})

-- `Reset`, on the rows of the topics.
unfoldable pub reset : List (TopicKey × ℤ) → Descriptor
unfolding reset_loop
reset columns = reset_loop columns no_rows

-- `TopicId`, where -1 stands for no row.
unfoldable pub topic_id : Text → Text → Descriptor → ℤ
topic_id topic type d = elim (lookup topic d.by_topic) [
  | none ↦ negsuc 0
  | some m ↦ elim (lookup type m) [ none ↦ negsuc 0 | some id ↦ id ]
]
