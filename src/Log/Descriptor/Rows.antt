-- ===== src/Log/Descriptor/Rows.antt =====
-- log/src/Descriptor.cc: the two maps hold the same rows.
use gz_transport.Common.{
  ◌≡◌, refl, ap, ◌∙◌, ◌&&◌, Option, none, some, List, [], ◌∷◌, if◌then◌else◌, Text, text_eq, arith,
  text_eq_iff,
}
use gz_transport.Common.Map.{Map, lookup, insert, lookup_list, lookup-insert, lookup_list-insert}
use gz_transport.Common.Int.{ℤ}
use gz_transport.Log.Descriptor.{TopicKey, Descriptor, no_rows, put, reset, reset_loop}

-- The entry of a map of maps.
unfoldable pub entry : Text → Text → Map (Map ℤ) → Option ℤ
entry a b m = lookup b (lookup_list a m)

-- The row that the last of the columns gives to a topic and type, or what stood before.
unfoldable pub row_of : Text → Text → List (TopicKey × ℤ) → Option ℤ → Option ℤ
row_of topic type [] old = old
row_of topic type ((key, id) ∷ columns) old =
    row_of topic type columns
      (if text_eq key.topic topic && text_eq key.type type then some id else old)

entry-put :
    (a b c e : Text) (id : ℤ) (m : Map (Map ℤ))
    → entry c e (put a b id m) ≡ (if text_eq a c && text_eq b e then some id else entry c e m)
unfolding entry put
entry-put a b c e id m = ground (
  arith,
  lookup_list-insert a c (insert b id (lookup_list a m)) m,
  lookup-insert b e id (lookup_list a m),
  text_eq_iff a c,
)

reset_loop-entry :
    (topic type : Text) (columns : List (TopicKey × ℤ)) (d : Descriptor)
    → (entry topic type (reset_loop columns d).by_topic
        ≡ row_of topic type columns (entry topic type d.by_topic))
      × (entry type topic (reset_loop columns d).by_type
          ≡ row_of topic type columns (entry type topic d.by_type))
unfolding reset_loop row_of
reset_loop-entry topic type [] d = (refl, refl)
reset_loop-entry topic type ((key, id) ∷ columns) d =
    let d' : Descriptor = record {
      by_topic = put key.topic key.type id d.by_topic;
      by_type = put key.type key.topic id d.by_type;
    } in
    let (left, right) = reset_loop-entry topic type columns d' in
    (
      left ∙ ap (row_of topic type columns) (entry-put key.topic key.type topic type id d.by_topic),
      right
          ∙ ap (row_of topic type columns)
              (ground (arith, entry-put key.type key.topic type topic id d.by_type)),
    )

-- After `Reset` both maps give a topic and type the row of the last column for them, and none if
-- there is no column for them.
pub reset-rows :
    (topic type : Text) (columns : List (TopicKey × ℤ))
    → (entry topic type (reset columns).by_topic ≡ row_of topic type columns none)
      × (entry type topic (reset columns).by_type ≡ row_of topic type columns none)
unfolding reset entry lookup_list lookup
reset-rows topic type columns = reset_loop-entry topic type columns no_rows
