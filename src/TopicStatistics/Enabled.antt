-- ===== src/TopicStatistics/Enabled.antt =====
-- The statistics of topics in the shared object of a process (src/NodeShared.cc): the numbers that
-- Publish sends along, what RecvMsgUpdate does with them, TopicStats and EnableStats.
pub mod Received
use gz_transport.Common.{ℕ, ◌+◌, ◌%◌, ◌^◌, Bool, Option, none, some, if◌then◌else◌, Text}
use gz_transport.Common.Map.{Map, lookup, insert, erase, contains}
use gz_transport.TopicStatistics.{Doubles, Statistics, TopicStatistics, update}

-- `PublicationMetadata`
pub record PublicationMetadata : Type 0 where
  pub stamp : ℕ
  pub seq : ℕ

-- The members of NodeSharedPrivate for statistics; a callback is a `C`.
pub record StatisticsTable (C D : Type 0) : Type 0 where
  pub topic_pub_seq : Map ℕ
  pub topic_stats : Map (TopicStatistics D)
  pub enabled_topic_statistics : Map C

module _ {C D : Type 0} where
  -- The part of `Publish`: the metadata that goes with a message, at a time of the steady clock.
  unfoldable pub next_metadata :
      Text → ℕ → StatisticsTable C D → StatisticsTable C D × PublicationMetadata
  next_metadata topic now t =
      let n : ℕ = elim (lookup topic t.topic_pub_seq) [ none ↦ 0 | some k ↦ k ] in
      (
        record t { topic_pub_seq = insert topic ((n + 1) % 2 ^ 64) t.topic_pub_seq },
        record { stamp = now; seq = n },
      )

  -- `EnableStats`; `insert` keeps a callback that is there.
  unfoldable pub enable_stats : Text → Bool → C → StatisticsTable C D → StatisticsTable C D
  enable_stats topic enable cb t =
      if enable
      then (if contains topic t.enabled_topic_statistics
          then t
          else record t { enabled_topic_statistics = insert topic cb t.enabled_topic_statistics })
      else record t { enabled_topic_statistics = erase topic t.enabled_topic_statistics }

  -- `TopicStats`
  unfoldable pub stats_of_topic : Text → StatisticsTable C D → Option (TopicStatistics D)
  stats_of_topic topic t = lookup topic t.topic_stats

module _ {C D : Type 0} ⦃doubles : Doubles D⦄ where
  -- The part of `RecvMsgUpdate`, with the callback and what it is called with. `fresh` are the
  -- statistics without a sample.
  unfoldable pub on_metadata :
      TopicStatistics D
      → ℕ
      → Text
      → Text
      → PublicationMetadata
      → StatisticsTable C D
      → StatisticsTable C D × Option (C × TopicStatistics D)
  on_metadata fresh now topic sender m t = elim (lookup topic t.enabled_topic_statistics) [
    | none ↦ (t, none)
    | some cb ↦
        let old : TopicStatistics D = elim (lookup topic t.topic_stats) [
          | none ↦ fresh
          | some s ↦ s
        ] in
        let new = update now sender m.stamp m.seq old in
        (record t { topic_stats = insert topic new t.topic_stats }, some (cb, new))
  ]
