-- ===== src/TopicStatistics/Nodes.antt =====
-- The statistics of topics as a node asks for them (src/Node.cc): TopicStats and EnableStats.
use gz_transport.Common.{ℕ, Bool, true, false, Option, none, some, Text, if◌then◌else◌}
use gz_transport.NodeOptions.{NodeOptions, advertised_name}
use gz_transport.Publisher.{MessageOptions, default_message_options}
use gz_transport.TopicStatistics.{Doubles, TopicStatistics, Metric, fill_metric}
use gz_transport.TopicStatistics.Enabled.{StatisticsTable, enable_stats, stats_of_topic}

module _ {D : Type 0} where
  -- `Node::TopicStats`; the callback of a node is given by the UUID of the node.
  unfoldable pub node_topic_stats :
      Text → NodeOptions → StatisticsTable Text D → Option (TopicStatistics D)
  unfolding stats_of_topic advertised_name
  node_topic_stats topic o t = elim (advertised_name topic o) [
    | none ↦ none
    | some name ↦ stats_of_topic name t
  ]

  -- `Node::EnableStats`: the table, the publisher of the statistics, where it is made, and the
  -- answer. `advertise` is `Node::Advertise` of messages of type `gz.msgs.Metric`.
  unfoldable pub node_enable_stats :
      {P : Type 0}
      → (Text → MessageOptions → P)
      → Text
      → NodeOptions
      → Text
      → Bool
      → Text
      → ℕ
      → StatisticsTable Text D
      → StatisticsTable Text D × Option P × Bool
  unfolding enable_stats advertised_name
  node_enable_stats advertise node_uuid o topic enable publication_topic rate t =
      elim (advertised_name topic o) [
        | none ↦ (t, none, false)
        | some name ↦ (
          enable_stats name enable node_uuid t,
          some (
              advertise publication_topic (record default_message_options { msgs_per_sec = rate })),
          true,
        )
      ]

module _ {D : Type 0} ⦃doubles : Doubles D⦄ where
  -- The callback: the message that it publishes, if the throttling of the publisher lets it.
  unfoldable pub statistics_callback : Bool → TopicStatistics D → Option (Metric D)
  unfolding fill_metric
  statistics_callback ready s = if ready then some (fill_metric s) else none
