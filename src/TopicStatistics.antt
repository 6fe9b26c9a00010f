-- ===== src/TopicStatistics.antt =====
-- src/TopicStatistics.cc: the statistics of a topic, with its count of dropped messages.
pub mod Enabled
pub mod Gaps
pub mod Nodes
mod Tests
use gz_transport.Common.{
  ℕ, ◌+◌, ◌-◌, ◌%◌, ◌^◌, ltb, ◌==◌, Bool, not, ◌&&◌, Option, none, some, List, [], ◌∷◌,
  if◌then◌else◌, Text, bytes,
}
use gz_transport.Common.Map.{Map, lookup, insert}

-- The arithmetic of `double`, with the conversion of a number of 64 bits and the two limits.
pub record Doubles (D : Type 0) : Type 0 where
  pub from_uint64 : ℕ → D
  pub add : D → D → D
  pub subtract : D → D → D
  pub multiply : D → D → D
  pub divide : D → D → D
  pub square_root : D → D
  pub least : D → D → D
  pub greatest : D → D → D

-- `Statistics`
pub record Statistics (D : Type 0) : Type 0 where
  pub count : ℕ
  pub average : D
  pub minimum : D
  pub maximum : D
  pub sum_square_mean_dist : D

-- `TopicStatisticsPrivate`
pub record TopicStatistics (D : Type 0) : Type 0 where
  pub seq : Map ℕ
  pub publication : Statistics D
  pub reception : Statistics D
  pub age : Statistics D
  pub dropped_msg_count : ℕ
  pub prev_publication_stamp : ℕ
  pub prev_reception_stamp : ℕ

-- The fields of the messages `Statistic`, `StatisticsGroup` and `Metric` that are set.
pub data StatisticType : Type 0 where
  sample_count average_type minimum_type maximum_type stddev : StatisticType

pub record Statistic (D : Type 0) : Type 0 where
  pub stat_type : StatisticType
  pub stat_name : Text
  pub value : D

pub record Metric (D : Type 0) : Type 0 where
  pub unit : Text
  pub statistics : List (Statistic D)
  pub statistics_groups : List (Text × List (Statistic D))

-- A member of 64 bits.
abbrev pub sub_uint64 : ℕ → ℕ → ℕ
sub_uint64 a b = (a + 2 ^ 64 - b) % 2 ^ 64

-- Whether a message is not the next one of its sender; `operator[]` gives 0 for a new sender.
unfoldable pub is_gap : Text → ℕ → Map ℕ → Bool
is_gap sender number m =
    let last : ℕ = elim (lookup sender m) [ none ↦ 0 | some n ↦ n ] in
    not ((last + 1) % 2 ^ 64 == number)

module _ {D : Type 0} ⦃doubles : Doubles D⦄ where
  open doubles use {from_uint64, add, subtract, multiply, divide, square_root, least, greatest}

  -- `Statistics::Update`
  unfoldable pub update_statistics : D → Statistics D → Statistics D
  update_statistics x s =
      let n = (s.count + 1) % 2 ^ 64 in
      let mean = add s.average (divide (subtract x s.average) (from_uint64 n)) in
      record {
        count = n;
        average = mean;
        minimum = least s.minimum x;
        maximum = greatest s.maximum x;
        sum_square_mean_dist =
            add s.sum_square_mean_dist (multiply (subtract x s.average) (subtract x mean));
      }

  -- `Statistics::StdDev`
  unfoldable pub std_dev : Statistics D → D
  std_dev s =
      if ltb 0 s.count
      then square_root (divide s.sum_square_mean_dist (from_uint64 s.count))
      else from_uint64 0

  -- `TopicStatistics::Update`; `now` is the time of the steady clock in milliseconds.
  unfoldable pub update : ℕ → Text → ℕ → ℕ → TopicStatistics D → TopicStatistics D
  unfolding update_statistics is_gap
  update now sender stamp number s =
      let measured = record s {
        publication =
            update_statistics (from_uint64 (sub_uint64 stamp s.prev_publication_stamp))
              s.publication;
        reception =
            update_statistics (from_uint64 (sub_uint64 now s.prev_reception_stamp)) s.reception;
        age = update_statistics (from_uint64 (sub_uint64 now stamp)) s.age;
        dropped_msg_count =
            (if is_gap sender number s.seq
              then (s.dropped_msg_count + 1) % 2 ^ 64
              else s.dropped_msg_count);
      } in
      record (if not (s.prev_publication_stamp == 0) then measured else s) {
        prev_publication_stamp = stamp;
        prev_reception_stamp = now;
        seq = insert sender number s.seq;
      }

  -- The statistics of one group, in their order.
  unfoldable pub group_of : Text → Text → Text → Text → D → Statistics D → List (Statistic D)
  unfolding std_dev
  group_of avg_name min_name max_name dev_name avg s =
      record { stat_type = average_type; stat_name = avg_name; value = avg }
      ∷ record { stat_type = minimum_type; stat_name = min_name; value = s.minimum }
      ∷ record { stat_type = maximum_type; stat_name = max_name; value = s.maximum }
      ∷ record { stat_type = stddev; stat_name = dev_name; value = std_dev s }
      ∷ []

  unfoldable pub period_group : Statistics D → List (Statistic D)
  unfolding group_of
  period_group s =
      group_of (bytes "avg_hz") (bytes "min_period") (bytes "max_period")
        (bytes "period_standard_devation") (divide (from_uint64 1000) s.average) s

  -- `FillMessage`, on an empty message.
  unfoldable pub fill_metric : TopicStatistics D → Metric D
  unfolding period_group group_of
  fill_metric s = record {
    unit = bytes "milliseconds";
    statistics =
        record {
          stat_type = sample_count;
          stat_name = bytes "dropped_message_count";
          value = from_uint64 s.dropped_msg_count;
        }
        ∷ [];
    statistics_groups =
        (bytes "publication_statistics", period_group s.publication)
        ∷ (bytes "reception_statistics", period_group s.reception)
        ∷ (
          bytes "age_statistics",
          group_of (bytes "avg_age") (bytes "min_age") (bytes "max_age")
              (bytes "age_standard_devation") s.age.average s.age,
        )
        ∷ [];
  }
