-- ===== src/TopicStatistics/Tests.antt =====
-- Examples of src/TopicStatistics.cc.
use gz_transport.Common.{
  ℕ, ◌+◌, ◌-◌, ◌*◌, ◌/◌, ◌≡◌, refl, some, List, [], ◌∷◌, bytes, text_eq, min, max, arith,
}
use gz_transport.Common.Map.{lookup}
use gz_transport.TopicStatistics.{Doubles, Statistics, TopicStatistics}
use gz_transport.TopicStatistics.Enabled.{StatisticsTable, stats_of_topic}
use gz_transport.TopicStatistics.Enabled.Received.{Times, transfer, transfer-none_dropped}
use gz_transport.TopicStatistics.Gaps.{Arrival}

-- Whole numbers in the place of the floating point ones.
instance abbrev whole_numbers : Doubles ℕ
whole_numbers = record {
  from_uint64 = λ n. n;
  add = λ a b. a + b;
  subtract = λ a b. a - b;
  multiply = λ a b. a * b;
  divide = λ a b. a / b;
  square_root = λ a. a;
  least = min;
  greatest = max;
}

abbrev no_samples : Statistics ℕ
no_samples = record { count = 0; average = 0; minimum = 0; maximum = 0; sum_square_mean_dist = 0 }

abbrev heard : TopicStatistics ℕ
heard = record {
  seq = (bytes "node", 4) ∷ [];
  publication = no_samples;
  reception = no_samples;
  age = no_samples;
  dropped_msg_count = 0;
  prev_publication_stamp = 10;
  prev_reception_stamp = 12;
}

abbrev arrivals : List Arrival
arrivals =
    record { came_at = 22; stamped_at = 20; number = 5 }
    ∷ record { came_at = 52; stamped_at = 50; number = 8 }
    ∷ []

abbrev fresh : TopicStatistics ℕ
fresh = record heard { seq = []; prev_publication_stamp = 0; prev_reception_stamp = 0 }

abbrev publisher_table : StatisticsTable ℕ ℕ
publisher_table = record {
  topic_pub_seq = (bytes "/a", 7) ∷ [];
  topic_stats = [];
  enabled_topic_statistics = [];
}

abbrev subscriber_table : StatisticsTable ℕ ℕ
subscriber_table = record {
  topic_pub_seq = [];
  topic_stats = [];
  enabled_topic_statistics = (bytes "/a", 1) ∷ [];
}

abbrev later_times : List Times
later_times = (20, 23) ∷ (30, 31) ∷ []

transfer-none_dropped_example :
    (k : TopicStatistics ℕ) × ((stats_of_topic
          (bytes "/a")
          (transfer fresh
            (bytes "/a")
            (bytes "node")
            ((10, 12) ∷ later_times)
            (publisher_table, subscriber_table)).1
        ≡ some k)
      × (k.dropped_msg_count ≡ 0))
unfolding lookup text_eq
transfer-none_dropped_example =
    transfer-none_dropped fresh (bytes "/a") (bytes "node") (10, 12) later_times 1 publisher_table
      subscriber_table refl refl (refl, refl) (omega arith, (omega arith, (omega arith, tt)))
      (omega arith)
