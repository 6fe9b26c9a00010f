-- ===== src/TopicStatistics/Enabled/Received.antt =====
-- src/NodeShared.cc: the count of dropped messages when every message of a publisher arrives.
use gz_transport.Common.{
  ℕ, ◌+◌, ◌%◌, ◌^◌, ◌<◌, ◌≡◌, refl, ap, subst, ◌∙◌, none, some, List, [], ◌∷◌, length, Text,
  text_eq_refl, arith, Option-cases, inl, inr,
}
use gz_transport.Common.Map.{Map, lookup, insert, lookup-insert}
use gz_transport.TopicStatistics.{Doubles, TopicStatistics, update}
use gz_transport.TopicStatistics.Gaps.{Arrival, update-dropped}
use gz_transport.TopicStatistics.Enabled.{
  PublicationMetadata, StatisticsTable, next_metadata, on_metadata, stats_of_topic,
}

-- A message goes out and comes in, at two times.
abbrev pub Times : Type 0
Times = ℕ × ℕ

after_insert : {V : Type 0} (k : Text) (v : V) (m : Map V) → lookup k (insert k v m) ≡ some v
after_insert k v m = lookup-insert k k v m ∙ rw (text_eq_refl k) refl

-- The next number of a publisher for a topic.
abbrev pub next_number : {C D : Type 0} → Text → StatisticsTable C D → ℕ
next_number topic t = elim (lookup topic t.topic_pub_seq) [ none ↦ 0 | some k ↦ k ]

next_number-insert :
    {C D : Type 0} (topic : Text) (n : ℕ) (t : StatisticsTable C D)
    → next_number topic
        (record t { topic_pub_seq = insert topic ((n + 1) % 2 ^ 64) t.topic_pub_seq })
      ≡ (n + 1) % 2 ^ 64
next_number-insert topic n t =
    ap (λ o. elim o [ none ↦ 0 | some k ↦ k ])
      (after_insert topic ((n + 1) % 2 ^ 64) t.topic_pub_seq)

abbrev pub AllSent : List Times → Type 0
AllSent [] = Unit {0}
AllSent ((sent, came) ∷ times) = (0 < sent) × AllSent times

module _ {C D : Type 0} ⦃doubles : Doubles D⦄ (fresh : TopicStatistics D) where
  -- A publisher's table and a subscriber's, after some messages of a topic.
  unfoldable pub transfer :
      Text
      → Text
      → List Times
      → StatisticsTable C D × StatisticsTable C D
      → StatisticsTable C D × StatisticsTable C D
  transfer topic sender [] tables = tables
  transfer topic sender ((sent, came) ∷ times) (p, s) =
      let (p', m) = next_metadata topic sent p in
      transfer topic sender times (p', (on_metadata fresh came topic sender m s).0)

  -- The subscriber knows the last number of the publisher, and has counted no message.
  abbrev IsUpToDate : Text → Text → ℕ → StatisticsTable C D × StatisticsTable C D → Type 0
  IsUpToDate topic sender n (p, s) =
      (next_number topic p ≡ n + 1)
      × ((k : TopicStatistics D) × ((lookup topic s.topic_stats ≡ some k)
            × ((k.dropped_msg_count ≡ 0)
                × ((lookup sender k.seq ≡ some n) × (0 < k.prev_publication_stamp)))))

  transfer-step :
      (topic sender : Text) (sent came n : ℕ) (cb : C) (p s : StatisticsTable C D)
      → lookup topic s.enabled_topic_statistics ≡ some cb
      → n + 2 < 2 ^ 64
      → 0 < sent
      → IsUpToDate topic sender n (p, s)
      → let (p', m) = next_metadata topic sent p in
        IsUpToDate topic sender (n + 1) (p', (on_metadata fresh came topic sender m s).0)
  unfolding next_metadata on_metadata
  transfer-step topic sender sent came n cb p s on small stamped
        (counter, (k, (known, (zero_, (last, old))))) =
      let number_ = next_number topic p in
      let a : Arrival = record { came_at = came; stamped_at = sent; number = number_ } in
      let (count_, (last', stamp')) =
        update-dropped sender a n k old last (omega arith) (omega arith) in
      let new = update came sender sent number_ k in
      rw (on_metadata, on, known)
        (
          next_number-insert topic number_ p ∙ omega (arith, counter),
          (
            new,
            (
              after_insert topic new s.topic_stats,
              (
                ground (arith, count_, zero_, counter),
                (last' ∙ ap (λ q. some q) counter, omega (arith, stamp')),
              ),
            ),
          ),
        )

  -- The first message that the statistics see.
  first-step :
      (topic sender : Text) (sent came : ℕ) (cb : C) (p s : StatisticsTable C D)
      → lookup topic s.enabled_topic_statistics ≡ some cb
      → lookup topic s.topic_stats ≡ none
      → fresh.prev_publication_stamp ≡ 0
      → fresh.dropped_msg_count ≡ 0
      → next_number topic p + 1 < 2 ^ 64
      → 0 < sent
      → let (p', m) = next_metadata topic sent p in
        IsUpToDate topic sender
          (next_number topic p)
          (p', (on_metadata fresh came topic sender m s).0)
  unfolding next_metadata on_metadata update
  first-step topic sender sent came cb p s on unseen blank none_ small stamped =
      let n = next_number topic p in
      let new = update came sender sent n fresh in
      rw (next_metadata, on_metadata, on, unseen)
        (
          next_number-insert topic n p ∙ omega arith,
          (
            new,
            (
              after_insert topic new s.topic_stats,
              (ground (arith, blank, none_), (after_insert sender n fresh.seq, stamped)),
            ),
          ),
        )

  -- The statistics stay enabled.
  stays_on :
      (came : ℕ) (topic sender : Text) (m : PublicationMetadata) (s : StatisticsTable C D)
      → (on_metadata fresh came topic sender m s).0.enabled_topic_statistics
        ≡ s.enabled_topic_statistics
  unfolding on_metadata
  stays_on came topic sender m s = elim (Option-cases (lookup topic s.enabled_topic_statistics)) [
    | inl e ↦ rw (on_metadata, e) refl
    | inr (cb, e) ↦ rw (on_metadata, e) refl
  ]

  transfer-IsUpToDate :
      (topic sender : Text) (times : List Times) (n : ℕ) (cb : C) (p s : StatisticsTable C D)
      → lookup topic s.enabled_topic_statistics ≡ some cb
      → AllSent times
      → n + length times + 1 < 2 ^ 64
      → IsUpToDate topic sender n (p, s)
      → IsUpToDate topic sender (n + length times) (transfer topic sender times (p, s))
  unfolding transfer
  transfer-IsUpToDate topic sender [] n cb p s on sent small h =
      let e : n + 0 ≡ n = omega arith in rw e h
  transfer-IsUpToDate topic sender ((sent, came) ∷ times) n cb p s on (stamped, all_sent) small h =
      let (p', m) = next_metadata topic sent p in
      let s' = (on_metadata fresh came topic sender m s).0 in
      let on' = ap (lookup topic) (stays_on came topic sender m s) ∙ on in
      let h' = transfer-step topic sender sent came n cb p s on (omega arith) stamped h in
      let e : n + 1 + length times ≡ n + length ((sent, came) ∷ times) = omega arith in
      subst (λ k. IsUpToDate topic sender k (transfer topic sender times (p', s'))) e
        (transfer-IsUpToDate topic sender times (n + 1) cb p' s' on' all_sent (omega arith) h')

  -- When a subscriber with statistics for a topic, and none yet, gets every message that a publisher
  -- sends of it, in order, its statistics have counted no dropped message; the times of sending are
  -- not 0, and the numbers stay below 2^64.
  pub transfer-none_dropped :
      (topic sender : Text) (first : Times) (times : List Times) (cb : C)
      (p s : StatisticsTable C D)
      → lookup topic s.enabled_topic_statistics ≡ some cb
      → lookup topic s.topic_stats ≡ none
      → (fresh.prev_publication_stamp ≡ 0) × (fresh.dropped_msg_count ≡ 0)
      → AllSent (first ∷ times)
      → next_number topic p + length times + 1 < 2 ^ 64
      → (k : TopicStatistics D) × ((stats_of_topic topic
              (transfer topic sender (first ∷ times) (p, s)).1
            ≡ some k)
          × (k.dropped_msg_count ≡ 0))
  unfolding transfer stats_of_topic
  transfer-none_dropped topic sender (sent, came) times cb p s on unseen (blank, none_)
        (stamped, later) small =
      let n = next_number topic p in
      let (p', m) = next_metadata topic sent p in
      let s' = (on_metadata fresh came topic sender m s).0 in
      let h =
        first-step topic sender sent came cb p s on unseen blank none_ (omega arith) stamped in
      let on' = ap (lookup topic) (stays_on came topic sender m s) ∙ on in
      let (counter, (k, (known, (zero_, rest)))) =
        transfer-IsUpToDate topic sender times n cb p' s' on' later (omega arith) h in
      (k, (known, zero_))
