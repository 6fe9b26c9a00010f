-- ===== src/TopicStorage/Run.antt =====
-- Histories of calls on a storage of include/gz/transport/TopicStorage.hh.
use gz_transport.Common.{
  ◌≡◌, refl, ◌↔◌, inl, inr, true, false, List, [], ◌∷◌, is_empty, Text, arith, Option-cases,
}
use gz_transport.Common.Map.{AllEntries-lookup, first_entry, contains, lookup, lookup_list}
use gz_transport.TopicStorage.Contents.{stored}
use gz_transport.TopicStorage.Invariant.{
  IsWellFormed, IsProcs, IsVector, add_publisher-IsWellFormed, del_publisher_by_node-IsWellFormed,
  del_publishers_by_proc-IsWellFormed,
}
use gz_transport.TopicStorage.{
  Publishes, TopicStorage, add_publisher, del_publisher_by_node, del_publishers_by_proc, has_topic,
  clear,
}

-- The calls that change a storage.
pub data Call (P : Type 0) : Type 0 where
  adds : P → Call P
  dels_by_node : Text → Text → Text → Call P
  dels_by_proc : Text → Call P
  clears : Call P

first_item {ℓ} :
    {A : Type ℓ} (v : List A) → is_empty v ≡ false → (q : A) × (r : List A) × (v ≡ q ∷ r)
first_item [] h = cc
first_item (q ∷ r) h = (q, r, refl)

module _ {P : Type 0} ⦃ops : Publishes P⦄ where
  unfoldable pub step : Call P → TopicStorage P → TopicStorage P
  step (adds p) s = (add_publisher p s).0
  step (dels_by_node t u n) s = (del_publisher_by_node t u n s).0
  step (dels_by_proc u) s = (del_publishers_by_proc u s).0
  step clears s = clear s

  unfoldable pub run : List (Call P) → TopicStorage P → TopicStorage P
  run [] s = s
  run (c ∷ cs) s = run cs (step c s)

  step-IsWellFormed : (c : Call P) (s : TopicStorage P) → IsWellFormed s → IsWellFormed (step c s)
  unfolding step clear
  step-IsWellFormed (adds p) s w = add_publisher-IsWellFormed p s w
  step-IsWellFormed (dels_by_node t u n) s w = del_publisher_by_node-IsWellFormed t u n s w
  step-IsWellFormed (dels_by_proc u) s w = del_publishers_by_proc-IsWellFormed u s w
  step-IsWellFormed clears s w = record { sorted = tt; procs = tt }

  run_from-IsWellFormed :
      (cs : List (Call P)) (s : TopicStorage P) → IsWellFormed s → IsWellFormed (run cs s)
  unfolding run
  run_from-IsWellFormed [] s w = w
  run_from-IsWellFormed (c ∷ cs) s w = run_from-IsWellFormed cs (step c s) (step-IsWellFormed c s w)

  -- After any history of calls on a new storage: the topics and the processes of each topic are in
  -- key order, no vector and no map of a topic is empty, each publisher is stored under its own
  -- topic and process UUID, and no two of one list have the same address and node UUID.
  pub run-IsWellFormed : (cs : List (Call P)) → IsWellFormed (run cs [])
  run-IsWellFormed cs = run_from-IsWellFormed cs [] (record { sorted = tt; procs = tt })

  -- In a well-formed storage `HasTopic` holds exactly when a publisher of the topic is stored.
  has_topic-stored :
      (t : Text) (s : TopicStorage P)
      → IsWellFormed s
      → (has_topic t s ≡ true)
        ↔ ((u : Text) × (q : P) × (rest : List P) × (stored s t u ≡ q ∷ rest))
  unfolding has_topic contains lookup_list lookup
  has_topic-stored t s w = elim (Option-cases (lookup t s)) [
    | inl e ↦ (λ h. ground arith, λ (u, q, rest, h). ground arith)
    | inr (m, e) ↦
        let procs = AllEntries-lookup IsProcs t s m w.procs e in
        let (u, v, e') = first_entry m procs.filled in
        let (q, r, e'') =
          first_item v (AllEntries-lookup (IsVector t) u m v procs.vectors e').filled in
        (λ h. (u, q, r, ground arith), λ h. ground arith)
  ]
