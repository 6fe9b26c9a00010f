-- ===== src/TopicStorage/Contents.antt =====
-- The abstract view of a storage, and what the insertions and look-ups of
-- include/gz/transport/TopicStorage.hh do to it.
use gz_transport.Common.{
  ◌≡◌, refl, inl, inr, Bool, true, false, not, ◌&&◌, List, [], ◌∷◌, ◌++◌, any, find, if◌then◌else◌,
  Text, text_eq, text_eq_iff, arith, Bool-cases,
}
use gz_transport.Common.Map.{
  Map, lookup, insert, contains, lookup_list, lookup-insert, lookup_list-insert, insert-insert,
}
use gz_transport.TopicStorage.{
  Publishes, TopicStorage, same_publisher, ensure_topic, add_publisher, publisher,
}

pub lookup_list-ensure_topic {ℓ} :
    {A : Type ℓ} (t q : Text) (s : Map (List A))
    → lookup_list q (ensure_topic t s) ≡ lookup_list q s
unfolding ensure_topic contains lookup_list
lookup_list-ensure_topic t q s = ground (arith, lookup-insert t q [] s, text_eq_iff t q)

pub insert-ensure_topic {ℓ} :
    {A : Type ℓ} (t : Text) (m : List A) (s : Map (List A))
    → insert t m (ensure_topic t s) ≡ insert t m s
unfolding ensure_topic
insert-ensure_topic t m s = ground (arith, insert-insert t m [] s)

module _ {P : Type 0} where
  -- The publishers that are stored for a topic and a process, in the order of their arrival.
  abbrev pub stored : TopicStorage P → Text → Text → List P
  stored s t u = lookup_list u (lookup_list t s)

  any-contains :
      (p : P → Bool) (u : Text) (m : Map (List P))
      → (contains u m && any p (lookup_list u m)) ≡ any p (lookup_list u m)
  unfolding contains lookup_list
  any-contains p u m = ground arith

module _ {P : Type 0} ⦃ops : Publishes P⦄ where
  open ops use {topic, addr, p_uuid, n_uuid}

  -- Whether `AddPublisher` finds its argument already there.
  abbrev pub known : TopicStorage P → P → Bool
  known s p = any (same_publisher p) (stored s (topic p) (p_uuid p))

  pub add_publisher_eq :
      (p : P) (s : TopicStorage P)
      → add_publisher p s ≡ (
          let s' = ensure_topic (topic p) s in
          if known s p then (s', false) else (
            insert
                (topic p)
                (insert
                  (p_uuid p)
                  (stored s (topic p) (p_uuid p) ++ p ∷ [])
                  (lookup_list (topic p) s))
                s',
            true,
          ))
  unfolding add_publisher
  add_publisher_eq p s =
      rw
        (
          lookup_list-ensure_topic (topic p) (topic p) s,
          any-contains (same_publisher p) (p_uuid p) (lookup_list (topic p) s),
        )
        refl

  -- `AddPublisher` reports true exactly when no publisher of the same topic and process has its
  -- address and its node UUID; then the publisher goes to the end of that topic and process's
  -- list, and every other list stays; if it reports false, every list stays.
  pub add_publisher-stored :
      (p : P) (s : TopicStorage P) (t u : Text)
      → ((add_publisher p s).1 ≡ not (known s p))
        × (stored (add_publisher p s).0 t u ≡ (
            if not (known s p) && (text_eq (topic p) t && text_eq (p_uuid p) u)
            then stored s t u ++ p ∷ []
            else stored s t u))
  add_publisher-stored p s t u = elim (Bool-cases (known s p)) [
    | inl k ↦ rw (add_publisher_eq p s, k) (refl, rw lookup_list-ensure_topic)
    | inr k ↦
        rw (add_publisher_eq p s, k)
          (
            refl,
            ground (
              arith,
              lookup_list-insert (topic p) t
                  (insert (p_uuid p) (stored s (topic p) (p_uuid p) ++ p ∷ [])
                    (lookup_list (topic p) s))
                  (ensure_topic (topic p) s),
              lookup_list-ensure_topic (topic p) t s,
              lookup_list-insert (p_uuid p) u (stored s (topic p) (p_uuid p) ++ p ∷ [])
                  (lookup_list (topic p) s),
              text_eq_iff (topic p) t,
              text_eq_iff (p_uuid p) u,
            ),
          )
  ]

  -- `Publisher` finds the first publisher of the topic and process with the node's UUID.
  pub publisher_eq :
      (t u n : Text) (s : TopicStorage P)
      → publisher t u n s ≡ find (λ q. text_eq (n_uuid q) n) (stored s t u)
  unfolding publisher lookup_list lookup
  publisher_eq t u n s = ground arith
