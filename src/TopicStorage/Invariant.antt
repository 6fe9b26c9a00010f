-- ===== src/TopicStorage/Invariant.antt =====
-- The invariant of include/gz/transport/TopicStorage.hh: no empty container is stored, every
-- publisher stands under its own topic and process, and no two of one list are the same.
use gz_transport.Common.{
  ◌≡◌, refl, inl, inr, Bool, true, false, not, List, [], ◌∷◌, ◌++◌, All, All-append, All-keep_if,
  any, any-append, keep_if, is_empty, Text, text_eq, arith, Bool-cases, Option-cases,
}
use gz_transport.Common.Map.{
  Map, IsSorted, AllEntries, AllEntries-insert, AllEntries-erase, AllEntries-lookup, lookup, insert,
  erase, contains, lookup_list, insert-IsSorted, erase-IsSorted, IsSorted-of_Above,
}
use gz_transport.TopicStorage.Removal.{Above-del_proc_loop}
use gz_transport.TopicStorage.Contents.{known, add_publisher_eq, insert-ensure_topic}
use gz_transport.TopicStorage.{
  Publishes, TopicStorage, same_publisher, ensure_topic, add_publisher, put_back,
  del_publisher_by_node, del_proc_loop, del_publishers_by_proc,
}

module _ {P : Type 0} ⦃ops : Publishes P⦄ where
  open ops use {topic, addr, p_uuid, n_uuid}

  -- No later publisher repeats the address and node of an earlier one.
  abbrev pub Distinct : List P → Type 0
  Distinct [] = Unit {0}
  Distinct (x ∷ v) = (any (λ y. same_publisher y x) v ≡ false) × Distinct v

  -- A stored vector of a topic and process.
  pub record IsVector (t u : Text) (v : List P) : Type 0 where
    pub filled : is_empty v ≡ false
    pub placed : All (λ q. (topic q ≡ t) × (p_uuid q ≡ u)) v
    pub distinct : Distinct v

  -- A stored map of a topic.
  pub record IsProcs (t : Text) (m : Map (List P)) : Type 0 where
    pub filled : is_empty m ≡ false
    pub sorted : IsSorted m
    pub vectors : AllEntries (IsVector t) m

  pub record IsWellFormed (s : TopicStorage P) : Type 0 where
    pub sorted : IsSorted s
    pub procs : AllEntries IsProcs s

  Distinct-append :
      (p : P) (v : List P) → Distinct v → any (same_publisher p) v ≡ false → Distinct (v ++ p ∷ [])
  Distinct-append p [] d h = (refl, tt)
  Distinct-append p (x ∷ v) d h = (
    rw (any-append (λ y. same_publisher y x) v (p ∷ [])) (ground arith),
    Distinct-append p v d.1 (ground arith),
  )

  any-keep_if : (f p : P → Bool) (v : List P) → any f v ≡ false → any f (keep_if p v) ≡ false
  any-keep_if f p [] h = refl
  any-keep_if f p (x ∷ v) h = ground (arith, any-keep_if f p v)

  Distinct-keep_if : (p : P → Bool) (v : List P) → Distinct v → Distinct (keep_if p v)
  Distinct-keep_if p [] d = tt
  Distinct-keep_if p (x ∷ v) d =
      ground (arith, Distinct-keep_if p v d.1, any-keep_if (λ y. same_publisher y x) p v d.0)

is_empty-append {ℓ} : {A : Type ℓ} (v : List A) (a : A) → is_empty (v ++ a ∷ []) ≡ false
is_empty-append [] a = refl
is_empty-append (x ∷ v) a = refl

pub is_empty-insert {ℓ} :
    {V : Type ℓ} (k : Text) (v : V) (m : Map V) → is_empty (insert k v m) ≡ false
unfolding insert
is_empty-insert k v [] = refl
is_empty-insert k v ((j, w) ∷ m) = ground arith

put_back-IsSorted {ℓ} :
    {A : Type ℓ} (k : Text) (v : List A) (m : Map (List A)) → IsSorted m → IsSorted (put_back k v m)
unfolding put_back
put_back-IsSorted k [] m h = erase-IsSorted k m h
put_back-IsSorted k (x ∷ v) m h = insert-IsSorted k (x ∷ v) m h

pub AllEntries-put_back {ℓ κ} :
    {A : Type ℓ} (Q : Text → List A → Type κ) (k : Text) (v : List A) (m : Map (List A))
    → (is_empty v ≡ false → Q k v)
    → AllEntries Q m
    → AllEntries Q (put_back k v m)
unfolding put_back
AllEntries-put_back Q k [] m q h = AllEntries-erase Q k m h
AllEntries-put_back Q k (x ∷ v) m q h = AllEntries-insert Q k (x ∷ v) m (q refl) h

module _ {P : Type 0} ⦃ops : Publishes P⦄ where
  open ops use {topic, addr, p_uuid, n_uuid}

  -- What holds of the list read under a key that may be absent.
  looked_up :
      (t u : Text) (m : Map (List P))
      → AllEntries (IsVector t) m
      → All (λ q. (topic q ≡ t) × (p_uuid q ≡ u)) (lookup_list u m) × Distinct (lookup_list u m)
  unfolding lookup_list
  looked_up t u m h = elim (Option-cases (lookup u m)) [
    | inl e ↦ rw (e, lookup_list) (tt, tt)
    | inr (v, e) ↦
        let w = AllEntries-lookup (IsVector t) u m v h e in
        rw (e, lookup_list) (w.placed, w.distinct)
  ]

  procs_of :
      (t : Text) (s : TopicStorage P)
      → AllEntries IsProcs s
      → IsSorted (lookup_list t s) × AllEntries (IsVector t) (lookup_list t s)
  unfolding lookup_list
  procs_of t s h = elim (Option-cases (lookup t s)) [
    | inl e ↦ rw (e, lookup_list) (tt, tt)
    | inr (m, e) ↦
        let w = AllEntries-lookup IsProcs t s m h e in rw (e, lookup_list) (w.sorted, w.vectors)
  ]

  ensure_topic-known :
      (p : P) (s : TopicStorage P) → known s p ≡ true → ensure_topic (topic p) s ≡ s
  unfolding ensure_topic contains lookup_list lookup
  ensure_topic-known p s h = ground arith

  -- `AddPublisher` keeps the invariant.
  pub add_publisher-IsWellFormed :
      (p : P) (s : TopicStorage P) → IsWellFormed s → IsWellFormed (add_publisher p s).0
  add_publisher-IsWellFormed p s w = elim (Bool-cases (known s p)) [
    | inl k ↦ rw (add_publisher_eq p s, k, ensure_topic-known p s k) w
    | inr k ↦
        let m = lookup_list (topic p) s in
        let v = lookup_list (p_uuid p) m in
        let (sorted, vectors) = procs_of (topic p) s w.procs in
        let (placed, distinct) = looked_up (topic p) (p_uuid p) m vectors in
        let vector : IsVector (topic p) (p_uuid p) (v ++ p ∷ []) = record {
          filled = is_empty-append v p;
          placed = All-append _ v (p ∷ []) placed ((refl, refl), tt);
          distinct = Distinct-append p v distinct k;
        } in
        let procs : IsProcs (topic p) (insert (p_uuid p) (v ++ p ∷ []) m) = record {
          filled = is_empty-insert (p_uuid p) _ m;
          sorted = insert-IsSorted (p_uuid p) _ m sorted;
          vectors = AllEntries-insert _ (p_uuid p) _ m vector vectors;
        } in
        rw (add_publisher_eq p s, k, insert-ensure_topic (topic p) _ s)
          (record {
            sorted = insert-IsSorted (topic p) _ s w.sorted;
            procs = AllEntries-insert _ (topic p) _ s procs w.procs;
          })
  ]

  -- `DelPublisherByNode` keeps the invariant.
  pub del_publisher_by_node-IsWellFormed :
      (t u n : Text) (s : TopicStorage P)
      → IsWellFormed s
      → IsWellFormed (del_publisher_by_node t u n s).0
  unfolding del_publisher_by_node
  del_publisher_by_node-IsWellFormed t u n s w = elim (Option-cases (lookup t s)) [
    | inl e ↦ rw (e, del_publisher_by_node) w
    | inr (m, e) ↦ elim (Option-cases (lookup u m)) [
      | inl e' ↦ rw (e, e', del_publisher_by_node) w
      | inr (v, e') ↦
          let procs = AllEntries-lookup IsProcs t s m w.procs e in
          let vector = AllEntries-lookup (IsVector t) u m v procs.vectors e' in
          let keeps = λ (q : P). not (text_eq (n_uuid q) n) in
          rw (e, e', del_publisher_by_node)
            (record {
              sorted = put_back-IsSorted t _ s w.sorted;
              procs =
                  AllEntries-put_back _ t _ s
                    (λ f. record {
                      filled = f;
                      sorted = put_back-IsSorted u _ m procs.sorted;
                      vectors =
                          AllEntries-put_back _ u _ m
                            (λ g. record {
                              filled = g;
                              placed = All-keep_if _ keeps v vector.placed;
                              distinct = Distinct-keep_if keeps v vector.distinct;
                            })
                            procs.vectors;
                    })
                    w.procs;
            })
    ]
  ]

  loop-IsProcs :
      (u : Text) (s : TopicStorage P)
      → AllEntries IsProcs s
      → AllEntries IsProcs (del_proc_loop u s).0
  unfolding del_proc_loop
  loop-IsProcs u [] h = tt
  loop-IsProcs u ((t, m) ∷ s) h = elim (Bool-cases (is_empty (erase u m))) [
    | inl e ↦ rw (e, del_proc_loop) (loop-IsProcs u s h.1)
    | inr e ↦
        rw (e, del_proc_loop)
          (
            record {
              filled = e;
              sorted = erase-IsSorted u m h.0.sorted;
              vectors = AllEntries-erase _ u m h.0.vectors;
            },
            loop-IsProcs u s h.1,
          )
  ]

  loop-IsSorted : (u : Text) (s : TopicStorage P) → IsSorted s → IsSorted (del_proc_loop u s).0
  unfolding del_proc_loop
  loop-IsSorted u [] h = tt
  loop-IsSorted u ((t, m) ∷ s) h =
      ground (arith, Above-del_proc_loop t u s h, IsSorted-of_Above t (del_proc_loop u s).0)

  -- `DelPublishersByProc` keeps the invariant.
  pub del_publishers_by_proc-IsWellFormed :
      (u : Text) (s : TopicStorage P) → IsWellFormed s → IsWellFormed (del_publishers_by_proc u s).0
  unfolding del_publishers_by_proc
  del_publishers_by_proc-IsWellFormed u s w = record {
    sorted = loop-IsSorted u s w.sorted;
    procs = loop-IsProcs u s w.procs;
  }
