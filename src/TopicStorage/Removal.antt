-- ===== src/TopicStorage/Removal.antt =====
-- What the removals of include/gz/transport/TopicStorage.hh do to the stored lists.
use gz_transport.Common.{
  ◌-◌, ◌≡◌, inl, inr, Bool, ◌&&◌, List, [], ◌∷◌, any, drop_if, length, ltb, if◌then◌else◌, Text,
  text_eq, text_eq_iff, arith, Bool-cases, Option-cases, length-drop_if-lt, drop_if_of_none,
}
use gz_transport.Common.Map.{
  Map, IsSorted, Above, lookup, contains, lookup_list, lookup_list-insert, lookup_list-erase,
  lookup_of_Above, IsSorted-of_Above, Above-weaken,
}
use gz_transport.TopicStorage.Contents.{stored}
use gz_transport.TopicStorage.{
  Publishes, TopicStorage, put_back, del_publisher_by_node, del_proc_loop, del_publishers_by_proc,
}

pub lookup_list-put_back {ℓ} :
    {A : Type ℓ} (k q : Text) (v : List A) (m : Map (List A))
    → lookup_list q (put_back k v m) ≡ (if text_eq k q then v else lookup_list q m)
unfolding put_back
lookup_list-put_back k q [] m = lookup_list-erase k q m
lookup_list-put_back k q (x ∷ v) m = lookup_list-insert k q (x ∷ v) m

module _ {P : Type 0} ⦃ops : Publishes P⦄ where
  open ops use {n_uuid}

  -- The test of `DelPublisherByNode`.
  abbrev pub of_node : Text → P → Bool
  of_node n q = text_eq (n_uuid q) n

  drop_count :
      (n : Text) (v : List P)
      → ltb 0 (length v - length (drop_if (of_node n) v)) ≡ any (of_node n) v
  drop_count n v = elim (Bool-cases (any (of_node n) v)) [
    | inl e ↦ ground (arith, length-drop_if-lt (of_node n) v)
    | inr e ↦ rw (drop_if_of_none (of_node n) v e, e) (ground arith)
  ]

  -- `DelPublisherByNode` drops the node's publishers from the list of the topic and process and
  -- from no other; it reports true exactly when there was one.
  pub del_publisher_by_node-stored :
      (t u n : Text) (s : TopicStorage P) (t' u' : Text)
      → ((del_publisher_by_node t u n s).1 ≡ any (of_node n) (stored s t u))
        × (stored (del_publisher_by_node t u n s).0 t' u' ≡ (
            if text_eq t t' && text_eq u u'
            then drop_if (of_node n) (stored s t u)
            else stored s t' u'))
  unfolding del_publisher_by_node lookup_list lookup
  del_publisher_by_node-stored t u n s t' u' = elim (Option-cases (lookup t s)) [
    | inl e ↦ ground (arith, text_eq_iff t t', text_eq_iff u u')
    | inr (m, e) ↦ elim (Option-cases (lookup u m)) [
      | inl e' ↦ ground (arith, text_eq_iff t t', text_eq_iff u u')
      | inr (v, e') ↦
          let v' = drop_if (of_node n) v in
          ground (
            arith,
            drop_count n v,
            lookup_list-put_back t t' (put_back u v' m) s,
            lookup_list-put_back u u' v' m,
            text_eq_iff t t',
            text_eq_iff u u',
          )
    ]
  ]

  pub Above-del_proc_loop :
      (b u : Text) (s : TopicStorage P) → Above b s → Above b (del_proc_loop u s).0
  unfolding del_proc_loop
  Above-del_proc_loop b u [] h = tt
  Above-del_proc_loop b u ((t, m) ∷ s) h =
      ground (arith, Above-del_proc_loop t u s h.1, Above-weaken b t (del_proc_loop u s).0)

  loop-stored :
      (u : Text) (s : TopicStorage P) (t' u' : Text)
      → IsSorted s
      → stored (del_proc_loop u s).0 t' u' ≡ (if text_eq u u' then [] else stored s t' u')
  unfolding del_proc_loop lookup_list lookup
  loop-stored u [] t' u' h = ground arith
  loop-stored u ((t, m) ∷ s) t' u' h = ground (
    arith,
    text_eq_iff t t',
    loop-stored u s t' u' (IsSorted-of_Above t s h),
    lookup_of_Above t s h,
    lookup_of_Above t (del_proc_loop u s).0 (Above-del_proc_loop t u s h),
    lookup_list-erase u u' m,
  )

  -- Whether some topic has an entry for the process.
  abbrev pub has_proc : Text → TopicStorage P → Bool
  has_proc u s = any (λ e. contains u e.1) s

  loop-counter : (u : Text) (s : TopicStorage P) → ltb 0 (del_proc_loop u s).1 ≡ has_proc u s
  unfolding del_proc_loop
  loop-counter u [] = ground arith
  loop-counter u ((t, m) ∷ s) = ground (arith, loop-counter u s)

  -- Of a storage in key order, `DelPublishersByProc` leaves no publisher of the process and keeps
  -- every other list; it reports true exactly when some topic had an entry for the process.
  pub del_publishers_by_proc-stored :
      (u : Text) (s : TopicStorage P) (t' u' : Text)
      → IsSorted s
      → ((del_publishers_by_proc u s).1 ≡ has_proc u s)
        × (stored (del_publishers_by_proc u s).0 t' u'
            ≡ (if text_eq u u' then [] else stored s t' u'))
  unfolding del_publishers_by_proc
  del_publishers_by_proc-stored u s t' u' h = (loop-counter u s, loop-stored u s t' u' h)
