-- ===== src/HandlerStorage/Histories.antt =====
-- Histories of calls on a storage of include/gz/transport/HandlerStorage.hh.
use gz_transport.Common.{
  ◌≡◌, refl, ◌↔◌, inl, inr, true, false, some, List, [], ◌∷◌, is_empty, if◌then◌else◌, Text, arith,
  Option-cases,
}
use gz_transport.Common.Map.{
  Map, AllEntries, AllEntries-insert, AllEntries-erase, AllEntries-lookup, first_entry, lookup,
  insert, erase, contains, lookup_list,
}
use gz_transport.TopicStorage.{put_back}
use gz_transport.TopicStorage.Contents.{lookup_list-ensure_topic, insert-ensure_topic}
use gz_transport.TopicStorage.Invariant.{AllEntries-put_back, is_empty-insert}
use gz_transport.HandlerStorage.{
  Handles, HandlerStorage, handler, remove_handler, remove_handlers_for_node, has_handlers_for_node,
  has_handlers_for_topic, add_handler,
}

-- The calls that change a storage.
pub data Call (H : Type 0) : Type 0 where
  adds : Text → Text → H → Call H
  removes : Text → Text → Text → Call H
  removes_node : Text → Text → Call H

module _ {H : Type 0} where
  abbrev pub IsNode : Text → Map H → Type 0
  IsNode n v = is_empty v ≡ false

  -- A stored map of a topic: neither it nor the map of a node is empty.
  pub record IsTopic (t : Text) (m : Map (Map H)) : Type 0 where
    pub filled : is_empty m ≡ false
    pub nodes : AllEntries IsNode m

  -- No empty container is stored.
  abbrev pub IsFilled : HandlerStorage H → Type 0
  IsFilled s = AllEntries IsTopic s

  nodes_of : (t : Text) (s : HandlerStorage H) → IsFilled s → AllEntries IsNode (lookup_list t s)
  unfolding lookup_list
  nodes_of t s h = elim (Option-cases (lookup t s)) [
    | inl e ↦ rw (e, lookup_list) tt
    | inr (m, e) ↦ rw (e, lookup_list) ((AllEntries-lookup IsTopic t s m h e).nodes)
  ]

  -- In a storage without an empty container, `HasHandlersForTopic` holds exactly when the topic
  -- has a handler, and `HasHandlersForNode` exactly when the node has one in the topic.
  has_handlers-handler :
      (t n : Text) (s : HandlerStorage H)
      → IsFilled s
      → ((has_handlers_for_topic t s ≡ true)
          ↔ ((n' : Text) × (k : Text) × (h : H) × (handler t n' k s ≡ some h)))
        × ((has_handlers_for_node t n s ≡ true)
            ↔ ((k : Text) × (h : H) × (handler t n k s ≡ some h)))
  unfolding has_handlers_for_topic has_handlers_for_node handler contains
  has_handlers-handler t n s f = elim (Option-cases (lookup t s)) [
    | inl e ↦ (
      (λ h. ground arith, λ (n', k, g, h). ground arith),
      (λ h. ground arith, λ (k, g, h). ground arith),
    )
    | inr (m, e) ↦
        let topic = AllEntries-lookup IsTopic t s m f e in
        let (n', v, e') = first_entry m topic.filled in
        let (k, g, e'') = first_entry v (AllEntries-lookup IsNode n' m v topic.nodes e') in
        (
          (λ h. (n', k, g, ground arith), λ h. ground (arith, topic.filled)),
          (
            λ h. elim (Option-cases (lookup n m)) [
              | inl a ↦ ground arith
              | inr (v', a) ↦
                  let (k', g', b) =
                    first_entry v' (AllEntries-lookup IsNode n m v' topic.nodes a) in
                  (k', g', ground arith)
            ],
            λ (k', g', h). elim (Option-cases (lookup n m)) [
              | inl a ↦ ground arith
              | inr (v', a) ↦ ground arith
            ],
          ),
        )
  ]

  remove_handler-IsFilled :
      (t n k : Text) (s : HandlerStorage H) → IsFilled s → IsFilled (remove_handler t n k s).0
  unfolding remove_handler
  remove_handler-IsFilled t n k s f = elim (Option-cases (lookup t s)) [
    | inl e ↦ rw (e, remove_handler) f
    | inr (m, e) ↦ elim (Option-cases (lookup n m)) [
      | inl e' ↦ rw (e, e', remove_handler) f
      | inr (v, e') ↦
          rw (e, e', remove_handler)
            (AllEntries-put_back IsTopic t (put_back n (erase k v) m) s
              (λ h. record {
                filled = h;
                nodes =
                    AllEntries-put_back IsNode n (erase k v) m (λ g. g)
                      (AllEntries-lookup IsTopic t s m f e).nodes;
              })
              f)
    ]
  ]

  remove_handlers_for_node-IsFilled :
      (t n : Text) (s : HandlerStorage H) → IsFilled s → IsFilled (remove_handlers_for_node t n s).0
  unfolding remove_handlers_for_node
  remove_handlers_for_node-IsFilled t n s f = elim (Option-cases (lookup t s)) [
    | inl e ↦ rw (e, remove_handlers_for_node) f
    | inr (m, e) ↦
        rw (e, remove_handlers_for_node)
          (AllEntries-put_back IsTopic t (erase n m) s
            (λ h. record {
              filled = h;
              nodes = AllEntries-erase IsNode n m (AllEntries-lookup IsTopic t s m f e).nodes;
            })
            f)
  ]

module _ {H : Type 0} ⦃ops : Handles H⦄ where
  open ops use {handler_uuid}

  add_handler_eq :
      (t n : Text) (h : H) (s : HandlerStorage H)
      → let v = lookup_list n (lookup_list t s) in
        add_handler t n h s
        ≡ insert t
            (insert n
              (if contains (handler_uuid h) v then v else insert (handler_uuid h) h v)
              (lookup_list t s))
            s
  unfolding add_handler
  add_handler_eq t n h s =
      rw
        (
          lookup_list-ensure_topic t t s,
          lookup_list-ensure_topic n n (lookup_list t s),
          insert-ensure_topic t _ s,
          insert-ensure_topic n _ (lookup_list t s),
        )
        refl

  still_filled :
      (k : Text) (h : H) (v : Map H) → is_empty (if contains k v then v else insert k h v) ≡ false
  unfolding contains lookup
  still_filled k h [] = is_empty-insert k h []
  still_filled k h (e ∷ v) = ground (arith, is_empty-insert k h (e ∷ v))

  add_handler-IsFilled :
      (t n : Text) (h : H) (s : HandlerStorage H) → IsFilled s → IsFilled (add_handler t n h s)
  add_handler-IsFilled t n h s f = rw (add_handler_eq t n h s) (
      AllEntries-insert IsTopic t _ s
        (record {
          filled = is_empty-insert n _ (lookup_list t s);
          nodes =
              AllEntries-insert IsNode n _ (lookup_list t s)
                (still_filled (handler_uuid h) h (lookup_list n (lookup_list t s)))
                (nodes_of t s f);
        })
        f)

  unfoldable pub step : Call H → HandlerStorage H → HandlerStorage H
  step (adds t n h) s = add_handler t n h s
  step (removes t n k) s = (remove_handler t n k s).0
  step (removes_node t n) s = (remove_handlers_for_node t n s).0

  unfoldable pub run : List (Call H) → HandlerStorage H → HandlerStorage H
  run [] s = s
  run (c ∷ cs) s = run cs (step c s)

  step-IsFilled : (c : Call H) (s : HandlerStorage H) → IsFilled s → IsFilled (step c s)
  unfolding step
  step-IsFilled (adds t n h) s f = add_handler-IsFilled t n h s f
  step-IsFilled (removes t n k) s f = remove_handler-IsFilled t n k s f
  step-IsFilled (removes_node t n) s f = remove_handlers_for_node-IsFilled t n s f

  -- Any history of calls on a storage without an empty container leaves none.
  run-IsFilled : (cs : List (Call H)) (s : HandlerStorage H) → IsFilled s → IsFilled (run cs s)
  unfolding run
  run-IsFilled [] s f = f
  run-IsFilled (c ∷ cs) s f = run-IsFilled cs (step c s) (step-IsFilled c s f)
