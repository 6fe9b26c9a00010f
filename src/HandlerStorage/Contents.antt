-- ===== src/HandlerStorage/Contents.antt =====
-- What the operations of include/gz/transport/HandlerStorage.hh do to `Handler`.
use gz_transport.Common.{
  ◌≡◌, ◌∙◌, inl, inr, ◌&&◌, none, some, is_some, if◌then◌else◌, Text, text_eq, text_eq_iff, arith,
  Option-cases,
}
use gz_transport.Common.Map.{
  Map, lookup, insert, erase, contains, lookup_list, lookup-insert, lookup-erase,
  lookup_list-insert, lookup_list-erase,
}
use gz_transport.TopicStorage.{ensure_topic, put_back}
use gz_transport.TopicStorage.Contents.{lookup_list-ensure_topic}
use gz_transport.TopicStorage.Removal.{lookup_list-put_back}
use gz_transport.HandlerStorage.{
  Handles, HandlerStorage, handler, remove_handler, remove_handlers_for_node, has_handlers_for_node,
  add_handler,
}

module _ {H : Type 0} where
  -- The handlers of a node, by their UUIDs.
  abbrev pub of_node : HandlerStorage H → Text → Text → Map H
  of_node s t n = lookup_list n (lookup_list t s)

  pub handler_eq :
      (t n k : Text) (s : HandlerStorage H) → handler t n k s ≡ lookup k (of_node s t n)
  unfolding handler lookup_list lookup
  handler_eq t n k s = ground arith

  -- `RemoveHandler` removes the handler of the topic, node and UUID and no other; it reports true
  -- exactly when there was one.
  pub remove_handler-handler :
      (t n k : Text) (s : HandlerStorage H) (t' n' k' : Text)
      → ((remove_handler t n k s).1 ≡ is_some (handler t n k s))
        × (handler t' n' k' (remove_handler t n k s).0
            ≡ (if text_eq t t' && (text_eq n n' && text_eq k k') then none else handler t' n' k' s))
  unfolding remove_handler lookup_list lookup contains
  remove_handler-handler t n k s t' n' k' =
      rw (handler_eq t' n' k' s, handler_eq t n k s, handler_eq t' n' k' (remove_handler t n k s).0)
        (elim (Option-cases (lookup t s)) [
          | inl e ↦ ground (arith, text_eq_iff t t', text_eq_iff n n')
          | inr (m, e) ↦ elim (Option-cases (lookup n m)) [
            | inl e' ↦ ground (arith, text_eq_iff t t', text_eq_iff n n')
            | inr (v, e') ↦ ground (
              arith,
              lookup_list-put_back t t' (put_back n (erase k v) m) s,
              lookup_list-put_back n n' (erase k v) m,
              lookup-erase k k' v,
              text_eq_iff t t',
              text_eq_iff n n',
            )
          ]
        ])

  -- `RemoveHandlersForNode` removes the handlers of the node in the topic and no other; it reports
  -- true exactly when `HasHandlersForNode` held.
  remove_handlers_for_node-handler :
      (t n : Text) (s : HandlerStorage H) (t' n' k' : Text)
      → ((remove_handlers_for_node t n s).1 ≡ has_handlers_for_node t n s)
        × (handler t' n' k' (remove_handlers_for_node t n s).0
            ≡ (if text_eq t t' && text_eq n n' then none else handler t' n' k' s))
  unfolding remove_handlers_for_node has_handlers_for_node lookup_list lookup
  remove_handlers_for_node-handler t n s t' n' k' =
      rw (handler_eq t' n' k' s, handler_eq t' n' k' (remove_handlers_for_node t n s).0)
        (elim (Option-cases (lookup t s)) [
          | inl e ↦ ground (arith, text_eq_iff t t')
          | inr (m, e) ↦ ground (
            arith,
            lookup_list-put_back t t' (erase n m) s,
            lookup_list-erase n n' m,
            text_eq_iff t t',
          )
        ])

module _ {H : Type 0} ⦃ops : Handles H⦄ where
  open ops use {handler_uuid}

  -- `AddHandler` puts the handler under its topic, node and UUID, where none was there; one that
  -- was there stays. Under every other topic, node or UUID nothing changes.
  add_handler-handler :
      (t n : Text) (h : H) (s : HandlerStorage H) (t' n' k' : Text)
      → handler t' n' k' (add_handler t n h s) ≡ (
          if text_eq t t' && (text_eq n n' && text_eq (handler_uuid h) k')
          then some (elim (handler t n (handler_uuid h) s) [ none ↦ h | some g ↦ g ])
          else handler t' n' k' s)
  unfolding add_handler contains
  add_handler-handler t n h s t' n' k' =
      let k = handler_uuid h in
      let v = of_node s t n in
      let v' = if contains k v then v else insert k h v in
      let m = ensure_topic n (lookup_list t s) in
      handler_eq t' n' k' (add_handler t n h s)
      ∙ rw
          (
            handler_eq t' n' k' s,
            handler_eq t n k s,
            lookup_list-ensure_topic t t s,
            lookup_list-ensure_topic n n (lookup_list t s),
            lookup_list-insert t t' (insert n v' m) (ensure_topic t s),
            lookup_list-ensure_topic t t' s,
          )
          (ground (
            arith,
            lookup_list-insert n n' v' m,
            lookup_list-ensure_topic n n' (lookup_list t s),
            lookup-insert k k' h v,
            text_eq_iff t t',
            text_eq_iff n n',
            text_eq_iff k k',
          ))
