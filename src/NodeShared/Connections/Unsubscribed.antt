-- ===== src/NodeShared/Connections/Unsubscribed.antt =====
-- src/NodeShared.cc: what is left of a node's subscription once it has unsubscribed.
use gz_transport.Common.{
  ◌≡◌, refl, ◌∙◌, inl, inr, Bool, true, false, not, ◌&&◌, ◌||◌, none, some, List, [], ◌∷◌, ◌++◌,
  any, find, drop_if, is_empty, if◌then◌else◌, Text, text_eq, text_eq_refl, ◌⊎◌, arith, Bool-cases,
  Option-cases,
}
use gz_transport.Common.Within.{In, Within-front, Within-back}
use gz_transport.Common.Map.{Map, lookup, contains, lookup_list, lookup-erase, erase}
use gz_transport.TopicStorage.{publisher, del_publisher_by_node}
use gz_transport.TopicStorage.Contents.{stored, publisher_eq}
use gz_transport.TopicStorage.Removal.{del_publisher_by_node-stored, lookup_list-put_back}
use gz_transport.HandlerStorage.{HandlerStorage, has_handlers_for_node, remove_handlers_for_node}
use gz_transport.NodeOptions.{NodeOptions, remapped, unadvertised_name}
use gz_transport.Handlers.Subscription.{Subscriber}
use gz_transport.Publisher.{MessagePublisher, new_message_publisher}
use gz_transport.Publisher.Travel.{travelled}
use gz_transport.Discovery.{wire_publishes}
use gz_transport.Discovery.Instances.{message_wire}
use gz_transport.NodeShared.{Process}
use gz_transport.NodeShared.Subscribers.{
  has_subscriber, has_subscriber_for_node, remove_subscribers_for_node,
}
use gz_transport.NodeShared.Connections.{
  PublishMsg, Subscriptions, Ask, filter_out, unregister_with, asks_of, on_end_registration,
}
use gz_transport.NodeShared.Connections.Registered.{In-asks_of}
use gz_transport.NodeShared.Connections.Unsubscribe.{
  end_of_registration, unsubscribe, unsubscribe_name, erase_loop, drop_from_queue,
  remove_handlers_from_pub_queue,
}

has_handlers_for_node-remove :
    {H : Type 0} (t n : Text) (s : HandlerStorage H)
    → has_handlers_for_node t n (remove_handlers_for_node t n s).0 ≡ false
unfolding has_handlers_for_node remove_handlers_for_node contains lookup_list
has_handlers_for_node-remove t n s = elim (Option-cases (lookup t s)) [
  | inl e ↦ ground arith
  | inr (m, e) ↦ ground (
    arith,
    lookup_list-put_back t t (erase n m) s,
    lookup-erase n n m,
    text_eq_refl t,
    text_eq_refl n,
  )
]

find-drop_if : {A : Type 0} (p : A → Bool) (xs : List A) → find p (drop_if p xs) ≡ none
find-drop_if p [] = refl
find-drop_if p (x ∷ xs) = ground (arith, find-drop_if p xs)

-- The loops are defined exactly where nothing is to be erased, and then change nothing.
erase_loop_eq :
    (p : Subscriber → Bool) (hs : List Subscriber)
    → erase_loop p hs ≡ (if any p hs then none else some hs)
unfolding erase_loop
erase_loop_eq p [] = refl
erase_loop_eq p (h ∷ hs) = ground (arith, erase_loop_eq p hs)

module _ {Msg : Type 0} where
  -- The process of the publisher forgets the node.
  on_end_registration-forgets :
      (me peer : Process) (name n : Text) (t : Subscriptions Msg)
      → let r = travelled (end_of_registration me name n peer.own_uuid) in
        publisher name me.own_uuid n (on_end_registration peer r t).remote_subscribers ≡ none
  unfolding on_end_registration end_of_registration new_message_publisher
  on_end_registration-forgets me peer name n t =
      let own = me.own_uuid in
      let old = t.remote_subscribers in
      let mine : not (is_empty peer.own_uuid) && not (text_eq peer.own_uuid peer.own_uuid) ≡ false =
        ground (arith, text_eq_refl peer.own_uuid) in
      rw mine (
        publisher_eq name own n (del_publisher_by_node name own n old).0
        ∙ rw
            (
              (del_publisher_by_node-stored name own n old name own).1,
              text_eq_refl name,
              text_eq_refl own,
            )
            (find-drop_if (λ q. text_eq q.base.n_uuid n) (stored old name own)))

  -- `Unsubscribe` of a node that has a last handler for the name.
  unsubscribe_name-all :
      (me : Process) (addresses : Text → Map (List MessagePublisher)) (name n : Text)
      (s : Subscriptions Msg)
      → let w = (remove_subscribers_for_node name n s.local_subscribers).0 in
        let (s', out) = unsubscribe_name me addresses name n [] s in
        (s'.local_subscribers ≡ w)
        × (has_subscriber_for_node name n w ≡ false)
        × (s'.pub_queue ≡ s.pub_queue)
        × ((e : Text × List MessagePublisher)
            → In e (addresses name)
            → In (unregister_with (end_of_registration me name n e.0)) out)
  unfolding unsubscribe_name has_subscriber_for_node remove_subscribers_for_node
  unsubscribe_name-all me addresses name n s =
      let w = (remove_subscribers_for_node name n s.local_subscribers).0 in
      let gone : has_subscriber_for_node name n w ≡ false = ground (
        arith,
        has_handlers_for_node-remove name n s.local_subscribers.normal,
        has_handlers_for_node-remove name n s.local_subscribers.raw,
      ) in
      let filters =
        if me.is_zeromq && not (has_subscriber name w) then filter_out name ∷ [] else [] in
      let ask =
        λ (e : Text × List MessagePublisher). unregister_with (end_of_registration me name n e.0) in
      let rest = unregister_with (end_of_registration me name n []) ∷ [] in
      rw gone (
        ground arith,
        refl,
        ground arith,
        λ e h.
            let told = In-asks_of ask e (addresses name) h in
            Within-front (ask e ∷ []) (filters ++ asks_of ask (addresses name)) rest
              (Within-back (ask e ∷ []) filters (asks_of ask (addresses name)) told),
      )

  -- Whether a queued message of the topic is still for a handler of the node.
  abbrev pub is_queued_for : Text → Text → PublishMsg Msg → Bool
  is_queued_for t n d =
      text_eq d.info.topic t
      && (any (λ h. text_eq h.n_uuid n) d.local_handlers
          || any (λ h. text_eq h.n_uuid n) d.raw_handlers)

  drop_from_queue_eq :
      (t n : Text) (q : List (PublishMsg Msg))
      → drop_from_queue (λ h. text_eq h.n_uuid n) t q
        ≡ (if any (is_queued_for t n) q then none else some q)
  unfolding drop_from_queue
  drop_from_queue_eq t n [] = refl
  drop_from_queue_eq t n (d ∷ q) =
      let p = λ (h : Subscriber). text_eq h.n_uuid n in
      ground (
        arith,
        erase_loop_eq p d.local_handlers,
        erase_loop_eq p d.raw_handlers,
        drop_from_queue_eq t n q,
      )

  -- When a node unsubscribes from a topic whose name is valid, the call is undefined exactly if a
  -- queued message of the remapped topic is for a handler of the node. Otherwise it is answered with
  -- true and leaves the queue as it is; the node has no handler for the name any more; every process
  -- that discovery knows to publish on the name is told, and the process that is told has no remote
  -- subscriber of the node for the name any more.
  pub unsubscribe-forgets :
      (me peer : Process) (addresses : Text → Map (List MessagePublisher)) (topic n : Text)
      (o : NodeOptions) {name : Text} {v : List MessagePublisher} (s t : Subscriptions Msg)
      → unadvertised_name topic o ≡ some name
      → In (peer.own_uuid, v) (addresses name)
      → let r = end_of_registration me name n peer.own_uuid in
        let remote = (on_end_registration peer (travelled r) t).remote_subscribers in
        let queued = any (is_queued_for (remapped topic o) n) s.pub_queue in
        ((queued ≡ true) × (unsubscribe me addresses topic n o [] s ≡ none))
        ⊎ ((queued ≡ false)
            × ((s' : Subscriptions Msg) × ((out : List Ask) × ((unsubscribe me addresses topic n o
                        [] s
                      ≡ some (s', out, true))
                    × ((s'.pub_queue ≡ s.pub_queue)
                        × ((has_subscriber_for_node name n s'.local_subscribers ≡ false)
                            × (In (unregister_with r) out
                                × (publisher name me.own_uuid n remote ≡ none))))))))
  unfolding unsubscribe remove_handlers_from_pub_queue
  unsubscribe-forgets me peer addresses topic n o {name} {v} s t e found =
      let (s', out) = unsubscribe_name me addresses name n [] s in
      let (kept, gone, queue, told) = unsubscribe_name-all me addresses name n s in
      let dropped = drop_from_queue_eq (remapped topic o) n s.pub_queue in
      elim (Bool-cases (any (is_queued_for (remapped topic o) n) s.pub_queue)) [
        | inl q ↦ inl (q, rw (e, unsubscribe, dropped, q) refl)
        | inr q ↦ inr (
          q,
          (
            s',
            (
              out,
              (
                rw (e, unsubscribe, dropped, q) refl,
                (
                  queue,
                  (
                    rw kept gone,
                    (told (peer.own_uuid, v) found, on_end_registration-forgets me peer name n t),
                  ),
                ),
              ),
            ),
          ),
        )
      ]
