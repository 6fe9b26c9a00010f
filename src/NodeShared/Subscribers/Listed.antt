-- ===== src/NodeShared/Subscribers/Listed.antt =====
-- src/NodeShared.cc, `HandlerWrapper`: the subscribers that a message is for, and their nodes.
use gz_transport.Common.{
  ◌≡◌, refl, sym, ap, ◌∙◌, inl, inr, List, [], ◌∷◌, ◌++◌, append-nil, append_assoc, keep_if, Text,
  Bool-cases, Option-cases,
}
use gz_transport.Common.Map.{Map}
use gz_transport.Common.Within.{keep_if-append}
use gz_transport.HandlerStorage.{HandlerStorage, handlers, topic_handlers, node_handlers}
use gz_transport.Handlers.Subscription.{Subscriber}
use gz_transport.NodeShared.Subscribers.{
  HandlerWrapper, or_none, matches, append_of_node, append_of_topic, append_node_uuids, node_uuids,
}

-- The handlers of a topic that are for a type of message, in the order of the storage.
unfoldable pub subscribers : Text → Text → HandlerStorage Subscriber → List Subscriber
unfolding or_none
subscribers topic type s = keep_if (matches type) (topic_handlers (or_none (handlers topic s)))

-- The nodes of a list of handlers.
abbrev pub nodes_of : List Subscriber → List Text
nodes_of [] = []
nodes_of (h ∷ hs) = h.n_uuid ∷ nodes_of hs

nodes_of-append : (xs ys : List Subscriber) → nodes_of (xs ++ ys) ≡ nodes_of xs ++ nodes_of ys
nodes_of-append [] ys = refl
nodes_of-append (x ∷ xs) ys = ap (λ l. x.n_uuid ∷ l) (nodes_of-append xs ys)

of_node-nodes :
    (type : Text) (m : Map Subscriber) (uuids : List Text)
    → append_of_node type m uuids ≡ uuids ++ nodes_of (keep_if (matches type) (node_handlers m))
unfolding append_of_node node_handlers
of_node-nodes type [] uuids = sym (append-nil uuids)
of_node-nodes type ((k, h) ∷ m) uuids = elim (Bool-cases (matches type h)) [
  | inl e ↦ rw e (
      of_node-nodes type m (uuids ++ h.n_uuid ∷ [])
      ∙ append_assoc uuids (h.n_uuid ∷ []) (nodes_of (keep_if (matches type) (node_handlers m))))
  | inr e ↦ rw e (of_node-nodes type m uuids)
]

of_topic-nodes :
    (type : Text) (m : Map (Map Subscriber)) (uuids : List Text)
    → append_of_topic type m uuids ≡ uuids ++ nodes_of (keep_if (matches type) (topic_handlers m))
unfolding append_of_topic topic_handlers
of_topic-nodes type [] uuids = sym (append-nil uuids)
of_topic-nodes type ((n, v) ∷ m) uuids =
    let kept = keep_if (matches type) (node_handlers v) in
    let rest = keep_if (matches type) (topic_handlers m) in
    of_topic-nodes type m (append_of_node type v uuids)
    ∙ rw
        (
          of_node-nodes type v uuids,
          keep_if-append (matches type) (node_handlers v) (topic_handlers m),
          nodes_of-append kept rest,
        )
        (append_assoc uuids (nodes_of kept) (nodes_of rest))

append_node_uuids-nodes :
    (topic type : Text) (s : HandlerStorage Subscriber) (uuids : List Text)
    → append_node_uuids s topic type uuids ≡ uuids ++ nodes_of (subscribers topic type s)
unfolding append_node_uuids subscribers or_none topic_handlers
append_node_uuids-nodes topic type s uuids = elim (Option-cases (handlers topic s)) [
  | inl e ↦ rw (e, append_node_uuids, or_none) (sym (append-nil uuids))
  | inr (m, e) ↦ rw (e, append_node_uuids, or_none) (of_topic-nodes type m uuids)
]

-- The nodes that a process registers for a topic and a type are the nodes of exactly the handlers
-- that a message of the topic and type is for, one for each handler, in the order of the storages.
node_uuids-nodes_of :
    (topic type : Text) (w : HandlerWrapper)
    → node_uuids topic type w
      ≡ nodes_of (subscribers topic type w.normal) ++ nodes_of (subscribers topic type w.raw)
unfolding node_uuids
node_uuids-nodes_of topic type w =
    append_node_uuids-nodes topic type w.raw (append_node_uuids w.normal topic type [])
    ∙ rw (append_node_uuids-nodes topic type w.normal []) refl
