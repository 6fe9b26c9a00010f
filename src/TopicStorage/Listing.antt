-- ===== src/TopicStorage/Listing.antt =====
-- The listings of include/gz/transport/TopicStorage.hh, against each other and against the
-- stored lists.
use gz_transport.Common.{
  ◌≡◌, ◌∙◌, List, [], ◌∷◌, ◌++◌, append-nil, append_assoc, keep_if, Text, text_eq_iff, arith,
}
use gz_transport.Common.Map.{Map, insert, lookup_list, lookup, lookup_list-insert}
use gz_transport.TopicStorage.Removal.{of_node}
use gz_transport.TopicStorage.{
  Publishes, TopicStorage, group_by_node, proc_loop, publishers_by_proc, publishers_by_node,
}

module _ {P : Type 0} ⦃ops : Publishes P⦄ where
  open ops use {n_uuid}

  lookup_list-group_by_node :
      (n : Text) (v : List P) (out : Map (List P))
      → lookup_list n (group_by_node v out) ≡ lookup_list n out ++ keep_if (of_node n) v
  unfolding group_by_node
  lookup_list-group_by_node n [] out = rw append-nil
  lookup_list-group_by_node n (q ∷ v) out =
      let out' = insert (n_uuid q) (lookup_list (n_uuid q) out ++ q ∷ []) out in
      ground (
        arith,
        lookup_list-group_by_node n v out',
        lookup_list-insert (n_uuid q) n (lookup_list (n_uuid q) out ++ q ∷ []) out,
        append_assoc (lookup_list n out) (q ∷ []) (keep_if (of_node n) v),
        text_eq_iff (n_uuid q) n,
      )

  lookup_list-proc_loop :
      (u n : Text) (s : TopicStorage P) (out : Map (List P))
      → lookup_list n (proc_loop u s out) ≡ lookup_list n out ++ publishers_by_node u n s
  unfolding proc_loop publishers_by_node
  lookup_list-proc_loop u n [] out = rw append-nil
  lookup_list-proc_loop u n ((t, m) ∷ s) out =
      lookup_list-proc_loop u n s (group_by_node (lookup_list u m) out)
      ∙ rw (lookup_list-group_by_node n (lookup_list u m) out)
          (append_assoc (lookup_list n out) _ _)

  -- The two listings of a process agree: under each node's UUID, `PublishersByProc` gives the
  -- publishers, in the order, that `PublishersByNode` gives for that node.
  pub publishers_by_proc-by_node :
      (u n : Text) (s : TopicStorage P)
      → lookup_list n (publishers_by_proc u s) ≡ publishers_by_node u n s
  unfolding publishers_by_proc lookup_list lookup
  publishers_by_proc-by_node u n s = lookup_list-proc_loop u n s []
