-- ===== src/TopicStorage/AllStored.antt =====
-- include/gz/transport/TopicStorage.hh: what every stored publisher satisfies.
use gz_transport.Common.{
  Bool, true, false, List, [], ◌∷◌, All, All-append, All-keep_if, if◌then◌else◌, Text, text_eq,
}
use gz_transport.Common.Map.{IsSorted}
use gz_transport.TopicStorage.{
  Publishes, TopicStorage, add_publisher, del_publisher_by_node, del_publishers_by_proc,
}
use gz_transport.TopicStorage.Contents.{stored, add_publisher-stored}
use gz_transport.TopicStorage.Removal.{del_publisher_by_node-stored, del_publishers_by_proc-stored}
use gz_transport.Discovery.{wire_publishes}

-- Every stored publisher satisfies `Q`.
abbrev pub AllStored : {P : Type 0} → (P → Type 0) → TopicStorage P → Type 0
AllStored Q s = (t u : Text) → All Q (stored s t u)

module _ {P : Type 0} ⦃ops : Publishes P⦄ (Q : P → Type 0) where
  either : (b : Bool) (v w : List P) → All Q v → All Q w → All Q (if b then v else w)
  either true v w h k = h
  either false v w h k = k

  pub or_nil : (b : Bool) (v : List P) → All Q v → All Q (if b then [] else v)
  or_nil true v h = tt
  or_nil false v h = h

  pub add_publisher-AllStored :
      (p : P) (s : TopicStorage P) → Q p → AllStored Q s → AllStored Q (add_publisher p s).0
  add_publisher-AllStored p s q h t u =
      rw ((add_publisher-stored p s t u).1)
        (either _ _ _ (All-append Q (stored s t u) (p ∷ []) (h t u) (q, tt)) (h t u))

  pub del_by_node-AllStored :
      (t u n : Text) (s : TopicStorage P)
      → AllStored Q s
      → AllStored Q (del_publisher_by_node t u n s).0
  del_by_node-AllStored t u n s h t' u' =
      rw ((del_publisher_by_node-stored t u n s t' u').1)
        (either _ _ _ (All-keep_if Q _ (stored s t u) (h t u)) (h t' u'))

  pub del_by_proc-AllStored :
      (u : Text) (s : TopicStorage P)
      → IsSorted s
      → AllStored Q s
      → AllStored Q (del_publishers_by_proc u s).0
  del_by_proc-AllStored u s sorted h t' u' =
      rw ((del_publishers_by_proc-stored u s t' u' sorted).1) (or_nil (text_eq u u') _ (h t' u'))
