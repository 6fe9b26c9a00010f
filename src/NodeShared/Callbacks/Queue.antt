-- ===== src/NodeShared/Callbacks/Queue.antt =====
-- src/NodeShared.cc, `PublishThread`: the queued messages of a process for its own subscribers.
use gz_transport.Common.{ℕ, ◌&&◌, List, [], ◌∷◌, ◌++◌, if◌then◌else◌, text_eq}
use gz_transport.Handlers.{Protobuf}
use gz_transport.Handlers.Subscription.{
  Subscriber, Timestamps, Called, run_raw_callback, run_local_callback,
}
use gz_transport.NodeShared.Connections.{PublishMsg}

module _ {Msg : Type 0} ⦃pb : Protobuf Msg⦄ where
  -- The loops of `PublishThread` over the handlers of a queued message.
  unfoldable pub queued_one :
      ℕ → PublishMsg Msg → Subscriber → Timestamps → Timestamps × List (Called Msg)
  unfolding run_local_callback
  queued_one now d h m =
      let ignored = h.opts.ignore_local_messages && text_eq d.publisher_node_uuid h.n_uuid in
      let r = run_local_callback now d.msg_copy d.info h m in
      if ignored then (m, []) else (r.0, r.1)

  unfoldable pub queued_local :
      ℕ → PublishMsg Msg → List Subscriber → Timestamps → Timestamps × List (Called Msg)
  unfolding queued_one
  queued_local now d [] m = (m, [])
  queued_local now d (h ∷ hs) m =
      let (m', out) = queued_one now d h m in
      let (m'', out') = queued_local now d hs m' in (m'', out ++ out')

  unfoldable pub queued_raw :
      ℕ → PublishMsg Msg → List Subscriber → Timestamps → Timestamps × List (Called Msg)
  unfolding run_raw_callback
  queued_raw now d [] m = (m, [])
  queued_raw now d (h ∷ hs) m =
      let r = run_raw_callback now d.shared_buffer d.info h m in
      let (m', out') = queued_raw now d hs r.0 in (m', r.1 ++ out')

  -- One turn of the loop of `PublishThread`.
  unfoldable pub publish_next :
      ℕ
      → List (PublishMsg Msg)
      → Timestamps
      → List (PublishMsg Msg) × Timestamps × List (Called Msg)
  unfolding queued_local queued_raw
  publish_next now [] m = ([], m, [])
  publish_next now (d ∷ q) m =
      let (m', out) = queued_local now d d.local_handlers m in
      let (m'', out') = queued_raw now d d.raw_handlers m' in (q, m'', out ++ out')
