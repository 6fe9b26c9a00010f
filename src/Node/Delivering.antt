-- ===== src/Node/Delivering.antt =====
-- src/Node.cc and src/NodeShared.cc: the queue of the published messages, handler by handler.
use gz_transport.Common.{
  ℕ, ◌≡◌, refl, sym, ◌∙◌, inl, inr, Bool, true, not, ◌&&◌, List, [], ◌∷◌, ◌++◌, is_some, is_empty,
  keep_if, if◌then◌else◌, Text, text_eq, arith, Bool-cases,
}
use gz_transport.HandlerStorage.{HandlerStorage, handlers, topic_handlers}
use gz_transport.Handlers.{Protobuf}
use gz_transport.Handlers.Subscription.{
  Subscriber, MessageInfo, Timestamps, Called, run_raw_callback, run_local_callback,
}
use gz_transport.NodeShared.Subscribers.{HandlerWrapper, matches, or_none}
use gz_transport.NodeShared.Subscribers.Listed.{subscribers}
use gz_transport.NodeShared.Connections.{PublishMsg}
use gz_transport.NodeShared.Callbacks.{check_handler_info}
use gz_transport.NodeShared.Callbacks.Queue.{queued_one, queued_local, queued_raw, publish_next}
use gz_transport.NodeShared.Callbacks.Matching.{run_raws, run_locals, no_handlers}
use gz_transport.Publisher.{MessagePublisher}
use gz_transport.Node.Publishing.{NodePublisher, update_publisher, create_message_info, queue_entry}

-- The handler takes messages of the node, or is a handler of another one.
unfoldable pub takes_from : Text → Subscriber → Bool
takes_from n h = not (h.opts.ignore_local_messages && text_eq n h.n_uuid)

subscribers_eq :
    (topic type : Text) (s : HandlerStorage Subscriber)
    → (if is_some (handlers topic s)
        then keep_if (matches type) (topic_handlers (or_none (handlers topic s)))
        else [])
      ≡ subscribers topic type s
unfolding subscribers or_none
subscribers_eq topic type s = elim (Bool-cases (is_some (handlers topic s))) [
  | inl e ↦ rw e refl
  | inr e ↦ rw e (sym (no_handlers topic type s e))
]

run_raws-buffer :
    {Msg : Type 0} (now : ℕ) (content : Text) (info : MessageInfo) (hs : List Subscriber)
    (m : Timestamps)
    → run_raws {Msg = Msg} now (if is_empty hs then [] else content) info hs m
      ≡ run_raws now content info hs m
unfolding run_raws
run_raws-buffer now content info [] m = refl
run_raws-buffer now content info (h ∷ hs) m = refl

pub update_publisher-publisher :
    (now now' : ℕ) (p : NodePublisher) → (update_publisher now now' p).0.publisher ≡ p.publisher
unfolding update_publisher
update_publisher-publisher now now' p = ground arith

module _ {Msg : Type 0} ⦃pb : Protobuf Msg⦄ where
  open pb use {type_name_of, serialize_to_string}

  queued_local-run :
      (now : ℕ) (d : PublishMsg Msg) (hs : List Subscriber) (m : Timestamps)
      → queued_local now d hs m
        ≡ run_locals now d.msg_copy d.info (keep_if (takes_from d.publisher_node_uuid) hs) m
  unfolding queued_local queued_one run_locals takes_from
  queued_local-run now d [] m = refl
  queued_local-run now d (h ∷ hs) m =
      let r = run_local_callback now d.msg_copy d.info h m in
      elim (Bool-cases (h.opts.ignore_local_messages && text_eq d.publisher_node_uuid h.n_uuid)) [
        | inl e ↦ rw e (queued_local-run now d hs m)
        | inr e ↦ rw e (rw (queued_local-run now d hs r.0) refl)
      ]

  queued_raw-run :
      (now : ℕ) (d : PublishMsg Msg) (hs : List Subscriber) (m : Timestamps)
      → queued_raw now d hs m ≡ run_raws now d.shared_buffer d.info hs m
  unfolding queued_raw run_raws
  queued_raw-run now d [] m = refl
  queued_raw-run now d (h ∷ hs) m =
      let r : Timestamps × List (Called Msg) × Bool =
        run_raw_callback now d.shared_buffer d.info h m in
      rw (queued_raw-run now d hs r.0) refl

  -- The message is given to the subscribers of messages that take it from the node, and then to
  -- the subscribers of bytes.
  unfoldable pub deliver_local :
      ℕ
      → MessageInfo
      → Msg
      → Text
      → List Subscriber
      → List Subscriber
      → Timestamps
      → Timestamps × List (Called Msg)
  unfolding run_locals run_raws
  deliver_local now info msg content locals raws m =
      let (m', out) = run_locals now msg info locals m in
      let (m'', out') = run_raws now content info raws m' in (m'', out ++ out')

  publish_next-runs :
      (later : ℕ) (d : PublishMsg Msg) (m : Timestamps)
      → publish_next later (d ∷ []) m ≡ (
          let (m', calls) =
            deliver_local later d.info d.msg_copy d.shared_buffer
              (keep_if (takes_from d.publisher_node_uuid) d.local_handlers)
              d.raw_handlers
              m in
          ([], m', calls))
  unfolding publish_next deliver_local
  publish_next-runs later d m =
      let m' = (queued_local later d d.local_handlers m).0 in
      rw (queued_raw-run later d d.raw_handlers m', queued_local-run later d d.local_handlers m)
        refl

  -- What the publishing thread does with the entry of a message.
  pub queue_entry-runs :
      (later : ℕ) (p : MessagePublisher) (msg : Msg) (content topic : Text) (w : HandlerWrapper)
      (m : Timestamps)
      → let type = type_name_of msg in
        let info = record (create_message_info p) { is_intra_process = true } in
        let own = takes_from p.base.n_uuid in
        publish_next later (queue_entry p msg content (check_handler_info topic w) ∷ []) m ≡ (
          let (m', calls) =
            deliver_local later info msg content
              (keep_if own (subscribers topic type w.normal))
              (subscribers topic type w.raw)
              m in
          ([], m', calls))
  unfolding queue_entry deliver_local check_handler_info
  queue_entry-runs later p msg content topic w m =
      let type = type_name_of msg in
      let raws = subscribers topic type w.raw in
      let info = record (create_message_info p) { is_intra_process = true } in
      let locals = keep_if (takes_from p.base.n_uuid) (subscribers topic type w.normal) in
      let m' = (run_locals later msg info locals m).0 in
      publish_next-runs later (queue_entry p msg content (check_handler_info topic w)) m
      ∙ rw
          (
            subscribers_eq topic type w.normal,
            subscribers_eq topic type w.raw,
            run_raws-buffer later content info raws m',
          )
          refl
