-- ===== src/Node/Delivered.antt =====
-- src/Node.cc and src/NodeShared.cc: what becomes of a message that a node publishes.
use gz_transport.Common.{
  ℕ, ◌≡◌, refl, inl, inr, true, false, ◌||◌, some, [], ◌∷◌, ◌++◌, is_some, keep_if, if◌then◌else◌,
  Text, text_eq, arith, Bool-cases,
}
use gz_transport.Common.Map.{Map}
use gz_transport.HandlerStorage.{handlers}
use gz_transport.Handlers.{Protobuf}
use gz_transport.Handlers.Subscription.{Timestamps}
use gz_transport.NodeShared.{Process}
use gz_transport.NodeShared.Subscribers.Listed.{subscribers}
use gz_transport.NodeShared.Connections.{Subscriptions}
use gz_transport.NodeShared.Callbacks.{
  SubscriberInfo, check_handler_info, check_subscriber_info, publish,
}
use gz_transport.NodeShared.Callbacks.Queue.{publish_next}
use gz_transport.NodeShared.Callbacks.Matching.{run_raws, run_locals, no_handlers}
use gz_transport.TopicStorage.{has_topic_type}
use gz_transport.Node.Publishing.{
  NodePublisher, Sending, is_usable, update_publisher, create_message_info, send_remote,
  queue_entry, publish_content, publish_message,
}
use gz_transport.Node.Delivering.{
  takes_from, update_publisher-publisher, deliver_local, queue_entry-runs,
}

module _ {Msg : Type 0} ⦃pb : Protobuf Msg⦄ (me : Process) (out : Sending) where
  open pb use {type_name_of, serialize_to_string}

  publish_content-queue :
      (p : NodePublisher) (msg : Msg) (content : Text) (i : SubscriberInfo) (s : Subscriptions Msg)
      (seqs : Map ℕ) (times : Timestamps)
      → (publish_content me out p msg content i s seqs times).shared.pub_queue ≡ (
          if i.here.have_local || i.here.have_raw
          then s.pub_queue ++ queue_entry p.publisher msg content i.here ∷ []
          else s.pub_queue)
  unfolding publish_content send_remote
  publish_content-queue p msg content i s seqs times = ground arith

  -- What the queue then holds for the publishing thread, and what the socket sends.
  publish_content-runs :
      (later : ℕ) (p : NodePublisher) (msg : Msg) (content topic type : Text)
      (s : Subscriptions Msg) (seqs : Map ℕ) (times : Timestamps)
      → s.pub_queue ≡ []
      → let i = check_subscriber_info topic type s.local_subscribers s.remote_subscribers in
        let info = record (create_message_info p.publisher) { is_intra_process = true } in
        let own = takes_from p.publisher.base.n_uuid in
        publish_next later
          (publish_content me out p msg content i s seqs times).shared.pub_queue
          times
        ≡ (let (m', calls) =
              deliver_local later info msg content
                (keep_if own (subscribers topic (type_name_of msg) s.local_subscribers.normal))
                (subscribers topic (type_name_of msg) s.local_subscribers.raw)
                times in
            ([], m', calls))
  unfolding check_subscriber_info check_handler_info deliver_local publish_next run_locals run_raws
  publish_content-runs later p msg content topic type s seqs times empty =
      let w = s.local_subscribers in
      let i = check_subscriber_info topic type w s.remote_subscribers in
      elim (Bool-cases (is_some (handlers topic w.normal) || is_some (handlers topic w.raw))) [
        | inl e ↦
            rw (publish_content-queue p msg content i s seqs times, e, empty)
              (queue_entry-runs later p.publisher msg content topic w times)
        | inr e ↦
            rw
              (
                publish_content-queue p msg content i s seqs times,
                e,
                empty,
                no_handlers topic (type_name_of msg) w.normal (ground arith),
                no_handlers topic (type_name_of msg) w.raw (ground arith),
              )
              refl
      ]

  publish_content-sent :
      (p : NodePublisher) (msg : Msg) (content : Text) (i : SubscriberInfo) (s : Subscriptions Msg)
      (seqs : Map ℕ) (times : Timestamps)
      → me.is_zeromq ≡ true
      → let t = p.publisher.base.topic in
        let type = type_name_of msg in
        (publish_content me out p msg content i s seqs times).sent ≡ (
          if i.have_remote
          then (publish out.stats out.meta_of out.stamp me.my_address t content type seqs).1 ∷ []
          else [])
  unfolding publish_content send_remote
  publish_content-sent p msg content i s seqs times z = ground arith

  -- `Publish` of a message that passes the tests of its type and of the rate: the queue, and the
  -- frames that are sent.
  publish_message-accepted :
      (now now' : ℕ) (p : NodePublisher) (msg : Msg) (content : Text) (s : Subscriptions Msg)
      (seqs : Map ℕ) (times : Timestamps)
      → is_usable p ≡ true
      → text_eq p.publisher.msg_type_name (type_name_of msg) ≡ true
      → (update_publisher now now' p).1 ≡ true
      → serialize_to_string msg ≡ some content
      → let p' = (update_publisher now now' p).0 in
        let t = p.publisher.base.topic in
        let i =
          check_subscriber_info t p.publisher.msg_type_name s.local_subscribers
            s.remote_subscribers in
        let content' = if i.here.have_raw || i.have_remote then content else [] in
        publish_message me out now now' p msg s seqs times
        ≡ publish_content me out p' msg content' i s seqs times
  unfolding publish_message
  publish_message-accepted now now' p msg content s seqs times usable typed due serialized =
      let i =
        check_subscriber_info p.publisher.base.topic p.publisher.msg_type_name s.local_subscribers
          s.remote_subscribers in
      elim (Bool-cases (i.here.have_raw || i.have_remote)) [
        | inl e ↦ rw (usable, typed, due, e, serialized) refl
        | inr e ↦ rw (usable, typed, due, e) refl
      ]

  -- A message that a node publishes, and that passes the tests of its type and of the rate, goes to
  -- the queue of an idle process; the publishing thread then runs the process's handlers of the
  -- topic that are for the type, and no other: first those that take messages, but for those of
  -- the same node that ignore local messages, and then those that take bytes, which get the
  -- serialized message, those of the same node that ignore local messages among them. The socket
  -- sends the message exactly if there is a remote subscriber for the topic and type.
  pub publish_message-delivers :
      (now now' later : ℕ) (p : NodePublisher) (msg : Msg) (content : Text) (s : Subscriptions Msg)
      (seqs : Map ℕ) (times : Timestamps)
      → is_usable p ≡ true
      → text_eq p.publisher.msg_type_name (type_name_of msg) ≡ true
      → (update_publisher now now' p).1 ≡ true
      → serialize_to_string msg ≡ some content
      → me.is_zeromq ≡ true
      → s.pub_queue ≡ []
      → let r = publish_message me out now now' p msg s seqs times in
        let t = p.publisher.base.topic in
        let type = type_name_of msg in
        let info = record (create_message_info p.publisher) { is_intra_process = true } in
        let own = takes_from p.publisher.base.n_uuid in
        let locals = keep_if own (subscribers t type s.local_subscribers.normal) in
        let raws = subscribers t type s.local_subscribers.raw in
        (publish_next later r.shared.pub_queue times ≡ (
          let (m', calls) = deliver_local later info msg content locals raws times in
          ([], m', calls)))
        × (r.sent ≡ (
            if has_topic_type
              (λ q. q.msg_type_name)
              t
              p.publisher.msg_type_name
              s.remote_subscribers
            then (publish out.stats out.meta_of out.stamp me.my_address t content type seqs).1 ∷ []
            else []))
  unfolding check_subscriber_info check_handler_info deliver_local run_raws create_message_info
  publish_message-delivers now now' later p msg content s seqs times usable typed due serialized z
        empty =
      let p' = (update_publisher now now' p).0 in
      let same = update_publisher-publisher now now' p in
      let t = p.publisher.base.topic in
      let type = p.publisher.msg_type_name in
      let w = s.local_subscribers in
      let i = check_subscriber_info t type w s.remote_subscribers in
      let accepted =
        publish_message-accepted now now' p msg content s seqs times usable typed due serialized in
      elim (Bool-cases (i.here.have_raw || i.have_remote)) [
        | inl e ↦
            let runs = publish_content-runs later p' msg content t type s seqs times empty in
            let sends_ = publish_content-sent p' msg content i s seqs times z in
            rw (accepted, e) (rw same at runs, rw same at sends_)
        | inr e ↦
            let runs = publish_content-runs later p' msg [] t type s seqs times empty in
            let sends_ = publish_content-sent p' msg [] i s seqs times z in
            let none_here = no_handlers t (type_name_of msg) w.raw (ground arith) in
            let no_remote : i.have_remote ≡ false = ground arith in
            rw (accepted, e, none_here, no_remote)
              (rw (same, none_here, no_remote) at runs, rw (same, no_remote) at sends_)
      ]
