-- ===== src/NodeShared/Callbacks/Matching.antt =====
-- src/NodeShared.cc: which callbacks a message runs.
use gz_transport.Common.{
  ℕ, ◌≡◌, refl, inl, inr, Bool, true, false, not, ◌&&◌, none, some, List, [], ◌∷◌, ◌++◌, any,
  is_some, keep_if, Text, text_eq, arith, Bool-cases, Option-cases,
}
use gz_transport.Common.Map.{Map}
use gz_transport.HandlerStorage.{HandlerStorage, handlers, topic_handlers}
use gz_transport.Handlers.{Protobuf}
use gz_transport.Handlers.Subscription.{
  Subscriber, MessageInfo, Timestamps, Called, blank_info, set_topic_and_partition,
  run_raw_callback, run_local_callback, create_msg_from_buffer,
}
use gz_transport.NodeShared.Subscribers.Listed.{subscribers}
use gz_transport.NodeShared.Subscribers.{or_none, HandlerWrapper, matches}
use gz_transport.NodeShared.Callbacks.{
  check_handler_info, read_message, publish, raw_one, raw_loop, local_loop, trigger_raw,
  trigger_local, trigger_callbacks, on_msg_update, recv_msg_update,
}

pub no_handlers :
    (topic type : Text) (s : HandlerStorage Subscriber)
    → is_some (handlers topic s) ≡ false
    → subscribers topic type s ≡ []
unfolding subscribers or_none topic_handlers
no_handlers topic type s h = elim (Option-cases (handlers topic s)) [
  | inl e ↦ rw (e, or_none) refl
  | inr (hs, e) ↦ absurd (ground arith)
]

-- Every handler of a list in turn takes the bytes.
unfoldable pub run_raws :
    {Msg : Type 0}
    → ℕ
    → Text
    → MessageInfo
    → List Subscriber
    → Timestamps
    → Timestamps × List (Called Msg)
run_raws now content info [] m = (m, [])
run_raws {Msg} now content info (h ∷ hs) m =
    let r : Timestamps × List (Called Msg) × Bool = run_raw_callback now content info h m in
    let (m', out) = run_raws now content info hs r.0 in (m', r.1 ++ out)

module _ {Msg : Type 0} ⦃pb : Protobuf Msg⦄ where
  -- Every handler of a list in turn takes the message.
  unfoldable pub run_locals :
      ℕ → Msg → MessageInfo → List Subscriber → Timestamps → Timestamps × List (Called Msg)
  run_locals now msg info [] m = (m, [])
  run_locals now msg info (h ∷ hs) m =
      let r = run_local_callback now msg info h m in
      let (m', out) = run_locals now msg info hs r.0 in (m', r.1 ++ out)

  -- The message is the one that the first handler makes.
  unfoldable pub deliver_made :
      ℕ
      → (Text → Bool)
      → Text
      → MessageInfo
      → List Subscriber
      → Timestamps
      → Timestamps × List (Called Msg)
  unfolding run_locals
  deliver_made now known content info [] m = (m, [])
  deliver_made now known content info (h ∷ hs) m =
      elim (create_msg_from_buffer known content info.type h) [
        | none ↦ (m, [])
        | some msg ↦ run_locals now msg info (h ∷ hs) m
      ]

  -- The message is given to the subscribers of bytes, and then to the subscribers of messages.
  unfoldable pub deliver_to :
      ℕ
      → (Text → Bool)
      → MessageInfo
      → Text
      → List Subscriber
      → List Subscriber
      → Timestamps
      → Timestamps × List (Called Msg)
  unfolding run_raws deliver_made
  deliver_to now known info content raws locals m =
      let (m', out) = run_raws now content info raws m in
      let (m'', out') = deliver_made now known content info locals m' in (m'', out ++ out')

  raw_loop-matching :
      (now : ℕ) (content : Text) (info : MessageInfo) (hs : List Subscriber) (m : Timestamps)
      → raw_loop {Msg = Msg} now content info hs m
        ≡ run_raws now content info (keep_if (matches info.type) hs) m
  unfolding raw_loop raw_one run_raws
  raw_loop-matching now content info [] m = refl
  raw_loop-matching now content info (h ∷ hs) m =
      let r : Timestamps × List (Called Msg) × Bool = run_raw_callback now content info h m in
      elim (Bool-cases (matches info.type h)) [
        | inl e ↦ rw e (rw (raw_loop-matching now content info hs r.0) refl)
        | inr e ↦ rw e (raw_loop-matching now content info hs m)
      ]

  local_loop-made :
      (now : ℕ) (known : Text → Bool) (content : Text) (info : MessageInfo) (hs : List Subscriber)
      (msg : Msg) (m : Timestamps)
      → local_loop now known content info hs (some msg) m
        ≡ run_locals now msg info (keep_if (matches info.type) hs) m
  unfolding local_loop run_locals
  local_loop-made now known content info [] msg m = refl
  local_loop-made now known content info (h ∷ hs) msg m =
      let r = run_local_callback now msg info h m in
      elim (Bool-cases (matches info.type h)) [
        | inl e ↦ rw e (rw (local_loop-made now known content info hs msg r.0) refl)
        | inr e ↦ rw e (local_loop-made now known content info hs msg m)
      ]

  local_loop-matching :
      (now : ℕ) (known : Text → Bool) (content : Text) (info : MessageInfo) (hs : List Subscriber)
      (m : Timestamps)
      → local_loop now known content info hs none m
        ≡ deliver_made now known content info (keep_if (matches info.type) hs) m
  unfolding local_loop deliver_made run_locals
  local_loop-matching now known content info [] m = refl
  local_loop-matching now known content info (h ∷ hs) m = elim (Bool-cases (matches info.type h)) [
    | inl e ↦ elim (Option-cases (create_msg_from_buffer ⦃pb = pb⦄ known content info.type h)) [
      | inl c ↦ rw (e, local_loop, deliver_made, c) refl
      | inr (msg, c) ↦
          let r = run_local_callback now msg info h m in
          rw (e, local_loop, deliver_made, c)
            (rw (local_loop-made now known content info hs msg r.0) refl)
    ]
    | inr e ↦ rw e (local_loop-matching now known content info hs m)
  ]

  trigger_raw-matching :
      (now : ℕ) (info : MessageInfo) (content topic : Text) (w : HandlerWrapper) (m : Timestamps)
      → trigger_raw {Msg = Msg} now info content (check_handler_info topic w) m
        ≡ run_raws now content info (subscribers topic info.type w.raw) m
  unfolding trigger_raw check_handler_info subscribers or_none run_raws
  trigger_raw-matching now info content topic w m = elim (Option-cases (handlers topic w.raw)) [
    | inl e ↦ rw (e, or_none) refl
    | inr (hs, e) ↦ rw (e, or_none) (raw_loop-matching now content info (topic_handlers hs) m)
  ]

  trigger_local-matching :
      (now : ℕ) (known : Text → Bool) (info : MessageInfo) (content topic : Text)
      (w : HandlerWrapper) (m : Timestamps)
      → trigger_local now known info content (check_handler_info topic w) m
        ≡ deliver_made now known content info (subscribers topic info.type w.normal) m
  unfolding trigger_local check_handler_info subscribers or_none deliver_made
  trigger_local-matching now known info content topic w m =
      elim (Option-cases (handlers topic w.normal)) [
        | inl e ↦ rw (e, or_none) refl
        | inr (hs, e) ↦
            rw (e, or_none) (local_loop-matching now known content info (topic_handlers hs) m)
      ]

  -- A message of a topic runs the handlers of the topic that are for its type or for every type,
  -- and no other: first those that take bytes, then those that take a message, which the first of
  -- them makes for all; if it cannot, none of these runs.
  pub trigger_callbacks-matching :
      (now : ℕ) (known : Text → Bool) (info : MessageInfo) (content topic : Text)
      (w : HandlerWrapper) (m : Timestamps)
      → trigger_callbacks now known info content (check_handler_info topic w) m
        ≡ deliver_to now known info content
            (subscribers topic info.type w.raw)
            (subscribers topic info.type w.normal)
            m
  unfolding trigger_callbacks deliver_to run_raws deliver_made check_handler_info
  trigger_callbacks-matching now known info content topic w m =
      let raws = trigger_raw-matching now info content topic w m in
      let m' = (run_raws {Msg = Msg} now content info (subscribers topic info.type w.raw) m).0 in
      let locals = trigger_local-matching now known info content topic w m' in
      let none_here =
        not (is_some (handlers topic w.normal)) && not (is_some (handlers topic w.raw)) in
      elim (Bool-cases none_here) [
        | inl e ↦
            rw
              (
                e,
                no_handlers topic info.type w.raw (ground arith),
                no_handlers topic info.type w.normal (ground arith),
              )
              refl
        | inr e ↦ rw (e, raws, locals) refl
      ]

  -- What a process publishes on a topic runs, in a process that receives it, the handlers of the
  -- topic that are for the type of the message or for every type, and no other, on the bytes that
  -- were published; the sender and the receiver both have topic statistics or both have none.
  pub recv_msg_update-publish :
      (stats : Bool) (meta_of : ℕ → ℕ → Text) (stamp : ℕ) (my_address topic content type : Text)
      (seqs : Map ℕ) (now : ℕ) (known : Text → Bool) (enabled : List Text) (w : HandlerWrapper)
      (m : Timestamps)
      → let frames = (publish stats meta_of stamp my_address topic content type seqs).1 in
        let info = record (set_topic_and_partition topic blank_info).0 { type = type } in
        recv_msg_update now known stats enabled frames w m ≡ (
          let (m', out) =
            deliver_to now known info content
              (subscribers topic type w.raw)
              (subscribers topic type w.normal)
              m in
          (m', out, stats && any (λ t. text_eq t topic) enabled))
  unfolding recv_msg_update read_message publish on_msg_update
  recv_msg_update-publish true meta_of stamp my_address topic content type seqs now known enabled w
        m =
      let info = record (set_topic_and_partition topic blank_info).0 { type = type } in
      rw (trigger_callbacks-matching now known info content topic w m) refl
  recv_msg_update-publish false meta_of stamp my_address topic content type seqs now known enabled w
        m =
      let info = record (set_topic_and_partition topic blank_info).0 { type = type } in
      rw (trigger_callbacks-matching now known info content topic w m) refl
