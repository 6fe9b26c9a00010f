-- ===== src/Log/Recorder/Lossless.antt =====
-- log/src/Recorder.cc: what becomes of the messages that come in while a recording runs.
use gz_transport.Common.{
  ◌+◌, ◌%◌, ◌^◌, ◌≡◌, Bool, refl, ◌∙◌, ap, sym, subst, ltb, true, not, ◌&&◌, List, [], ◌∷◌, ◌++◌,
  append-nil, append_assoc, is_empty, is_some, length, Text, arith, Bool-cases, ◌⊎◌, inl, inr,
}
use gz_transport.Common.Int.{ℤ}
use gz_transport.Common.Subsequence.{
  Subsequence, skip, Subsequence-refl, Subsequence-trans, Subsequence-append,
}
use gz_transport.Handlers.Subscription.{MessageInfo}
use gz_transport.Log.Recorder.{
  LogData, Recorder, evict_front, queue_message, on_message_received, write_to_log_file,
  writer_turn, flush_data_queue, stop_recording,
}

-- What the two threads do: the callback of a subscription, with the answer of the clock's `IsReady`,
-- and a turn of the writer.
pub data Event : Type 0 where
  receives : Bool → ℤ → Text → MessageInfo → Event
  writes : Event

unfoldable pub step : Event → Recorder → Recorder × List LogData
unfolding on_message_received writer_turn
step (receives ready now content info) r = ((on_message_received ready now content info r).0, [])
step writes r = writer_turn r

-- The recorder after a history, and what was handed to the log.
unfoldable pub run : List Event → Recorder → Recorder × List LogData
unfolding step
run [] r = (r, [])
run (e ∷ es) r = let (r', out) = step e r in let (r'', out') = run es r' in (r'', out ++ out')

-- The messages that come in, in order.
unfoldable pub arrivals : List Event → List LogData
arrivals [] = []
arrivals (receives ready now content info ∷ es) =
    record { stamp = now; msg_data = content; msg_info = info } ∷ arrivals es
arrivals (writes ∷ es) = arrivals es

-- A recording runs.
pub record IsRecording (r : Recorder) : Type 0 where
  pub open_log : is_some r.log_file ≡ true
  pub writing : r.data_writer_state ≡ true

step-IsRecording : (e : Event) (r : Recorder) → IsRecording r → IsRecording (step e r).0
unfolding step on_message_received queue_message writer_turn evict_front
step-IsRecording (receives ready now content info) r h = ground arith
step-IsRecording writes r h = ground arith

flush_data_queue_eq :
    (ds : List LogData) (r : Recorder) → is_some r.log_file ≡ true → flush_data_queue ds r ≡ ds
unfolding flush_data_queue write_to_log_file
flush_data_queue_eq [] r h = refl
flush_data_queue_eq (d ∷ ds) r h = ground (arith, flush_data_queue_eq ds r)

-- A buffer of size zero, which is one without a bound.
step-unbounded :
    (e : Event) (es : List Event) (r : Recorder)
    → IsRecording r
    → r.max_buffer_size ≡ 0
    → ((step e r).1 ++ ((step e r).0.data_queue ++ arrivals es) ≡ r.data_queue ++ arrivals (e ∷ es))
      × ((step e r).0.max_buffer_size ≡ 0)
unfolding step on_message_received queue_message writer_turn arrivals write_to_log_file
step-unbounded (receives ready now content info) es r h z =
    let new : LogData = record { stamp = now; msg_data = content; msg_info = info } in
    ground (arith, append_assoc r.data_queue (new ∷ []) (arrivals es))
step-unbounded writes es r h z = ground arith

run-unbounded :
    (es : List Event) (r : Recorder)
    → IsRecording r
    → r.max_buffer_size ≡ 0
    → (run es r).1 ++ (run es r).0.data_queue ≡ r.data_queue ++ arrivals es
unfolding run arrivals
run-unbounded [] r h z = sym (append-nil r.data_queue)
run-unbounded (e ∷ es) r h z =
    let (r', out) = step e r in
    let (r'', out') = run es r' in
    let (same, z') = step-unbounded e es r h z in
    append_assoc out out' r''.data_queue
    ∙ ap (λ l. out ++ l) (run-unbounded es r' (step-IsRecording e r h) z')
    ∙ same

run-IsRecording : (es : List Event) (r : Recorder) → IsRecording r → IsRecording (run es r).0
unfolding run
run-IsRecording [] r h = h
run-IsRecording (e ∷ es) r h = run-IsRecording es (step e r).0 (step-IsRecording e r h)

-- `Stop` writes what the queue holds.
stop_recording_eq : (r : Recorder) → is_some r.log_file ≡ true → (stop_recording r).1 ≡ r.data_queue
unfolding stop_recording
stop_recording_eq r h = rw h (flush_data_queue_eq r.data_queue r h)

-- With a buffer that has no bound, a recording loses nothing: whatever the order of the messages
-- that come in and of the turns of the writer, what the log is handed until the recording has
-- stopped is what the queue held and then every message that came in, in their order. The messages
-- that come in before the clock is ready, of which the code warns that it drops them, are among them.
pub stop_recording-lossless :
    (es : List Event) (r : Recorder)
    → IsRecording r
    → r.max_buffer_size ≡ 0
    → (run es r).1 ++ (stop_recording (run es r).0).1 ≡ r.data_queue ++ arrivals es
stop_recording-lossless es r h z =
    ap (λ l. (run es r).1 ++ l) (stop_recording_eq _ (run-IsRecording es r h).open_log)
    ∙ run-unbounded es r h z

evict_front-Subsequence :
    (r : Recorder) (zs : List LogData)
    → Subsequence ((evict_front r).data_queue ++ zs) (r.data_queue ++ zs)
unfolding evict_front
evict_front-Subsequence r zs = go r.data_queue
  where
    go :
        (q : List LogData)
        → Subsequence ((evict_front (record r { data_queue = q })).data_queue ++ zs) (q ++ zs)
    go [] = Subsequence-refl zs
    go (d ∷ ds) = skip (Subsequence-refl (ds ++ zs))

queue_message-queue :
    (now : ℤ) (content : Text) (info : MessageInfo) (r : Recorder)
    → IsRecording r
    → let new : LogData = record { stamp = now; msg_data = content; msg_info = info } in
      let queue = (queue_message now content info r).data_queue in
      (queue ≡ (evict_front r).data_queue ++ new ∷ []) ⊎ (queue ≡ r.data_queue ++ new ∷ [])
unfolding queue_message
queue_message-queue now content info r h =
    let full = ltb r.max_buffer_size ((r.buffer_size + length content) % 2 ^ 64) in
    elim (Bool-cases (ltb 0 r.max_buffer_size && (full && not (is_empty r.data_queue)))) [
      | inl e ↦ inl (ground arith)
      | inr e ↦ inr (ground arith)
    ]

writer_turn-queue :
    (r : Recorder) (zs : List LogData)
    → IsRecording r
    → (writer_turn r).1 ++ ((writer_turn r).0.data_queue ++ zs) ≡ r.data_queue ++ zs
unfolding writer_turn write_to_log_file
writer_turn-queue r zs h = ground arith

-- One message at most leaves the queue without being written.
step-Subsequence :
    (e : Event) (es : List Event) (r : Recorder)
    → IsRecording r
    → Subsequence
        ((step e r).1 ++ ((step e r).0.data_queue ++ arrivals es))
        (r.data_queue ++ arrivals (e ∷ es))
unfolding step on_message_received arrivals
step-Subsequence (receives ready now content info) es r h =
    let new : LogData = record { stamp = now; msg_data = content; msg_info = info } in
    elim (queue_message-queue now content info r h) [
      | inl e ↦
          rw (e, append_assoc (evict_front r).data_queue (new ∷ []) (arrivals es))
            (evict_front-Subsequence r (new ∷ arrivals es))
      | inr e ↦
          rw (e, append_assoc r.data_queue (new ∷ []) (arrivals es))
            (Subsequence-refl (r.data_queue ++ new ∷ arrivals es))
    ]
step-Subsequence writes es r h =
    subst (λ l. Subsequence l (r.data_queue ++ arrivals es))
      (sym (writer_turn-queue r (arrivals es) h)) (Subsequence-refl (r.data_queue ++ arrivals es))

run-Subsequence :
    (es : List Event) (r : Recorder)
    → IsRecording r
    → Subsequence ((run es r).1 ++ (run es r).0.data_queue) (r.data_queue ++ arrivals es)
unfolding run arrivals
run-Subsequence [] r h =
    subst (λ l. Subsequence r.data_queue l) (sym (append-nil r.data_queue))
      (Subsequence-refl r.data_queue)
run-Subsequence (e ∷ es) r h =
    let (r', out) = step e r in
    let (r'', out') = run es r' in
    subst (λ l. Subsequence l (r.data_queue ++ arrivals (e ∷ es)))
      (sym (append_assoc out out' r''.data_queue))
      (Subsequence-trans (Subsequence-append out (run-Subsequence es r' (step-IsRecording e r h)))
        (step-Subsequence e es r h))

-- Whatever the bound on the buffer, what the log is handed until the recording has stopped is what
-- the queue held and then the messages that came in, in their order and none twice, less some that
-- were dropped.
pub stop_recording-Subsequence :
    (es : List Event) (r : Recorder)
    → IsRecording r
    → Subsequence ((run es r).1 ++ (stop_recording (run es r).0).1) (r.data_queue ++ arrivals es)
stop_recording-Subsequence es r h =
    subst (λ l. Subsequence ((run es r).1 ++ l) (r.data_queue ++ arrivals es))
      (sym (stop_recording_eq _ (run-IsRecording es r h).open_log)) (run-Subsequence es r h)
