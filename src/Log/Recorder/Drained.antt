-- ===== src/Log/Recorder/Drained.antt =====
-- log/src/Recorder.cc: the size of the buffer when the writer keeps up.
use gz_transport.Common.{
  ℕ, ◌+◌, ◌^◌, ◌<◌, ◌≡◌, refl, ap, ◌∙◌, true, List, [], ◌∷◌, ◌++◌, length, arith,
}
use gz_transport.Log.Recorder.{
  LogData, Recorder, queue_message, on_message_received, writer_turn, evict_front,
}
use gz_transport.Log.Recorder.Lossless.{Event, receives, writes, step, run, IsRecording}

-- Messages that are each written before the next one comes in.
unfoldable pub deliveries : List LogData → List Event
deliveries [] = []
deliveries (d ∷ ds) = receives true d.stamp d.msg_data d.msg_info ∷ writes ∷ deliveries ds

unfoldable pub total : List LogData → ℕ
total [] = 0
total (d ∷ ds) = length d.msg_data + total ds

-- A message that comes in while the queue is empty, and one that is above the bound.
receive_first :
    (a : LogData) (r : Recorder)
    → r.data_writer_state ≡ true
    → r.data_queue ≡ []
    → r.buffer_size + length a.msg_data < 2 ^ 64
    → queue_message a.stamp a.msg_data a.msg_info r
      ≡ record r { buffer_size = r.buffer_size + length a.msg_data; data_queue = a ∷ [] }
unfolding queue_message
receive_first a r h e small = ground arith

receive_over :
    (a b : LogData) (r : Recorder)
    → r.data_writer_state ≡ true
    → r.data_queue ≡ a ∷ []
    → 0 < r.max_buffer_size
    → r.max_buffer_size < r.buffer_size + length b.msg_data
    → r.buffer_size + length b.msg_data < 2 ^ 64
    → (queue_message b.stamp b.msg_data b.msg_info r).data_queue ≡ b ∷ []
unfolding queue_message evict_front
receive_over a b r h e bounded over small = ground arith

-- A message that comes in while the queue is empty, and is then written.
deliver :
    (d : LogData) (r : Recorder)
    → IsRecording r
    → r.data_queue ≡ []
    → r.buffer_size + length d.msg_data < 2 ^ 64
    → let r' = (step (receives true d.stamp d.msg_data d.msg_info) r).0 in
      (step writes r').0 ≡ record r { buffer_size = r.buffer_size + length d.msg_data }
unfolding step on_message_received queue_message writer_turn
deliver d r h e small = ground arith

run-deliveries :
    (ds : List LogData) (r : Recorder)
    → IsRecording r
    → r.data_queue ≡ []
    → r.buffer_size + total ds < 2 ^ 64
    → (run (deliveries ds) r).0 ≡ record r { buffer_size = r.buffer_size + total ds }
unfolding run deliveries total
run-deliveries [] r h e small = ground arith
run-deliveries (d ∷ ds) r h e small =
    let r' = record r { buffer_size = r.buffer_size + length d.msg_data } in
    let h' : IsRecording r' = record { open_log = h.open_log; writing = h.writing } in
    let first = deliver d r h e (omega arith) in
    let rest = run-deliveries ds r' h' e (omega arith) in
    ap (λ q. (run (deliveries ds) q).0) first ∙ rest ∙ ground arith

run-append : (es fs : List Event) (r : Recorder) → (run (es ++ fs) r).0 ≡ (run fs (run es r).0).0
unfolding run
run-append [] fs r = refl
run-append (e ∷ es) fs r = run-append es fs (step e r).0

-- The size that the recorder keeps does not fall when the writer takes a message. So after messages
-- that were each written at once, of two that then come in the first is dropped from the queue,
-- if the size of all these messages together is above the bound, however small the two are.
pub run-drained :
    (ds : List LogData) (a b : LogData) (r : Recorder)
    → IsRecording r
    → r.data_queue ≡ []
    → 0 < r.max_buffer_size
    → r.max_buffer_size < r.buffer_size + total ds + length a.msg_data + length b.msg_data
    → r.buffer_size + total ds + length a.msg_data + length b.msg_data < 2 ^ 64
    → (run
        (deliveries ds
          ++ receives true a.stamp a.msg_data a.msg_info
            ∷ receives true b.stamp b.msg_data b.msg_info
            ∷ [])
        r).0.data_queue
      ≡ b ∷ []
unfolding run step on_message_received
run-drained ds a b r h e bounded over small =
    let two =
      receives true a.stamp a.msg_data a.msg_info
      ∷ receives true b.stamp b.msg_data b.msg_info
      ∷ [] in
    let r' = record r { buffer_size = r.buffer_size + total ds } in
    let before = run-deliveries ds r h e (omega arith) in
    ap (λ q. q.data_queue) (run-append (deliveries ds) two r)
    ∙ ap (λ q. (run two q).0.data_queue) before
    ∙ ap (λ q. (queue_message b.stamp b.msg_data b.msg_info q).data_queue)
        (receive_first a r' h.writing e (omega arith))
    ∙ receive_over a b
        (record r' { buffer_size = r'.buffer_size + length a.msg_data; data_queue = a ∷ [] })
        h.writing refl bounded (omega arith) (omega arith)
