-- ===== src/NodeShared/Services/Once.antt =====
-- src/NodeShared.cc, the services: how often a request goes out.
use gz_transport.Common.{
  ◌≤◌, ◌≡◌, refl, inl, inr, Bool, List, [], ◌∷◌, if◌then◌else◌, Text, text_eq_iff, arith,
  Option-cases,
}
use gz_transport.HandlerStorage.{handler}
use gz_transport.Handlers.{Protobuf}
use gz_transport.Handlers.Request.{ReqHandler, Progress, Notified, notify_result, req_handles}
use gz_transport.Handlers.Reply.{rep_handles}
use gz_transport.NodeShared.{Process}
use gz_transport.NodeShared.Services.{
  Services, progress_of, progress_of-insert, srv_publish, on_new_srv_disconnection,
}
use gz_transport.NodeShared.Services.Histories.{
  Event, step, run, sends_pending, connects, publishes, receives_request, receives_response,
}
use gz_transport.NodeShared.Services.Replies.{
  read_request, read_response, SrvResponse, recv_srv_request, on_srv_response, recv_srv_response,
  notifications,
}
use gz_transport.NodeShared.Services.Marking.{
  sends, marked, IsMarking, IsMarking-then, IsMarking-idle, send_pending-IsMarking,
  on_new_srv_connection-IsMarking, publish_front-IsMarking, on_srv_request-IsMarking,
}

module _ {Msg : Type 0} ⦃pb : Protobuf Msg⦄ where
  sends-notifications : (k : Text) (ns : List (Notified Msg)) → sends k (notifications ns) ≡ 0
  unfolding sends notifications
  sends-notifications k [] = refl
  sends-notifications k (n ∷ ns) = sends-notifications k ns

  notify_result-requested :
      (rep : Text) (result : Bool) (h : ReqHandler Msg) (p : Progress)
      → (notify_result rep result h p).0.requested ≡ p.requested
  unfolding notify_result
  notify_result-requested rep result h p = ground arith

  on_srv_response-IsMarking :
      (k : Text) (r : SrvResponse) (s : Services Msg) → IsMarking k s (on_srv_response r s)
  unfolding on_srv_response marked
  on_srv_response-IsMarking k r s =
      elim (Option-cases (handler r.topic r.node_uuid r.req_uuid s.requests)) [
        | inl e ↦ rw (e, on_srv_response) (IsMarking-idle k s)
        | inr (h, e) ↦
            let p = progress_of h.h_uuid s.progress in
            let r' = notify_result r.rep r.result h p in
            rw (e, on_srv_response, sends-notifications k r'.1)
              (ground (
                arith,
                progress_of-insert h.h_uuid k r'.0 s.progress,
                notify_result-requested r.rep r.result h p,
                text_eq_iff h.h_uuid k,
              ))
      ]

module _ {Msg : Type 0} ⦃pb : Protobuf Msg⦄ (me : Process) where
  recv_srv_request-IsMarking :
      (k : Text) (frames : List Text) (s : Services Msg)
      → IsMarking k s (recv_srv_request me frames s)
  unfolding recv_srv_request
  recv_srv_request-IsMarking k frames s = elim (Option-cases (read_request frames)) [
    | inl e ↦ rw (e, recv_srv_request) (IsMarking-idle k s)
    | inr (r, e) ↦ rw (e, recv_srv_request) (on_srv_request-IsMarking me k r s)
  ]

  recv_srv_response-IsMarking :
      (k : Text) (frames : List Text) (s : Services Msg)
      → IsMarking k s (recv_srv_response frames s)
  unfolding recv_srv_response
  recv_srv_response-IsMarking k frames s = elim (Option-cases (read_response frames)) [
    | inl e ↦ rw (e, recv_srv_response) (IsMarking-idle k s)
    | inr (r, e) ↦ rw (e, recv_srv_response) (on_srv_response-IsMarking k r s)
  ]

  step-IsMarking : (k : Text) (e : Event Msg) (s : Services Msg) → IsMarking k s (step me e s)
  unfolding step srv_publish on_new_srv_disconnection marked
  step-IsMarking k (sends_pending addresses t req rep) s =
      send_pending-IsMarking me k addresses t req rep s
  step-IsMarking k (connects p) s = on_new_srv_connection-IsMarking me k p s
  step-IsMarking k (publishes publishers) s = publish_front-IsMarking me k publishers s.srv_queue s
  step-IsMarking k (receives_request frames) s = recv_srv_request-IsMarking k frames s
  step-IsMarking k (receives_response frames) s = recv_srv_response-IsMarking k frames s
  step-IsMarking k _ s = IsMarking-idle k s

  run-IsMarking :
      (k : Text) (es : List (Event Msg)) (s : Services Msg) → IsMarking k s (run me es s)
  unfolding run
  run-IsMarking k [] s = IsMarking-idle k s
  run-IsMarking k (e ∷ es) s =
      let (s', out) = step me e s in
      let (s'', out') = run me es s' in
      IsMarking-then k s s' s'' out out' (step-IsMarking k e s) (run-IsMarking k es s')

  -- In every history of the services of a process, the request of a handler goes out at most once,
  -- and not at all when the handler was marked as requested before.
  pub run-sends :
      (k : Text) (es : List (Event Msg)) (s : Services Msg)
      → sends k (run me es s).1 ≤ (if (progress_of k s.progress).requested then 0 else 1)
  unfolding marked
  run-sends k es s = ground (arith, run-IsMarking k es s)
