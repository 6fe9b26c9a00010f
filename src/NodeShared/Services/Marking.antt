-- ===== src/NodeShared/Services/Marking.antt =====
-- src/NodeShared.cc, the services: the mark on a request that is sent.
use gz_transport.Common.{
  ℕ, ◌+◌, ◌≤◌, ◌≡◌, inl, inr, Bool, true, false, List, [], ◌∷◌, ◌++◌, if◌then◌else◌, Text, text_eq,
  text_eq_iff, arith, Option-cases, Bool-cases,
}
use gz_transport.Common.Map.{Map}
use gz_transport.HandlerStorage.{topic_handlers, handlers, first_service_handler}
use gz_transport.Handlers.{Protobuf}
use gz_transport.Handlers.Request.{ReqHandler, req_handles}
use gz_transport.Handlers.Reply.{run_callback, rep_handles}
use gz_transport.Publisher.{ServicePublisher}
use gz_transport.NodeShared.{Process}
use gz_transport.NodeShared.Services.{
  Services, Output, connect_requester, connect_replier, send_request, send_response, notified,
  connect_once, connect_for_requests, progress_of, progress_of-insert, send_one, send_loop,
  send_all, send_pending_remote_reqs, on_new_srv_connection, publish_front, find_responser,
  request_frames,
}
use gz_transport.NodeShared.Services.Replies.{SrvRequest, response_frames, on_srv_request}

-- Whether the frames are those of the request with this UUID.
unfoldable pub asks_for : Text → List Text → Bool
asks_for k (id ∷ topic ∷ addr ∷ dst ∷ n ∷ req_uuid ∷ rest) = text_eq req_uuid k
asks_for k _ = false

module _ {Msg : Type 0} where
  -- How often the request with this UUID went out.
  unfoldable pub sends : Text → List (Output Msg) → ℕ
  sends k [] = 0
  sends k (send_request frames ∷ out) = (if asks_for k frames then 1 else 0) + sends k out
  sends k (connect_requester a ∷ out) = sends k out
  sends k (connect_replier a ∷ out) = sends k out
  sends k (send_response frames ∷ out) = sends k out
  sends k (notified n ∷ out) = sends k out

  unfoldable pub marked : Text → Services Msg → ℕ
  marked k s = if (progress_of k s.progress).requested then 1 else 0

  sends-append :
      (k : Text) (out out' : List (Output Msg)) → sends k (out ++ out') ≡ sends k out + sends k out'
  unfolding sends
  sends-append k [] out' = omega arith
  sends-append k (send_request frames ∷ out) out' = ground (arith, sends-append k out out')
  sends-append k (connect_requester a ∷ out) out' = sends-append k out out'
  sends-append k (connect_replier a ∷ out) out' = sends-append k out out'
  sends-append k (send_response frames ∷ out) out' = sends-append k out out'
  sends-append k (notified n ∷ out) out' = sends-append k out out'

  -- A step sends the request only if it was not marked, and marks it then.
  abbrev pub IsMarking : Text → Services Msg → Services Msg × List (Output Msg) → Type 0
  IsMarking k s r = sends k r.1 + marked k s ≤ marked k r.0

  pub IsMarking-then :
      (k : Text) (s t u : Services Msg) (out out' : List (Output Msg))
      → IsMarking k s (t, out)
      → IsMarking k t (u, out')
      → IsMarking k s (u, out ++ out')
  IsMarking-then k s t u out out' h h' = omega (arith, sends-append k out out', h, h')

  pub IsMarking-idle : (k : Text) (s : Services Msg) → IsMarking k s (s, [])
  unfolding sends
  IsMarking-idle k s = omega arith

  connect_once-IsMarking :
      (k addr : Text) (s : Services Msg)
      → IsMarking k s (connect_once connect_requester addr s)
        × IsMarking k s (connect_once connect_replier addr s)
  unfolding sends connect_once marked
  connect_once-IsMarking k addr s = ground arith

  connect_for_requests-IsMarking :
      (me : Process) (k addr : Text) (s : Services Msg)
      → IsMarking k s (connect_for_requests me addr s)
  unfolding connect_for_requests
  connect_for_requests-IsMarking me k addr s =
      ground (arith, connect_once-IsMarking k addr s, IsMarking-idle k s)

module _ {Msg : Type 0} ⦃pb : Protobuf Msg⦄ (me : Process) where
  send_one-IsMarking :
      (k : Text) (p : ServicePublisher) (topic req rep : Text) (h : ReqHandler Msg)
      (s : Services Msg)
      → IsMarking k s (send_one me p topic req rep h s)
  unfolding send_one sends marked asks_for request_frames
  send_one-IsMarking k p topic req rep h s = ground (
    arith,
    progress_of-insert h.h_uuid k (record (progress_of h.h_uuid s.progress) { requested = true })
        s.progress,
    text_eq_iff h.h_uuid k,
  )

  send_loop-IsMarking :
      (k : Text) (p : ServicePublisher) (topic req rep : Text) (hs : List (ReqHandler Msg))
      (s : Services Msg)
      → IsMarking k s (send_loop me p topic req rep hs s)
  unfolding send_loop
  send_loop-IsMarking k p topic req rep [] s = IsMarking-idle k s
  send_loop-IsMarking k p topic req rep (h ∷ hs) s =
      let (s', out) = send_one me p topic req rep h s in
      let (s'', out') = send_loop me p topic req rep hs s' in
      IsMarking-then k s s' s'' out out' (send_one-IsMarking k p topic req rep h s)
        (send_loop-IsMarking k p topic req rep hs s')

  send_all-IsMarking :
      (k : Text) (p : ServicePublisher) (topic req rep : Text) (s : Services Msg)
      → IsMarking k s (send_all me p topic req rep s)
  unfolding send_all
  send_all-IsMarking k p topic req rep s = elim (Option-cases (handlers topic s.requests)) [
    | inl e ↦ rw (e, send_all) (IsMarking-idle k s)
    | inr (reqs, e) ↦
        rw (e, send_all) (send_loop-IsMarking k p topic req rep (topic_handlers reqs) s)
  ]

  pub send_pending-IsMarking :
      (k : Text) (addresses : Map (List ServicePublisher)) (topic req rep : Text) (s : Services Msg)
      → IsMarking k s (send_pending_remote_reqs me addresses topic req rep s)
  unfolding send_pending_remote_reqs
  send_pending-IsMarking k addresses topic req rep s =
      elim (Option-cases (find_responser req rep addresses)) [
        | inl e ↦ rw (e, send_pending_remote_reqs) (IsMarking-idle k s)
        | inr (p, e) ↦
            let r = connect_for_requests me p.base.addr s in
            let first = connect_for_requests-IsMarking me k p.base.addr s in
            let r' = send_all me p topic req rep r.0 in
            rw (e, send_pending_remote_reqs)
              (IsMarking-then k s r.0 r'.0 r.1 r'.1 first
                (send_all-IsMarking k p topic req rep r.0))
      ]

  pub on_new_srv_connection-IsMarking :
      (k : Text) (p : ServicePublisher) (s : Services Msg)
      → IsMarking k s (on_new_srv_connection me p s)
  unfolding on_new_srv_connection marked
  on_new_srv_connection-IsMarking k p s =
      ground (arith, connect_for_requests-IsMarking me k p.base.addr s)

  pub publish_front-IsMarking :
      (k : Text) (publishers : Text → Map (List ServicePublisher)) (queue : List ServicePublisher)
      (s : Services Msg)
      → IsMarking k s (publish_front me publishers queue s)
  unfolding publish_front marked
  publish_front-IsMarking k publishers [] s = IsMarking-idle k s
  publish_front-IsMarking k publishers (p ∷ queue) s =
      send_pending-IsMarking k (publishers p.base.topic) p.base.topic p.req_type_name
        p.rep_type_name (record s { srv_queue = queue })

  pub on_srv_request-IsMarking :
      (k : Text) (r : SrvRequest) (s : Services Msg) → IsMarking k s (on_srv_request me r s)
  unfolding on_srv_request sends
  on_srv_request-IsMarking k r s =
      elim (Option-cases (first_service_handler r.topic r.req_type r.rep_type s.repliers)) [
        | inl e ↦ rw (e, on_srv_request) (IsMarking-idle k s)
        | inr (h, e) ↦
            let (result, rep) = run_callback r.req h in
            let (s', out) = connect_once connect_replier r.sender s in
            let first = (connect_once-IsMarking k r.sender s).1 in
            let sent = send_response (response_frames r result rep) ∷ [] in
            rw (e, on_srv_request)
              (elim (Bool-cases (text_eq r.rep_type me.empty_type)) [
                | inl e' ↦ rw e' (IsMarking-idle k s)
                | inr e' ↦ rw e' (IsMarking-then k s s' s' out sent first (IsMarking-idle k s'))
              ])
      ]
