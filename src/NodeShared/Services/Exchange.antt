-- ===== src/NodeShared/Services/Exchange.antt =====
-- src/NodeShared.cc, the services: a request from the storage of one process to the handler of
-- another, and its response back.
use gz_transport.Common.{
  ◌≡◌, refl, ap, ◌∙◌, Bool, true, false, ◌&&◌, none, some, List, [], ◌∷◌, ◌++◌, All, if◌then◌else◌,
  Text, bytes, text_eq, text_eq_refl, arith,
}
use gz_transport.Common.Within.{In, Within-self, Within-back}
use gz_transport.Common.Map.{Map}
use gz_transport.HandlerStorage.{topic_handlers, handlers, handler, first_service_handler}
use gz_transport.HandlerStorage.Contents.{remove_handler-handler}
use gz_transport.Handlers.{Protobuf}
use gz_transport.Handlers.Request.{
  ReqHandler, req_type, rep_type, serialize, notify_result, req_handles,
}
use gz_transport.Handlers.Reply.{RepHandler, run_callback, rep_handles}
use gz_transport.Publisher.{ServicePublisher}
use gz_transport.NodeShared.{Process}
use gz_transport.NodeShared.Services.{
  Services, connect_replier, send_request, send_response, connect_once, connect_for_requests,
  progress_of, progress_of-insert, send_loop, send_all, send_pending_remote_reqs, find_responser,
  request_frames,
}
use gz_transport.NodeShared.Services.Sending.{send_loop-requests, send_loop-ready}
use gz_transport.NodeShared.Services.Replies.{
  SrvRequest, SrvResponse, read_request, read_response, response_frames, on_srv_request,
  recv_srv_request, on_srv_response, recv_srv_response, notifications,
}

-- What the requester reads of the response to a request.
abbrev response_to : SrvRequest → Bool → Text → SrvResponse
response_to r ok rep = record {
  topic = r.topic;
  node_uuid = r.node_uuid;
  req_uuid = r.req_uuid;
  rep = rep;
  result = ok;
}

flag_of : (ok : Bool) → text_eq (if ok then bytes "1" else bytes "0") (bytes "1") ≡ ok
unfolding text_eq
flag_of true = refl
flag_of false = refl

module _ {Msg : Type 0} ⦃pb : Protobuf Msg⦄ where
  connect_for_requests-state :
      (me : Process) (addr : Text) (s : Services Msg)
      → let s' = (connect_for_requests me addr s).0 in
        (s'.requests ≡ s.requests) × (s'.progress ≡ s.progress)
  unfolding connect_for_requests connect_once
  connect_for_requests-state me addr s = ground arith

  -- A pending request with a responser goes out, is marked, and stays in the storage.
  pub send_pending-ready :
      (me : Process) (addresses : Map (List ServicePublisher)) (p : ServicePublisher) (topic : Text)
      {reqs : Map (Map (ReqHandler Msg))} (before : List (ReqHandler Msg)) (h : ReqHandler Msg)
      (after : List (ReqHandler Msg)) (data_ : Text) (s : Services Msg)
      → find_responser (req_type h) (rep_type h) addresses ≡ some p
      → handlers topic s.requests ≡ some reqs
      → topic_handlers reqs ≡ before ++ h ∷ after
      → All (λ g. text_eq g.h_uuid h.h_uuid ≡ false) before
      → me.is_zeromq ≡ true
      → text_eq (rep_type h) me.empty_type ≡ false
      → serialize h ≡ some data_
      → (progress_of h.h_uuid s.progress).requested ≡ false
      → let r = send_pending_remote_reqs me addresses topic (req_type h) (rep_type h) s in
        In (send_request (request_frames me p topic h data_ (req_type h) (rep_type h))) r.1
        × (progress_of h.h_uuid r.0.progress
            ≡ record (progress_of h.h_uuid s.progress) { requested = true })
        × (r.0.requests ≡ s.requests)
  unfolding send_pending_remote_reqs send_all
  send_pending-ready me addresses p topic {reqs} before h after data_ s found stored split apart z e
        d u =
      let req = req_type h in
      let rep = rep_type h in
      let r = connect_for_requests me p.base.addr s in
      let (same, same') = connect_for_requests-state me p.base.addr s in
      let stored' : handlers topic r.0.requests ≡ some reqs = rw same stored in
      let u' : (progress_of h.h_uuid r.0.progress).requested ≡ false = rw same' u in
      let r' = send_loop me p topic req rep (before ++ h ∷ after) r.0 in
      let ready = send_loop-ready me p topic before h after data_ r.0 apart z d u' in
      let kept = send_loop-requests me p topic req rep (before ++ h ∷ after) r.0 e in
      let sent = send_request (request_frames me p topic h data_ req rep) in
      rw (found, send_pending_remote_reqs, stored', send_all, split)
        (Within-back (sent ∷ []) r.1 r'.1 ready.0, ready.1 ∙ rw same' refl, kept ∙ same)

  -- A request that has a replier, and is not a oneway request, is answered by the replier's result.
  pub on_srv_request-answers :
      (me : Process) (r : SrvRequest) (g : RepHandler Msg) (s : Services Msg)
      → first_service_handler r.topic r.req_type r.rep_type s.repliers ≡ some g
      → text_eq r.rep_type me.empty_type ≡ false
      → let (ok, rep) = run_callback r.req g in
        In (send_response (response_frames r ok rep)) (on_srv_request me r s).1
  unfolding on_srv_request
  on_srv_request-answers me r g s e oneway =
      let (ok, rep) = run_callback r.req g in
      let sent = send_response (response_frames r ok rep) in
      let out = (connect_once connect_replier r.sender s).1 in
      rw (e, on_srv_request, oneway)
        (Within-back (sent ∷ []) out (sent ∷ []) (Within-self (sent ∷ [])))

  recv_srv_response-response_frames :
      (from : Text) (r : SrvRequest) (ok : Bool) (rep : Text) (s : Services Msg)
      → recv_srv_response
          (from
            ∷ r.topic
            ∷ r.node_uuid
            ∷ r.req_uuid
            ∷ rep
            ∷ (if ok then bytes "1" else bytes "0")
            ∷ [])
          s
        ≡ on_srv_response (response_to r ok rep) s
  unfolding recv_srv_response read_response
  recv_srv_response-response_frames from r ok rep s =
      ap (λ b. on_srv_response (record (response_to r ok rep) { result = b }) s) (flag_of ok)

  -- A response to a pending request is given to its handler, which then is no longer stored; every
  -- other handler is.
  pub on_srv_response-notifies :
      (r : SrvResponse) (h : ReqHandler Msg) (s : Services Msg)
      → handler r.topic r.node_uuid r.req_uuid s.requests ≡ some h
      → let (s', out) = on_srv_response r s in
        let (p, calls) = notify_result r.rep r.result h (progress_of h.h_uuid s.progress) in
        (out ≡ notifications calls)
        × (progress_of h.h_uuid s'.progress ≡ p)
        × ((t n k : Text)
            → handler t n k s'.requests ≡ (
                if text_eq r.topic t && (text_eq r.node_uuid n && text_eq r.req_uuid k)
                then none
                else handler t n k s.requests))
  unfolding on_srv_response
  on_srv_response-notifies r h s e =
      let p = (notify_result r.rep r.result h (progress_of h.h_uuid s.progress)).0 in
      rw (e, on_srv_response)
        (
          refl,
          ground (arith, text_eq_refl h.h_uuid, progress_of-insert h.h_uuid h.h_uuid p s.progress),
          λ t n k. (remove_handler-handler r.topic r.node_uuid r.req_uuid s.requests t n k).1,
        )

  -- What the replier reads of the request of the handler `h` of `me`.
  abbrev pub requested_of : Process → Text → ReqHandler Msg → Text → SrvRequest
  requested_of me topic h data_ = record {
    topic = topic;
    sender = me.my_requester_address;
    dst_id = me.response_receiver_id;
    node_uuid = h.n_uuid;
    req_uuid = h.h_uuid;
    req = data_;
    req_type = req_type h;
    rep_type = rep_type h;
  }

  -- A pending request that a process sends to a replier of its two types is answered by that
  -- replier's result, and reading the answer notifies its handler with this result and removes it,
  -- and no other handler, from the pending requests. The sockets are ROUTER sockets: `deliver` puts
  -- the identity of the sender in the place of the first frame. The request is not oneway, was not
  -- requested before, can be serialized, and no handler before it has its UUID.
  pub service_exchange :
      (deliver : Text → List Text → List Text)
      → ((from to : Text) (frames : List Text) → deliver from (to ∷ frames) ≡ from ∷ frames)
      → (me peer : Process) (my_id peer_id : Text) (addresses : Map (List ServicePublisher))
        (p : ServicePublisher) (topic : Text) {reqs : Map (Map (ReqHandler Msg))}
        (before : List (ReqHandler Msg)) (h : ReqHandler Msg) (after : List (ReqHandler Msg))
        (data_ : Text) (g : RepHandler Msg) (s t : Services Msg)
      → find_responser (req_type h) (rep_type h) addresses ≡ some p
      → handlers topic s.requests ≡ some reqs
      → topic_handlers reqs ≡ before ++ h ∷ after
      → All (λ g. text_eq g.h_uuid h.h_uuid ≡ false) before
      → handler topic h.n_uuid h.h_uuid s.requests ≡ some h
      → me.is_zeromq ≡ true
      → text_eq (rep_type h) me.empty_type ≡ false
      → text_eq (rep_type h) peer.empty_type ≡ false
      → serialize h ≡ some data_
      → (progress_of h.h_uuid s.progress).requested ≡ false
      → first_service_handler topic (req_type h) (rep_type h) t.repliers ≡ some g
      → let (s', out) = send_pending_remote_reqs me addresses topic (req_type h) (rep_type h) s in
        let request = request_frames me p topic h data_ (req_type h) (rep_type h) in
        let (t', out') = recv_srv_request peer (deliver my_id request) t in
        let (ok, rep) = run_callback data_ g in
        let response = response_frames (requested_of me topic h data_) ok rep in
        let (s'', out'') = recv_srv_response (deliver peer_id response) s' in
        let old = progress_of h.h_uuid s.progress in
        let (p', calls) = notify_result rep ok h (record old { requested = true }) in
        In (send_request request) out
        × In (send_response response) out'
        × (out'' ≡ notifications calls)
        × (progress_of h.h_uuid s''.progress ≡ p')
        × ((t n k : Text)
            → handler t n k s''.requests ≡ (
                if text_eq topic t && (text_eq h.n_uuid n && text_eq h.h_uuid k)
                then none
                else handler t n k s.requests))
  unfolding request_frames recv_srv_request read_request response_frames
  service_exchange deliver route me peer my_id peer_id addresses p topic before h after data_ g s t
        found stored split apart held z e e' d u replier =
      let (sent, marked, kept) =
        send_pending-ready me addresses p topic before h after data_ s found stored split apart z e
          d u in
      let s' = (send_pending_remote_reqs me addresses topic (req_type h) (rep_type h) s).0 in
      let r = requested_of me topic h data_ in
      let (ok, rep) = run_callback data_ g in
      let (out, state, rest) =
        on_srv_response-notifies (response_to r ok rep) h s' (rw kept held) in
      rw
        (
          route my_id p.socket_id,
          route peer_id r.dst_id,
          recv_srv_response-response_frames peer_id r ok rep s',
        )
        (
          sent,
          on_srv_request-answers peer r g t replier e',
          rw (← marked) out,
          rw (← marked) state,
          λ t n k. rest t n k ∙ rw kept refl,
        )
