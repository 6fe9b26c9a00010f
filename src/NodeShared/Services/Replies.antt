-- ===== src/NodeShared/Services/Replies.antt =====
-- src/NodeShared.cc, the services: the calls that a process answers, and the responses that it gets.
use gz_transport.Common.{
  Bool, Option, none, some, List, [], ◌∷◌, ◌++◌, if◌then◌else◌, Text, bytes, text_eq,
}
use gz_transport.Common.Map.{insert}
use gz_transport.HandlerStorage.{handler, remove_handler, first_service_handler}
use gz_transport.Handlers.{Protobuf}
use gz_transport.Handlers.Request.{Notified, notify_result}
use gz_transport.Handlers.Reply.{run_callback, rep_handles}
use gz_transport.NodeShared.{Process}
use gz_transport.NodeShared.Services.{
  Services, Output, connect_replier, send_response, notified, connect_once, progress_of,
}

-- What `RecvSrvRequest` reads; the first of the nine frames is not used. A frame that is missing is
-- a `recv` that fails.
pub record SrvRequest : Type 0 where
  pub topic : Text
  pub sender : Text
  pub dst_id : Text
  pub node_uuid : Text
  pub req_uuid : Text
  pub req : Text
  pub req_type : Text
  pub rep_type : Text

unfoldable pub read_request : List Text → Option SrvRequest
read_request (from ∷ t ∷ a ∷ d ∷ n ∷ k ∷ r ∷ rq ∷ rp ∷ rest) = some (record {
  topic = t;
  sender = a;
  dst_id = d;
  node_uuid = n;
  req_uuid = k;
  req = r;
  req_type = rq;
  rep_type = rp;
})
read_request _ = none

-- What `RecvSrvResponse` reads; the first of the six frames is not used.
pub record SrvResponse : Type 0 where
  pub topic : Text
  pub node_uuid : Text
  pub req_uuid : Text
  pub rep : Text
  pub result : Bool

unfoldable pub read_response : List Text → Option SrvResponse
read_response (from ∷ t ∷ n ∷ k ∷ r ∷ result ∷ rest) = some (record {
  topic = t;
  node_uuid = n;
  req_uuid = k;
  rep = r;
  result = text_eq result (bytes "1");
})
read_response _ = none

-- The frames of the response to a request.
unfoldable pub response_frames : SrvRequest → Bool → Text → List Text
response_frames r result rep =
    r.dst_id
    ∷ r.topic
    ∷ r.node_uuid
    ∷ r.req_uuid
    ∷ rep
    ∷ (if result then bytes "1" else bytes "0")
    ∷ []

module _ {Msg : Type 0} ⦃pb : Protobuf Msg⦄ (me : Process) where
  -- `RecvSrvRequest` once the frames are read.
  unfoldable pub on_srv_request : SrvRequest → Services Msg → Services Msg × List (Output Msg)
  unfolding connect_once run_callback response_frames
  on_srv_request r s = elim (first_service_handler r.topic r.req_type r.rep_type s.repliers) [
    | none ↦ (s, [])
    | some h ↦
        let (result, rep) = run_callback r.req h in
        if text_eq r.rep_type me.empty_type
        then (s, [])
        else (let (s', out) = connect_once connect_replier r.sender s in
            (s', out ++ send_response (response_frames r result rep) ∷ []))
  ]

  unfoldable pub recv_srv_request : List Text → Services Msg → Services Msg × List (Output Msg)
  unfolding on_srv_request read_request
  recv_srv_request frames s = elim (read_request frames) [
    | none ↦ (s, [])
    | some r ↦ on_srv_request r s
  ]

module _ {Msg : Type 0} where
  unfoldable pub notifications : List (Notified Msg) → List (Output Msg)
  notifications [] = []
  notifications (n ∷ ns) = notified n ∷ notifications ns

module _ {Msg : Type 0} ⦃pb : Protobuf Msg⦄ where
  -- `RecvSrvResponse` once the frames are read.
  unfoldable pub on_srv_response : SrvResponse → Services Msg → Services Msg × List (Output Msg)
  unfolding progress_of notify_result notifications
  on_srv_response r s = elim (handler r.topic r.node_uuid r.req_uuid s.requests) [
    | none ↦ (s, [])
    | some h ↦
        let (p, calls) = notify_result r.rep r.result h (progress_of h.h_uuid s.progress) in
        (
          record s {
            progress = insert h.h_uuid p s.progress;
            requests = (remove_handler r.topic r.node_uuid r.req_uuid s.requests).0;
          },
          notifications calls,
        )
  ]

  unfoldable pub recv_srv_response : List Text → Services Msg → Services Msg × List (Output Msg)
  unfolding on_srv_response read_response
  recv_srv_response frames s = elim (read_response frames) [
    | none ↦ (s, [])
    | some r ↦ on_srv_response r s
  ]
