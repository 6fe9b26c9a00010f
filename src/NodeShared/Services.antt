-- ===== src/NodeShared/Services.antt =====
-- src/NodeShared.cc, the services: the state of a process, and how it sends its pending requests. A message of several parts is the list of its frames; a `recv` that
-- fails is a frame that is missing, and what `send` and `connect` do is an effect.
pub mod Exchange
pub mod Histories
pub mod Marking
pub mod Once
pub mod Replies
pub mod Sending
mod Tests
use gz_transport.Common.{
  ◌≡◌, arith, text_eq_iff, Bool, true, false, not, ◌&&◌, ◌||◌, Option, none, some, List, [], ◌∷◌,
  ◌++◌, any, find, keep_if, drop_if, if◌then◌else◌, Text, bytes, text_eq,
}
use gz_transport.Common.Map.{Map, lookup, insert, lookup-insert}
use gz_transport.HandlerStorage.{
  topic_handlers, HandlerStorage, handlers, handler, add_handler, remove_handler,
  first_service_handler,
}
use gz_transport.Handlers.{Protobuf}
use gz_transport.Handlers.Request.{
  ReqHandler, Progress, Notified, fresh, req_type, rep_type, serialize, notify_result, req_handles,
}
use gz_transport.Handlers.Reply.{RepHandler, run_callback, rep_handles}
use gz_transport.Publisher.{ServicePublisher}
use gz_transport.NodeShared.{Process}

-- `requests`, `repliers`, `srvConnections` and `srvQueue`. `progress` holds the members of the
-- request handlers that change, by the UUID of the handler: a handler that left `requests` still
-- exists for the thread that waits for it.
pub record Services (Msg : Type 0) : Type 0 where
  pub requests : HandlerStorage (ReqHandler Msg)
  pub progress : Map Progress
  pub repliers : HandlerStorage (RepHandler Msg)
  pub srv_connections : List Text
  pub srv_queue : List ServicePublisher

-- What goes out by the sockets `requester` and `replier`, and the calls of the user's code.
pub data Output (Msg : Type 0) : Type 0 where
  connect_requester : Text → Output Msg
  connect_replier : Text → Output Msg
  send_request : List Text → Output Msg
  send_response : List Text → Output Msg
  notified : Notified Msg → Output Msg

-- The first publisher of the two nested loops that offers the two types.
unfoldable pub offers : Text → Text → ServicePublisher → Bool
offers req rep p = text_eq p.req_type_name req && text_eq p.rep_type_name rep

unfoldable pub find_responser : Text → Text → Map (List ServicePublisher) → Option ServicePublisher
unfolding offers
find_responser req rep [] = none
find_responser req rep ((proc, v) ∷ m) = elim (find (offers req rep) v) [
  | some p ↦ some p
  | none ↦ find_responser req rep m
]

-- A handler whose members never changed is as its constructor left it.
unfoldable pub progress_of : Text → Map Progress → Progress
progress_of k m = elim (lookup k m) [ none ↦ fresh | some p ↦ p ]

pub progress_of-insert :
    (j k : Text) (p : Progress) (m : Map Progress)
    → progress_of k (insert j p m) ≡ (if text_eq j k then p else progress_of k m)
unfolding progress_of
progress_of-insert j k p m = ground (arith, lookup-insert j k p m)

module _ {Msg : Type 0} where
  -- "I am still not connected to this address."
  unfoldable pub connect_once :
      (Text → Output Msg) → Text → Services Msg → Services Msg × List (Output Msg)
  connect_once connect addr s =
      if any (λ a. text_eq a addr) s.srv_connections
      then (s, [])
      else (record s { srv_connections = s.srv_connections ++ addr ∷ [] }, connect addr ∷ [])

  -- The same for the socket `requester`, which only ZeroMQ has.
  unfoldable pub connect_for_requests :
      Process → Text → Services Msg → Services Msg × List (Output Msg)
  unfolding connect_once
  connect_for_requests me addr s =
      if me.is_zeromq then connect_once connect_requester addr s else (s, [])

module _ {Msg : Type 0} ⦃pb : Protobuf Msg⦄ (me : Process) where
  -- The frames of a request.
  unfoldable pub request_frames :
      ServicePublisher → Text → ReqHandler Msg → Text → Text → Text → List Text
  request_frames p topic h data_ req rep =
      p.socket_id ∷ topic ∷ me.my_requester_address ∷ me.response_receiver_id ∷ h.n_uuid ∷ h.h_uuid
      ∷ data_ ∷ req ∷ rep ∷ []

  -- One turn of the loop of `SendPendingRemoteReqs` over the pending requests.
  unfoldable pub send_one :
      ServicePublisher
      → Text
      → Text
      → Text
      → ReqHandler Msg
      → Services Msg
      → Services Msg × List (Output Msg)
  unfolding request_frames progress_of
  send_one p topic req rep h s =
      let old = progress_of h.h_uuid s.progress in
      let forgotten = remove_handler topic h.n_uuid h.h_uuid s.requests in
      let marked = insert h.h_uuid (record old { requested = true }) s.progress in
      let kept = if text_eq rep me.empty_type then forgotten.0 else s.requests in
      if old.requested
      then (s, [])
      else if not (text_eq (req_type h) req && text_eq (rep_type h) rep)
      then (s, [])
      else if me.is_zeromq
      then elim (serialize h) [
        | none ↦ (record s { progress = marked }, [])
        | some d ↦ (
          record s { progress = marked; requests = kept },
          send_request (request_frames p topic h d req rep) ∷ [],
        )
      ]
      else (record s { requests = kept }, [])

  unfoldable pub send_loop :
      ServicePublisher
      → Text
      → Text
      → Text
      → List (ReqHandler Msg)
      → Services Msg
      → Services Msg × List (Output Msg)
  unfolding send_one
  send_loop p topic req rep [] s = (s, [])
  send_loop p topic req rep (h ∷ hs) s =
      let (s', out) = send_one p topic req rep h s in
      let (s'', out') = send_loop p topic req rep hs s' in (s'', out ++ out')

  -- The part of `SendPendingRemoteReqs` behind the search of a responser.
  unfoldable pub send_all :
      ServicePublisher → Text → Text → Text → Services Msg → Services Msg × List (Output Msg)
  unfolding send_loop topic_handlers
  send_all p topic req rep s = elim (handlers topic s.requests) [
    | none ↦ (s, [])
    | some reqs ↦ send_loop p topic req rep (topic_handlers reqs) s
  ]

  -- `addresses` is what `srvDiscovery->Publishers` gives for the topic.
  unfoldable pub send_pending_remote_reqs :
      Map (List ServicePublisher)
      → Text
      → Text
      → Text
      → Services Msg
      → Services Msg × List (Output Msg)
  unfolding send_all connect_for_requests find_responser
  send_pending_remote_reqs addresses topic req rep s = elim (find_responser req rep addresses) [
    | none ↦ (s, [])
    | some p ↦
        let (s', out) = connect_for_requests me p.base.addr s in
        let (s'', out') = send_all p topic req rep s' in (s'', out ++ out')
  ]

  -- `OnNewSrvConnection`
  unfoldable pub on_new_srv_connection :
      ServicePublisher → Services Msg → Services Msg × List (Output Msg)
  unfolding connect_for_requests
  on_new_srv_connection p s =
      let (s', out) = connect_for_requests me p.base.addr s in
      elim (first_service_handler p.base.topic p.req_type_name p.rep_type_name s'.requests) [
        | none ↦ (s', out)
        | some h ↦ (record s' { srv_queue = s'.srv_queue ++ p ∷ [] }, out)
      ]

  -- One turn of the loop of `SrvPublishThread`, which takes the front of the queue: `publishers` is
  -- the discovery of the services.
  unfoldable pub publish_front :
      (Text → Map (List ServicePublisher))
      → List ServicePublisher
      → Services Msg
      → Services Msg × List (Output Msg)
  unfolding send_pending_remote_reqs
  publish_front publishers [] s = (s, [])
  publish_front publishers (p ∷ queue) s =
      send_pending_remote_reqs (publishers p.base.topic) p.base.topic p.req_type_name
        p.rep_type_name (record s { srv_queue = queue })

  unfoldable pub srv_publish :
      (Text → Map (List ServicePublisher)) → Services Msg → Services Msg × List (Output Msg)
  unfolding publish_front
  srv_publish publishers s = publish_front publishers s.srv_queue s

-- `OnNewSrvDisconnection`
unfoldable pub on_new_srv_disconnection :
    {Msg : Type 0} → ServicePublisher → Services Msg → Services Msg
on_new_srv_disconnection p s = record s {
  srv_connections = drop_if (λ a. text_eq a p.base.addr) s.srv_connections;
}
