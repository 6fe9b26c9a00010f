-- ===== src/Node/Asking.antt =====
-- include/gz/transport/detail/Node.hh: the services that a node offers, and its requests.
pub mod Late
use gz_transport.Common.{
  Bool, true, false, not, ◌&&◌, Option, none, some, List, [], ◌∷◌, ◌++◌, any, drop_if,
  if◌then◌else◌, Text, text_eq,
}
use gz_transport.Common.Map.{Map}
use gz_transport.HandlerStorage.{
  add_handler, remove_handler, remove_handlers_for_node, first_service_handler,
}
use gz_transport.NodeOptions.{advertised_name, unadvertised_name}
use gz_transport.Handlers.{Protobuf}
use gz_transport.Handlers.Request.{ReqHandler, Notified, typed, called_back, req_handles}
use gz_transport.Handlers.Reply.{RepHandler, rep_handles}
use gz_transport.Publisher.{ServicePublisher, Scope, new_service_publisher}
use gz_transport.NodeShared.{Process}
use gz_transport.NodeShared.Services.{
  Services, Output, notified, progress_of, send_pending_remote_reqs,
}
use gz_transport.Node.{Node}

-- What the calls of a node use of the discovery of services: `Publishers`, and the answers of
-- `Discover`, `Advertise` and `Unadvertise`.
pub record Lookup : Type 0 where
  pub publishers_of : Text → Option (Map (List ServicePublisher))
  pub discovers : Text → Bool
  pub advertises : ServicePublisher → Bool
  pub unadvertises : Text → Text → Bool

module _ {Msg : Type 0} (me : Process) (srv : Lookup) where
  -- `Advertise` of a service: `k` is the UUID of the new handler, `addr` and `socket` the address
  -- and the identity of the socket `replier`.
  unfoldable pub advertise_service :
      Node
      → Text
      → Text
      → Text
      → (Msg → Msg × Bool)
      → Scope
      → Text
      → Text
      → Text
      → Services Msg
      → Node × Services Msg × Bool
  unfolding advertised_name
  advertise_service node topic req rep cb scope k addr socket s =
      elim (advertised_name topic node.options) [
        | none ↦ (node, s, false)
        | some name ↦
            let n = node.node_uuid in
            let h : RepHandler Msg = record {
              h_uuid = k;
              req_type_name = req;
              rep_type_name = rep;
              cb = if me.is_zeromq then some cb else none;
            } in
            let names = node.srvs_advertised in
            let node' = record node {
              srvs_advertised =
                  if any (λ u. text_eq u name) names then names else names ++ name ∷ [];
            } in
            let p = new_service_publisher name addr socket me.own_uuid n req rep scope in
            (
              node',
              record s { repliers = add_handler name n h s.repliers },
              if me.is_zeromq then srv.advertises p else true,
            )
      ]

  -- `UnadvertiseSrv`
  unfoldable pub unadvertise_srv : Node → Text → Services Msg → Node × Services Msg × Bool
  unfolding unadvertised_name
  unadvertise_srv node topic s = elim (unadvertised_name topic node.options) [
    | none ↦ (node, s, false)
    | some name ↦ (
      record node { srvs_advertised = drop_if (λ u. text_eq u name) node.srvs_advertised },
      record s { repliers = (remove_handlers_for_node name node.node_uuid s.repliers).0 },
      srv.unadvertises name node.node_uuid,
    )
  ]

module _ {Msg : Type 0} where
  -- The handler of a new request.
  abbrev pub new_request : Node → Text → Text → Text → Msg → Bool → ReqHandler Msg
  new_request node k req rep msg cb = record {
    h_uuid = k;
    n_uuid = node.node_uuid;
    kind = typed req rep msg cb;
  }

module _ {Msg : Type 0} ⦃pb : Protobuf Msg⦄ where
  open pb use {type_name_of}

  -- `RunLocalCallback` of the handler of a service, on a request and a new response: the answer,
  -- and the response that the callback wrote.
  unfoldable pub run_local : RepHandler Msg → Msg → Msg → Msg × Bool
  run_local h req blank = elim h.cb [
    | none ↦ (blank, false)
    | some cb ↦
        if text_eq (type_name_of req) h.req_type_name
          && text_eq (type_name_of blank) h.rep_type_name
        then cb req
        else (blank, false)
  ]

module _ {Msg : Type 0} ⦃pb : Protobuf Msg⦄ (me : Process) (srv : Lookup) where
  -- The part of both requests that stores the handler, and sends it or discovers a responser.
  unfoldable pub ask :
      Text → Text → Text → ReqHandler Msg → Services Msg → Services Msg × List (Output Msg) × Bool
  unfolding send_pending_remote_reqs
  ask name req rep h s =
      let s' = record s { requests = add_handler name h.n_uuid h s.requests } in
      elim (srv.publishers_of name) [
        | some addresses ↦
            let (s'', out) = send_pending_remote_reqs me addresses name req rep s' in
            (s'', out, true)
        | none ↦ (s', [], if me.is_zeromq then srv.discovers name else true)
      ]

  -- `Request` with a callback: `blank` is a new message of the type of the response.
  unfoldable pub request_async :
      Node
      → Text
      → Text
      → Text
      → Text
      → Msg
      → Msg
      → Services Msg
      → Services Msg × List (Output Msg) × Bool
  unfolding advertised_name run_local ask
  request_async node topic req rep k msg blank s = elim (advertised_name topic node.options) [
    | none ↦ (s, [], false)
    | some name ↦ elim (first_service_handler name req rep s.repliers) [
      | some g ↦
          let (answer, ok) = run_local g msg blank in
          (s, notified (called_back k answer ok) ∷ [], true)
      | none ↦ ask name req rep (new_request node k req rep msg true) s
    ]
  ]

module _ {Msg : Type 0} where
  -- What `Request` does once the time is over or the response is there: the handler leaves the
  -- storage, and the answers are that of the function and, if it is true, `_result` with the bytes
  -- of the response. `parse` is `ParseFromString`.
  unfoldable pub finish_request :
      (Text → Bool) → Text → ReqHandler Msg → Services Msg → Services Msg × Bool × Bool
  unfolding progress_of
  finish_request parse name h s =
      let p = progress_of h.h_uuid s.progress in
      let s' = record s { requests = (remove_handler name h.n_uuid h.h_uuid s.requests).0 } in
      if not p.rep_available
      then (s', false, false)
      else if not p.result
      then (s', true, false)
      else (s', true, parse p.rep)
