-- ===== src/NodeShared/Services/Histories.antt =====
-- Histories of the services of a process, src/NodeShared.cc.
use gz_transport.Common.{List, [], ◌∷◌, ◌++◌, Text}
use gz_transport.Common.Map.{Map}
use gz_transport.HandlerStorage.{add_handler, remove_handler, remove_handlers_for_node}
use gz_transport.Handlers.{Protobuf}
use gz_transport.Handlers.Request.{ReqHandler, req_handles}
use gz_transport.Handlers.Reply.{RepHandler, rep_handles}
use gz_transport.Publisher.{ServicePublisher}
use gz_transport.NodeShared.{Process}
use gz_transport.NodeShared.Services.{
  Services, Output, send_pending_remote_reqs, on_new_srv_connection, srv_publish,
  on_new_srv_disconnection,
}
use gz_transport.NodeShared.Services.Replies.{recv_srv_request, recv_srv_response}

-- What happens to the services of a process: a node adds or drops a pending request, adds or drops
-- the handlers of a service, something is discovered, or a socket has something to read.
pub data Event (Msg : Type 0) : Type 0 where
  asks : Text → ReqHandler Msg → Event Msg
  gives_up : Text → Text → Text → Event Msg
  offers_service : Text → Text → RepHandler Msg → Event Msg
  withdraws : Text → Text → Event Msg
  sends_pending : Map (List ServicePublisher) → Text → Text → Text → Event Msg
  connects : ServicePublisher → Event Msg
  disconnects : ServicePublisher → Event Msg
  publishes : (Text → Map (List ServicePublisher)) → Event Msg
  receives_request : List Text → Event Msg
  receives_response : List Text → Event Msg

module _ {Msg : Type 0} ⦃pb : Protobuf Msg⦄ (me : Process) where
  unfoldable pub step : Event Msg → Services Msg → Services Msg × List (Output Msg)
  unfolding recv_srv_request recv_srv_response on_new_srv_connection on_new_srv_disconnection
      srv_publish
  step (asks t h) s = (record s { requests = add_handler t h.n_uuid h s.requests }, [])
  step (gives_up t n k) s = (record s { requests = (remove_handler t n k s.requests).0 }, [])
  step (offers_service t n h) s = (record s { repliers = add_handler t n h s.repliers }, [])
  step (withdraws t n) s = (record s { repliers = (remove_handlers_for_node t n s.repliers).0 }, [])
  step (sends_pending addresses t req rep) s = send_pending_remote_reqs me addresses t req rep s
  step (connects p) s = on_new_srv_connection me p s
  step (disconnects p) s = (on_new_srv_disconnection p s, [])
  step (publishes publishers) s = srv_publish me publishers s
  step (receives_request frames) s = recv_srv_request me frames s
  step (receives_response frames) s = recv_srv_response frames s

  unfoldable pub run : List (Event Msg) → Services Msg → Services Msg × List (Output Msg)
  unfolding step
  run [] s = (s, [])
  run (e ∷ es) s = let (s', out) = step e s in let (s'', out') = run es s' in (s'', out ++ out')
