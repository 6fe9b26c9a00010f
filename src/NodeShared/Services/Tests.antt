-- ===== src/NodeShared/Services/Tests.antt =====
-- Examples of src/NodeShared.cc: two processes, one of which asks the service of the other.
use gz_transport.Common.{
  ◌≤◌, ◌≡◌, refl, true, false, ◌&&◌, none, some, List, [], ◌∷◌, ◌++◌, if◌then◌else◌, Text, bytes,
  text_eq,
}
use gz_transport.Common.Within.{In}
use gz_transport.Common.Map.{Map, lookup}
use gz_transport.HandlerStorage.{
  handlers, handler, topic_handlers, node_handlers, first_service_handler, first_of_topic,
  first_of_node,
}
use gz_transport.Handlers.{Protobuf}
use gz_transport.Handlers.Request.{
  ReqHandler, typed, called_back, fresh, req_type, rep_type, serialize, notify_result, req_handles,
}
use gz_transport.Handlers.Reply.{RepHandler, run_callback, rep_handles}
use gz_transport.Publisher.{ServicePublisher, all, new_service_publisher}
use gz_transport.NodeShared.{Process}
use gz_transport.NodeShared.Services.{
  Services, Output, send_request, send_response, notified, progress_of, send_pending_remote_reqs,
  find_responser, offers, request_frames,
}
use gz_transport.NodeShared.Services.Replies.{
  response_frames, recv_srv_request, recv_srv_response, notifications,
}
use gz_transport.NodeShared.Services.Histories.{Event, run, sends_pending, receives_response}
use gz_transport.NodeShared.Services.Marking.{sends}
use gz_transport.NodeShared.Services.Once.{run-sends}
use gz_transport.NodeShared.Services.Exchange.{requested_of, service_exchange}

-- Messages that are their own bytes, all of one type.
instance abbrev text_protobuf : Protobuf Text
text_protobuf = record {
  type_name_of = λ m. bytes "Int";
  parse_from_string = λ type s. (s, true);
  serialize_to_string = λ m. some m;
}

abbrev process_of : Text → Process
process_of u = record {
  own_uuid = u;
  my_address = bytes "tcp:1";
  my_requester_address = bytes "tcp:2";
  response_receiver_id = bytes "id";
  empty_type = bytes "Empty";
  is_zeromq = true;
}

abbrev asker : Process
asker = process_of (bytes "asker")

abbrev answerer : Process
answerer = process_of (bytes "answerer")

abbrev service : Text
service = bytes "@p@/sum"

-- A pending request of other types, and one for the service.
abbrev other_request : ReqHandler Text
other_request = record {
  h_uuid = bytes "r1";
  n_uuid = bytes "n1";
  kind = typed (bytes "Str") (bytes "Str") (bytes "x") false;
}

abbrev request : ReqHandler Text
request = record {
  h_uuid = bytes "r2";
  n_uuid = bytes "n1";
  kind = typed (bytes "Int") (bytes "Int") (bytes "41") true;
}

abbrev pending : Services Text
pending = record {
  requests =
      (service, (bytes "n1", (bytes "r1", other_request) ∷ (bytes "r2", request) ∷ []) ∷ []) ∷ [];
  progress = [];
  repliers = [];
  srv_connections = [];
  srv_queue = [];
}

abbrev replier : RepHandler Text
replier = record {
  h_uuid = bytes "s1";
  req_type_name = bytes "Int";
  rep_type_name = bytes "Int";
  cb = some (λ m. (m ++ bytes "+1", true));
}

abbrev serving : Services Text
serving = record {
  requests = [];
  progress = [];
  repliers = (service, (bytes "n2", (bytes "s1", replier) ∷ []) ∷ []) ∷ [];
  srv_connections = [];
  srv_queue = [];
}

abbrev served_by : ServicePublisher
served_by =
    new_service_publisher service (bytes "tcp:9") (bytes "sock") (bytes "answerer") (bytes "n2")
      (bytes "Int") (bytes "Int") all

abbrev known_services : Map (List ServicePublisher)
known_services = (bytes "answerer", served_by ∷ []) ∷ []

-- A ROUTER socket: the identity of the receiver gives way to that of the sender.
abbrev router : Text → List Text → List Text
router from [] = []
router from (to ∷ frames) = from ∷ frames

abbrev asked : Services Text × List (Output Text)
asked = send_pending_remote_reqs asker known_services service (bytes "Int") (bytes "Int") pending

abbrev request_sent : List Text
request_sent =
    request_frames asker served_by service request (bytes "41") (bytes "Int") (bytes "Int")

abbrev response_sent : List Text
response_sent =
    response_frames (requested_of asker service request (bytes "41")) true (bytes "41+1")

abbrev answered : Services Text × List (Output Text)
answered = recv_srv_response (router (bytes "sock") response_sent) asked.0

service_exchange_example :
    In (send_request request_sent) asked.1
    × In
        (send_response response_sent)
        (recv_srv_request answerer (router (bytes "me") request_sent) serving).1
    × (answered.1 ≡ notified (called_back (bytes "r2") (bytes "41+1") true) ∷ [])
    × (progress_of (bytes "r2") answered.0.progress
        ≡ record fresh { requested = true; rep_available = true })
    × ((t n k : Text)
        → handler t n k answered.0.requests ≡ (
            if text_eq service t && (text_eq (bytes "n1") n && text_eq (bytes "r2") k)
            then none
            else handler t n k pending.requests))
unfolding find_responser offers handlers handler topic_handlers node_handlers lookup text_eq
    serialize req_type rep_type progress_of first_service_handler first_of_topic first_of_node
    run_callback notify_result notifications new_service_publisher
service_exchange_example =
    service_exchange router (λ from to frames. refl) asker answerer (bytes "me") (bytes "sock")
      known_services served_by service (other_request ∷ []) request [] (bytes "41") replier pending
      serving refl refl refl (refl, tt) refl refl refl refl refl refl refl

-- The same request is sent for again, and a response arrives.
abbrev history : List (Event Text)
history =
    sends_pending known_services service (bytes "Int") (bytes "Int")
    ∷ sends_pending known_services service (bytes "Int") (bytes "Int")
    ∷ receives_response (router (bytes "sock") response_sent)
    ∷ sends_pending known_services service (bytes "Int") (bytes "Int")
    ∷ []

run-sends_example :
    sends (bytes "r2") (run asker history pending).1
    ≤ (if (progress_of (bytes "r2") pending.progress).requested then 0 else 1)
run-sends_example = run-sends asker (bytes "r2") history pending
