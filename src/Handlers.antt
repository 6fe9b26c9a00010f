-- ===== src/Handlers.antt =====
-- The handlers that a process keeps for its requests (include/gz/transport/ReqHandler.hh), its
-- services (RepHandler.hh) and its subscriptions (SubscriptionHandler.hh, with their .cc files).
pub mod Request
pub mod Reply
pub mod Subscription
mod Tests
use gz_transport.Common.{Bool, Option, Text}

-- What the handlers ask of protobuf. `parse_from_string` takes the name of the type, and gives the
-- message that `ParseFromString` leaves, with its answer.
pub record Protobuf (Msg : Type 0) : Type 0 where
  pub type_name_of : Msg → Text
  pub parse_from_string : Text → Text → Msg × Bool
  pub serialize_to_string : Msg → Option Text
