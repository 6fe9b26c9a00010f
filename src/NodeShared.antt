-- ===== src/NodeShared.antt =====
-- src/NodeShared.cc: the object that the nodes of a process share, with ZeroMQ as transport.
-- The members that a process never changes stand here; the others with the operations that change
-- them.
pub mod Callbacks
pub mod Connections
pub mod Services
pub mod Subscribers
use gz_transport.Common.{Bool, Text}

-- `pUuid`, `myAddress`, `myRequesterAddress`, `responseReceiverId` as text, the name of the type
-- `msgs::Empty`, and whether `GzImplementation()` is "zeromq".
pub record Process : Type 0 where
  pub own_uuid : Text
  pub my_address : Text
  pub my_requester_address : Text
  pub response_receiver_id : Text
  pub empty_type : Text
  pub is_zeromq : Bool
