-- ===== src/Node.antt =====
-- src/Node.cc and include/gz/transport/detail/Node.hh: a node of a process, over the shared object
-- of the process.
pub mod Publishing
pub mod Subscribing
pub mod Asking
pub mod Raw
pub mod Delivered
pub mod Delivering
pub mod Listing
pub mod Advertising
mod Tests
use gz_transport.Common.{List, Text}
use gz_transport.NodeOptions.{NodeOptions}

-- `NodePrivate`: the UUID, the options and the names of the advertised services.
pub record Node : Type 0 where
  pub node_uuid : Text
  pub options : NodeOptions
  pub srvs_advertised : List Text
