-- ===== src/Lib.antt =====
-- gz-transport: the discovery of topics and services, the exchange of messages, requests and
-- responses between processes, the names and tables that these stand on, the log of messages and the
-- parameters of a process.
--
-- The program. A process of gz-transport has two discovery objects (src/Discovery.hh), one for
-- topics and one for services, which exchange datagrams with those of other processes, or
-- liveliness tokens of zenoh. Each keeps the known publishers (src/Publisher.cc,
-- src/AdvertiseOptions.cc) and the remote subscribers in a storage
-- (include/gz/transport/TopicStorage.hh). Topics have names in a partition and a namespace
-- (src/TopicUtils.cc). The handlers of subscriptions and services stand in a storage of their own
-- (include/gz/transport/HandlerStorage.hh). A node has options (src/NodeOptions.cc), with which it
-- makes the names of its topics and services. The nodes of a process share one object
-- (src/NodeShared.cc), which has the sockets of ZeroMQ: discovery calls it when a publisher comes
-- or goes and when a remote subscriber registers, and it sends, receives and hands on messages,
-- requests and responses to the handlers of subscriptions, requests and services
-- (src/SubscriptionHandler.cc, src/ReqHandler.cc, include/gz/transport/RepHandler.hh). The library
-- log/ records messages in a database of SQLite and plays them back; the library parameters/ keeps
-- values that a process declares and others read and set through services.
--
-- The files.
-- - Common: shared names; Common/Strings has `std::string` as a list of bytes, Common/Map has
--   `std::map` as a list of entries in key order, with the laws of look-up, insertion and erasure,
--   Common/Within and Common/Subsequence have sublists, Common/Int signed integers.
-- - TopicStorage: the class of that name, one function per method, by the method's name; its
--   children have the stored lists (Contents, Removal, Listing), the invariant (Invariant) and
--   histories of calls (Run).
-- - HandlerStorage: the same for the class of that name, with Contents and Histories.
-- - TopicUtils: the rules for names, FullyQualifiedName and its inverse, AsValidTopic;
--   TopicUtils/Token has the liveliness tokens and mangled types.
-- - NodeOptions: the options of a node (src/NodeOptions.cc) and the names of its services that
--   include/gz/transport/detail/Node.hh advertises and src/Node.cc withdraws; NodeOptions/Valid has
--   the theorems.
-- - Publisher: the three publisher classes and their options; Publisher/Messages has the fields of
--   the generated class of discovery messages that the code sets and reads, where an absent
--   submessage reads as its default, as protobuf documents.
-- - Discovery: the class of that name. The state is the record Discovery. A method gives the new
--   state and the list of its effects in order: datagrams sent and callbacks called. Discovery has
--   what a node calls (Start, Advertise, Discover, Unadvertise, Register, Unregister,
--   SendSubscribersRep) and SendMsg; Discovery/Dispatch the receiving side; Discovery/Timers the
--   periodic tasks; Discovery/Liveliness the handlers of samples. The publisher class is
--   a parameter, the record Wire; Discovery/Instances has its two instances.
--   The other children have theorems: on one object (Expiry, Relay, Heartbeat, Readvertise), on
--   any history of calls, messages and ticks (Reachable, Kept, Scoped), and on two objects (Exchange).
--
-- - Handlers: the handlers of requests, services and subscriptions, and the information on a
--   message (src/MessageInfo.cc); the record Protobuf is what they ask of that library.
--   Handlers/Subscription/Throttled has the theorem on the rate of callbacks.
-- - NodeShared: the shared object. NodeShared/Services has the state and the sending of requests,
--   its child Replies the receiving of requests and responses, Histories any order of events, and
--   Sending, Exchange, Marking and Once the theorems. NodeShared/Subscribers has HandlerWrapper;
--   NodeShared/Connections the callbacks of the discovery of messages, its child Unsubscribe that
--   method, and Registered and Unsubscribed the theorems; NodeShared/Callbacks what happens to a
--   message, from Publish to the callbacks, its child Queue the publishing thread, and Matching the
--   theorems. The members of NodeShared and NodeSharedPrivate that never change are the record
--   Process; the others are the records Services and Subscriptions, by the operations that use them.
-- - Node: a node over the shared object. Node/Publishing has the publisher of a node with its
--   throttling, Node/Subscribing the subscriptions, Node/Asking and Node/Raw the services and the
--   requests of a node (include/gz/transport/detail/Node.hh), Node/Advertising the advertising of a topic and
--   Node/Listing what a node tells of topics and services, with Named and Resolving on the topics
--   that it lists and on the types of a service; Node/Advertising/Once, Node/Delivering,
--   Node/Delivered and Node/Asking/Late have theorems.
-- - Log: Log/Time has the qualified times (log/src/QualifiedTime.cc), Log/Statement and Log/Query the
--   queries (SqlStatement.cc, QueryOptions.cc), Log/Descriptor the rows of the topics
--   (Descriptor.cc), Log/Iterator the reading of messages (MsgIter.cc, Batch.cc), Log/Store the log
--   and its transactions (Log.cc), Log/Recorder the queue and the writer (Recorder.cc), and
--   Log/Playback the choice of topics and the thread that publishes (Playback.cc). Log/Command is the
--   start of the two commands (log/src/cmd/LogCommandAPI.cc). Their children have the theorems:
--   Ranges, Conditions, Placeholders, Rows, Visits, Stored and Inserted; Lossless, Drained and
--   Subscribed; Selected, Played, Turns, Paced and Ends; Remap.
-- - TopicStatistics: the statistics of a topic (src/TopicStatistics.cc), with TopicStatistics/Enabled
--   for their part in the shared object, Nodes for that of a node, and Gaps and Received the theorems.
--   Clock: the two clocks (src/Clock.cc), with Exchange the theorem.
-- - Parameters: the results and the types of values; Parameters/Registry has the methods and the
--   callbacks of the registry (parameters/src/Registry.cc), Parameters/Client those of the client
--   (Client.cc), and Parameters/Served the two together.
--
-- Conventions. A message of several parts is the list of its frames, and a recv that fails is a
-- frame that is missing. The changing members of a handler that several threads hold are kept by
-- the UUID of the handler, apart from the storages: its progress, and the time of its last callback.
-- A callback of the user is a function or an effect. The model is that of a build without zenoh.
-- Strings are lists of numbers, of which only the literals of the source are fixed.
-- SQLite is the record Sqlite, with SqliteLaws for what it documents of the statements that
-- succeed (one that fails may roll back the transaction: nothing is said of it), protobuf's Any
-- and the factory of messages are the record Messages, and a regular expression is a test of a
-- text. Undefined behaviour is a value of the model: the erasing loops of Unsubscribe,
-- OnAdvertisement and Seek then give none, and the iterator over messages holds one that
-- dangles.
-- The playback thread acts in turns, from one wait to the next, between the calls of other threads.
-- Times are natural numbers of nanoseconds, in the log integers, given as arguments. The size of a
-- message, inet_addr and the setter of a subscriber's topic are parameters (the record Env), and so
-- are the parser of a datagram and the reading of its length. The cast in NextTimeout keeps its
-- wrap-around. Two recursions are on fuel: in the loop of DemangleType each round takes a character
-- off the token, and the fuel is its length and one more; a loop over a batch of the log has a theorem
-- that fuel above the number of its visits is enough (Log/Iterator/Visits).
--
-- Not modelled: sockets, threads, locks and printing; the interleaving inside one method, since a
-- method's critical sections are modelled as one step; WaitForInit and the Start of a zenoh session;
-- the construction of the shared object, its security and the frame that carries the metadata of
-- statistics; of the nodes, the relays; the times of a corrupt log, the files of its
-- schema and the creation of a playback's publishers; of the command line tools, all but the start of
-- a recording and of a playback; the bindings.
pub mod Common
pub mod TopicStorage
pub mod HandlerStorage
pub mod Handlers
pub mod NodeShared
pub mod Node
pub mod TopicUtils
pub mod NodeOptions
pub mod Publisher
pub mod Discovery
pub mod Log
pub mod Parameters
pub mod Clock
pub mod TopicStatistics
