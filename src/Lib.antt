-- ===== src/Lib.antt =====
-- mage, an IPC library: processes, each a node, exchange messages through endpoints, which messages may
-- carry from process to process. This library models the C++ of mage/core and mage/public.
--
-- The parts. A message (mage/public/message.h) is a buffer of bytes with a header and, behind it,
-- parameters and descriptors of endpoints. An endpoint (mage/core/endpoint.cc) is one end of a pipe: it
-- queues messages, posts them to a bound receiver, or is a proxy. The core (mage/core/core.cc) maps
-- handles to endpoints. The node (mage/core/node.cc) maps names to endpoints and to channels, and routes
-- messages. A channel (mage/core/channel.cc) writes messages to a socket and reads them. The API
-- (mage/core/api.cc) defers to the core; a channel calls the node with each message that it read. Over all
-- this, the generator's template (mage/public/parser/classes.tmpl) makes of an interface a proxy, whose
-- methods write their arguments into messages, and a receiver's stub, which reads them back and calls the
-- implementation; remotes and receivers (mage/public/bindings) hold the two.
--
-- The files:
--   Base.antt and Base/: shared notation, tests on numbers and bytes, lists, the results of code that fails.
--   Bytes.antt: memcpy, runs of bytes and little-endian integers in a buffer.
--   Message.antt: mage/public/message.h, message.cc: `encode_pointer` is EncodePointer, `set_pointer` and
--     `get_pointer` are Pointer::Set and Get, `write_endpoints` is what mage/public/parser/classes.tmpl
--     does with descriptors. Message/: the header's fields, and the round trips.
--   Endpoint.antt: mage/core/endpoint.h and endpoint.cc, a method for a method. Endpoint/: validity,
--     order of delivery, and calls under the lock.
--   Map.antt: std::map.
--   Util.antt: RandomIdentifier of mage/core/util.cc.
--   Process.antt: the state of Core and Node, and the monad of handlers. Process/: a logic of
--     postconditions (Sound), endpoints by reference (Heap), exact runs (Exact), the invariant (Invariant).
--   Channel.antt: mage/core/channel.cc: framing and control messages.
--   Core.antt: mage/core/core.cc. Node.antt, Node/Send.antt, Node/Invitation.antt, Node/Receive.antt:
--     mage/core/node.cc. Api.antt: mage/core/api.cc, and histories of calls (Call, perform, run).
--     Node/Send/Move, Node/Receive/Recover and Api/Move: endpoints that a message carries. Process/Locks,
--     Core/Locks, Node/Locks and Api/Locks: the mutexes of endpoints. Process/Framed, Core/Framed,
--     Node/Framed and Api/Framed: what is written to sockets. Process/Live, Core/Live, Node/Live and Api/Live:
--     actions that come to an end.
--   Magen.antt: the generated classes: `params_size` and `field_at` are the layout of a Params class, `call`
--     is a method of the proxy. Magen/: its parts (Proxy, Stub, Serialize), and the round trip.
--   Bindings.antt: mage/public/bindings/remote.h, receiver.h and receiver_delegate.h; `run_tasks` runs the
--     tasks that mage/core/endpoint.cc posts, in the order of the base library's task loop. Bindings/:
--     calls of remotes, and the lives of receivers.
--   Network.antt: two processes and the socket between them, as a relation of steps.
--   Examples/: the model at concrete states.
--
-- The state of a process is a record of what Core and Node keep, of the endpoints made so far (a shared
-- pointer is a place in that list), and of the effects: tasks posted, bytes written, sockets watched. A
-- failed CHECK, a bad access and an uncaught exception are faults, which end a run. A second lock of a
-- held mutex does not return; in the model it is a fault of its own (deadlock). The world (World) is what
-- mage does not define: the draws of the random distribution, and what `write` returns.
--
-- Bounds. A message pipe wraps at 2 ^ 32, an `int` of a header is its 32-bit pattern. The loop of
-- SendMessagesAndRecursiveDependents runs on fuel, one round for each message at hand or queued in some
-- endpoint; each round sends one of them, so this is enough.
--
-- Of the types of the generated classes those that README.md lists for parameters are modelled, with the
-- sizes of a 64-bit machine; the ids of methods, which are hashes, are data of an interface.
--
-- Not modelled: the threads, so a handler or a posted task runs to its end before the next one (a receiver
-- is destroyed between tasks only), and the mutexes of the maps go away, while the mutex of an endpoint,
-- held over calls, is a flag; logging; the base library of task loops and callbacks, which is another
-- repository; the generator's parser; the demo and the tests.
pub mod Base
pub mod Bytes
pub mod Message
pub mod Endpoint
pub mod Map
pub mod Util
pub mod Process
pub mod Channel
pub mod Core
pub mod Node
pub mod Api
pub mod Examples
pub mod Magen
pub mod Bindings
pub mod Network
