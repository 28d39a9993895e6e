-- ===== src/Lib.antt =====
-- Icelander, a C++ library that wraps ENet: packets and their bytes, peers, hosts with their events,
-- and a scheduler of tasks. The public classes are in include/icelander.hpp, the code in src/.
--
-- An application builds bytes with a PacketBuilder, makes a Packet of them, and sends it through a
-- Peer. A Host services ENet: each event becomes a call of the handlers of its EventDispatcher, with a
-- Peer object that the host looks up by its ENet peer. A handler reads a packet with a PacketReader.
--
--   Prelude      tests, lists, integers, and `Outcome`: a result, an exception, or undefined
--                behaviour (`fault`), each but the last with the state that is left.
--   Bytes        the memory of an integer in either byte order; vectors and strings of the platform.
--   Types        enumerations and plain structures of include/icelander.hpp.
--   Builder      PacketBuilder, and what its calls do to buffer and capacity (Builder/Capacity).
--   Reader       PacketReader, and the bounds of its calls (Reader/Bounds).
--   Message      what examples/basic/packet_builder_example.cpp writes and reads: the round trip
--                (Message/RoundTrip), prefixes (Message/Truncation), and the way through a packet
--                (Message/Packed).
--   Enet         ENet, of outside/enet, as a parameter; a concrete instance (Enet/Sample).
--   Packet       Packet of src/packet.cpp; programs over Packet objects (Packet/Program), the
--                ownership that each call keeps (Packet/Ownership, Packet/Calls), and what follows
--                for the lifetime of a packet (Packet/Lifetime); its bytes (Packet/Contents).
--   Library      src/library.cpp.
--   Endpoint     src/endpoint.cpp.
--   Dispatcher   src/event_dispatcher.cpp; who is called, and in which order (Dispatcher/Order).
--   Peer         src/peer.cpp; its state questions (Peer/States).
--   Host         src/host.cpp: state and references (Host/Refs), the list of peers (Host/Peers,
--                Host/Lookup with First, Host/Search), events (Host/Events, and for what becomes of
--                packets and references Host/Handled, Host/Delivery, Host/Unheard, Host/Balance over
--                Host/Unchanged), the other calls (Host/Calls, Host/Creation, Host/Connect,
--                Host/Broadcast), and the service thread (Host/Thread, Host/Thread/Stop); the
--                references to the host itself, of its owner and of its service thread
--                (Host/Lifetime, with Safety and Danger).
--   Scheduler    src/async.cpp: the workers and the thread that starts and stops them as one step
--                relation, with its invariants (Scheduler/Invariant, Scheduler/Tasks), the lost
--                wake-up of `stop` (Scheduler/LostWakeup), why `schedule` has none
--                (Scheduler/Attendance), and turns of a worker (Scheduler/Turn).
--   Task         async::Task of include/icelander.hpp.
--   Apps         the programs under examples/: what their handlers are made of (Apps/Handlers); the
--                chat of examples/advanced/comprehensive_example.cpp with its server and clients,
--                what each reads of what the other builds (Apps/Chat/Wire), what the server answers
--                (Apps/Chat/Answers, Apps/Chat/Robust), `broadcastMessage` (Apps/Chat/Broadcast),
--                what becomes of its connections (Apps/Chat/Silence), and the tasks of the clients
--                (Apps/Chat/Tasks); examples/advanced/performance_benchmark.cpp (Apps/Benchmark,
--                with what it counts and prints in Accounts, Echo, Rates, Statistics and Tests); the
--                echo server and client of examples/networking/ (Apps/Echo);
--                examples/basic/sync_example.cpp (Apps/Sync, its `main` in Main, and in Closed with
--                Kept, Serviced, Handled, Pair and Created what becomes of its hosts);
--                examples/basic/packet_builder_example.cpp (Apps/Fields); and which handlers of the
--                other servers run (Apps/Unheard); and the programs from `main` to the end of the
--                process, exceptions included, as what they own (Apps/Programs): Echoes, Demo, Bench
--                and Rounds, each with its Ends. The unit tests of examples/tests/unit_tests.cpp are
--                Apps/Suite.
--   Examples     tests, and the theorems at concrete inputs.
--
-- Methods keep their names in snake_case; overloads have a word more (`write_span`, `send_on`).
-- `delete`d copies have no counterpart. A pointer is a number and null is `none`; a `shared_ptr` to a
-- Peer is the number of the object, whose strong references are counted.
--
-- Integers: `size_t` sums wrap at 2 ^ 64 where the source adds positions, and casts to uint32_t
-- keep a value modulo 2 ^ 32. No loop needs fuel: those of the two kinds of threads are step relations,
-- a loop with a count runs down from it, and all others run over lists. A loop that a clock or a flag
-- ends runs over the readings that it makes.
--
-- Not modelled: ENet itself; exceptions that a task throws on a worker of the scheduler, but for
-- the end of the process that they bring; handlers that change the dispatcher which is calling
-- them, that move the Packet out of an event, or that let a reader outlive its packet; exhaustion
-- of memory inside the standard library; negative durations; `Task<void>`, which does not compile,
-- and `sleepMs`; a host that is stopped or destroyed from its own service thread, or called by the
-- application while that thread services it; in the programs under examples/ sleeps, banners, the
-- mean of the latencies, and the arithmetic of `double` but for its exact part (latencies are in
-- nanoseconds, where the source divides by a million).
pub mod Prelude
pub mod Bytes
pub mod Builder
pub mod Reader
pub mod Message
pub mod Types
pub mod Enet
pub mod Packet
pub mod Library
pub mod Endpoint
pub mod Dispatcher
pub mod Peer
pub mod Host
pub mod Scheduler
pub mod Task
pub mod Apps
mod Examples
