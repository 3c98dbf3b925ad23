-- ===== src/Lib.antt =====
-- Chat over TCP, the same program over several ways to wait for sockets. This library models the
-- framed program under Protocols/Framing: length-prefixed messages, a server with one receiving and
-- one sending thread for each session and a bounded transmit queue, and a client with bounded
-- queues in several overflow modes; and the servers and clients of NetworkBasics, on epoll, poll,
-- select, completion ports and blocking calls. In each server, what a client sends is broadcast to
-- the other clients.
--
-- Base has the shared helpers. Net is the interface to the operating system's sockets: `World` is
-- the state of the network, `recv` and `send` return a result and the world after the call, and the
-- records of laws say what the stream of a TCP connection guarantees.
-- Framing models Protocols/Framing/Shared/Framing.cpp (`send_all`, `recv_all`, `send_frame`,
-- `recv_frame`); `htonl`, `ntohl` and the layout of an integer in memory are a parameter, `Host`.
-- FramedSession models Protocols/Framing/Server/ClientSession.cpp: `enqueue` is `SendMsg` under the
-- mutex, `dequeue` a round of `SendLoop`, and the loops are `send_loop` and `recv_loop`. A section
-- that waits on a condition variable returns `waits`; the interleavings of the threads are the
-- steps of `Queue.Step`.
-- FramedServer models Protocols/Framing/Server/ChatServer.cpp: the sessions stand in a store and
-- `m_clients` holds pointers into it. FramedServer/Relay is the step relation of all threads of
-- the server and its sessions. Listen is `CreateListeningSocket`.
-- FramedClient models Protocols/Framing/Client/ChatClient.cpp: `tx_enqueue` is `TxEnqueueMessage`,
-- `tx_dequeue` a round of `SendMessages`, Input is `CinMessages`, Rx is `ReceiveMessages` and
-- `PrintMessages`, Connect is the set-up in `Run`, Shutdown is `Disconnect`.
-- Epoll models NetworkBasics/epoll/Server, whose files Design/event_loop/Server repeats: the session
-- (`write`, `read`, `stop_session`), the broadcast and `close_client`; Epoll/Events has the handlers,
-- the loop, the start and the stop. What the server tells the system is a list of calls.
-- Iocp models NetworkBasics/iocp/Server: `post_send`, the handlers of completions and the loop;
-- Iocp/Lifecycle has the start and the stop. The results of its calls are arguments.
-- EpollClient, PollClient, SelectClient, IocpClient and BlockingClient model the clients of
-- NetworkBasics: the mutex of the first is a flag, what the other thread of the second sends is an
-- argument of each turn, and the threads of IocpClient are a step relation, beside which
-- IocpClient/Connection has its connection, receives and loop. EpollClient/Events has
-- the handlers and the loop.
-- Poll models NetworkBasics/poll/Server, with the session of Epoll, whose code it shares: the vector
-- of descriptors, the handlers and the loop; Poll/Lifecycle is the start and the stop.
-- SelectServer models NetworkBasics/select/Server, where a message is sent at once;
-- SelectServer/Lifecycle is the listening sockets, the start and the stop.
-- Blocking models the threads of NetworkBasics/blocking-multithreaded/Server: each step is what one
-- thread does between two points where another may run. Blocking/Lifecycle is the start and the stop.
-- Tests has a concrete network, runs of the definitions, and the theorems at concrete inputs.
--
-- The loop of a server or client on poll, epoll or select takes a list of results of the call that it
-- waits in, and says whether it was left: where the list is used up and the program still runs, it
-- waits, and `start` does not return.
-- A loop over calls takes fuel, one unit for a call or a round, and `none` means that it ran out; the
-- theorems say how much is enough: the bytes or messages at hand and the retries that the network
-- still makes. A `size_t` sum wraps at 2 ^ 64; a message has fewer than 2 ^ 63 bytes, as a
-- `std::string` does. Memory orders, notifications that come between a test and the wait, and the
-- log output are not modelled. Nor are the `main` functions, which read the command line.
pub mod Base
pub mod Net
pub mod Framing
pub mod FramedSession
pub mod FramedClient
pub mod Listen
pub mod FramedServer
pub mod Epoll
pub mod Iocp
pub mod IocpClient
pub mod SelectServer
pub mod Blocking
pub mod BlockingClient
pub mod SelectClient
pub mod Poll
pub mod PollClient
pub mod EpollClient
pub mod Tests
