-- ===== src/FramedServer.antt =====
-- Protocols/Framing/Server/ChatServer.cpp: the server, its sessions and the broadcast.
-- A session is reached through a pointer: `sessions` is the store, `clients` is `m_clients`. The
-- results of the system's calls are arguments.
pub mod Broadcast
pub mod Relay
pub mod Debts
pub mod Relayed
pub mod Sent
pub mod Oversized
pub mod Lifecycle
use tcp_simple_chat.Base.{
  update, ℕ, zero, suc, ◌+◌, List, [], ◌∷◌, ◌++◌, map, Bool, true, false, not, ◌&&◌, Option, none,
  some, length, ◌==◌, if◌then◌else◌,
}
use tcp_simple_chat.FramedSession
use tcp_simple_chat.FramedSession.{Message, Session, send_msg, waits, returns}

pub record Server : Type 0 where
  pub running : Bool
  -- `none` is INVALID_SOCKET
  pub listen_sockets : List (Option ℕ)
  -- the threads of `AcceptClients`, by their sockets
  pub accept_threads : List (Option ℕ)
  pub clients : List ℕ
  pub sessions : ℕ → Session

-- The body of the first loop of `BroadcastMsg`: the sessions but the sender's.
unfoldable pub snapshot : ℕ → List ℕ → List ℕ
snapshot sender [] = []
snapshot sender (p ∷ ps) =
    let rest = snapshot sender ps in if not (p == sender) then p ∷ rest else rest

-- `BroadcastMsg` returned, or it waits in `SendMsg` of a session, before the rest of the snapshot.
pub data Delivery : Type 0 where
  delivered : (ℕ → Session) → Delivery
  stuck : ℕ → List ℕ → (ℕ → Session) → Delivery

unfoldable pub deliver : List ℕ → Message → (ℕ → Session) → Delivery
deliver [] msg h = delivered h
deliver (p ∷ ps) msg h = elim (send_msg (h p) msg) [
  | waits ↦ stuck p ps h
  | returns s ↦ deliver ps msg (update h p s)
]

unfoldable pub broadcast_msg : Server → Message → ℕ → Delivery
unfolding snapshot
broadcast_msg server msg sender = deliver (snapshot sender server.clients) msg server.sessions

-- A round of `AcceptClients`: what `accept` returns, and where the new session is allocated.
unfoldable pub accept_client : Server → Option ℕ → ℕ → Server
accept_client server none p = server
accept_client server (some s) p = record server {
  clients = server.clients ++ (p ∷ []);
  sessions = update server.sessions p (FramedSession.start (FramedSession.make s));
}

-- `Start` returned with a message, or it runs. `created` are the results of
-- `CreateListeningSocket` for the configured addresses, in order.
pub data Started : Type 0 where
  no_winsock : Started
  no_sockets : Server → Started
  runs : Server → Started

unfoldable pub start : Server → ℕ → List (Option ℕ) → Started
start server startup created =
    if not (startup == 0)
    then no_winsock
    else let sockets = server.listen_sockets ++ created in
      if length sockets == 0
      then no_sockets server
      else runs (record server {
        listen_sockets = sockets;
        running = true;
        accept_threads = server.accept_threads ++ sockets;
      })

unfoldable pub stop_all : List ℕ → (ℕ → Session) → ℕ → Session
stop_all [] h = h
stop_all (p ∷ ps) h = stop_all ps (update h p (FramedSession.stop (h p)))

unfoldable pub stop : Server → Server
unfolding stop_all
stop server = record server {
  running = false;
  listen_sockets = [];
  accept_threads = [];
  sessions = stop_all server.clients server.sessions;
  clients = [];
}
