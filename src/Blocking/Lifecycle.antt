-- ===== src/Blocking/Lifecycle.antt =====
-- `Start`, `CreateListeningSocket` and `Stop` of NetworkBasics/blocking-multithreaded/Server/ChatServer.cpp
-- and what a session does with its socket, `SendMsg`, `GracefulShutdown` and `Stop` of ClientSession.cpp,
-- each call on its own; how the threads interleave is in the parent module. The loop of
-- `CreateListeningSocket` is that of Protocols/Framing/Server, the loop of `SendMsg` that of
-- NetworkBasics/select/Server.
use tcp_simple_chat.Base.{
  ℕ, zero, suc, ◌+◌, ◌≤◌, ◌<◌, ◌≡◌, refl, sym, ap, ◌∙◌, List, [], ◌∷◌, ◌++◌, append_assoc,
  append-nil, Bool, true, false, Option, none, some, is_empty, arith, Option-cases, inl, inr,
}
use tcp_simple_chat.Net.{Net, RecvResult, got, recv_failed}
use tcp_simple_chat.Epoll.Runs.{Drains}
use tcp_simple_chat.Listen
use tcp_simple_chat.Listen.{Address}
use tcp_simple_chat.SelectServer
use tcp_simple_chat.Blocking.{Message}

pub record Session : Type 0 where
  -- `none` is INVALID_SOCKET
  pub socket : Option ℕ
  pub active : Bool
  -- `m_thread` is joinable
  pub thread : Bool

pub record Server : Type 0 where
  pub running : Bool
  pub listen_sockets : List (Option ℕ)
  -- the threads of `AcceptClients`, by their sockets
  pub accept_threads : List (Option ℕ)
  pub clients : List Session
  -- sockets that were closed, and the calls of WSACleanup
  pub closed : List ℕ
  pub cleanups : ℕ

unfoldable pub make : ℕ → Session
make s = record { socket = some s; active = false; thread = false }

-- `ClientSession::Start`
unfoldable pub start_session : Session → Session
start_session s = record s { active = true; thread = true }

-- On whether `getaddrinfo` succeeds, and the addresses: the socket, and those that were closed.
unfoldable pub create_listening_socket : Bool → List Address → Option ℕ × List ℕ
create_listening_socket resolves addresses = Listen.create_listening_socket resolves addresses

-- The loop of `Start` over the configured addresses.
unfoldable pub listen_on_all : List (Bool × List Address) → Server → Server
unfolding create_listening_socket
listen_on_all [] server = server
listen_on_all ((resolves, addresses) ∷ ips) server =
    let (s, closed) = create_listening_socket resolves addresses in
    listen_on_all ips (record server {
      listen_sockets = server.listen_sockets ++ (s ∷ []);
      closed = server.closed ++ closed;
    })

-- `Start` returned with a message, or it waits while the server runs.
pub data Started : Type 0 where
  no_winsock : Server → Started
  no_sockets : Server → Started
  runs : Server → Started

unfoldable pub start : Bool → List (Bool × List Address) → Server → Started
unfolding listen_on_all
start false ips server = no_winsock server
start true ips server =
    let server' = listen_on_all ips server in
    elim (is_empty server'.listen_sockets) [
      | true ↦ no_sockets server'
      | false ↦ runs (record server' {
        running = true;
        accept_threads = server'.accept_threads ++ server'.listen_sockets;
      })
    ]

-- A round of `AcceptClients`, on what `accept` returns.
unfoldable pub accept_client : Option ℕ → Server → Server
unfolding make start_session
accept_client none server = server
accept_client (some s) server = record server {
  clients = server.clients ++ (start_session (make s) ∷ []);
}

-- The loop of `Stop` over the listeners: those that are closed.
unfoldable pub valid : List (Option ℕ) → List ℕ
valid [] = []
valid (none ∷ ls) = valid ls
valid (some s ∷ ls) = s ∷ valid ls

module _ (net : Net) where
  open net use {World, recv}

  -- `ClientSession::SendMsg`; what is left after a failed `send` is not sent.
  unfoldable pub send_msg : ℕ → World → Message → Option World
  send_msg s w msg = SelectServer.send_msg net s w msg

  abbrev pub recv_buf : ℕ
  recv_buf = 4096

  unfoldable pub after_recv : (World → Option World) → RecvResult → World → Option World
  after_recv again (got []) w = some w
  after_recv again (got (b ∷ bs)) w = again w
  after_recv again (recv_failed e) w = some w

  -- `GracefulShutdown`
  unfoldable pub graceful_shutdown : ℕ → ℕ → World → Option World
  unfolding after_recv
  graceful_shutdown zero s w = none
  graceful_shutdown (suc fuel) s w =
      let (r, w') = recv w s recv_buf in after_recv (graceful_shutdown fuel s) r w'

  -- The loop of `Stop` over the clients, with the sockets that were closed before; each session is
  -- stopped, and dropped with the list.
  unfoldable pub stop_clients : ℕ → List Session → List ℕ → World → Option (List ℕ × World)
  unfolding graceful_shutdown
  stop_clients fuel [] closed w = some (closed, w)
  stop_clients fuel (c ∷ cs) closed w = elim c.socket [
    | none ↦ stop_clients fuel cs closed w
    | some s ↦ elim (graceful_shutdown fuel s w) [
      | none ↦ none
      | some w' ↦ stop_clients fuel cs (closed ++ (s ∷ [])) w'
    ]
  ]

  unfoldable pub stop : ℕ → Server → World → Option (Server × World)
  unfolding stop_clients valid
  stop fuel server w =
      elim (stop_clients fuel server.clients (server.closed ++ valid server.listen_sockets) w) [
        | none ↦ none
        | some (closed, w') ↦ some (
          record {
            running = false;
            listen_sockets = [];
            accept_threads = [];
            clients = [];
            closed = closed;
            cleanups = suc server.cleanups;
          },
          w',
        )
      ]

-- The sockets that the sessions hold.
abbrev pub held : List Session → List ℕ
held [] = []
held (c ∷ cs) = elim c.socket [ none ↦ held cs | some s ↦ s ∷ held cs ]

module _ (net : Net) (total : net.World → ℕ) (drains : Drains net total) where
  open net use {World, recv}

  after_recv-ends :
      (again : World → Option World) (fuel s : ℕ) (w w' : World) (r : RecvResult)
      → total w < suc fuel
      → ((v : World) → total v < fuel → (v' : World) × (again v ≡ some v') × (total v' ≤ total v))
      → recv w s (recv_buf net) ≡ (r, w')
      → (v : World) × (after_recv net again r w' ≡ some v) × (total v ≤ total w)
  unfolding after_recv
  after_recv-ends again fuel s w w' (got []) f ih e = (w', refl, drains.recv_le w w' s _ _ e)
  after_recv-ends again fuel s w w' (got (b ∷ bs)) f ih e =
      let lt = drains.recv_lt w w' s _ b bs e in
      let (v, run, le) = ih w' (omega arith) in (v, run, omega arith)
  after_recv-ends again fuel s w w' (recv_failed err) f ih e =
      (w', refl, drains.recv_le w w' s _ _ e)

  graceful_shutdown-ends :
      (fuel s : ℕ) (w : World)
      → total w < fuel
      → (w' : World) × (graceful_shutdown net fuel s w ≡ some w') × (total w' ≤ total w)
  unfolding graceful_shutdown
  graceful_shutdown-ends zero s w f = absurd (omega arith)
  graceful_shutdown-ends (suc fuel) s w f =
      after_recv-ends (graceful_shutdown net fuel s) fuel s w _ _ f (graceful_shutdown-ends fuel s)
        refl

  stop_clients-closed :
      (fuel : ℕ) (cs : List Session) (closed : List ℕ) (w : World)
      → total w < fuel
      → (w' : World) × (stop_clients net fuel cs closed w ≡ some (closed ++ held cs, w'))
  unfolding stop_clients
  stop_clients-closed fuel [] closed w f = (w, ap (λ l. some (l, w)) (sym (append-nil closed)))
  stop_clients-closed fuel (c ∷ cs) closed w f = elim (Option-cases c.socket) [
    | inl e ↦ rw (e, stop_clients) (stop_clients-closed fuel cs closed w f)
    | inr (s, e) ↦
        let (v, run, le) = graceful_shutdown-ends fuel s w f in
        let (w', run') = stop_clients-closed fuel cs (closed ++ (s ∷ [])) v (omega arith) in
        rw (e, stop_clients)
          (rw (run, stop_clients)
            (w', run' ∙ ap (λ l. some (l, w')) (append_assoc closed (s ∷ []) (held cs))))
  ]

  -- With more fuel than the bytes that the peers will still send, `Stop` ends: the server does not
  -- run and holds nothing. It closed the listeners that are valid and then the sockets of the
  -- clients, each once and in order, and called WSACleanup once.
  pub stop-closed :
      (fuel : ℕ) (server : Server) (w : World)
      → total w < fuel
      → (server' : Server) × (w' : World) × (stop net fuel server w ≡ some (server', w'))
        × (server'.running ≡ false)
        × (server'.listen_sockets ≡ [])
        × (server'.clients ≡ [])
        × (server'.closed ≡ (server.closed ++ valid server.listen_sockets) ++ held server.clients)
        × (server'.cleanups ≡ server.cleanups + 1)
  unfolding stop
  stop-closed fuel server w f =
      let (w', run) =
        stop_clients-closed fuel server.clients (server.closed ++ valid server.listen_sockets) w
          f in
      rw (run, stop) (_, w', refl, refl, refl, refl, refl, omega arith)
