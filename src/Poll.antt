-- ===== src/Poll.antt =====
-- NetworkBasics/poll/Server: one thread, a level-triggered `poll` over a vector that is rebuilt for
-- every round. ClientSession.cpp is that of NetworkBasics/epoll/Server but for a flag of `send`, so
-- the session, `PostSend`, `Write` and the loop of `GracefulShutdown` are those of Epoll. `m_clients`
-- is an association list in the map's order of iteration; the results of the system's calls but
-- `recv` and `send` are arguments.
pub mod Parts
pub mod Queued
pub mod Lifecycle
use tcp_simple_chat.Base.{
  ℕ, zero, suc, List, [], ◌∷◌, ◌++◌, Bool, true, false, not, ◌&&◌, Option, none, some, length, drop,
  ◌==◌, if◌then◌else◌, contains,
}
use tcp_simple_chat.Net.{Net, RecvResult, got, recv_failed, Errno, would_block, interrupted}
use tcp_simple_chat.Epoll
use tcp_simple_chat.Epoll.{Message, Session, find, keys, adjust, erase, is_want_send, post_send}

pub data Call : Type 0 where
  shuts_down : ℕ → Call
  closes : ℕ → Call

pub record Server : Type 0 where
  pub running : Bool
  pub listen_sockets : List ℕ
  pub clients : List (ℕ × Session)
  pub calls : List Call

abbrev pub tell : Server → Call → Server
tell server c = record server { calls = server.calls ++ (c ∷ []) }

-- The flags of `revents`; `failed` is POLLERR, POLLHUP or POLLNVAL.
pub record Event : Type 0 where
  pub failed : Bool
  pub readable : Bool
  pub writable : Bool

-- An entry of the vector; `pollout` is the flag in `events`, where POLLIN is always set.
pub record Pollfd : Type 0 where
  pub fd : ℕ
  pub pollout : Bool
  pub revents : Event

abbrev pub no_events : Event
no_events = record { failed = false; readable = false; writable = false }

unfoldable pub listener_fds : List ℕ → List Pollfd
listener_fds [] = []
listener_fds (s ∷ ss) = record { fd = s; pollout = false; revents = no_events } ∷ listener_fds ss

unfoldable pub client_fds : List (ℕ × Session) → List Pollfd
client_fds [] = []
client_fds ((k, s) ∷ m) =
    record { fd = k; pollout = is_want_send s; revents = no_events } ∷ client_fds m

unfoldable pub rebuild_poll_set : Server → List Pollfd
unfolding listener_fds client_fds
rebuild_poll_set server = listener_fds server.listen_sockets ++ client_fds server.clients

-- The loop of `BroadcastMsg`; the sender's session is the one of its key.
unfoldable pub post_all : Message → ℕ → List (ℕ × Session) → List (ℕ × Session)
post_all msg sender [] = []
post_all msg sender ((k, s) ∷ m) =
    (k, if k == sender then s else post_send msg s) ∷ post_all msg sender m

unfoldable pub broadcast_msg : Server → Message → ℕ → Server
unfolding post_all
broadcast_msg server msg sender = record server { clients = post_all msg sender server.clients }

-- What `poll` wrote into the vector, by position.
unfoldable pub polled : (ℕ → Event) → ℕ → List Pollfd → List Pollfd
polled revents i [] = []
polled revents i (p ∷ ps) = record p { revents = revents i } ∷ polled revents (suc i) ps

module _ (net : Net) where
  open net use {World, recv, send}

  -- `ClientSession::Read` of the session of `fd`.
  unfoldable pub after_recv :
      (Server → World → Option (Bool × Server × World))
      → Server
      → ℕ
      → RecvResult
      → World
      → Option (Bool × Server × World)
  after_recv again server fd (got []) w = some (false, server, w)
  after_recv again server fd (got (b ∷ bs)) w = again (broadcast_msg server (b ∷ bs) fd) w
  after_recv again server fd (recv_failed would_block) w = some (true, server, w)
  after_recv again server fd (recv_failed other) w = some (false, server, w)

  unfoldable pub read : ℕ → Server → ℕ → World → Option (Bool × Server × World)
  unfolding after_recv
  read zero server fd w = none
  read (suc fuel) server fd w =
      let (r, w') = recv w fd 4096 in after_recv (λ s v. read fuel s fd v) server fd r w'

  -- `CloseClient` after the session's `Stop`.
  unfoldable pub remove_client : Server → ℕ → ℕ → Server
  remove_client server fd socket =
      tell
        (record (tell (tell server (shuts_down socket)) (closes socket)) {
          clients = erase fd server.clients;
        })
        (closes fd)

  unfoldable pub close_client : ℕ → Server → ℕ → World → Option (Server × World)
  unfolding remove_client
  close_client fuel server fd w = elim (find fd server.clients) [
    | none ↦ some (tell server (closes fd), w)
    | some s ↦ elim (Epoll.drain net fuel s.socket w) [
      | none ↦ none
      | some w' ↦ some (remove_client server fd s.socket, w')
    ]
  ]

  -- The part of `HandleClients` for POLLOUT.
  unfoldable pub flush_client : ℕ → Server → ℕ → Session → World → Option (Server × World)
  flush_client fuel server fd s w =
      let (ok, q, w') = Epoll.write net s.socket w s.send_queue in
      let server' : Server = record server {
        clients = adjust fd (λ t. record t { send_queue = q }) server.clients;
      } in
      if ok then some (server', w') else close_client fuel server' fd w'

  -- The part of `HandleClients` after `Read`.
  unfoldable pub after_read :
      ℕ → Bool → ℕ → Option (Bool × Server × World) → Option (Server × World)
  unfolding flush_client
  after_read fuel writable fd none = none
  after_read fuel writable fd (some (false, server, w)) = close_client fuel server fd w
  after_read fuel writable fd (some (true, server, w)) = elim writable [
    | false ↦ some (server, w)
    | true ↦ elim (find fd server.clients) [
      | none ↦ some (server, w)
      | some s ↦ flush_client fuel server fd s w
    ]
  ]

  -- A turn of the loop of `HandleClients`.
  unfoldable pub handle_client : ℕ → Server → Pollfd → World → Option (Server × World)
  unfolding after_read
  handle_client fuel server p w = elim p.revents.failed [
    | true ↦ close_client fuel server p.fd w
    | false ↦ elim (find p.fd server.clients) [
      | none ↦ some (server, w)
      | some s ↦ after_read fuel p.revents.writable p.fd (elim p.revents.readable [
        | true ↦ read fuel server p.fd w
        | false ↦ some (true, server, w)
      ])
    ]
  ]

  unfoldable pub handle_each : ℕ → List Pollfd → Server → World → Option (Server × World)
  unfolding handle_client
  handle_each fuel [] server w = some (server, w)
  handle_each fuel (p ∷ ps) server w = elim (handle_client fuel server p w) [
    | none ↦ none
    | some (server', w') ↦ handle_each fuel ps server' w'
  ]

  unfoldable pub handle_clients : ℕ → List Pollfd → Server → World → Option (Server × World)
  unfolding handle_each
  handle_clients fuel pollfds server w =
      handle_each fuel (drop (length server.listen_sockets) pollfds) server w

  -- `AcceptAll` on the sockets that `accept` gives before it fails; `emplace` keeps a session that
  -- the key already has.
  unfoldable pub accept_all : Message → List ℕ → Server → World → Server × World
  accept_all hello [] server w = (server, w)
  accept_all hello (cs ∷ accepted) server w =
      let (r, w') = send w cs hello in
      accept_all hello accepted
        (record server {
          clients =
              if contains (keys server.clients) cs
              then server.clients
              else (cs, record { socket = cs; send_queue = [] }) ∷ server.clients;
        })
        w'

  -- The loop of `HandleListeners`, `n` entries from the front of the vector; `accepted` are the
  -- sockets that `accept` gives for each listener.
  unfoldable pub handle_listeners :
      Message → (ℕ → List ℕ) → ℕ → List Pollfd → Server → World → Server × World
  unfolding accept_all
  handle_listeners hello accepted zero pollfds server w = (server, w)
  handle_listeners hello accepted (suc n) [] server w = (server, w)
  handle_listeners hello accepted (suc n) (p ∷ ps) server w = elim p.revents.failed [
    | true ↦ (record server { running = false }, w)
    | false ↦ elim p.revents.readable [
      | false ↦ handle_listeners hello accepted n ps server w
      | true ↦
          let (server', w') = accept_all hello (accepted p.fd) server w in
          handle_listeners hello accepted n ps server' w'
    ]
  ]

  -- What `poll` gives, and what `accept` gives after it.
  pub data Wait : Type 0 where
    ready : (ℕ → Event) → (ℕ → List ℕ) → Wait
    timed_out : Wait
    wait_failed : Errno → Wait

  -- A round of `RunLoop` after `poll` found descriptors ready.
  unfoldable pub round :
      ℕ → Message → (ℕ → Event) → (ℕ → List ℕ) → Server → World → Option (Server × World)
  unfolding rebuild_poll_set polled handle_listeners handle_clients
  round fuel hello revents accepted server w =
      let pollfds = polled revents 0 (rebuild_poll_set server) in
      let (server', w') =
        handle_listeners hello accepted (length server.listen_sockets) pollfds server w in
      handle_clients fuel pollfds server' w'

  -- `RunLoop` on the results of its calls of `poll`: whether the loop was left, and the server. Where
  -- the results are used up and the server runs, the loop waits for the next one.
  unfoldable pub run_loop :
      ℕ → Message → List Wait → Server → World → Option (Bool × Server × World)
  unfolding round
  run_loop fuel hello [] server w = some (not server.running, server, w)
  run_loop fuel hello (timed_out ∷ waits) server w = elim server.running [
    | false ↦ some (true, server, w)
    | true ↦ run_loop fuel hello waits server w
  ]
  run_loop fuel hello (wait_failed interrupted ∷ waits) server w = elim server.running [
    | false ↦ some (true, server, w)
    | true ↦ run_loop fuel hello waits server w
  ]
  run_loop fuel hello (wait_failed other ∷ waits) server w = some (true, server, w)
  run_loop fuel hello (ready revents accepted ∷ waits) server w = elim server.running [
    | false ↦ some (true, server, w)
    | true ↦ elim (round fuel hello revents accepted server w) [
      | none ↦ none
      | some (server', w') ↦ run_loop fuel hello waits server' w'
    ]
  ]
