-- ===== src/Epoll/Events.antt =====
-- NetworkBasics/epoll/Server/ChatServer.cpp: the handlers of reported events, the loop over them,
-- and the start and the stop of the server. The fuel bounds the calls of `recv` in a session.
use tcp_simple_chat.Base.{
  is_empty, ℕ, List, [], ◌∷◌, ◌++◌, Bool, true, false, not, ◌&&◌, Option, none, some, if◌then◌else◌,
  contains,
}
use tcp_simple_chat.Net.{Net, Errno, interrupted}
use tcp_simple_chat.Epoll
use tcp_simple_chat.Epoll.{
  Message, Session, Server, Event, Mask, Call, ctl_add, ctl_mod, closes, find, keys, adjust, tell,
  mod_client_writable, add_client_to_epoll,
}

-- What `socket` and the calls after it give for one address: whether `socket`, `bind` and `listen`
-- succeed, and the socket.
pub record Address : Type 0 where
  pub socket : Option ℕ
  pub binds : Bool
  pub listens : Bool

unfoldable pub create_listen_socket : Option (List Address) → Option ℕ × List ℕ
create_listen_socket none = (none, [])
create_listen_socket (some []) = (none, [])
create_listen_socket (some (a ∷ addresses)) =
    let (found, closed) = create_listen_socket (some addresses) in
    elim a.socket [
      | none ↦ (found, closed)
      | some s ↦ if a.binds && a.listens then (some s, []) else (found, s ∷ closed)
    ]

abbrev pub listen_mask : Mask
listen_mask = record {
  epollin = true;
  epollout = false;
  epollrdhup = false;
  epollet = false;
  epolloneshot = false;
}

unfoldable pub add_listen_to_epoll : Server → ℕ → Server
add_listen_to_epoll server s = tell server (ctl_add s listen_mask)

unfoldable pub add_listeners : List ℕ → Server → Server
unfolding add_listen_to_epoll
add_listeners [] server = server
add_listeners (s ∷ ss) server = add_listeners ss (add_listen_to_epoll server s)

unfoldable pub close_listeners : List ℕ → Server → Server
close_listeners [] server = server
close_listeners (s ∷ ss) server = close_listeners ss (tell server (closes s))

module _ (net : Net) where
  open net use {World, recv, send}

  -- The part of `HandleClients` from `Writable` on.
  unfoldable pub flush_client : ℕ → Server → ℕ → Session → World → Option (Server × World)
  flush_client fuel server fd s w =
      let (ok, q, w') = Epoll.write net s.socket w s.send_queue in
      let server' : Server = record server {
        clients = adjust fd (λ t. record t { send_queue = q }) server.clients;
      } in
      if ok
      then some (mod_client_writable server' fd, w')
      else Epoll.close_client net fuel server' fd w'

  -- The part of `HandleClients` after `Read`.
  unfoldable pub after_read :
      ℕ → Bool → ℕ → Option (Bool × Server × World) → Option (Server × World)
  unfolding flush_client
  after_read fuel writable fd none = none
  after_read fuel writable fd (some (false, server, w)) = Epoll.close_client net fuel server fd w
  after_read fuel writable fd (some (true, server, w)) = elim writable [
    | false ↦ some (server, w)
    | true ↦ elim (find fd server.clients) [
      | none ↦ some (server, w)
      | some s ↦ flush_client fuel server fd s w
    ]
  ]

  unfoldable pub handle_clients : ℕ → Server → ℕ → Event → World → Option (Server × World)
  unfolding after_read
  handle_clients fuel server fd ev w = elim ev.failed [
    | true ↦ Epoll.close_client net fuel server fd w
    | false ↦ elim (find fd server.clients) [
      | none ↦ some (server, w)
      | some s ↦ after_read fuel ev.writable fd (elim ev.readable [
        | true ↦ Epoll.read net fuel server fd w
        | false ↦ some (true, server, w)
      ])
    ]
  ]

  -- `AcceptAll` on the sockets that `accept4` gives before it fails; `emplace` keeps a session that
  -- the key already has.
  unfoldable pub accept_all : Message → List ℕ → Server → World → Server × World
  accept_all hello [] server w = (server, w)
  accept_all hello (cs ∷ accepted) server w =
      let (r, w') = send w cs hello in
      let server' : Server = record server {
        clients =
            if contains (keys server.clients) cs
            then server.clients
            else (cs, record { socket = cs; send_queue = [] }) ∷ server.clients;
      } in
      accept_all hello accepted (add_client_to_epoll server' cs) w'

  unfoldable pub handle_listeners : Message → Server → Event → List ℕ → World → Server × World
  unfolding accept_all
  handle_listeners hello server ev accepted w = elim ev.failed [
    | true ↦ (record server { running = false }, w)
    | false ↦ elim ev.readable [ true ↦ accept_all hello accepted server w | false ↦ (server, w) ]
  ]

  -- One entry of `events`; `accepted` are the sockets that `accept4` would give.
  pub record Report : Type 0 where
    pub fd : ℕ
    pub event : Event
    pub accepted : List ℕ

  unfoldable pub handle_events :
      ℕ → Message → List Report → Server → World → Option (Server × World)
  unfolding handle_listeners handle_clients
  handle_events fuel hello [] server w = some (server, w)
  handle_events fuel hello (r ∷ reports) server w = elim (contains server.listen_sockets r.fd) [
    | true ↦
        let (server', w') = handle_listeners hello server r.event r.accepted w in
        handle_events fuel hello reports server' w'
    | false ↦ elim (handle_clients fuel server r.fd r.event w) [
      | none ↦ none
      | some (server', w') ↦ handle_events fuel hello reports server' w'
    ]
  ]

  -- What `epoll_wait` returns.
  pub data Wait : Type 0 where
    reported : List Report → Wait
    wait_failed : Errno → Wait

  -- `RunLoop` on the results of its calls of `epoll_wait`: whether the loop was left, and the server.
  -- Where the results are used up and the server runs, the loop waits for the next one.
  unfoldable pub run_loop :
      ℕ → Message → List Wait → Server → World → Option (Bool × Server × World)
  unfolding handle_events
  run_loop fuel hello [] server w = some (not server.running, server, w)
  run_loop fuel hello (wait_failed interrupted ∷ waits) server w = elim server.running [
    | false ↦ some (true, server, w)
    | true ↦ run_loop fuel hello waits server w
  ]
  run_loop fuel hello (wait_failed other ∷ waits) server w = some (true, server, w)
  run_loop fuel hello (reported reports ∷ waits) server w = elim server.running [
    | false ↦ some (true, server, w)
    | true ↦ elim (handle_events fuel hello reports server w) [
      | none ↦ none
      | some (server', w') ↦ run_loop fuel hello waits server' w'
    ]
  ]

  unfoldable pub stop_clients : ℕ → List (ℕ × Session) → Server → World → Option (Server × World)
  stop_clients fuel [] server w = some (server, w)
  stop_clients fuel ((k, s) ∷ m) server w = elim (Epoll.stop_session net fuel server s w) [
    | none ↦ none
    | some (server', w') ↦ stop_clients fuel m server' w'
  ]

  unfoldable pub close_all : Server → Server
  unfolding close_listeners
  close_all server =
      let server' : Server = close_listeners server.listen_sockets server in
      let server'' : Server = elim server.epoll [
        | none ↦ server'
        | some e ↦ tell server' (closes e)
      ] in
      record server'' { clients = []; listen_sockets = []; epoll = none; running = false }

  unfoldable pub stop : ℕ → Server → World → Option (Server × World)
  unfolding stop_clients close_all
  stop fuel server w =
      elim (not server.running && is_empty server.listen_sockets && is_empty server.clients) [
        | true ↦ some (server, w)
        | false ↦ elim (stop_clients fuel server.clients server w) [
          | none ↦ none
          | some (server', w') ↦ some (close_all server', w')
        ]
      ]

  -- `Start` with the result of `stop`.
  unfoldable pub stopped : Option (Server × World) → Option (Bool × Server × World)
  stopped none = none
  stopped (some (server, w)) = some (true, server, w)

  -- `Start` once the loop was left.
  unfoldable pub after_loop : ℕ → Option (Bool × Server × World) → Option (Bool × Server × World)
  unfolding stop stopped
  after_loop fuel none = none
  after_loop fuel (some (false, server, w)) = some (false, server, w)
  after_loop fuel (some (true, server, w)) = stopped (stop fuel server w)

  -- `Start`, on the sockets that were made and switched, the result of `epoll_create1`, and the
  -- results of `epoll_wait`: whether it returned, and the server.
  unfoldable pub start :
      ℕ → Message → List ℕ → Option ℕ → List Wait → Server → World → Option (Bool × Server × World)
  unfolding after_loop add_listeners run_loop
  start fuel hello made epoll waits server w =
      let server' : Server = record server { listen_sockets = made ++ server.listen_sockets } in
      elim (is_empty server'.listen_sockets) [
        | true ↦ some (true, server', w)
        | false ↦ elim epoll [
          | none ↦ stopped (stop fuel (record server' { epoll = none }) w)
          | some e ↦ after_loop fuel (
              run_loop fuel hello waits
                (record (add_listeners server'.listen_sockets (record server' { epoll = some e })) {
                  running = true;
                })
                w)
        ]
      ]
