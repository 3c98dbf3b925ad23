-- ===== src/SelectServer/Lifecycle.antt =====
-- `CreateListeningSocket`, `Start` and `Stop` of NetworkBasics/select/Server/ChatServer.cpp.
use tcp_simple_chat.Base.{
  is_empty, ℕ, ◌≤◌, ◌<◌, ◌≡◌, refl, List, [], ◌∷◌, ◌++◌, Bool, true, false, not, ◌&&◌, Option, none,
  some, if◌then◌else◌, arith,
}
use tcp_simple_chat.Net.{Net}
use tcp_simple_chat.Epoll
use tcp_simple_chat.Epoll.Runs.{Drains, drain-ends}
use tcp_simple_chat.SelectServer.{Message, Server, Wait, run_event_loop}

-- What `socket` gives for one address, and whether `bind` and `listen` succeed.
pub record Address : Type 0 where
  pub socket : Option ℕ
  pub binds : Bool
  pub listens : Bool

-- On what `getaddrinfo` gives: the socket that is returned, and those that were closed.
unfoldable pub create_listening_socket : Option (List Address) → Option ℕ × List ℕ
create_listening_socket none = (none, [])
create_listening_socket (some []) = (none, [])
create_listening_socket (some (a ∷ addresses)) =
    let (found, closed) = create_listening_socket (some addresses) in
    elim a.socket [
      | none ↦ (found, closed)
      | some s ↦ if a.binds && a.listens then (some s, []) else (found, s ∷ closed)
    ]

-- The guard of `Stop`.
abbrev nothing_to_stop : Server → Bool
nothing_to_stop server =
    not server.wsa_init && is_empty server.listen_sockets && is_empty server.clients

module _ (net : Net) where
  open net use {World}

  -- The loop over the sessions: each is drained and closed.
  unfoldable pub stop_clients : ℕ → List ℕ → World → Option World
  stop_clients fuel [] w = some w
  stop_clients fuel (k ∷ ks) w = elim (Epoll.drain net fuel k w) [
    | none ↦ none
    | some w' ↦ stop_clients fuel ks w'
  ]

  unfoldable pub stop : ℕ → Server → World → Option (Server × World)
  unfolding stop_clients
  stop fuel server w = elim (nothing_to_stop server) [
    | true ↦ some (server, w)
    | false ↦ elim (stop_clients fuel server.clients w) [
      | none ↦ none
      | some w' ↦ some (
        record server {
          wsa_init = false;
          listen_sockets = [];
          clients = [];
          closed = (server.closed ++ server.listen_sockets) ++ server.clients;
        },
        w',
      )
    ]
  ]

  -- `Start` once the loop was left.
  unfoldable pub after_loop : ℕ → Option (Bool × Server × World) → Option (Bool × Server × World)
  unfolding stop
  after_loop fuel none = none
  after_loop fuel (some (false, server, w)) = some (false, server, w)
  after_loop fuel (some (true, server, w)) = elim (stop fuel server w) [
    | none ↦ none
    | some (server', w') ↦ some (true, server', w')
  ]

  -- `Start` on the result of `WSAStartup`, the sockets that were made, and what `select` gives:
  -- whether it returned, and the server.
  unfoldable pub start :
      ℕ
      → Message
      → Bool
      → List ℕ
      → List (Wait net)
      → Server
      → World
      → Option (Bool × Server × World)
  unfolding after_loop
  start fuel hello false made waits server w = some (true, server, w)
  start fuel hello true made waits server w =
      let server' : Server = record server { listen_sockets = server.listen_sockets ++ made } in
      elim (is_empty server'.listen_sockets) [
        | true ↦ some (true, server', w)
        | false ↦
            after_loop fuel
              (run_event_loop net fuel hello waits (record server' { wsa_init = true }) w)
      ]

module _ (net : Net) (total : net.World → ℕ) (drains : Drains net total) where
  open net use {World}

  stop_clients-ends :
      (fuel : ℕ) (ks : List ℕ) (w : World)
      → total w < fuel
      → (w' : World) × (stop_clients net fuel ks w ≡ some w') × (total w' ≤ total w)
  unfolding stop_clients
  stop_clients-ends fuel [] w f = (w, refl, omega arith)
  stop_clients-ends fuel (k ∷ ks) w f =
      let (v, run, le) = drain-ends net total drains fuel k w f in
      let (w', run', le') = stop_clients-ends fuel ks v (omega arith) in
      rw (run, stop_clients) (w', run', omega arith)

  -- With more fuel than the bytes that the peers will still send, `Stop` of a server that runs ends:
  -- the server does not run and has no socket, and it closed its listeners and then its clients.
  pub stop-running :
      (fuel : ℕ) (server : Server) (w : World)
      → total w < fuel
      → server.wsa_init ≡ true
      → (server' : Server) × (w' : World) × (stop net fuel server w ≡ some (server', w'))
        × (server'.wsa_init ≡ false)
        × (server'.listen_sockets ≡ [])
        × (server'.clients ≡ [])
        × (server'.closed ≡ (server.closed ++ server.listen_sockets) ++ server.clients)
  unfolding stop
  stop-running fuel server w f runs =
      let (w', run, le) = stop_clients-ends fuel server.clients w f in
      rw (runs, stop) (rw (run, stop) (_, w', refl, refl, refl, refl, refl))
