-- ===== src/Poll/Lifecycle.antt =====
-- `Start`, `Stop` and `CreateListenSocket` of NetworkBasics/poll/Server/ChatServer.cpp.
use tcp_simple_chat.Base.{
  is_empty, ℕ, List, [], ◌∷◌, ◌++◌, Bool, true, false, not, ◌&&◌, Option, none, some, if◌then◌else◌,
}
use tcp_simple_chat.Net.{Net}
use tcp_simple_chat.Epoll
use tcp_simple_chat.Epoll.{Message, Session}
use tcp_simple_chat.Poll.{Server, shuts_down, closes, tell, Wait, run_loop}

-- What `socket` gives for one address, and whether `bind` and `listen` succeed.
pub record Address : Type 0 where
  pub socket : Option ℕ
  pub binds : Bool
  pub listens : Bool

-- On what `getaddrinfo` gives: the socket that is returned, and those that were closed.
unfoldable pub create_listen_socket : Option (List Address) → Option ℕ × List ℕ
create_listen_socket none = (none, [])
create_listen_socket (some []) = (none, [])
create_listen_socket (some (a ∷ addresses)) =
    let (found, closed) = create_listen_socket (some addresses) in
    elim a.socket [
      | none ↦ (found, closed)
      | some s ↦ if a.binds && a.listens then (some s, []) else (found, s ∷ closed)
    ]

unfoldable pub close_listeners : List ℕ → Server → Server
close_listeners [] server = server
close_listeners (s ∷ ss) server = close_listeners ss (tell server (closes s))

module _ (net : Net) where
  open net use {World}

  unfoldable pub stop_clients : ℕ → List (ℕ × Session) → Server → World → Option (Server × World)
  stop_clients fuel [] server w = some (server, w)
  stop_clients fuel ((k, s) ∷ m) server w = elim (Epoll.drain net fuel s.socket w) [
    | none ↦ none
    | some w' ↦ stop_clients fuel m (tell (tell server (shuts_down s.socket)) (closes s.socket)) w'
  ]

  unfoldable pub stop : ℕ → Server → World → Option (Server × World)
  unfolding stop_clients close_listeners
  stop fuel server w =
      elim (not server.running && is_empty server.listen_sockets && is_empty server.clients) [
        | true ↦ some (server, w)
        | false ↦ elim (stop_clients fuel server.clients server w) [
          | none ↦ none
          | some (server', w') ↦ some (
            record (close_listeners server'.listen_sockets server') {
              clients = [];
              listen_sockets = [];
              running = false;
            },
            w',
          )
        ]
      ]

  -- `Start` once the loop was left.
  unfoldable pub after_loop : ℕ → Option (Bool × Server × World) → Option (Bool × Server × World)
  unfolding stop
  after_loop fuel none = none
  after_loop fuel (some (false, server, w)) = some (false, server, w)
  after_loop fuel (some (true, server, w)) = elim (stop fuel server w) [
    | none ↦ none
    | some (server', w') ↦ some (true, server', w')
  ]

  -- `Start` on the sockets that were made and switched, and on what `poll` gives: whether it
  -- returned, and the server.
  unfoldable pub start :
      ℕ → Message → List ℕ → List (Wait net) → Server → World → Option (Bool × Server × World)
  unfolding after_loop run_loop
  start fuel hello made waits server w =
      let server' : Server = record server { listen_sockets = server.listen_sockets ++ made } in
      elim (is_empty server'.listen_sockets) [
        | true ↦ some (true, server', w)
        | false ↦
            after_loop fuel (run_loop net fuel hello waits (record server' { running = true }) w)
      ]
