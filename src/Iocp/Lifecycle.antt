-- ===== src/Iocp/Lifecycle.antt =====
-- `Start`, `Stop` and `CreateListeningSocket` of NetworkBasics/iocp/Server/ChatServer.cpp.
use tcp_simple_chat.Base.{
  is_empty, ℕ, zero, suc, List, [], ◌∷◌, ◌++◌, Bool, true, false, not, ◌&&◌, Option, none, some,
  ◌==◌, if◌then◌else◌,
}
use tcp_simple_chat.Iocp.{
  Server, AcceptCalls, Completion, Run, left, waiting, dangling, create_accept_socket, run_loop,
}

-- What `WSASocket` gives for one address, and whether `bind` and `listen` succeed.
pub record Address : Type 0 where
  pub socket : Option ℕ
  pub binds : Bool
  pub listens : Bool

-- On what `getaddrinfo` gives: the socket that is returned, and those that were closed.
unfoldable pub create_listening_socket : Option (List Address) → Option ℕ × List ℕ
create_listening_socket none = (none, [])
create_listening_socket (some []) = (none, [])
create_listening_socket (some (a ∷ addresses)) =
    let (found, closed) = create_listening_socket (some addresses) in
    elim a.socket [
      | none ↦ (found, closed)
      | some s ↦ if a.binds && a.listens then (some s, []) else (found, s ∷ closed)
    ]

-- The sockets that the loop of `Start` keeps.
abbrev pub made : List (Option ℕ) → List ℕ
made [] = []
made (none ∷ os) = made os
made (some s ∷ os) = s ∷ made os

unfoldable pub stop : Server → Server
stop server =
    if not server.wsa_init && is_empty server.listen_sockets && is_empty server.clients
    then server
    else record server { clients = []; listen_sockets = []; iocp = false; wsa_init = false }

abbrev pub accept_depth : ℕ
accept_depth = 4

unfoldable pub post_accepts : ℕ → (ℕ → AcceptCalls) → ℕ → Server → Server
unfolding create_accept_socket
post_accepts zero calls ls server = server
post_accepts (suc n) calls ls server =
    post_accepts n calls ls (create_accept_socket server ls (calls n)).1

unfoldable pub accept_on_all : (ℕ → ℕ → AcceptCalls) → List ℕ → Server → Server
unfolding post_accepts
accept_on_all calls [] server = server
accept_on_all calls (ls ∷ lss) server =
    accept_on_all calls lss (post_accepts accept_depth (calls ls) ls server)

-- `Start` on the result of `WSAStartup`, the results of `CreateListeningSocket` for the configured
-- addresses, the result of `InitIocp`, those of the calls of `CreateAcceptSocket`, and the completions.
-- `Stop` after the loop, where it was left.
abbrev stop_after : Run → Run
stop_after (left server) = left (stop server)
stop_after (waiting server) = waiting server
stop_after (dangling server) = dangling server

-- What `AssociateHandle` returns is not used.
unfoldable pub start :
    ℕ → List (Option ℕ) → Bool → (ℕ → ℕ → AcceptCalls) → List Completion → Server → Run
unfolding stop accept_on_all run_loop
start startup created inits calls completions server =
    if not (startup == 0)
    then left server
    else let server' : Server = record server {
      listen_sockets = server.listen_sockets ++ made created;
    } in
      if is_empty server'.listen_sockets
      then left server'
      else if not inits
      then left (stop (record server' { iocp = false }))
      else let server'' : Server =
          accept_on_all calls server'.listen_sockets (record server' { iocp = true }) in
        stop_after (run_loop completions (record server'' { wsa_init = true }))
