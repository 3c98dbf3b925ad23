-- ===== src/Tests/SelectServer.antt =====
-- NetworkBasics/select/Server at a concrete input.
use tcp_simple_chat.Base.{
  ℕ, ◌+◌, ◌≡◌, refl, List, [], ◌∷◌, Bool, true, false, some, ◌==◌, arith, count,
}
use tcp_simple_chat.Net.{fault}
use tcp_simple_chat.SelectServer.{Wait, ready, timed_out, wait_failed, serve_clients}
use tcp_simple_chat.SelectServer.Lifecycle.{start}
use tcp_simple_chat.SelectServer.Closed.{start-Closed}
use tcp_simple_chat.Tests.Pipe.{Wire}
use tcp_simple_chat.SelectServer.{Server}
use tcp_simple_chat.SelectServer.Among.{Among, AllReady}
use tcp_simple_chat.SelectServer.Closing.{Removed, serve-Removed}
use tcp_simple_chat.Tests.Epoll.{wire, quiet, left_of, quiet-Drains}

abbrev three_clients : Server
three_clients = record {
  wsa_init = true;
  listen_sockets = 3 ∷ [];
  clients = 4 ∷ 5 ∷ 7 ∷ [];
  to_close = [];
  closed = [];
}

abbrev only_five : ℕ → Bool
only_five s = s == 5

serve-Removed_example :
    (gone : List ℕ) × Among three_clients.clients gone
    × AllReady only_five gone
    × Removed quiet left_of quiet-Drains three_clients gone wire
        (serve_clients quiet 4 only_five three_clients wire)
serve-Removed_example =
    serve-Removed quiet left_of quiet-Drains 4 only_five three_clients wire (omega arith)
      (refl, (refl, (refl, tt)))

-- All sockets are ready, and `accept` gives sockets 9 and 4, which is in use, on each listener; then
-- `select` fails.
abbrev one_round : List (Wait quiet)
one_round = ready (λ s. true) (λ ls. 9 ∷ 4 ∷ []) ∷ timed_out ∷ wait_failed fault ∷ []

start-Closed_example :
    (server : Server) × (w : Wire) × (start quiet 4
        (87 ∷ [])
        true
        (6 ∷ [])
        one_round
        three_clients
        wire
      ≡ some (true, server, w))
    × (server.wsa_init ≡ false)
    × (server.listen_sockets ≡ [])
    × (server.clients ≡ [])
    × ((q : ℕ)
        → count server.closed q
          ≡ 0 + count (3 ∷ 6 ∷ []) q + count (4 ∷ 5 ∷ 7 ∷ []) q + count (9 ∷ 4 ∷ 9 ∷ 4 ∷ []) q)
start-Closed_example =
    start-Closed quiet left_of quiet-Drains 4 (87 ∷ []) (6 ∷ []) one_round three_clients wire
      (omega arith) (refl, (refl, (refl, tt))) refl refl
