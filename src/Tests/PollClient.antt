-- ===== src/Tests/PollClient.antt =====
-- NetworkBasics/poll/Client at a concrete input.
use tcp_simple_chat.Base.{◌≡◌, refl, List, [], ◌∷◌, true, false, Option, none, some, arith}
use tcp_simple_chat.Epoll.{write}
use tcp_simple_chat.PollClient.{
  Client, Address, Turn, ready, shuts_down, closes, create_connection, run_loop, read, stop,
}
use tcp_simple_chat.PollClient.Start.{start, after_loop, Stops, start-Stops}
use tcp_simple_chat.Tests.Epoll.{wire, quiet, left_of, quiet-Drains}

abbrev client : Client
client = record {
  running = false;
  socket = none;
  pollout = false;
  send_queue = [];
  printed = [];
  calls = [];
}

-- The first address refuses.
abbrev addresses : Option (List Address)
addresses = some (
    record { socket = some 3; connects = false } ∷ record { socket = some 4; connects = true } ∷ [])

-- The user sends a line, and the socket is readable and writable; then it fails.
abbrev turns : List (Turn quiet)
turns =
    record {
      earlier = (5 ∷ []) ∷ [];
      wait = ready (record { failed = false; readable = true; writable = true });
      meanwhile = [];
    }
    ∷ record {
      earlier = [];
      wait = ready (record { failed = true; readable = false; writable = false });
      meanwhile = [];
    }
    ∷ []

start_run :
    start quiet 4 addresses true turns client wire
    ≡ some (
      true,
      record client { printed = 7 ∷ 8 ∷ 9 ∷ []; calls = closes 3 ∷ shuts_down 4 ∷ closes 4 ∷ [] },
      record { unread = []; written = 1 ∷ 5 ∷ []; interruptions = 0 },
    )
unfolding start after_loop create_connection run_loop read write stop
start_run = refl

start-Stops_example :
    Stops quiet left_of quiet-Drains (start quiet 4 addresses true turns client wire)
start-Stops_example =
    start-Stops quiet left_of quiet-Drains 4 addresses true turns client wire (omega arith) refl tt
