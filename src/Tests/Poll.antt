-- ===== src/Tests/Poll.antt =====
-- NetworkBasics/poll/Server at concrete inputs.
use tcp_simple_chat.Base.{ℕ, ◌≡◌, List, [], ◌∷◌, true, ◌==◌, if◌then◌else◌, arith}
use tcp_simple_chat.Poll.{Server, Event, round}
use tcp_simple_chat.Poll.Parts.{round_by_parts, round-by_parts}
use tcp_simple_chat.Poll.{read}
use tcp_simple_chat.Poll.Queued.{Queues, read-Queues}
use tcp_simple_chat.Tests.Pipe.{pipe, wire_unread, wire_interruptions, pipe-ReceivesInOrder}
use tcp_simple_chat.Tests.Epoll.{wire, idle, quiet}

abbrev three_clients : Server
three_clients = record {
  running = true;
  listen_sockets = 3 ∷ [];
  clients = (4, idle 4) ∷ (5, record { socket = 5; send_queue = (6 ∷ []) ∷ [] }) ∷ (7, idle 7) ∷ [];
  calls = [];
}

-- The first of the clients failed; the listener and the others are ready.
abbrev events : ℕ → Event
events i = record { failed = i == 1; readable = true; writable = i == 2 }

abbrev newcomers : ℕ → List ℕ
newcomers fd = if fd == 3 then 8 ∷ [] else []

round-by_parts_example :
    round quiet 4 (5 ∷ []) events newcomers three_clients wire
    ≡ round_by_parts quiet 4 (5 ∷ []) events newcomers three_clients wire
round-by_parts_example = round-by_parts quiet 4 (5 ∷ []) events newcomers three_clients wire

read-Queues_example :
    Queues pipe 5 wire_unread wire_interruptions
      (pipe-ReceivesInOrder 5)
      three_clients
      wire
      (read pipe 5 three_clients 5 wire)
read-Queues_example =
    read-Queues pipe 5 wire_unread wire_interruptions (pipe-ReceivesInOrder 5) 5 three_clients wire
      (omega arith)
