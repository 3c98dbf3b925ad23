-- ===== src/Tests/EpollClient.antt =====
-- NetworkBasics/epoll/Client at a concrete input.
use tcp_simple_chat.Base.{◌≡◌, refl, inr, [], ◌∷◌, true, false, none}
use tcp_simple_chat.EpollClient.{Client, returns, deadlocked}
use tcp_simple_chat.EpollClient.Events.{write_loop, after_send, handle_connection}
use tcp_simple_chat.EpollClient.Deadlock.{connected, writable_only, handle_connection-deadlocked}
use tcp_simple_chat.Tests.Pipe.{Wire, pipe}

abbrev wire : Wire
wire = record { unread = []; written = []; interruptions = 0 }

abbrev sending : Client
sending = record {
  running = true;
  socket = none;
  epoll = none;
  send_queue = (1 ∷ 2 ∷ []) ∷ [];
  locked = false;
  printed = [];
  calls = [];
}

sent_all :
    write_loop pipe 5 wire sending.send_queue
    ≡ (returns true, [], record wire { written = 1 ∷ 2 ∷ [] })
unfolding write_loop after_send
sent_all = refl

handle_connection-deadlocked_example :
    handle_connection pipe 0 5 (connected sending 5 6) writable_only wire
    ≡ deadlocked
        (record (connected sending 5 6) { send_queue = []; locked = true })
        (record wire { written = 1 ∷ 2 ∷ [] })
handle_connection-deadlocked_example =
    handle_connection-deadlocked pipe 0 5 6 sending wire (record wire { written = 1 ∷ 2 ∷ [] })
      (returns true) [] sent_all (inr (refl, refl))
