-- ===== src/Tests/Epoll.antt =====
-- NetworkBasics/epoll/Server at concrete inputs.
use tcp_simple_chat.Base.{
  suc, zero, length, ◌≤◌, ◌<◌, length-drop, ℕ, ◌≡◌, refl, List, [], ◌∷◌, true, false, some, arith,
  take, drop,
}
use tcp_simple_chat.Net.{Net, RecvResult, got, recv_failed, would_block, SendResult}
use tcp_simple_chat.Epoll.{Session, Server, broadcast_msg, write, read, after_recv}
use tcp_simple_chat.Epoll.Flush.{Flushed, write-Flushed}
use tcp_simple_chat.Epoll.Reading.{Relayed, read-Relayed}
use tcp_simple_chat.Epoll.Queued.{Queued, read-Queued}
use tcp_simple_chat.Epoll.Rearm.{registers, handle_clients-registers}
use tcp_simple_chat.Epoll.Runs.{Drains}
use tcp_simple_chat.Epoll.Halt.{stop-some}
use tcp_simple_chat.Epoll.Events.{handle_clients, stop}
use tcp_simple_chat.Tests.Pipe.{
  Wire, pipe, transmit, wire_unread, wire_written, wire_interruptions, pipe-SendsInOrder,
  pipe-ReceivesInOrder,
}

abbrev pub wire : Wire
wire = record { unread = 7 ∷ 8 ∷ 9 ∷ []; written = 1 ∷ []; interruptions = 0 }

write-Flushed_example :
    Flushed pipe 4 wire_written wire_interruptions
      (pipe-SendsInOrder 4)
      wire
      ((1 ∷ 2 ∷ []) ∷ (3 ∷ 4 ∷ 5 ∷ 6 ∷ []) ∷ (7 ∷ []) ∷ [])
      (write pipe 4 wire ((1 ∷ 2 ∷ []) ∷ (3 ∷ 4 ∷ 5 ∷ 6 ∷ []) ∷ (7 ∷ []) ∷ []))
write-Flushed_example =
    write-Flushed pipe 4 wire_written wire_interruptions (pipe-SendsInOrder 4) wire
      ((1 ∷ 2 ∷ []) ∷ (3 ∷ 4 ∷ 5 ∷ 6 ∷ []) ∷ (7 ∷ []) ∷ [])
      (omega arith, (omega arith, (omega arith, tt)))

abbrev pub idle : ℕ → Session
idle s = record { socket = s; send_queue = [] }

abbrev three_clients : Server
three_clients = record {
  running = true;
  epoll = some 9;
  listen_sockets = 3 ∷ [];
  clients = (4, idle 4) ∷ (5, record { socket = 5; send_queue = (6 ∷ []) ∷ [] }) ∷ (7, idle 7) ∷ [];
  calls = [];
}

read-Relayed_example :
    Relayed pipe 4 wire_unread wire_interruptions
      (pipe-ReceivesInOrder 4)
      three_clients
      wire
      (read pipe 5 three_clients 4 wire)
read-Relayed_example =
    read-Relayed pipe 4 wire_unread wire_interruptions (pipe-ReceivesInOrder 4) 5 three_clients wire
      (omega arith)

read-Queued_example :
    Queued pipe 4 wire_unread wire_interruptions
      (pipe-ReceivesInOrder 4)
      three_clients
      wire
      (read pipe 5 three_clients 4 wire)
read-Queued_example =
    read-Queued pipe 4 wire_unread wire_interruptions (pipe-ReceivesInOrder 4) 5 three_clients wire
      (omega arith) (refl, (refl, (refl, tt)))

-- A network on which `recv` finds nothing once all is read.
abbrev take_some : Wire → List ℕ → ℕ → RecvResult × Wire
take_some w [] len = (recv_failed would_block, w)
take_some w (b ∷ bs) len = (got (take len w.unread), record w { unread = drop len w.unread })

abbrev pub quiet : Net
quiet = record {
  World = Wire;
  recv = λ w s len. take_some w w.unread len;
  send = λ w s bs. transmit w bs w.interruptions;
}

quiet_run :
    read quiet 3 three_clients 4 wire
    ≡ some (true, broadcast_msg three_clients (7 ∷ 8 ∷ 9 ∷ []) 4, record wire { unread = [] })
unfolding read after_recv
quiet_run = refl

handle_clients-registers_example :
    (handle_clients quiet 3 three_clients 4
        (record { failed = false; readable = true; writable = false })
        wire
      ≡ some (broadcast_msg three_clients (7 ∷ 8 ∷ 9 ∷ []) 4, record wire { unread = [] }))
    × (registers 4 (broadcast_msg three_clients (7 ∷ 8 ∷ 9 ∷ []) 4).calls ≡ 0)
handle_clients-registers_example =
    handle_clients-registers quiet 3 three_clients (broadcast_msg three_clients (7 ∷ 8 ∷ 9 ∷ []) 4)
      4 (idle 4) (record { failed = false; readable = true; writable = false }) wire
      (record wire { unread = [] }) refl refl refl refl quiet_run

abbrev pub left_of : Wire → ℕ
left_of w = length w.unread

take_some-le :
    (w w' : Wire) (bs : List ℕ) (len : ℕ) (r : RecvResult)
    → take_some w bs len ≡ (r, w')
    → length w'.unread ≤ length w.unread
take_some-le w w' [] len r e = ground arith
take_some-le w w' (b ∷ bs) len r e = ground (arith, length-drop len w.unread)

transmit-unread :
    (w w' : Wire) (bs : List ℕ) (n : ℕ) (r : SendResult)
    → transmit w bs n ≡ (r, w')
    → length w'.unread ≤ length w.unread
transmit-unread w w' bs zero r e = ground arith
transmit-unread w w' bs (suc n) r e = ground arith

take_some-lt :
    (w w' : Wire) (bs : List ℕ) (len b : ℕ) (cs : List ℕ)
    → w.unread ≡ bs
    → take_some w bs len ≡ (got (b ∷ cs), w')
    → length w'.unread < length w.unread
take_some-lt w w' [] len b cs u e = cc
take_some-lt w w' (a ∷ bs) zero b cs u e = cc
take_some-lt w w' (a ∷ bs) (suc len) b cs u e = ground (arith, length-drop (suc len) w.unread)

pub quiet-Drains : Drains quiet left_of
quiet-Drains = record {
  recv_le = λ w w' s len r e. take_some-le w w' w.unread len r e;
  recv_lt = λ w w' s len b bs e. take_some-lt w w' w.unread len b bs refl e;
  send_le = λ w w' s bs r e. transmit-unread w w' bs w.interruptions r e;
}

stop-some_example :
    (server : Server) × (w : Wire) × (stop quiet 4 three_clients wire ≡ some (server, w))
    × (server.clients ≡ [])
    × (server.listen_sockets ≡ [])
    × (server.running ≡ false)
stop-some_example = stop-some quiet left_of quiet-Drains 4 three_clients wire (omega arith)
