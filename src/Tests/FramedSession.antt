-- ===== src/Tests/FramedSession.antt =====
-- Protocols/Framing/Server/ClientSession.cpp at concrete inputs.
use tcp_simple_chat.Base.{◌≡◌, refl, inl, List, [], ◌∷◌, ◌++◌, true, false, some, arith}
use tcp_simple_chat.Framing.{send_frame, send_payload, send_all, after_send}
use tcp_simple_chat.FramedSession.{
  Message, Session, make, start, enqueue, send_msg, returns, dequeue, take_front, send_loop,
  recv_loop, blocked, failed,
}
use tcp_simple_chat.FramedSession.Queue.{
  begin, producer_returns, Reach, begins, later, IsValid, Reach-IsValid,
}
use tcp_simple_chat.FramedSession.Backpressure.{with_message, send_loop-empty_message}
use tcp_simple_chat.FramedSession.EndToEnd.{recv_loop-send_loop}
use tcp_simple_chat.Tests.Pipe.{
  Wire, pipe, wire_unread, wire_written, wire_interruptions, pipe-ReceivesInOrder, pipe-StaysUp,
  pipe-SendsInOrder, little_host, big_host, little_host-IsNetworkOrder, big_host-IsNetworkOrder,
}

abbrev begun : Session
begun = record {
  socket = some 5;
  tx_queue = [];
  tx_bytes_queued = 0;
  active = true;
  rx_thread = true;
  tx_thread = true;
}

start_run : start (make 5) ≡ begun
unfolding start make
start_run = refl

one_queued :
    Reach 5
      (record (begin 5) { session = with_message begun (7 ∷ 8 ∷ []); accepted = (7 ∷ 8 ∷ []) ∷ [] })
unfolding start make enqueue
one_queued = later begins (producer_returns (7 ∷ 8 ∷ []) _ (omega arith) refl refl)

Reach-IsValid_example :
    IsValid
      (record (begin 5) { session = with_message begun (7 ∷ 8 ∷ []); accepted = (7 ∷ 8 ∷ []) ∷ [] })
Reach-IsValid_example = Reach-IsValid one_queued

abbrev idle_wire : Wire
idle_wire = record { unread = []; written = []; interruptions = 1 }

send_loop-empty_message_example :
    (queued : Session) × (s' : Session) × (send_msg begun [] ≡ returns queued)
    × (send_loop pipe little_host 5 3 40 idle_wire queued ≡ some (failed s' idle_wire))
    × (s'.active ≡ false)
send_loop-empty_message_example =
    send_loop-empty_message pipe little_host 5 2 40 idle_wire begun refl refl (omega arith)

abbrev two_queued : Session
two_queued = record begun { tx_queue = (7 ∷ 8 ∷ []) ∷ (9 ∷ []) ∷ []; tx_bytes_queued = 3 }

abbrev sent_wire : Wire
sent_wire = record {
  unread = [];
  written = 0 ∷ 0 ∷ 0 ∷ 2 ∷ 7 ∷ 8 ∷ 0 ∷ 0 ∷ 0 ∷ 1 ∷ 9 ∷ [];
  interruptions = 0;
}

send_loop_run :
    send_loop pipe little_host 5 3 2_000_000 idle_wire two_queued ≡ some (blocked begun sent_wire)
unfolding send_loop dequeue take_front send_frame send_payload send_all after_send
send_loop_run = refl

-- A receiver that collects what it broadcasts; from a little-endian to a big-endian host.
recv_loop-send_loop_example :
    (v' : Wire) × (recv_loop pipe big_host 6
        (List Message)
        (λ _. true)
        (λ l m. l ++ (m ∷ []))
        3
        2_000_000
        (record { unread = sent_wire.written; written = []; interruptions = 4 })
        []
      ≡ some ((7 ∷ 8 ∷ []) ∷ (9 ∷ []) ∷ [], v'))
recv_loop-send_loop_example =
    recv_loop-send_loop pipe little_host 5 wire_written wire_interruptions (pipe-SendsInOrder 5)
      little_host-IsNetworkOrder pipe big_host 6 wire_unread wire_interruptions
      (pipe-ReceivesInOrder 6) (pipe-StaysUp 6) big_host-IsNetworkOrder (List Message) (λ _. true)
      (λ l m. l ++ (m ∷ [])) (λ st m on. refl) 3 2_000_000 idle_wire sent_wire two_queued begun
      (record { unread = sent_wire.written; written = []; interruptions = 4 }) [] sent_wire.written
      (omega arith) (omega arith) (omega arith) (omega arith) refl (inl send_loop_run) refl refl
