-- ===== src/Tests/FramedServer.antt =====
-- Protocols/Framing/Server/ChatServer.cpp at concrete inputs.
use tcp_simple_chat.Base.{
  ◌≤◌, inl, inr, List, ◌++◌, contains, ℕ, ◌≡◌, refl, [], ◌∷◌, true, false, not, ◌&&◌, none, some,
  arith, ◌==◌, if◌then◌else◌,
}
use tcp_simple_chat.FramedSession
use tcp_simple_chat.FramedSession.{
  tx_hwm_bytes, Session, enqueue, dequeue, take_front, has_room, make,
}
use tcp_simple_chat.FramedServer.{Server, delivered, stuck, snapshot, broadcast_msg, runs, start}
use tcp_simple_chat.FramedServer.Broadcast.{sent_to, broadcast_msg-delivered, broadcast_msg-stuck}
use tcp_simple_chat.FramedServer.Lifecycle.{created, start-AllFail}
use tcp_simple_chat.FramedServer.Oversized.{broadcast_msg-oversized}
use tcp_simple_chat.Framing.{recv_frame}
use tcp_simple_chat.Framing.Transmit.{frame}
use tcp_simple_chat.Tests.Pipe.{
  Wire, pipe, filler, length-filler, wire_unread, wire_interruptions, pipe-ReceivesInOrder,
  pipe-StaysUp, little_host, little_host-IsNetworkOrder,
}
use tcp_simple_chat.FramedServer.Relay.{
  sends, Offer, System, Reach, empty, set_receiver, set_session, take_snapshot, pass, accept,
  receiving, starts, joins, hears, queues, begins, later,
}
use tcp_simple_chat.FramedServer.Debts.{from, queued_of, said_to}
use tcp_simple_chat.FramedServer.Sent.{Reach-SentInOrder}
use tcp_simple_chat.FramedServer.Relayed.{IsRelaying, Reach-IsRelaying}

abbrev idle_session : Session
idle_session = record {
  socket = some 3;
  tx_queue = [];
  tx_bytes_queued = 0;
  active = true;
  rx_thread = true;
  tx_thread = true;
}

abbrev full_session : Session
full_session = record idle_session { tx_bytes_queued = 262_144 }

abbrev store : ℕ → Session
store p = if p == 2 then full_session else idle_session

abbrev three_clients : Server
three_clients = record {
  running = true;
  listen_sockets = some 1 ∷ [];
  accept_threads = some 1 ∷ [];
  clients = 1 ∷ 2 ∷ 3 ∷ [];
  sessions = store;
}

snapshot_run : snapshot 3 (1 ∷ 2 ∷ 3 ∷ []) ≡ 1 ∷ 2 ∷ []
unfolding snapshot
snapshot_run = refl

snapshot_run_2 : snapshot 2 (1 ∷ 2 ∷ 3 ∷ []) ≡ 1 ∷ 3 ∷ []
unfolding snapshot
snapshot_run_2 = refl

broadcast_msg-delivered_example :
    broadcast_msg three_clients (7 ∷ []) 2
    ≡ delivered (λ q.
      if contains (1 ∷ 2 ∷ 3 ∷ []) q && not (q == 2) then sent_to (store q) (7 ∷ []) else store q)
unfolding snapshot
broadcast_msg-delivered_example =
    broadcast_msg-delivered three_clients (7 ∷ []) 2 (refl, (refl, (refl, tt))) (omega arith)

broadcast_msg-stuck_example :
    broadcast_msg three_clients (7 ∷ []) 3
    ≡ stuck 2 [] (λ q. if contains (1 ∷ []) q then sent_to (store q) (7 ∷ []) else store q)
broadcast_msg-stuck_example =
    broadcast_msg-stuck three_clients (7 ∷ []) 3 (1 ∷ []) 2 [] (refl, (refl, (refl, tt)))
      snapshot_run (omega arith) refl (omega arith) (omega arith)

abbrev unstarted : Server
unstarted = record three_clients {
  running = false;
  listen_sockets = [];
  accept_threads = [];
  clients = [];
}

-- One address does not resolve, on the other `listen` fails.
start-AllFail_example :
    start unstarted 0 (
      created
        ((false, []) ∷ (true, record { socket = some 4; binds = true; listens = false } ∷ []) ∷ []))
    ≡ runs (record unstarted {
      running = true;
      listen_sockets = none ∷ none ∷ [];
      accept_threads = none ∷ none ∷ [];
    })
start-AllFail_example =
    start-AllFail unstarted
      ((false, []) ∷ (true, record { socket = some 4; binds = true; listens = false } ∷ []) ∷ [])
      refl (λ e. cc) (inl refl, (inr (inr refl, tt), tt))

-- A frame of 300,000 bytes on the socket of session 3; session 1 is active.
abbrev large_frame : Wire
large_frame = record { unread = frame (filler 300_000) ++ []; written = []; interruptions = 2 }

store-bounded : (k : ℕ) → (store k).tx_bytes_queued ≤ tx_hwm_bytes
store-bounded k = ground arith

broadcast_msg-oversized_example :
    (w : Wire) × (k : ℕ) × (others : List ℕ) × (recv_frame pipe 5 little_host 2_000_000 large_frame
      ≡ some (true, filler 300_000, w))
    × (broadcast_msg three_clients (filler 300_000) 3 ≡ stuck k others store)
    × ((store k).active ≡ true)
broadcast_msg-oversized_example =
    broadcast_msg-oversized pipe 5 wire_unread wire_interruptions (pipe-ReceivesInOrder 5)
      little_host (pipe-StaysUp 5) little_host-IsNetworkOrder 2_000_000 large_frame (filler 300_000)
      [] three_clients 3 1 refl (omega arith) (omega (arith, length-filler 300_000))
      (omega (arith, length-filler 300_000)) store-bounded refl refl refl

-- Sessions 1 and 2 start and join; 1 broadcasts a message, which is queued in the session of 2.
abbrev joined : System
joined = record (set_receiver (set_receiver (empty (λ p. p)) 1 receiving) 2 receiving) {
  clients = 1 ∷ 2 ∷ [];
}

abbrev announced : System
announced = take_snapshot joined 1 (7 ∷ [])

abbrev queued_session : Session
queued_session = record idle_session {
  socket = some 2;
  tx_queue = (7 ∷ []) ∷ [];
  tx_bytes_queued = 1;
}

abbrev relayed_one : System
relayed_one =
    pass (set_session announced 2 (accept announced 2 (7 ∷ []) queued_session)) 1 (7 ∷ []) 2 [] true

joined-Reach : Reach (λ p. p) joined
joined-Reach =
    later (later (later (later begins (starts 1 refl)) (starts 2 refl)) (joins 1 (λ e. cc) refl))
      (joins 2 (λ e. cc) refl)

announced-snapshot : snapshot 1 (1 ∷ 2 ∷ []) ≡ 2 ∷ []
unfolding snapshot
announced-snapshot = refl

relayed_one-Reach : Reach (λ p. p) relayed_one
unfolding snapshot enqueue has_room FramedSession.start make
relayed_one-Reach =
    later (later joined-Reach (hears 1 (7 ∷ []) refl (omega arith)))
      (queues 1 (7 ∷ []) 2 [] queued_session refl (omega arith) refl refl)

Reach-IsRelaying_example : IsRelaying relayed_one × ((q : ℕ) → from q (relayed_one.offered q) ≡ [])
Reach-IsRelaying_example = Reach-IsRelaying relayed_one-Reach

-- `SendLoop` of session 2 takes the message.
abbrev taken_one : System
taken_one = set_session relayed_one 2 (record (relayed_one.sessions 2) {
  session = record queued_session { tx_queue = []; tx_bytes_queued = 0 };
  taken = (7 ∷ []) ∷ [];
})

taken_one-Reach : Reach (λ p. p) taken_one
unfolding dequeue take_front
taken_one-Reach =
    later relayed_one-Reach (
      sends 2 (7 ∷ []) (record queued_session { tx_queue = []; tx_bytes_queued = 0 }) (λ e. cc)
        refl)

Reach-SentInOrder_example :
    (early late : List Offer) × (taken_one.offered 2 ≡ early ++ late)
    × (queued_of early ≡ (7 ∷ []) ∷ [])
    × ((p : ℕ) → (more : List (List ℕ)) × (said_to p 2 taken_one.said ≡ from p early ++ more))
Reach-SentInOrder_example = Reach-SentInOrder taken_one-Reach 2
