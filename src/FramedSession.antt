-- ===== src/FramedSession.antt =====
-- Protocols/Framing/Server/ClientSession.cpp: a session with a transmit queue that pushes back.
-- A function models what a thread does while it holds `m_txMutex`; where the thread waits on a
-- condition variable it returns `waits`. `Queue` interleaves these sections.
pub mod Queue
pub mod Backpressure
pub mod Loops
pub mod EndToEnd
use tcp_simple_chat.Base.{
  is_empty, ℕ, zero, suc, ◌+◌, ◌-◌, ◌*◌, ◌%◌, ◌^◌, List, [], ◌∷◌, ◌++◌, Bool, true, false, not,
  ◌&&◌, ◌||◌, Option, none, some, length, ltb, leb, if◌then◌else◌,
}
use tcp_simple_chat.Net.{Net}
use tcp_simple_chat.Framing.{Host, send_frame, recv_frame}

abbrev pub Message : Type 0
Message = List ℕ

abbrev pub tx_hwm_bytes : ℕ
tx_hwm_bytes = 256 * 1024

-- `m_socket` is `none` for INVALID_SOCKET; a thread is there while it is joinable.
pub record Session : Type 0 where
  pub socket : Option ℕ
  pub tx_queue : List Message
  pub tx_bytes_queued : ℕ
  pub active : Bool
  pub rx_thread : Bool
  pub tx_thread : Bool

unfoldable pub make : ℕ → Session
make socket = record {
  socket = some socket;
  tx_queue = [];
  tx_bytes_queued = 0;
  active = false;
  rx_thread = false;
  tx_thread = false;
}

unfoldable pub start : Session → Session
start s = record s { active = true; rx_thread = true; tx_thread = true }

-- A section that returns, or that waits for a notification.
pub data Progress : Type 0 where
  waits : Progress
  returns : Session → Progress

-- The predicate of `m_txNotFull.wait` in `SendMsg`; a `size_t` sum wraps.
unfoldable pub has_room : Session → ℕ → Bool
has_room s size = not s.active || leb ((s.tx_bytes_queued + size) % 2 ^ 64) tx_hwm_bytes

-- `SendMsg` from the lock on.
unfoldable pub enqueue : Session → Message → Progress
unfolding has_room
enqueue s msg =
    if not (has_room s (length msg))
    then waits
    else if not s.active
    then returns s
    else returns (record s {
      tx_queue = s.tx_queue ++ (msg ∷ []);
      tx_bytes_queued = (s.tx_bytes_queued + length msg) % 2 ^ 64;
    })

-- `SendMsg` when no other thread comes between its first test and the lock.
unfoldable pub send_msg : Session → Message → Progress
unfolding enqueue
send_msg s msg = if not s.active then returns s else enqueue s msg

-- The locked section of a round of `SendLoop`.
pub data Dequeued : Type 0 where
  idles : Dequeued
  exits : Dequeued
  takes : Message → Session → Dequeued

unfoldable pub take_front : Session → List Message → Dequeued
take_front s [] = if s.active then idles else exits
take_front s (msg ∷ rest) = takes msg (record s {
  tx_queue = rest;
  tx_bytes_queued =
      if leb (length msg) s.tx_bytes_queued then s.tx_bytes_queued - length msg else 0;
})

unfoldable pub dequeue : Session → Dequeued
unfolding take_front
dequeue s = take_front s s.tx_queue

-- `m_active.store(false)`, after a failed `send_frame`, at the end of `RecvLoop`, and first in `Stop`.
unfoldable pub deactivate : Session → Session
deactivate s = record s { active = false }

-- The rest of `Stop`, once both threads have ended: the socket is closed and the queue is dropped.
unfoldable pub close : Session → Session
close s = record s {
  socket = none;
  rx_thread = false;
  tx_thread = false;
  tx_queue = [];
  tx_bytes_queued = 0;
}

unfoldable pub stop : Session → Session
unfolding deactivate close
stop s = close (deactivate s)

module _ (net : Net) (host : Host) (socket : ℕ) where
  open net use {World}

  -- How `SendLoop` stops: blocked on an empty queue, left, or after a send that failed.
  pub data Sending : Type 0 where
    blocked : Session → World → Sending
    left : Session → World → Sending
    failed : Session → World → Sending

  unfoldable pub after_frame :
      (World → Session → Option Sending) → Session → Option (Bool × World) → Option Sending
  after_frame again s none = none
  after_frame again s (some (false, w)) = some (failed (deactivate s) w)
  after_frame again s (some (true, w)) = again w s

  unfoldable pub after_dequeue :
      ℕ → (World → Session → Option Sending) → World → Session → Dequeued → Option Sending
  after_dequeue bound again w s idles = some (blocked s w)
  after_dequeue bound again w s exits = some (left s w)
  after_dequeue bound again w s (takes msg s') =
      after_frame again s' (send_frame net socket host bound w msg)

  -- `SendLoop` while no other thread changes the session: at most `fuel` rounds, and `bound` calls
  -- of `send` for a block of bytes.
  unfoldable pub send_loop : ℕ → ℕ → World → Session → Option Sending
  unfolding after_dequeue after_frame deactivate
  send_loop zero bound w s = none
  send_loop (suc fuel) bound w s = after_dequeue bound (send_loop fuel bound) w s (dequeue s)

  module _ (S : Type 0) (is_active : S → Bool) (broadcast : S → Message → S) where
    unfoldable pub after_message :
        (World → S → Option (S × World)) → S → Option (Bool × Message × World) → Option (S × World)
    after_message again st none = none
    after_message again st (some (false, msg, w)) = some (st, w)
    after_message again st (some (true, msg, w)) = again w (broadcast st msg)

    -- The loop of `RecvLoop`: `S` is the server with its sessions, `broadcast` is
    -- `BroadcastMsg(msg, this)` and `is_active` reads `m_active`.
    unfoldable pub recv_loop : ℕ → ℕ → World → S → Option (S × World)
    unfolding after_message
    recv_loop zero bound w st = none
    recv_loop (suc fuel) bound w st = elim (is_active st) [
      | false ↦ some (st, w)
      | true ↦ after_message (recv_loop fuel bound) st (recv_frame net socket host bound w)
    ]
