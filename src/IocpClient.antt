-- ===== src/IocpClient.antt =====
-- NetworkBasics/iocp/Client/ChatClient.cpp: a thread that calls `Send`, the worker thread that starts
-- sends, and the thread that takes completions. Each step is a section under `m_sendMx`, or what a
-- completion does. Whether WSASend takes a buffer is an argument. `outstanding` is the buffer that
-- WSASend took and that is not completed; `sent` are the bytes that completed, `queued` the messages
-- that were queued, and `lost` says that queued bytes were given up.
pub mod Sends
pub mod Completions
pub mod Connection
pub mod Released
pub mod Tallies
pub mod Printed
pub mod Served
use tcp_simple_chat.Base.{
  ℕ, ◌+◌, ◌≤◌, ◌<◌, ◌≡◌, ◌≢◌, List, [], ◌∷◌, ◌++◌, Bool, true, false, Option, none, some, length,
  drop, take, ltb,
}
use tcp_simple_chat.SelectClient.{Pending}

abbrev pub Message : Type 0
Message = List ℕ

-- Where a thread is: not in, or before, `KickSend`.
pub data Thread : Type 0 where
  waiting kicking : Thread

pub record Client : Type 0 where
  pub send_queue : List Pending
  pub send_in_flight : Bool
  -- whether `m_socket` is valid
  pub open_socket : Bool
  pub worker : Thread
  pub completer : Thread
  pub outstanding : Option Message
  pub sent : List ℕ
  pub queued : List Message
  pub lost : Bool

-- `Send` of a message that is not empty.
abbrev pub send_msg : Client → Message → Client
send_msg c m = record c {
  send_queue = c.send_queue ++ (record { line = m; ofs = 0 } ∷ []);
  queued = c.queued ++ (m ∷ []);
}

-- The locked section of `SendWorker`, where a message is queued and no send is in flight.
abbrev pub wake : Client → Client
wake c = record c { send_in_flight = true; worker = kicking }

unfoldable pub kick_front : Bool → Bool → Client → Pending → List Pending → Client
kick_front false posts c front rest = record c {
  send_in_flight = false;
  send_queue = [];
  lost = true;
}
kick_front true true c front rest = record c { outstanding = some (drop front.ofs front.line) }
kick_front true false c front rest = record c {
  send_in_flight = false;
  send_queue = rest;
  lost = true;
}

-- `KickSend`, on the queue.
unfoldable pub kick_send : Bool → Client → List Pending → Client
unfolding kick_front
kick_send posts c [] = record c { send_in_flight = false }
kick_send posts c (front ∷ rest) = kick_front c.open_socket posts c front rest

abbrev pub worker_kick : Bool → Client → Client
worker_kick posts c = record (kick_send posts c c.send_queue) { worker = waiting }

abbrev pub completer_kick : Bool → Client → Client
completer_kick posts c = record (kick_send posts c c.send_queue) { completer = waiting }

-- `OnSendComplete` where the front of the queue is sent in full.
unfoldable pub pop_front : Client → List Pending → Client
pop_front c [] = record c { send_queue = []; send_in_flight = false }
pop_front c (p ∷ rest) = record c { send_queue = p ∷ rest; completer = kicking }

-- `OnSendComplete` of `n` bytes, on the queue.
unfoldable pub complete : ℕ → Client → List Pending → Client
unfolding pop_front
complete n c [] = record c { send_in_flight = false }
complete n c (front ∷ rest) = elim (ltb (front.ofs + n) (length front.line)) [
  | true ↦ record c {
    send_queue = record front { ofs = front.ofs + n } ∷ rest;
    completer = kicking;
  }
  | false ↦ pop_front c rest
]

abbrev pub on_send_complete : ℕ → Message → Client → Client
on_send_complete n buf c =
    complete n (record c { outstanding = none; sent = c.sent ++ take n buf }) c.send_queue

-- A completion that failed, or the end of the stream: the socket is closed.
abbrev pub close_socket : Client → Client
close_socket c = record c { open_socket = false }

pub data Step : Client → Client → Type 0 where
  sends : (c : Client) (m : Message) → 0 < length m → Step c (send_msg c m)
  wakes :
      (c : Client)
      → c.worker ≡ waiting
      → c.send_in_flight ≡ false
      → c.send_queue ≢ []
      → Step c (wake c)
  worker_kicks : (c : Client) (posts : Bool) → c.worker ≡ kicking → Step c (worker_kick posts c)
  completer_kicks :
      (c : Client) (posts : Bool) → c.completer ≡ kicking → Step c (completer_kick posts c)
  completes :
      (c : Client) (buf : Message) (n : ℕ)
      → c.completer ≡ waiting
      → c.outstanding ≡ some buf
      → 0 < n
      → n ≤ length buf
      → Step c (on_send_complete n buf c)
  fails :
      (c : Client) (buf : Message)
      → c.completer ≡ waiting
      → c.outstanding ≡ some buf
      → Step c (record (close_socket c) { outstanding = none })
  closes : (c : Client) → c.completer ≡ waiting → Step c (close_socket c)

pub data Reach : Client → Client → Type 0 where
  here : (c : Client) → Reach c c
  after : {c d e : Client} → Reach c d → Step d e → Reach c e
