-- ===== src/FramedClient.antt =====
-- Protocols/Framing/Client/ChatClient.h and ChatClient.cpp: the state of the client and its
-- transmit side. A function models what a thread does under `m_txMutex`; where the thread waits on a
-- condition variable it returns `waits`. `Flag` values say whether the section notifies.
pub mod TxBounds
pub mod TxOrder
pub mod TxWakeup
pub mod Input
pub mod Rx
pub mod Connect
pub mod Shutdown
use tcp_simple_chat.Base.{
  is_empty, ℕ, ◌+◌, ◌-◌, ◌*◌, ◌%◌, ◌^◌, List, [], ◌∷◌, ◌++◌, Bool, true, false, not, ◌&&◌, ◌||◌,
  Option, length, ltb, leb, if◌then◌else◌,
}

abbrev pub Message : Type 0
Message = List ℕ

pub data RxOverflowMode : Type 0 where
  drop_newest drop_oldest disconnect_on_overflow : RxOverflowMode

pub data TxOverflowMode : Type 0 where
  block_producer drop_newest drop_oldest disconnect_on_overflow : TxOverflowMode

abbrev pub tx_hwm : ℕ
tx_hwm = 1024 * 1024

abbrev pub tx_lwm : ℕ
tx_lwm = 512 * 1024

-- `m_socket` is `none` for INVALID_SOCKET.
pub record Client : Type 0 where
  pub is_active : Bool
  pub socket : Option ℕ
  pub rx_queue : List Message
  pub rx_mode : RxOverflowMode
  pub tx_bytes_queued : ℕ
  pub tx_queue : List Message
  pub tx_mode : TxOverflowMode

-- `size_t` arithmetic
abbrev pub add64 : ℕ → ℕ → ℕ
add64 a b = (a + b) % 2 ^ 64

abbrev pub sub64 : ℕ → ℕ → ℕ
sub64 a b = (a + 2 ^ 64 - b) % 2 ^ 64

abbrev pub would_overflow_msgs : ℕ → ℕ → Bool
would_overflow_msgs queued size = ltb tx_hwm (add64 queued size)

-- The predicate of `m_txNotFull.wait`.
unfoldable pub producer_ready : Client → ℕ → Bool
producer_ready c size =
    not c.is_active
    || (leb c.tx_bytes_queued tx_lwm && not (would_overflow_msgs c.tx_bytes_queued size))

-- The loop of `DropOldest`: the bytes and the queue that are left.
unfoldable pub drop_oldest_until : ℕ → ℕ → List Message → ℕ × List Message
drop_oldest_until size bytes [] = (bytes, [])
drop_oldest_until size bytes (m ∷ ms) = elim (would_overflow_msgs bytes size) [
  | true ↦ drop_oldest_until size (sub64 bytes (length m)) ms
  | false ↦ (bytes, m ∷ ms)
]

-- What `TxEnqueueMessage` returns, the client after it, and whether `m_txNotEmpty` was notified.
pub data Enqueued : Type 0 where
  waits : Enqueued
  returns : Bool → Client → Bool → Enqueued

-- The end of `TxEnqueueMessage`: the message is queued.
unfoldable pub push : Client → ℕ → List Message → Message → Enqueued
push c bytes queue msg =
    returns true
      (record c { tx_queue = queue ++ (msg ∷ []); tx_bytes_queued = add64 bytes (length msg) })
      (is_empty queue)

-- The `switch` on a message that does not fit.
unfoldable pub overflowing : TxOverflowMode → Client → Message → Enqueued
unfolding push drop_oldest_until
overflowing block_producer c msg = push c c.tx_bytes_queued c.tx_queue msg
overflowing drop_newest c msg = returns false c false
overflowing drop_oldest c msg =
    let (bytes, queue) = drop_oldest_until (length msg) c.tx_bytes_queued c.tx_queue in
    push c bytes queue msg
overflowing disconnect_on_overflow c msg = returns false (record c { is_active = false }) true

unfoldable pub is_block_producer : TxOverflowMode → Bool
is_block_producer block_producer = true
is_block_producer _ = false

unfoldable pub tx_enqueue : Client → Message → Enqueued
unfolding producer_ready overflowing push is_block_producer
tx_enqueue c msg =
    if is_block_producer c.tx_mode
    then if not (producer_ready c (length msg))
      then waits
      else if not c.is_active
      then returns false c false
      else push c c.tx_bytes_queued c.tx_queue msg
    else if would_overflow_msgs c.tx_bytes_queued (length msg)
    then overflowing c.tx_mode c msg
    else push c c.tx_bytes_queued c.tx_queue msg

-- The locked section of a round of `SendMessages`; the flag says that `m_txNotFull` was notified.
pub data Dequeued : Type 0 where
  idles : Dequeued
  exits : Dequeued
  takes : Message → Client → Bool → Dequeued

unfoldable pub take_front : Client → List Message → Dequeued
take_front c [] = if c.is_active then idles else exits
take_front c (msg ∷ rest) =
    takes msg (record c { tx_bytes_queued = sub64 c.tx_bytes_queued (length msg); tx_queue = rest })
      (leb (sub64 c.tx_bytes_queued (length msg)) tx_lwm)

unfoldable pub tx_dequeue : Client → Dequeued
unfolding take_front
tx_dequeue c = take_front c c.tx_queue

-- `SendMessages` after a `send_frame` that failed.
unfoldable pub send_failed : Client → Client
send_failed c = record c { is_active = false }
