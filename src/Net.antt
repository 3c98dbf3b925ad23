-- ===== src/Net.antt =====
-- The operating system's sockets, which the programs call and the repository does not contain.
-- `World` is the state of the network as the process sees it; an operation returns its result and
-- the world after the call. A failed call comes with the error that `errno`, or `WSAGetLastError`,
-- shows right after it.
use tcp_simple_chat.Base.{ℕ, ◌≤◌, ◌<◌, ◌≡◌, ◌≢◌, List, [], ◌++◌, length, take, Bool, true, false}

-- EAGAIN, EWOULDBLOCK and WSAEWOULDBLOCK; EINTR and WSAEINTR; every other error.
pub data Errno : Type 0 where
  would_block interrupted fault : Errno

-- What `recv` returns: the bytes put into the buffer, none when the peer closed the connection.
pub data RecvResult : Type 0 where
  got : List ℕ → RecvResult
  recv_failed : Errno → RecvResult

-- What `send` returns: the number of bytes that were taken.
pub data SendResult : Type 0 where
  sent : ℕ → SendResult
  send_failed : Errno → SendResult

pub record Net : Type 1 where
  pub World : Type 0
  -- socket, size of the buffer
  pub recv : World → ℕ → ℕ → RecvResult × World
  -- socket, bytes
  pub send : World → ℕ → List ℕ → SendResult × World

abbrev pub is_retryable : Errno → Bool
is_retryable would_block = true
is_retryable interrupted = true
is_retryable fault = false

-- What the stream of a TCP connection guarantees for `recv` on one socket: `unread` are the bytes
-- that the peer has sent and will send before it closes, and `retries` bounds how often a call is
-- still interrupted or finds nothing yet.
pub record ReceivesInOrder (net : Net) (s : ℕ) (unread : net.World → List ℕ)
    (retries : net.World → ℕ) : Type 0 where
  pub in_order :
      (w w' : net.World) (len : ℕ) (bs : List ℕ)
      → net.recv w s len ≡ (got bs, w')
      → (unread w ≡ bs ++ unread w') × (length bs ≤ len) × (retries w' ≤ retries w)
  pub unchanged :
      (w w' : net.World) (len : ℕ) (e : Errno)
      → net.recv w s len ≡ (recv_failed e, w')
      → (unread w ≡ unread w') × (retries w' ≤ retries w)
  pub retries_fall :
      (w w' : net.World) (len : ℕ) (e : Errno)
      → net.recv w s len ≡ (recv_failed e, w')
      → is_retryable e ≡ true
      → retries w' < retries w

-- The connection stays up: while bytes are unread, no call fails for good or reports a close.
pub record StaysUp (net : Net) (s : ℕ) (unread : net.World → List ℕ) : Type 0 where
  pub no_fault :
      (w w' : net.World) (len : ℕ) (e : Errno)
      → net.recv w s len ≡ (recv_failed e, w')
      → unread w ≢ []
      → is_retryable e ≡ true
  pub no_close :
      (w w' : net.World) (len : ℕ) → 0 < len → net.recv w s len ≡ (got [], w') → unread w ≡ []

-- What it guarantees for `send`: the bytes that a call takes are appended to `written`.
pub record SendsInOrder (net : Net) (s : ℕ) (written : net.World → List ℕ) (retries : net.World → ℕ)
    : Type 0 where
  pub appended :
      (w w' : net.World) (bs : List ℕ) (n : ℕ)
      → net.send w s bs ≡ (sent n, w')
      → (written w' ≡ written w ++ take n bs) × (n ≤ length bs) × (retries w' ≤ retries w)
  pub unchanged :
      (w w' : net.World) (bs : List ℕ) (e : Errno)
      → net.send w s bs ≡ (send_failed e, w')
      → (written w' ≡ written w) × (retries w' ≤ retries w)
  pub retries_fall :
      (w w' : net.World) (bs : List ℕ) (e : Errno)
      → net.send w s bs ≡ (send_failed e, w')
      → is_retryable e ≡ true
      → retries w' < retries w
