-- ===== src/Framing.antt =====
-- Protocols/Framing/Shared/Framing.cpp: length-prefixed frames over a TCP socket.
-- A loop takes fuel, one unit for a call of `recv` or `send`; `none` means that it ran out.
-- `htonl`, `ntohl` and the layout of a `uint32_t` in memory belong to the host, a parameter.
pub mod Receive
pub mod Transmit
pub mod RoundTrip
use tcp_simple_chat.Base.{
  ℕ, zero, suc, ◌-◌, ◌*◌, ◌/◌, ◌%◌, ◌^◌, ◌<◌, ◌≡◌, List, [], ◌∷◌, ◌++◌, Bool, true, false, Option,
  none, some, length, take, drop, replicate, ltb, ◌==◌, if◌then◌else◌,
}
use tcp_simple_chat.Net.{
  Net, RecvResult, got, recv_failed, SendResult, sent, send_failed, is_retryable,
}

pub record Host : Type 0 where
  pub htonl : ℕ → ℕ
  pub ntohl : ℕ → ℕ
  -- the four bytes of a `uint32_t` in memory, and the number that four bytes make
  pub store : ℕ → List ℕ
  pub load : List ℕ → ℕ

abbrev pub big_endian : ℕ → List ℕ
big_endian n = n / 2 ^ 24 % 256 ∷ n / 2 ^ 16 % 256 ∷ n / 2 ^ 8 % 256 ∷ n % 256 ∷ []

-- What `htonl` and `ntohl` promise: the bytes of `htonl n` in memory are those of `n` in network
-- order, and `ntohl` gives the number back.
pub record IsNetworkOrder (h : Host) : Type 0 where
  pub store-htonl : (n : ℕ) → n < 2 ^ 32 → h.store (h.htonl n) ≡ big_endian n
  pub ntohl-load : (n : ℕ) → n < 2 ^ 32 → h.ntohl (h.load (big_endian n)) ≡ n

abbrev pub max_payload : ℕ
max_payload = 1024 * 1024

-- `static_cast<int>` of a `size_t`, as the length of a loop `while (i < len)`: a negative length
-- makes no round, as 0 does.
abbrev pub int_length : ℕ → ℕ
int_length n = if ltb (n % 2 ^ 32) (2 ^ 31) then n % 2 ^ 32 else 0

module _ (net : Net) (s : ℕ) where
  open net use {World, recv, send}

  -- The body of the loop of `recv_all` after its call of `recv`; `again` is the next round.
  unfoldable pub after_recv :
      (World → List ℕ → Option (Bool × List ℕ × World))
      → List ℕ
      → RecvResult
      → World
      → Option (Bool × List ℕ × World)
  after_recv again buf (got []) w = some (false, buf, w)
  after_recv again buf (got (b ∷ bs)) w = again w (buf ++ b ∷ bs)
  after_recv again buf (recv_failed e) w =
      if is_retryable e then again w buf else some (false, buf, w)

  -- `buf` holds the bytes that are read so far, so its length is `read`.
  unfoldable pub recv_all : ℕ → World → List ℕ → ℕ → Option (Bool × List ℕ × World)
  recv_all zero w buf len = none
  recv_all (suc fuel) w buf len = elim (ltb (length buf) len) [
    | false ↦ some (true, buf, w)
    | true ↦
        let (r, w') = recv w s (len - length buf) in
        after_recv (λ v b. recv_all fuel v b len) buf r w'
  ]

  unfoldable pub after_send :
      (World → List ℕ → Option (Bool × World)) → List ℕ → SendResult → World → Option (Bool × World)
  after_send again rest (sent zero) w = some (false, w)
  after_send again rest (sent (suc n)) w = again w (drop (suc n) rest)
  after_send again rest (send_failed e) w = if is_retryable e then again w rest else some (false, w)

  -- `rest` are the bytes from `data + sent` up to `data + len`.
  unfoldable pub send_all : ℕ → World → List ℕ → Option (Bool × World)
  send_all zero w rest = none
  send_all (suc fuel) w [] = some (true, w)
  send_all (suc fuel) w (b ∷ bs) =
      let (r, w') = send w s (b ∷ bs) in after_send (send_all fuel) (b ∷ bs) r w'

  module _ (host : Host) where
    -- After the size is sent.
    unfoldable pub send_payload : ℕ → List ℕ → Option (Bool × World) → Option (Bool × World)
    send_payload fuel payload none = none
    send_payload fuel payload (some (false, w)) = some (false, w)
    send_payload fuel payload (some (true, w)) =
        send_all fuel w (take (int_length (length payload)) payload)

    unfoldable pub send_frame : ℕ → World → List ℕ → Option (Bool × World)
    send_frame fuel w [] = some (false, w)
    send_frame fuel w (b ∷ bs) =
        send_payload fuel (b ∷ bs)
          (send_all fuel w (host.store (host.htonl (length (b ∷ bs) % 2 ^ 32))))

    -- `out.resize(size)` fills with zeros what `recv_all` has not written.
    unfoldable pub resized : ℕ → Option (Bool × List ℕ × World) → Option (Bool × List ℕ × World)
    resized size none = none
    resized size (some (ok, buf, w)) = some (ok, buf ++ replicate (size - length buf) 0, w)

    unfoldable pub recv_payload : ℕ → ℕ → World → Option (Bool × List ℕ × World)
    recv_payload fuel size w =
        if ltb max_payload size
        then some (false, [], w)
        else if size == 0
        then some (true, [], w)
        else resized size (recv_all fuel w [] size)

    unfoldable pub recv_sized : ℕ → Option (Bool × List ℕ × World) → Option (Bool × List ℕ × World)
    recv_sized fuel none = none
    recv_sized fuel (some (false, header, w)) = some (false, [], w)
    recv_sized fuel (some (true, header, w)) = recv_payload fuel (host.ntohl (host.load header)) w

    unfoldable pub recv_frame : ℕ → World → Option (Bool × List ℕ × World)
    recv_frame fuel w = recv_sized fuel (recv_all fuel w [] 4)
