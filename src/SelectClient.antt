-- ===== src/SelectClient.antt =====
-- NetworkBasics/select/Client/ChatClient.cpp: one thread with `select`, and `EnqueueSend` called for
-- lines of input. `send_q` has the lines with the offset of the first byte that is not sent yet, and
-- `printed` the bytes written to the console. A line has fewer than 2 ^ 31 bytes, so the cast of
-- `remaining` to int keeps it. Results of the system's calls but `recv` and `send` are arguments.
pub mod Stream
pub mod Spin
use tcp_simple_chat.Base.{
  is_empty, ℕ, zero, suc, ◌+◌, List, [], ◌∷◌, ◌++◌, Bool, true, false, not, ◌&&◌, Option, none,
  some, length, drop, ◌==◌, if◌then◌else◌,
}
use tcp_simple_chat.Net.{
  Net, RecvResult, got, recv_failed, SendResult, sent, send_failed, Errno, is_retryable,
}

pub record Pending : Type 0 where
  pub line : List ℕ
  pub ofs : ℕ

pub record Client : Type 0 where
  pub is_active : Bool
  pub socket : Option ℕ
  pub send_q : List Pending
  pub printed : List ℕ
  -- sockets that were closed
  pub closed : List ℕ

-- '\n'
abbrev pub newline : ℕ
newline = 10

abbrev pub last_is_newline : List ℕ → Bool
last_is_newline [] = false
last_is_newline (b ∷ []) = b == newline
last_is_newline (b ∷ c ∷ bs) = last_is_newline (c ∷ bs)

abbrev pub terminated : List ℕ → List ℕ
terminated line = if last_is_newline line then line else line ++ (newline ∷ [])

unfoldable pub enqueue_send : Client → List ℕ → Client
enqueue_send c line = record c {
  send_q = c.send_q ++ (record { line = terminated line; ofs = 0 } ∷ []);
}

-- What `ReceiveMsg` and `SendMsg` return: 0, 1 and -1.
pub data Code : Type 0 where
  closed_by_peer fine error : Code

abbrev pub is_error : Code → Bool
is_error error = true
is_error _ = false

abbrev pub recv_buf : ℕ
recv_buf = 4096

abbrev pub max_reads_per_tick : ℕ
max_reads_per_tick = 20

-- The bits of `m_socket` in the sets that `BuildFdSets` makes.
unfoldable pub build_fd_sets : Client → Bool × Bool
build_fd_sets c = elim c.socket [ none ↦ (false, false) | some s ↦ (true, not (is_empty c.send_q)) ]

-- The addresses of `getaddrinfo`: what `socket` gives, and whether `connect` succeeds.
pub record Address : Type 0 where
  pub socket : Option ℕ
  pub connects : Bool

unfoldable pub connect_to_server : Option ℕ → Bool → Bool
connect_to_server none connects = false
connect_to_server (some s) connects = connects

unfoldable pub create_connection : Option (List Address) → Client → Bool × Client
unfolding connect_to_server
create_connection none c = (false, c)
create_connection (some []) c = (false, c)
create_connection (some (a ∷ addresses)) c = elim a.socket [
  | none ↦ create_connection (some addresses) c
  | some s ↦ elim (connect_to_server (some s) a.connects) [
    | true ↦ (true, record c { socket = some s })
    | false ↦ create_connection (some addresses) (record c { closed = c.closed ++ (s ∷ []) })
  ]
]

unfoldable pub stop : Client → Client
stop c =
    record (elim c.socket [
      | none ↦ c
      | some s ↦ record c { closed = c.closed ++ (s ∷ []); socket = none }
    ]) { is_active = false }

module _ (net : Net) where
  open net use {World, recv, send}

  unfoldable pub after_recv :
      (Client → World → Code × Client × World) → Client → RecvResult → World → Code × Client × World
  after_recv again c (got []) w = (closed_by_peer, c, w)
  after_recv again c (got (b ∷ bs)) w = again (record c { printed = c.printed ++ (b ∷ bs) }) w
  after_recv again c (recv_failed e) w = elim (is_retryable e) [
    | true ↦ (fine, c, w)
    | false ↦ (error, c, w)
  ]

  -- The loop of `ReceiveMsg`, with the number of reads that are left.
  unfoldable pub receive_loop : ℕ → ℕ → Client → World → Code × Client × World
  unfolding after_recv
  receive_loop zero s c w = (fine, c, w)
  receive_loop (suc reads) s c w =
      let (r, w') = recv w s recv_buf in after_recv (receive_loop reads s) c r w'

  unfoldable pub receive_msg : ℕ → Client → World → Code × Client × World
  unfolding receive_loop
  receive_msg s c w = receive_loop max_reads_per_tick s c w

  -- `SendMsg` after its call of `send` for the front of the queue.
  unfoldable pub after_send :
      Client → Pending → List Pending → SendResult → World → Code × Client × World
  after_send c front rest (sent zero) w = (fine, c, w)
  after_send c front rest (sent (suc n)) w =
      let ofs' = front.ofs + suc n in
      elim (ofs' == length front.line) [
        | true ↦ (fine, record c { send_q = rest }, w)
        | false ↦ (fine, record c { send_q = record front { ofs = ofs' } ∷ rest }, w)
      ]
  after_send c front rest (send_failed e) w = elim (is_retryable e) [
    | true ↦ (fine, c, w)
    | false ↦ (error, c, w)
  ]

  -- `SendMsg` on the queue of a client whose socket is valid.
  unfoldable pub send_front : ℕ → Client → List Pending → World → Code × Client × World
  unfolding after_send
  send_front s c [] w = (fine, c, w)
  send_front s c (front ∷ rest) w =
      let (r, w') = send w s (drop front.ofs front.line) in after_send c front rest r w'

  unfoldable pub send_msg : Client → World → Code × Client × World
  unfolding send_front
  send_msg c w = elim c.socket [ none ↦ (error, c, w) | some s ↦ send_front s c c.send_q w ]

  -- `HandleReadyReceivers` and `HandleReadyWriters`; the flag says whether the socket is in the set.
  unfoldable pub handle_ready_receivers : Bool → ℕ → Client → World → Bool × Client × World
  unfolding receive_msg
  handle_ready_receivers false s c w = (true, c, w)
  handle_ready_receivers true s c w =
      let (code, c', w') = receive_msg s c w in (not (is_error code), c', w')

  unfoldable pub handle_ready_writers : Bool → Client → World → Bool × Client × World
  unfolding send_msg
  handle_ready_writers false c w = (true, c, w)
  handle_ready_writers true c w = let (code, c', w') = send_msg c w in (not (is_error code), c', w')

  -- What `select` gives: whether the socket is readable and writable, no socket, or an error.
  pub data Wait : Type 0 where
    ready : Bool → Bool → Wait
    timed_out : Wait
    wait_failed : Errno → Wait

  -- The loop was left, or it goes on after the given rounds.
  pub data Ran : Type 0 where
    left : Client → World → Ran
    goes_on : Client → World → Ran

  -- A round of `RunEventLoop` in which `select` reported the socket `s`; true to go on.
  unfoldable pub round : Bool → Bool → ℕ → Client → World → Bool × Client × World
  unfolding handle_ready_receivers handle_ready_writers
  round readable writable s c w =
      let (ok, c', w') = handle_ready_receivers readable s c w in
      elim ok [ false ↦ (false, c', w') | true ↦ handle_ready_writers writable c' w' ]

  unfoldable pub run_event_loop : ℕ → List Wait → Client → World → Ran
  unfolding round
  run_event_loop s [] c w = goes_on c w
  run_event_loop s (wait ∷ waits) c w = elim c.is_active [
    | false ↦ left c w
    | true ↦ elim wait [
      | timed_out ↦ run_event_loop s waits c w
      | wait_failed e ↦ elim (is_retryable e) [
        | true ↦ run_event_loop s waits c w
        | false ↦ left c w
      ]
      | ready readable writable ↦
          let (ok, c', w') = round readable writable s c w in
          elim ok [ false ↦ left c' w' | true ↦ run_event_loop s waits c' w' ]
    ]
  ]
