-- ===== src/PollClient.antt =====
-- NetworkBasics/poll/Client/ChatClient.cpp: one thread polls the socket, another calls `Send`. `Write`
-- is that of NetworkBasics/epoll/Server/ClientSession.cpp but for the mutex, so its loop is that of
-- Epoll. What the other thread sends while the loop runs is an argument of each turn, before and
-- after `SetPollEvents`. Results of the system's calls but `recv` and `send` are arguments.
pub mod Loop
pub mod Start
use tcp_simple_chat.Base.{
  is_empty, ℕ, zero, suc, List, [], ◌∷◌, ◌++◌, Bool, true, false, not, ◌&&◌, Option, none, some,
}
use tcp_simple_chat.Net.{Net, RecvResult, got, recv_failed, Errno, would_block, interrupted}
use tcp_simple_chat.Epoll
use tcp_simple_chat.Epoll.{Message}

pub data Call : Type 0 where
  shuts_down : ℕ → Call
  closes : ℕ → Call

-- `pollout` is the flag in `m_poll.events`, where POLLIN is always set.
pub record Client : Type 0 where
  pub running : Bool
  pub socket : Option ℕ
  pub pollout : Bool
  pub send_queue : List Message
  pub printed : List ℕ
  pub calls : List Call

abbrev tell : Client → Call → Client
tell c call = record c { calls = c.calls ++ (call ∷ []) }

-- The flags of `revents`; `failed` is POLLERR, POLLHUP or POLLNVAL.
pub record Event : Type 0 where
  pub failed : Bool
  pub readable : Bool
  pub writable : Bool

-- The addresses of `getaddrinfo`: what `socket` gives, and whether `connect` succeeds.
pub record Address : Type 0 where
  pub socket : Option ℕ
  pub connects : Bool

-- The loop of `CreateConnection`.
unfoldable pub try_connect : List Address → Client → Client
try_connect [] c = c
try_connect (a ∷ addresses) c = elim a.socket [
  | none ↦ try_connect addresses c
  | some s ↦ elim a.connects [
    | true ↦ record c { socket = some s }
    | false ↦ try_connect addresses (tell c (closes s))
  ]
]

abbrev is_some : Option ℕ → Bool
is_some none = false
is_some (some s) = true

unfoldable pub create_connection : Option (List Address) → Client → Bool × Client
unfolding try_connect
create_connection none c = (false, c)
create_connection (some addresses) c = let c' = try_connect addresses c in (is_some c'.socket, c')

unfoldable pub stop : Client → Client
stop c =
    let c' : Client = record c { running = false } in
    elim c.socket [
      | none ↦ c'
      | some s ↦ record (tell (tell c' (shuts_down s)) (closes s)) { socket = none }
    ]

unfoldable pub send_msg : Client → Message → Client
send_msg c [] = c
send_msg c (b ∷ bs) = record c { send_queue = c.send_queue ++ ((b ∷ bs) ∷ []) }

-- What the other thread sends.
unfoldable pub send_each : List Message → Client → Client
unfolding send_msg
send_each [] c = c
send_each (m ∷ ms) c = send_each ms (send_msg c m)

unfoldable pub set_poll_events : Client → Client
set_poll_events c = record c { pollout = not (is_empty c.send_queue) }

module _ (net : Net) where
  open net use {World, recv, send}

  abbrev pub recv_buf : ℕ
  recv_buf = 4096

  unfoldable pub after_recv :
      (Client → World → Option (Bool × Client × World))
      → Client
      → RecvResult
      → World
      → Option (Bool × Client × World)
  after_recv again c (got []) w = some (false, c, w)
  after_recv again c (got (b ∷ bs)) w = again (record c { printed = c.printed ++ (b ∷ bs) }) w
  after_recv again c (recv_failed would_block) w = some (true, c, w)
  after_recv again c (recv_failed other) w = some (false, c, w)

  unfoldable pub read : ℕ → ℕ → Client → World → Option (Bool × Client × World)
  unfolding after_recv
  read zero fd c w = none
  read (suc fuel) fd c w = let (r, w') = recv w fd recv_buf in after_recv (read fuel fd) c r w'

  unfoldable pub write : ℕ → Client → World → Bool × Client × World
  write fd c w =
      let (ok, q, w') = Epoll.write net fd w c.send_queue in (ok, record c { send_queue = q }, w')

  -- `HandleConnection` after `Read`.
  unfoldable pub after_read :
      ℕ → Bool → Option (Bool × Client × World) → Option (Bool × Client × World)
  unfolding write
  after_read fd writable none = none
  after_read fd writable (some (false, c, w)) = some (false, c, w)
  after_read fd writable (some (true, c, w)) = elim writable [
    | false ↦ some (true, c, w)
    | true ↦ some (write fd c w)
  ]

  unfoldable pub handle_connection : ℕ → ℕ → Event → Client → World → Option (Bool × Client × World)
  unfolding after_read
  handle_connection fuel fd ev c w = elim ev.failed [
    | true ↦ some (false, c, w)
    | false ↦ elim ev.readable [
      | true ↦ after_read fd ev.writable (read fuel fd c w)
      | false ↦ after_read fd ev.writable (some (true, c, w))
    ]
  ]

  -- What `poll` gives.
  pub data Wait : Type 0 where
    ready : Event → Wait
    timed_out : Wait
    wait_failed : Errno → Wait

  -- A turn of the loop: what is sent before `SetPollEvents`, what `poll` gives, and what is sent in
  -- between.
  pub record Turn : Type 0 where
    pub earlier : List Message
    pub wait : Wait
    pub meanwhile : List Message

  -- A turn up to `HandleConnection`.
  abbrev pub polled : Turn → Client → Client
  polled t c = send_each t.meanwhile (set_poll_events (send_each t.earlier c))

  -- The flags that `poll` reports; POLLOUT only if it was asked for.
  abbrev pub asked : Event → Client → Event
  asked ev c = record ev { writable = ev.writable && c.pollout }

  -- `RunLoop` after `poll`; `again` is the rest of the loop. The result is whether the loop was left,
  -- and the client.
  unfoldable pub after_poll :
      (Client → World → Option (Bool × Client × World))
      → ℕ
      → ℕ
      → Wait
      → Client
      → World
      → Option (Bool × Client × World)
  unfolding handle_connection
  after_poll again fuel fd timed_out c w = again c w
  after_poll again fuel fd (wait_failed interrupted) c w = again c w
  after_poll again fuel fd (wait_failed other) c w = some (true, c, w)
  after_poll again fuel fd (ready ev) c w = elim (handle_connection fuel fd (asked ev c) c w) [
    | none ↦ none
    | some (true, c', w') ↦ again c' w'
    | some (false, c', w') ↦ some (true, c', w')
  ]

  -- `RunLoop` on the given turns; where they are used up and the client runs, the loop waits in
  -- `poll`.
  unfoldable pub run_loop : ℕ → ℕ → List Turn → Client → World → Option (Bool × Client × World)
  unfolding set_poll_events send_each after_poll
  run_loop fuel fd [] c w = some (not c.running, c, w)
  run_loop fuel fd (t ∷ turns) c w = elim c.running [
    | false ↦ some (true, c, w)
    | true ↦ after_poll (run_loop fuel fd turns) fuel fd t.wait (polled t c) w
  ]
