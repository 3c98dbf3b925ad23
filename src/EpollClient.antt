-- ===== src/EpollClient.antt =====
-- NetworkBasics/epoll/Client/ChatClient.cpp: the event loop on one thread, `Send` on another. The
-- mutex `m_sendMutex` is not recursive: a thread that holds it and locks it again waits for ever.
-- `locked` says whether the thread that runs holds it; `printed` are the bytes written to the
-- console. Results of the system's calls but `recv` and `send` are arguments.
pub mod Events
pub mod Deadlock
pub mod Connect
use tcp_simple_chat.Base.{
  is_empty, ℕ, zero, suc, List, [], ◌∷◌, ◌++◌, Bool, true, false, not, ◌&&◌, Option, none, some,
  length, drop, ltb,
}
use tcp_simple_chat.Net.{
  Net, RecvResult, got, recv_failed, SendResult, sent, send_failed, Errno, would_block, interrupted,
}

abbrev pub Message : Type 0
Message = List ℕ

-- The calls that change or end the registration of the socket; a flag is EPOLLOUT in the mask.
pub data Call : Type 0 where
  ctl_add : ℕ → Call
  ctl_mod : ℕ → Bool → Call
  shuts_down : ℕ → Call
  closes : ℕ → Call

-- A reported event; `failed` is EPOLLERR, EPOLLHUP or EPOLLRDHUP.
pub record Event : Type 0 where
  pub failed : Bool
  pub readable : Bool
  pub writable : Bool

pub record Client : Type 0 where
  pub running : Bool
  pub socket : Option ℕ
  pub epoll : Option ℕ
  pub send_queue : List Message
  pub locked : Bool
  pub printed : List ℕ
  pub calls : List Call

abbrev pub tell : Client → Call → Client
tell c call = record c { calls = c.calls ++ (call ∷ []) }

-- `std::lock_guard` on `m_sendMutex`; `none` when the thread waits for itself.
unfoldable pub lock : Client → Option Client
lock c = elim c.locked [ true ↦ none | false ↦ some (record c { locked = true }) ]

abbrev pub unlock : Client → Client
unlock c = record c { locked = false }

-- The part of `ModWritable` after its guard.
unfoldable pub mod_socket : Bool → ℕ → Client → Option Client
unfolding lock
mod_socket enable fd c = elim (lock c) [
  | none ↦ none
  | some c' ↦ some (tell (unlock c') (ctl_mod fd (enable && not (is_empty c'.send_queue))))
]

unfoldable pub mod_writable : Bool → Client → Option Client
unfolding mod_socket
mod_writable enable c = elim c.epoll [
  | none ↦ some c
  | some e ↦ elim c.socket [ none ↦ some c | some fd ↦ mod_socket enable fd c ]
]

-- `Send`
unfoldable pub send_msg : Client → Message → Option Client
unfolding lock mod_writable
send_msg c [] = some c
send_msg c (b ∷ bs) = elim (lock c) [
  | none ↦ none
  | some c' ↦
      mod_writable true (unlock (record c' { send_queue = c'.send_queue ++ ((b ∷ bs) ∷ []) }))
]

-- How the loop of `Write` is left: by a return, or where it calls `ModWritable(true)`.
pub data Leaves : Type 0 where
  returns : Bool → Leaves
  partly : Leaves

-- What a handler does: it returns, its thread waits for the mutex that it holds, or the fuel for
-- `recv` is used up.
pub data Handled (W : Type 0) : Type 0 where
  handled : Bool → Client → W → Handled W
  deadlocked : Client → W → Handled W
  no_fuel : Handled W

-- The addresses of `getaddrinfo`: what `socket` gives, and whether `connect` succeeds.
pub record Address : Type 0 where
  pub socket : Option ℕ
  pub connects : Bool

-- The loop of `CreateConnection`.
unfoldable pub try_connect : List Address → Client → Client
try_connect [] c = c
try_connect (a ∷ addresses) c = elim a.socket [
  | none ↦ try_connect addresses c
  | some s ↦ elim a.connects [
    | true ↦ record c { socket = some s }
    | false ↦ try_connect addresses (tell c (closes s))
  ]
]

abbrev pub is_some : Option ℕ → Bool
is_some none = false
is_some (some s) = true

unfoldable pub create_connection : Option (List Address) → Client → Bool × Client
unfolding try_connect
create_connection none c = (false, c)
create_connection (some addresses) c = let c' = try_connect addresses c in (is_some c'.socket, c')

unfoldable pub close_epoll : Client → Client
close_epoll c = elim c.epoll [ none ↦ c | some e ↦ record (tell c (closes e)) { epoll = none } ]

unfoldable pub stop : Client → Client
unfolding close_epoll
stop c =
    let c' : Client = record c { running = false } in
    elim c.socket [
      | none ↦ close_epoll c'
      | some s ↦ close_epoll (record (tell (tell c' (shuts_down s)) (closes s)) { socket = none })
    ]
