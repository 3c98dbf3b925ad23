-- ===== src/Epoll.antt =====
-- NetworkBasics/epoll/Server (the same files as Design/event_loop/Server): one thread, edge-triggered
-- epoll, a send queue for each session. `m_clients` is an association list in the map's order of
-- iteration. Calls that only tell the system something are recorded in `calls`; the results of those
-- that answer are arguments, or come from `Net` for `recv` and `send`.
pub mod Flush
pub mod Clients
pub mod Reading
pub mod Queues
pub mod Queued
pub mod Closing
pub mod Events
pub mod Rearm
pub mod Invariant
pub mod Runs
pub mod Handlers
pub mod Halt
use tcp_simple_chat.Base.{
  ℕ, zero, suc, ◌+◌, ◌<◌, List, [], ◌∷◌, ◌++◌, map, Bool, true, false, not, ◌&&◌, ◌||◌, Option,
  none, some, length, drop, ltb, ◌==◌, if◌then◌else◌, contains,
}
use tcp_simple_chat.Net.{
  Net, RecvResult, got, recv_failed, SendResult, sent, send_failed, Errno, would_block, interrupted,
  fault,
}

abbrev pub Message : Type 0
Message = List ℕ

pub record Session : Type 0 where
  pub socket : ℕ
  pub send_queue : List Message

-- The flags of an interest mask that the server uses.
pub record Mask : Type 0 where
  pub epollin : Bool
  pub epollout : Bool
  pub epollrdhup : Bool
  pub epollet : Bool
  pub epolloneshot : Bool

pub data Call : Type 0 where
  ctl_add : ℕ → Mask → Call
  ctl_mod : ℕ → Mask → Call
  ctl_del : ℕ → Call
  shuts_down : ℕ → Call
  closes : ℕ → Call

-- The flags of a reported event; `failed` is EPOLLERR, EPOLLHUP or EPOLLRDHUP.
pub record Event : Type 0 where
  pub failed : Bool
  pub readable : Bool
  pub writable : Bool

pub record Server : Type 0 where
  pub running : Bool
  pub epoll : Option ℕ
  pub listen_sockets : List ℕ
  pub clients : List (ℕ × Session)
  pub calls : List Call

abbrev pub find : ℕ → List (ℕ × Session) → Option Session
find k [] = none
find k ((j, s) ∷ m) = if j == k then some s else find k m

abbrev pub keys : List (ℕ × Session) → List ℕ
keys [] = []
keys ((j, s) ∷ m) = j ∷ keys m

abbrev pub adjust : ℕ → (Session → Session) → List (ℕ × Session) → List (ℕ × Session)
adjust k f [] = []
adjust k f ((j, s) ∷ m) = if j == k then (j, f s) ∷ m else (j, s) ∷ adjust k f m

abbrev pub erase : ℕ → List (ℕ × Session) → List (ℕ × Session)
erase k [] = []
erase k ((j, s) ∷ m) = if j == k then m else (j, s) ∷ erase k m

abbrev pub tell : Server → Call → Server
tell server c = record server { calls = server.calls ++ (c ∷ []) }

unfoldable pub is_want_send : Session → Bool
is_want_send s = elim s.send_queue [ [] ↦ false | m ∷ ms ↦ true ]

-- `ClientSession::PostSend`
unfoldable pub post_send : Message → Session → Session
post_send [] s = s
post_send (b ∷ bs) s = record s { send_queue = s.send_queue ++ ((b ∷ bs) ∷ []) }

unfoldable pub client_mask : Bool → Mask
client_mask wants = record {
  epollin = true;
  epollout = wants;
  epollrdhup = true;
  epollet = true;
  epolloneshot = true;
}

unfoldable pub mod_client_writable : Server → ℕ → Server
unfolding client_mask is_want_send
mod_client_writable server fd = elim (find fd server.clients) [
  | none ↦ server
  | some s ↦ tell server (ctl_mod fd (client_mask (is_want_send s)))
]

unfoldable pub add_client_to_epoll : Server → ℕ → Server
unfolding client_mask is_want_send
add_client_to_epoll server fd = elim (find fd server.clients) [
  | none ↦ server
  | some s ↦ tell server (ctl_add fd (client_mask (is_want_send s)))
]

-- The body of the loop of `BroadcastMsg` for the session of `fd`.
unfoldable pub post_to : Message → Server → ℕ → Server
unfolding post_send mod_client_writable
post_to msg server fd =
    mod_client_writable (record server { clients = adjust fd (post_send msg) server.clients }) fd

unfoldable pub post_all : Message → ℕ → List ℕ → Server → Server
post_all msg sender [] server = server
post_all msg sender (fd ∷ fds) server =
    post_all msg sender fds (if fd == sender then server else post_to msg server fd)

unfoldable pub broadcast_msg : Server → Message → ℕ → Server
unfolding post_all post_to
broadcast_msg server msg sender = post_all msg sender (keys server.clients) server

module _ (net : Net) where
  open net use {World, recv, send}

  unfoldable pub after_write :
      (World → Bool × List Message × World)
      → Message
      → List Message
      → SendResult
      → World
      → Bool × List Message × World
  after_write again msg rest (sent zero) w = (false, msg ∷ rest, w)
  after_write again msg rest (sent (suc n)) w = elim (ltb (suc n) (length msg)) [
    | true ↦ (true, drop (suc n) msg ∷ rest, w)
    | false ↦ again w
  ]
  after_write again msg rest (send_failed would_block) w = (true, msg ∷ rest, w)
  after_write again msg rest (send_failed other) w = (false, msg ∷ rest, w)

  -- `ClientSession::Write`, on the socket and the queue of the session.
  unfoldable pub write : ℕ → World → List Message → Bool × List Message × World
  unfolding after_write
  write fd w [] = (true, [], w)
  write fd w (msg ∷ rest) =
      let (r, w') = send w fd msg in after_write (λ v. write fd v rest) msg rest r w'

  abbrev pub recv_buf : ℕ
  recv_buf = 4096

  unfoldable pub after_recv :
      (Server → World → Option (Bool × Server × World))
      → Server
      → ℕ
      → RecvResult
      → World
      → Option (Bool × Server × World)
  after_recv again server fd (got []) w = some (false, server, w)
  after_recv again server fd (got (b ∷ bs)) w = again (broadcast_msg server (b ∷ bs) fd) w
  after_recv again server fd (recv_failed would_block) w = some (true, server, w)
  after_recv again server fd (recv_failed other) w = some (false, server, w)

  -- `ClientSession::Read`
  unfoldable pub read : ℕ → Server → ℕ → World → Option (Bool × Server × World)
  unfolding after_recv
  read zero server fd w = none
  read (suc fuel) server fd w =
      let (r, w') = recv w fd recv_buf in after_recv (λ s v. read fuel s fd v) server fd r w'

  unfoldable pub after_drain : (World → Option World) → RecvResult → World → Option World
  after_drain again (got []) w = some w
  after_drain again (got (b ∷ bs)) w = again w
  after_drain again (recv_failed e) w = some w

  -- The loop of `GracefulShutdown`.
  unfoldable pub drain : ℕ → ℕ → World → Option World
  unfolding after_drain
  drain zero fd w = none
  drain (suc fuel) fd w = let (r, w') = recv w fd recv_buf in after_drain (drain fuel fd) r w'

  -- `ClientSession::Stop`
  unfoldable pub stop_session : ℕ → Server → Session → World → Option (Server × World)
  stop_session fuel server s w = elim (drain fuel s.socket w) [
    | none ↦ none
    | some w' ↦ some (tell (tell server (shuts_down s.socket)) (closes s.socket), w')
  ]

  -- The end of `CloseClient`, from `epoll_ctl` on.
  unfoldable pub forget : Server → ℕ → Server
  forget server fd =
      let server' : Server = elim server.epoll [
        | none ↦ server
        | some e ↦ tell server (ctl_del fd)
      ] in
      tell server' (closes fd)

  unfoldable pub close_client : ℕ → Server → ℕ → World → Option (Server × World)
  unfolding stop_session forget
  close_client fuel server fd w = elim (find fd server.clients) [
    | none ↦ some (forget server fd, w)
    | some s ↦ elim (stop_session fuel server s w) [
      | none ↦ none
      | some (server', w') ↦
          some (forget (record server' { clients = erase fd server'.clients }) fd, w')
    ]
  ]
