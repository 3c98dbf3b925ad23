-- ===== src/Iocp.antt =====
-- NetworkBasics/iocp/Server: overlapped sends and receives, completed on one thread. The results of
-- the system's calls are arguments; a call that returns an error other than WSA_IO_PENDING gives
-- `false`. `posted` has the buffers that were given to WSASend, in order, and `pending` the listeners
-- of the outstanding calls of AcceptEx.
pub mod Sends
pub mod Accepts
pub mod Runs
pub mod Lifecycle
use tcp_simple_chat.Base.{
  ℕ, zero, suc, List, [], ◌∷◌, ◌++◌, Bool, true, false, not, ◌&&◌, ◌||◌, Option, none, some, ◌==◌,
  if◌then◌else◌, contains,
}

abbrev pub Message : Type 0
Message = List ℕ

pub record Session : Type 0 where
  pub socket : Option ℕ
  pub send_queue : List Message
  pub send_in_flight : Bool
  pub posted : List Message

pub record Server : Type 0 where
  pub wsa_init : Bool
  pub iocp : Bool
  pub listen_sockets : List ℕ
  pub clients : List (ℕ × Session)
  pub pending : List ℕ

abbrev pub find : ℕ → List (ℕ × Session) → Option Session
find k [] = none
find k ((j, s) ∷ m) = if j == k then some s else find k m

abbrev pub set : ℕ → Session → List (ℕ × Session) → List (ℕ × Session)
set k t [] = []
set k t ((j, s) ∷ m) = if j == k then (j, t) ∷ m else (j, s) ∷ set k t m

abbrev pub erase : ℕ → List (ℕ × Session) → List (ℕ × Session)
erase k [] = []
erase k ((j, s) ∷ m) = if j == k then m else (j, s) ∷ erase k m

abbrev pub remove : ℕ → List ℕ → List ℕ
remove k [] = []
remove k (j ∷ js) = if j == k then js else j ∷ remove k js

abbrev pub pop : List Message → List Message
pop [] = []
pop (m ∷ ms) = ms

unfoldable pub make : ℕ → Session
make s = record { socket = some s; send_queue = []; send_in_flight = false; posted = [] }

-- `ClientSession::Stop`
unfoldable pub stop_session : Session → Session
stop_session s = record s { socket = none }

-- The part of `PostSend` from `m_sendInFlight = true` on; the queue is not empty there.
unfoldable pub start_send : Bool → Session → Bool × Session
start_send posts s = elim s.send_queue [
  | [] ↦ (true, record s { send_in_flight = true })
  | front ∷ rest ↦ elim posts [
    | true ↦ (true, record s { send_in_flight = true; posted = s.posted ++ (front ∷ []) })
    | false ↦ (false, record s { send_in_flight = false; send_queue = rest })
  ]
]

unfoldable pub post_send : Bool → Message → Session → Bool × Session
unfolding start_send
post_send posts [] s = (true, s)
post_send posts (b ∷ bs) s =
    let s' : Session = record s { send_queue = s.send_queue ++ ((b ∷ bs) ∷ []) } in
    elim s.send_in_flight [ true ↦ (true, s') | false ↦ start_send posts s' ]

-- `OnSendComplete` of a send that succeeded, on the session.
unfoldable pub complete_send : Bool → Session → Session
unfolding post_send
complete_send posts s =
    let left = pop s.send_queue in
    let s' : Session = record s { send_queue = left; send_in_flight = false } in
    elim left [ [] ↦ s' | front ∷ rest ↦ (post_send posts front s').1 ]

unfoldable pub close_client : Server → ℕ → Session → Server
unfolding stop_session
close_client server k s = elim s.socket [
  | none ↦ server
  | some fd ↦ record server { clients = erase fd (set k (stop_session s) server.clients) }
]

-- `none` where the session is gone: the code follows the pointer to it, and nothing is known after it.
unfoldable pub on_send_complete : Server → ℕ → Bool → Bool → Option Server
unfolding complete_send close_client
on_send_complete server k ok posts = elim (find k server.clients) [
  | none ↦ none
  | some s ↦ some (
      if not ok
      then close_client server k s
      else record server { clients = set k (complete_send posts s) server.clients })
]

-- `posts` tells for each client whether WSASend takes the message.
unfoldable pub post_all : (ℕ → Bool) → Message → ℕ → List (ℕ × Session) → List (ℕ × Session)
unfolding post_send
post_all posts msg sender [] = []
post_all posts msg sender ((k, s) ∷ m) =
    (k, if k == sender then s else (post_send (posts k) msg s).1) ∷ post_all posts msg sender m

unfoldable pub broadcast_msg : (ℕ → Bool) → Server → Message → ℕ → Server
unfolding post_all
broadcast_msg posts server msg sender = record server {
  clients = post_all posts msg sender server.clients;
}

-- The bytes that were received stand for `m_recvBuf` and `bytes`. The result of `PostRecv` is
-- not used. `none` is as for `on_send_complete`.
unfoldable pub on_recv_complete : (ℕ → Bool) → Server → ℕ → List ℕ → Bool → Option Server
unfolding broadcast_msg close_client
on_recv_complete posts server k [] ok = elim (find k server.clients) [
  | none ↦ none
  | some s ↦ some (close_client server k s)
]
on_recv_complete posts server k (b ∷ bs) ok = elim (find k server.clients) [
  | none ↦ none
  | some s ↦
      some (if not ok then close_client server k s else broadcast_msg posts server (b ∷ bs) k)
]

-- What the calls of `CreateAcceptSocket` give.
pub record AcceptCalls : Type 0 where
  pub has_accept_ex : Bool
  pub has_get_addrs : Bool
  pub has_protocol_info : Bool
  pub socket : Option ℕ
  pub starts : Bool

unfoldable pub create_accept_socket : Server → ℕ → AcceptCalls → Bool × Server
create_accept_socket server ls calls =
    if not (calls.has_accept_ex && calls.has_get_addrs && calls.has_protocol_info)
    then (false, server)
    else elim calls.socket [
      | none ↦ (false, server)
      | some a ↦
          if calls.starts
          then (true, record server { pending = ls ∷ server.pending })
          else (false, server)
    ]

-- The completion of an accept on `ls` with the socket `fd`, which is no longer pending; `emplace`
-- keeps a session that the key already has.
unfoldable pub on_accept_complete : Server → ℕ → ℕ → Bool → Bool → Bool → AcceptCalls → Server
unfolding create_accept_socket make
on_accept_complete server ls fd ok associated posts_recv calls =
    let server' : Server = record server { pending = remove ls server.pending } in
    if not ok
    then server'
    else if not associated || not posts_recv
    then server'
    else elim (find fd server'.clients) [
      | none ↦
          (create_accept_socket (record server' { clients = (fd, make fd) ∷ server'.clients }) ls
            calls).1
      | some s ↦ (create_accept_socket server' ls calls).1
    ]

-- What `GetQueuedCompletionStatus` gives.
pub data Completion : Type 0 where
  no_overlapped : Bool → Completion
  accepts : ℕ → ℕ → Bool → Bool → Bool → AcceptCalls → Completion
  receives : ℕ → List ℕ → Bool → (ℕ → Bool) → Completion
  sends : ℕ → Bool → Bool → Completion

unfoldable pub complete : Server → Completion → Option Server
unfolding on_accept_complete on_recv_complete on_send_complete
complete server (no_overlapped ok) = some server
complete server (accepts ls fd ok associated posts_recv calls) =
    some (on_accept_complete server ls fd ok associated posts_recv calls)
complete server (receives k bytes ok posts) = on_recv_complete posts server k bytes ok
complete server (sends k ok posts) = on_send_complete server k ok posts

-- The loop was left, it waits for a completion, or it follows a pointer to a session that is gone; with
-- the server at that time.
pub data Run : Type 0 where
  left waiting dangling : Server → Run

abbrev pub server_of : Run → Server
server_of (left server) = server
server_of (waiting server) = server
server_of (dangling server) = server

-- `RunLoop` on the completions that it is given.
unfoldable pub run_loop : List Completion → Server → Run
unfolding complete
run_loop [] server = elim server.wsa_init [ false ↦ left server | true ↦ waiting server ]
run_loop (no_overlapped false ∷ cs) server = left server
run_loop (c ∷ cs) server = elim server.wsa_init [
  | false ↦ left server
  | true ↦ elim (complete server c) [ none ↦ dangling server | some server' ↦ run_loop cs server' ]
]
