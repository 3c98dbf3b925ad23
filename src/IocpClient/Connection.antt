-- ===== src/IocpClient/Connection.antt =====
-- The connection, the receives and the loop of NetworkBasics/iocp/Client/ChatClient.cpp: `Start` and
-- `Stop`, `CreateConnection`, `PostRecv`, `RunEventLoop`, `OnRecvComplete` and the failure of
-- `OnSendComplete`. What a send that completed does to the queue is in the parent module; here `Stop`
-- joins the worker. `calls` is what the client told the system and the console, oldest first; the
-- results of the calls are arguments.
use tcp_simple_chat.Base.{
  ℕ, List, [], ◌∷◌, ◌++◌, Bool, true, false, not, ◌&&◌, ◌||◌, Option, none, some, is_empty,
  if◌then◌else◌,
}
use tcp_simple_chat.IocpClient.{Message}

pub data Call : Type 0 where
  starts_up cleans_up wakes : Call
  opens shuts_down closes : ℕ → Call
  receives : Option ℕ → Call
  prints : Message → Call

pub record Connection : Type 0 where
  -- `m_iocp` is not null
  pub iocp : Bool
  -- `none` is INVALID_SOCKET
  pub socket : Option ℕ
  pub is_active : Bool
  pub run_send : Bool
  -- `m_sendThread` is joinable
  pub send_thread : Bool
  pub calls : List Call

abbrev pub tell : Connection → Call → Connection
tell c call = record c { calls = c.calls ++ (call ∷ []) }

unfoldable pub safe_close_socket : Connection → Connection
safe_close_socket c = elim c.socket [
  | none ↦ c
  | some s ↦ record (tell c (closes s)) { socket = none }
]

-- The shutdown of the socket in `Stop`.
unfoldable pub shut_down : Connection → Connection
shut_down c = elim c.socket [ none ↦ c | some s ↦ tell c (shuts_down s) ]

-- The end of Winsock in `Stop`.
unfoldable pub clean_up : Connection → Connection
clean_up c = elim c.is_active [ true ↦ record (tell c cleans_up) { is_active = false } | false ↦ c ]

unfoldable pub stop : Connection → Connection
unfolding shut_down safe_close_socket clean_up
stop c = record (clean_up (safe_close_socket (shut_down (record c { run_send = false })))) {
  send_thread = false;
}

-- The addresses of `getaddrinfo`: what `WSASocket` gives, and whether `connect` succeeds.
pub record Address : Type 0 where
  pub socket : Option ℕ
  pub connects : Bool

unfoldable pub connect_to_server : Option ℕ → Bool → Bool
connect_to_server none connects = false
connect_to_server (some s) connects = connects

-- The loop of `CreateConnection`.
unfoldable pub try_addresses : List Address → Connection → Bool × Connection
unfolding connect_to_server
try_addresses [] c = (false, c)
try_addresses (a ∷ addresses) c = elim a.socket [
  | none ↦ try_addresses addresses c
  | some s ↦ elim (connect_to_server (some s) a.connects) [
    | true ↦ (true, record (tell c (opens s)) { socket = some s })
    | false ↦ try_addresses addresses (tell (tell c (opens s)) (closes s))
  ]
]

-- On what `getaddrinfo` gives.
unfoldable pub create_connection : Option (List Address) → Connection → Bool × Connection
unfolding try_addresses
create_connection none c = (false, c)
create_connection (some addresses) c = try_addresses addresses c

-- `posted` says that WSARecv took the buffer.
unfoldable pub post_recv : Bool → Connection → Bool × Connection
post_recv posted c = (posted, tell c (receives c.socket))

-- The socket is closed and the loop is woken, where a completion failed.
unfoldable pub give_up : Connection → Connection
unfolding safe_close_socket
give_up c = let c' = safe_close_socket c in if c'.iocp then tell c' wakes else c'

-- `bytes` is what the receive put in the buffer, and `posted` is for the next receive.
unfoldable pub on_recv_complete : Bool → Message → Bool → Connection → Connection
unfolding give_up post_recv
on_recv_complete ok bytes posted c =
    if not ok || is_empty bytes then give_up c else (post_recv posted (tell c (prints bytes))).1

unfoldable pub on_send_complete : Bool → Connection → Connection
unfolding give_up
on_send_complete ok c = if not ok then give_up c else c

-- What GetQueuedCompletionStatus gives: no OVERLAPPED, or that of a receive or of a send.
pub data Completion : Type 0 where
  woken : Completion
  received : Bool → Message → Bool → Completion
  sent : Bool → Completion

-- `none` is a loop that waits after the given completions.
unfoldable pub run_event_loop : List Completion → Connection → Option Connection
unfolding on_recv_complete on_send_complete
run_event_loop [] c = if c.is_active then none else some c
run_event_loop (woken ∷ xs) c = some c
run_event_loop (received ok bytes posted ∷ xs) c = elim c.is_active [
  | false ↦ some c
  | true ↦ run_event_loop xs (on_recv_complete ok bytes posted c)
]
run_event_loop (sent ok ∷ xs) c = elim c.is_active [
  | false ↦ some c
  | true ↦ run_event_loop xs (on_send_complete ok c)
]

-- `InitIocp() && CreateConnection() && AssociateHandle()`.
unfoldable pub set_up : Bool → Option (List Address) → Bool → Connection → Bool × Connection
unfolding create_connection
set_up made addresses associated c = elim made [
  | false ↦ (false, record c { iocp = false })
  | true ↦
      let (connected, c') = create_connection addresses (record c { iocp = true }) in
      (connected && associated, c')
]

-- `Start` after the connection is set up.
unfoldable pub serve : Bool → List Completion → Connection → Option Connection
unfolding post_recv run_event_loop stop
serve posted xs c =
    let (first, c') = post_recv posted (record c { is_active = true }) in
    elim first [
      | false ↦ some (stop c')
      | true ↦ elim (run_event_loop xs (record c' { run_send = true; send_thread = true })) [
        | none ↦ none
        | some c'' ↦ some (stop c'')
      ]
    ]

-- `Start` once it is known whether the set-up succeeded.
unfoldable pub after_set_up : Bool → Bool → List Completion → Connection → Option Connection
unfolding serve stop
after_set_up false posted xs c = some (stop c)
after_set_up true posted xs c = serve posted xs c

-- `winsock` says that WSAStartup succeeded.
unfoldable pub start :
    Bool
    → Bool
    → Option (List Address)
    → Bool
    → Bool
    → List Completion
    → Connection
    → Option Connection
unfolding set_up after_set_up
start false made addresses associated posted xs c = some c
start true made addresses associated posted xs c =
    let (ready, c') = set_up made addresses associated (tell c starts_up) in
    after_set_up ready posted xs c'
