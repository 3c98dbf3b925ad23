-- ===== src/SelectServer.antt =====
-- NetworkBasics/select/Server: one thread, `select` on the reading side only. A session's state is its
-- socket, which is its key in `m_clients`, so `clients` are the keys in the map's order of iteration.
-- ClientSession.cpp sends at once, without a queue; the loop of its `GracefulShutdown` is that of
-- Epoll. Results of the system's calls but `recv` and `send` are arguments. A message has fewer than
-- 2 ^ 31 bytes, so the cast to int keeps its size.
pub mod Sending
pub mod Among
pub mod Closing
pub mod Balance
pub mod Rounds
pub mod Lifecycle
pub mod Closed
use tcp_simple_chat.Base.{
  ℕ, zero, suc, List, [], ◌∷◌, ◌++◌, Bool, true, false, not, ◌&&◌, Option, none, some, length, drop,
  ◌==◌, if◌then◌else◌, contains,
}
use tcp_simple_chat.Epoll
use tcp_simple_chat.Net.{
  Net, RecvResult, got, recv_failed, SendResult, sent, send_failed, Errno, is_retryable,
}

abbrev pub Message : Type 0
Message = List ℕ

pub record Server : Type 0 where
  pub wsa_init : Bool
  pub listen_sockets : List ℕ
  pub clients : List ℕ
  pub to_close : List ℕ
  -- sockets that were closed
  pub closed : List ℕ

abbrev pub remove : ℕ → List ℕ → List ℕ
remove k [] = []
remove k (j ∷ js) = if j == k then js else j ∷ remove k js

-- What `ReceiveMsg` returns: a positive number, or one that is not.
pub data Received : Type 0 where
  positive not_positive : Received

-- The set of `BuildReadSet`; every stored socket is valid.
unfoldable pub build_read_set : Server → List ℕ
build_read_set server = server.listen_sockets ++ server.clients

module _ (net : Net) where
  open net use {World, recv, send}

  -- The loop of `SendMsg` after its call of `send`; the result has the bytes that were not sent.
  unfoldable pub after_send :
      (World → Message → Option (Message × World))
      → Message
      → SendResult
      → World
      → Option (Message × World)
  after_send again rest (sent zero) w = some (rest, w)
  after_send again rest (sent (suc n)) w = again w (drop (suc n) rest)
  after_send again rest (send_failed e) w = some (rest, w)

  unfoldable pub send_loop : ℕ → ℕ → World → Message → Option (Message × World)
  unfolding after_send
  send_loop zero s w rest = none
  send_loop (suc fuel) s w [] = some ([], w)
  send_loop (suc fuel) s w (b ∷ bs) =
      let (r, w') = send w s (b ∷ bs) in after_send (send_loop fuel s) (b ∷ bs) r w'

  unfoldable pub send_msg : ℕ → World → Message → Option World
  unfolding send_loop
  send_msg s w msg = elim (send_loop (suc (length msg)) s w msg) [
    | none ↦ none
    | some (rest, w') ↦ some w'
  ]

  -- `BroadcastMsg`, over the clients.
  unfoldable pub send_all : Message → ℕ → List ℕ → World → Option World
  unfolding send_msg
  send_all msg sender [] w = some w
  send_all msg sender (k ∷ ks) w = elim (k == sender) [
    | true ↦ send_all msg sender ks w
    | false ↦ elim (send_msg k w msg) [ none ↦ none | some w' ↦ send_all msg sender ks w' ]
  ]

  unfoldable pub broadcast_msg : Server → Message → ℕ → World → Option World
  unfolding send_all
  broadcast_msg server msg sender w = send_all msg sender server.clients w

  abbrev pub recv_buf : ℕ
  recv_buf = 4096

  unfoldable pub after_recv : Server → ℕ → RecvResult → World → Option (Received × World)
  unfolding broadcast_msg
  after_recv server k (got []) w = some (not_positive, w)
  after_recv server k (got (b ∷ bs)) w = elim (broadcast_msg server (b ∷ bs) k w) [
    | none ↦ none
    | some w' ↦ some (positive, w')
  ]
  after_recv server k (recv_failed e) w = elim (is_retryable e) [
    | true ↦ some (positive, w)
    | false ↦ some (not_positive, w)
  ]

  unfoldable pub receive_msg : Server → ℕ → World → Option (Received × World)
  unfolding after_recv
  receive_msg server k w = let (r, w') = recv w k recv_buf in after_recv server k r w'

  abbrev pub scheduled : Received → ℕ → List ℕ → List ℕ
  scheduled positive k to_close = to_close
  scheduled not_positive k to_close = to_close ++ (k ∷ [])

  -- The loop of `HandleReadyClients`, with `m_toClose` so far.
  unfoldable pub handle_each :
      (ℕ → Bool) → Server → List ℕ → List ℕ → World → Option (List ℕ × World)
  unfolding receive_msg
  handle_each read_set server [] to_close w = some (to_close, w)
  handle_each read_set server (k ∷ ks) to_close w = elim (read_set k) [
    | false ↦ handle_each read_set server ks to_close w
    | true ↦ elim (receive_msg server k w) [
      | none ↦ none
      | some (n, w') ↦ handle_each read_set server ks (scheduled n k to_close) w'
    ]
  ]

  unfoldable pub handle_ready_clients : (ℕ → Bool) → Server → World → Option (Server × World)
  unfolding handle_each
  handle_ready_clients read_set server w = elim (handle_each read_set server server.clients [] w) [
    | none ↦ none
    | some (to_close, w') ↦ some (record server { to_close = to_close }, w')
  ]

  unfoldable pub remove_client : ℕ → Server → ℕ → World → Option (Server × World)
  remove_client fuel server k w = elim (contains server.clients k) [
    | false ↦ some (server, w)
    | true ↦ elim (Epoll.drain net fuel k w) [
      | none ↦ none
      | some w' ↦ some (
        record server { clients = remove k server.clients; closed = server.closed ++ (k ∷ []) },
        w',
      )
    ]
  ]

  unfoldable pub remove_each : ℕ → List ℕ → Server → World → Option (Server × World)
  unfolding remove_client
  remove_each fuel [] server w = some (server, w)
  remove_each fuel (k ∷ ks) server w = elim (remove_client fuel server k w) [
    | none ↦ none
    | some (server', w') ↦ remove_each fuel ks server' w'
  ]

  unfoldable pub remove_closed_clients : ℕ → Server → World → Option (Server × World)
  unfolding remove_each
  remove_closed_clients fuel server w = elim (remove_each fuel server.to_close server w) [
    | none ↦ none
    | some (server', w') ↦ some (record server' { to_close = [] }, w')
  ]

  -- `AddClient`. Where the key is present `emplace` stores nothing, and the new session is destroyed,
  -- which drains and closes its socket.
  unfoldable pub add_client : ℕ → Message → Server → ℕ → World → Option (Server × World)
  add_client fuel hello server cs w =
      let (r, w') = send w cs hello in
      elim (contains server.clients cs) [
        | false ↦ some (record server { clients = server.clients ++ (cs ∷ []) }, w')
        | true ↦ elim (Epoll.drain net fuel cs w') [
          | none ↦ none
          | some w'' ↦ some (record server { closed = server.closed ++ (cs ∷ []) }, w'')
        ]
      ]

  -- The loop over `accept` on one listener, on the sockets that it gives before it fails.
  unfoldable pub accept_all : ℕ → Message → List ℕ → Server → World → Option (Server × World)
  unfolding add_client
  accept_all fuel hello [] server w = some (server, w)
  accept_all fuel hello (cs ∷ accepted) server w = elim (add_client fuel hello server cs w) [
    | none ↦ none
    | some (server', w') ↦ accept_all fuel hello accepted server' w'
  ]

  unfoldable pub handle_ready_listeners :
      ℕ → Message → (ℕ → Bool) → (ℕ → List ℕ) → List ℕ → Server → World → Option (Server × World)
  unfolding accept_all
  handle_ready_listeners fuel hello read_set accepted [] server w = some (server, w)
  handle_ready_listeners fuel hello read_set accepted (ls ∷ lss) server w = elim (read_set ls) [
    | false ↦ handle_ready_listeners fuel hello read_set accepted lss server w
    | true ↦ elim (accept_all fuel hello (accepted ls) server w) [
      | none ↦ none
      | some (server', w') ↦ handle_ready_listeners fuel hello read_set accepted lss server' w'
    ]
  ]

  -- `HandleReadyClients` and `RemoveClosedClients`, one after the other as in a round.
  unfoldable pub serve_clients : ℕ → (ℕ → Bool) → Server → World → Option (Server × World)
  unfolding handle_ready_clients remove_closed_clients
  serve_clients fuel read_set server w = elim (handle_ready_clients read_set server w) [
    | none ↦ none
    | some (server', w') ↦ remove_closed_clients fuel server' w'
  ]

  -- A round of `RunEventLoop` in which sockets are ready.
  unfoldable pub round :
      ℕ → Message → (ℕ → Bool) → (ℕ → List ℕ) → Server → World → Option (Server × World)
  unfolding handle_ready_listeners serve_clients
  round fuel hello read_set accepted server w =
      elim (handle_ready_listeners fuel hello read_set accepted server.listen_sockets server w) [
        | none ↦ none
        | some (server', w') ↦ serve_clients fuel read_set server' w'
      ]

  -- What `select` gives: the sockets that stay in the set and what `accept` gives after it.
  pub data Wait : Type 0 where
    ready : (ℕ → Bool) → (ℕ → List ℕ) → Wait
    timed_out : Wait
    wait_failed : Errno → Wait

  -- `RunEventLoop` on the results of its calls of `select`: whether the loop was left, and the server.
  -- Where the results are used up and the server runs, the loop waits for the next one.
  unfoldable pub run_event_loop :
      ℕ → Message → List Wait → Server → World → Option (Bool × Server × World)
  unfolding round
  run_event_loop fuel hello [] server w = some (not server.wsa_init, server, w)
  run_event_loop fuel hello (wait ∷ waits) server w = elim server.wsa_init [
    | false ↦ some (true, server, w)
    | true ↦ elim wait [
      | timed_out ↦ run_event_loop fuel hello waits server w
      | wait_failed e ↦ elim (is_retryable e) [
        | true ↦ run_event_loop fuel hello waits server w
        | false ↦ some (true, server, w)
      ]
      | ready read_set accepted ↦ elim (round fuel hello read_set accepted server w) [
        | none ↦ none
        | some (server', w') ↦ run_event_loop fuel hello waits server' w'
      ]
    ]
  ]
