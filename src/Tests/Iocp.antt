-- ===== src/Tests/Iocp.antt =====
-- NetworkBasics/iocp/Server at concrete inputs.
use tcp_simple_chat.Base.{List, inl, ◌+◌, ◌≡◌, refl, [], ◌∷◌, true, false, some, arith, length}
use tcp_simple_chat.Iocp.{Session, Server, AcceptCalls, post_send, complete_send}
use tcp_simple_chat.Iocp.{Completion, accepts, receives, sends, server_of, run_loop}
use tcp_simple_chat.Iocp.Runs.{AllInFlight, run_loop-AllInFlight}
use tcp_simple_chat.Iocp.Sends.{posts, completes, Reach, here, after, rounds, rounds-length}

abbrev fresh : Session
fresh = record { socket = some 5; send_queue = []; send_in_flight = false; posted = [] }

two_posts :
    Reach fresh (complete_send true (post_send true (2 ∷ []) (post_send true (1 ∷ []) fresh).1).1)
unfolding post_send
two_posts =
    after (after (after (here fresh) (posts true (1 ∷ []) fresh)) (posts true (2 ∷ []) _))
      (completes _ refl)

abbrev busy : Session
busy = record {
  socket = some 5;
  send_queue = (1 ∷ []) ∷ (2 ∷ []) ∷ [];
  send_in_flight = true;
  posted = (1 ∷ []) ∷ [];
}

rounds_run : (rounds 3 busy).posted ≡ (1 ∷ []) ∷ (2 ∷ []) ∷ (2 ∷ []) ∷ (2 ∷ []) ∷ []
unfolding complete_send post_send
rounds_run = refl

rounds-length_example :
    (length (rounds 3 busy).send_queue ≡ 2) × (length (rounds 3 busy).posted ≡ 1 + 3)
rounds-length_example = rounds-length 3 busy (1 ∷ [], 2 ∷ [], [], refl, omega arith, tt)

abbrev working : AcceptCalls
working = record {
  has_accept_ex = true;
  has_get_addrs = true;
  has_protocol_info = true;
  socket = some 8;
  starts = true;
}

abbrev listening : Server
listening = record {
  wsa_init = true;
  iocp = true;
  listen_sockets = 3 ∷ [];
  clients = [];
  pending = 3 ∷ 3 ∷ [];
}

-- A client joins on socket 8 and sends a message, and a send to client 5 completes.
abbrev three_completions : List Completion
three_completions =
    accepts 3 8 true true true working
    ∷ receives 8 (104 ∷ []) true (λ k. true)
    ∷ sends 5 true true
    ∷ []

run_loop-AllInFlight_example :
    AllInFlight
      (server_of
        (run_loop three_completions (record listening { clients = (5, busy) ∷ [] }))).clients
run_loop-AllInFlight_example =
    run_loop-AllInFlight three_completions (record listening { clients = (5, busy) ∷ [] })
      ((λ e. refl), tt)
      (((omega arith, (omega arith, tt)), inl (refl, ([], 1 ∷ [], (2 ∷ []) ∷ [], refl, refl))), tt)
