-- ===== src/Iocp/Runs.antt =====
-- Runs of `RunLoop` of NetworkBasics/iocp/Server: what holds of every session.
use tcp_simple_chat.Base.{
  Option, ℕ, ◌≡◌, refl, sym, ap, subst, inl, inr, List, [], ◌∷◌, Bool, true, false, not, ◌&&◌, none,
  some, arith, Bool-cases, Option-cases, ◌==◌,
}
use tcp_simple_chat.Iocp
use tcp_simple_chat.Iocp.{
  Message, Session, Server, find, set, erase, make, stop_session, post_send, post_all,
  broadcast_msg, complete_send, close_client, on_send_complete, on_recv_complete, AcceptCalls,
  create_accept_socket, on_accept_complete, Completion, no_overlapped, accepts, receives, sends,
  complete, run_loop, Run, left, waiting, dangling, server_of,
}
use tcp_simple_chat.Iocp.Sends.{IsInFlight, post_send-IsInFlight, complete_send-IsInFlight}

abbrev pub AllInFlight : List (ℕ × Session) → Type 0
AllInFlight [] = Unit
AllInFlight ((k, s) ∷ m) = IsInFlight s × AllInFlight m

find-IsInFlight :
    (k : ℕ) (m : List (ℕ × Session)) (s : Session)
    → AllInFlight m
    → find k m ≡ some s
    → IsInFlight s
find-IsInFlight k [] s v e = absurd (ground arith)
find-IsInFlight k ((j, t) ∷ m) s (here, rest) e = elim (Bool-cases (j == k)) [
  | inl same ↦ let e' : t ≡ s = ground arith in subst IsInFlight e' here
  | inr other ↦ find-IsInFlight k m s rest (ground arith)
]

set-AllInFlight :
    (k : ℕ) (s : Session) (m : List (ℕ × Session))
    → IsInFlight s
    → AllInFlight m
    → AllInFlight (set k s m)
set-AllInFlight k s [] v a = tt
set-AllInFlight k s ((j, t) ∷ m) v (here, rest) = elim (Bool-cases (j == k)) [
  | inl same ↦ rw same (v, rest)
  | inr other ↦ rw other (here, set-AllInFlight k s m v rest)
]

erase-AllInFlight : (k : ℕ) (m : List (ℕ × Session)) → AllInFlight m → AllInFlight (erase k m)
erase-AllInFlight k [] a = tt
erase-AllInFlight k ((j, t) ∷ m) (here, rest) = elim (Bool-cases (j == k)) [
  | inl same ↦ rw same rest
  | inr other ↦ rw other (here, erase-AllInFlight k m rest)
]

post_all-AllInFlight :
    (posts : ℕ → Bool) (msg : Message) (sender : ℕ) (m : List (ℕ × Session))
    → AllInFlight m
    → AllInFlight (post_all posts msg sender m)
unfolding post_all
post_all-AllInFlight posts msg sender [] a = tt
post_all-AllInFlight posts msg sender ((k, s) ∷ m) (here, rest) = elim (Bool-cases (k == sender)) [
  | inl same ↦ rw same (here, post_all-AllInFlight posts msg sender m rest)
  | inr other ↦
      rw other
        (post_send-IsInFlight (posts k) msg s here, post_all-AllInFlight posts msg sender m rest)
]

close_client-AllInFlight :
    (server : Server) (k : ℕ) (s : Session)
    → IsInFlight s
    → AllInFlight server.clients
    → AllInFlight (close_client server k s).clients
unfolding close_client stop_session
close_client-AllInFlight server k s v a =
    elim s.socket
      as (λ o.
        AllInFlight
          (elim o as (λ o. Server) [
            | none ↦ server
            | some fd ↦ record server { clients = erase fd (set k (stop_session s) server.clients) }
          ]).clients) [
            | none ↦ a
            | some fd ↦
                erase-AllInFlight fd (set k (stop_session s) server.clients)
                  (set-AllInFlight k (stop_session s) server.clients v a)
          ]

-- A send completes and WSASend takes the next buffer, whether or not a send was in flight.
completed-IsInFlight : (s : Session) → IsInFlight s → IsInFlight (complete_send true s)
unfolding complete_send
completed-IsInFlight s (full, inl flying) = complete_send-IsInFlight s flying.0 (full, inl flying)
completed-IsInFlight s (full, inr (off, q)) =
    subst (λ t. IsInFlight (complete_send true t)) (sym (ap (λ l. record s { send_queue = l }) q))
      (tt, inr (refl, refl))

-- The server after a completion, where its session is not gone.
abbrev Held : Option Server → Type 0
Held none = Unit
Held (some server) = AllInFlight server.clients

on_send_complete-AllInFlight :
    (server : Server) (k : ℕ) (ok posts : Bool)
    → (ok ≡ true → posts ≡ true)
    → AllInFlight server.clients
    → Held (on_send_complete server k ok posts)
unfolding on_send_complete
on_send_complete-AllInFlight server k ok posts takes a =
    elim (Option-cases (find k server.clients)) [
      | inl e ↦ rw (e, on_send_complete) tt
      | inr (s, e) ↦
          let v = find-IsInFlight k server.clients s a e in
          elim (Bool-cases ok) [
            | inl yes' ↦
                let t = takes yes' in
                rw (e, on_send_complete)
                  (rw (yes', t)
                    (set-AllInFlight k (complete_send true s) server.clients
                      (completed-IsInFlight s v) a))
            | inr no' ↦ rw (e, on_send_complete) (rw no' (close_client-AllInFlight server k s v a))
          ]
    ]

on_recv_complete-AllInFlight :
    (posts : ℕ → Bool) (server : Server) (k : ℕ) (bytes : List ℕ) (ok : Bool)
    → AllInFlight server.clients
    → Held (on_recv_complete posts server k bytes ok)
unfolding on_recv_complete broadcast_msg
on_recv_complete-AllInFlight posts server k [] ok a = elim (Option-cases (find k server.clients)) [
  | inl e ↦ rw (e, on_recv_complete) tt
  | inr (s, e) ↦
      rw (e, on_recv_complete)
        (close_client-AllInFlight server k s (find-IsInFlight k server.clients s a e) a)
]
on_recv_complete-AllInFlight posts server k (b ∷ bs) ok a =
    elim (Option-cases (find k server.clients)) [
      | inl e ↦ rw (e, on_recv_complete) tt
      | inr (s, e) ↦ elim (Bool-cases ok) [
        | inl yes' ↦
            rw (e, on_recv_complete)
              (rw yes' (post_all-AllInFlight posts (b ∷ bs) k server.clients a))
        | inr no' ↦
            rw (e, on_recv_complete)
              (rw no'
                (close_client-AllInFlight server k s (find-IsInFlight k server.clients s a e) a))
      ]
    ]

create_accept_socket-clients :
    (server : Server) (ls : ℕ) (calls : AcceptCalls)
    → (create_accept_socket server ls calls).1.clients ≡ server.clients
unfolding create_accept_socket
create_accept_socket-clients server ls calls =
    elim (Bool-cases
      (not (calls.has_accept_ex && calls.has_get_addrs && calls.has_protocol_info))) [
        | inl e ↦ rw e refl
        | inr e ↦ elim (Option-cases calls.socket) [
          | inl e' ↦ rw (e, e') refl
          | inr (fd, e') ↦ elim (Bool-cases calls.starts) [
            | inl e'' ↦ rw (e, e', e'') refl
            | inr e'' ↦ rw (e, e', e'') refl
          ]
        ]
      ]

on_accept_complete-AllInFlight :
    (server : Server) (ls fd : ℕ) (ok associated posts_recv : Bool) (calls : AcceptCalls)
    → AllInFlight server.clients
    → AllInFlight (on_accept_complete server ls fd ok associated posts_recv calls).clients
unfolding on_accept_complete make
on_accept_complete-AllInFlight server ls fd false associated posts_recv calls a = a
on_accept_complete-AllInFlight server ls fd true false posts_recv calls a = a
on_accept_complete-AllInFlight server ls fd true true false calls a = a
on_accept_complete-AllInFlight server ls fd true true true calls a =
    let server' : Server = record server { pending = Iocp.remove ls server.pending } in
    elim (Option-cases (find fd server.clients)) [
      | inl e ↦
          let joined : Server = record server' { clients = (fd, make fd) ∷ server'.clients } in
          rw (e, on_accept_complete)
            (subst AllInFlight (sym (create_accept_socket-clients joined ls calls))
              ((tt, inr (refl, refl)), a))
      | inr (s, e) ↦
          rw (e, on_accept_complete)
            (subst AllInFlight (sym (create_accept_socket-clients server' ls calls)) a)
    ]

-- WSASend takes the next buffer after each send that succeeded.
abbrev pub AllTaken : List Completion → Type 0
AllTaken [] = Unit
AllTaken (no_overlapped ok ∷ cs) = AllTaken cs
AllTaken (accepts ls fd ok associated posts_recv calls ∷ cs) = AllTaken cs
AllTaken (receives k bytes ok posts ∷ cs) = AllTaken cs
AllTaken (sends k ok posts ∷ cs) = (ok ≡ true → posts ≡ true) × AllTaken cs

complete-AllInFlight :
    (server : Server) (c : Completion) (cs : List Completion)
    → AllTaken (c ∷ cs)
    → AllInFlight server.clients
    → Held (complete server c) × AllTaken cs
unfolding complete
complete-AllInFlight server (no_overlapped ok) cs t a = (a, t)
complete-AllInFlight server (accepts ls fd ok associated posts_recv calls) cs t a =
    (on_accept_complete-AllInFlight server ls fd ok associated posts_recv calls a, t)
complete-AllInFlight server (receives k bytes ok posts) cs t a =
    (on_recv_complete-AllInFlight posts server k bytes ok a, t)
complete-AllInFlight server (sends k ok posts) cs t a =
    (on_send_complete-AllInFlight server k ok posts t.0 a, t.1)

-- A turn of the loop: what the handler gives, and the rest of the loop.
turn-AllInFlight :
    (server : Server) (o : Option Server) (again : Server → Run)
    → AllInFlight server.clients
    → Held o
    → ((s : Server) → AllInFlight s.clients → AllInFlight (server_of (again s)).clients)
    → AllInFlight
        (server_of (elim server.wsa_init as (λ b. Run) [
          | false ↦ left server
          | true ↦ elim o as (λ x. Run) [ none ↦ dangling server | some s ↦ again s ]
        ])).clients
turn-AllInFlight server none again a held rest =
    elim server.wsa_init
      as (λ b.
        AllInFlight
          (server_of
            (elim b as (λ b. Run) [ false ↦ left server | true ↦ dangling server ])).clients) [
              | false ↦ a
              | true ↦ a
            ]
turn-AllInFlight server (some s) again a held rest =
    elim server.wsa_init
      as (λ b.
        AllInFlight
          (server_of (elim b as (λ b. Run) [ false ↦ left server | true ↦ again s ])).clients) [
            | false ↦ a
            | true ↦ rest s held
          ]

-- However far `RunLoop` comes, on whatever accepts, receives and sends complete, and also where
-- WSASend refuses messages of broadcasts, as long as it takes the next buffer after a send that
-- succeeded: in each session a send is in flight just when a message is queued, and then the last
-- buffer that was posted is the front of the queue; and no queued message is empty. Where a
-- completion is for a session that is gone, the statement is about the server before it: the code
-- follows a dangling pointer there.
pub run_loop-AllInFlight :
    (cs : List Completion) (server : Server)
    → AllTaken cs
    → AllInFlight server.clients
    → AllInFlight (server_of (run_loop cs server)).clients
unfolding run_loop
run_loop-AllInFlight [] server t a =
    elim server.wsa_init
      as (λ b.
        AllInFlight
          (server_of
            (elim b as (λ b. Run) [ false ↦ left server | true ↦ waiting server ])).clients) [
              | false ↦ a
              | true ↦ a
            ]
run_loop-AllInFlight (no_overlapped false ∷ cs) server t a = a
run_loop-AllInFlight (no_overlapped true ∷ cs) server t a =
    let (held, u) = complete-AllInFlight server (no_overlapped true) cs t a in
    turn-AllInFlight server (complete server (no_overlapped true)) (run_loop cs) a held
      (λ s b. run_loop-AllInFlight cs s u b)
run_loop-AllInFlight (accepts ls fd ok associated posts_recv calls ∷ cs) server t a =
    let (held, u) =
      complete-AllInFlight server (accepts ls fd ok associated posts_recv calls) cs t a in
    turn-AllInFlight server (complete server (accepts ls fd ok associated posts_recv calls))
      (run_loop cs) a held (λ s b. run_loop-AllInFlight cs s u b)
run_loop-AllInFlight (receives k bytes ok posts ∷ cs) server t a =
    let (held, u) = complete-AllInFlight server (receives k bytes ok posts) cs t a in
    turn-AllInFlight server (complete server (receives k bytes ok posts)) (run_loop cs) a held
      (λ s b. run_loop-AllInFlight cs s u b)
run_loop-AllInFlight (sends k ok posts ∷ cs) server t a =
    let (held, u) = complete-AllInFlight server (sends k ok posts) cs t a in
    turn-AllInFlight server (complete server (sends k ok posts)) (run_loop cs) a held
      (λ s b. run_loop-AllInFlight cs s u b)
