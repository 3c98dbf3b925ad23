-- ===== src/Iocp/Accepts.antt =====
-- `OnAcceptComplete` and `CreateAcceptSocket` of NetworkBasics/iocp/Server/ChatServer.cpp: how many
-- calls of AcceptEx are outstanding on a listener.
use tcp_simple_chat.Base.{
  ℕ, ◌+◌, ◌-◌, ◌≡◌, refl, ap, ◌∙◌, inl, inr, List, [], ◌∷◌, Bool, true, false, ◌&&◌, Option, none,
  some, arith, ◌==◌, if◌then◌else◌, Bool-cases, Option-cases,
}
use tcp_simple_chat.Iocp.{
  Server, AcceptCalls, find, remove, create_accept_socket, on_accept_complete,
}

abbrev pub count : ℕ → List ℕ → ℕ
count k [] = 0
count k (j ∷ js) = (if j == k then 1 else 0) + count k js

count-remove : (k : ℕ) (js : List ℕ) → count k (remove k js) ≡ count k js - 1
count-remove k [] = refl
count-remove k (j ∷ js) = elim (Bool-cases (j == k)) [
  | inl same ↦ ground arith
  | inr other ↦ ground (arith, count-remove k js)
]

-- Whether `CreateAcceptSocket` leaves a call of AcceptEx outstanding.
abbrev pub Option-is_some : Option ℕ → Bool
Option-is_some none = false
Option-is_some (some a) = true

abbrev pub starts_accept : AcceptCalls → Bool
starts_accept calls =
    (calls.has_accept_ex && calls.has_get_addrs && calls.has_protocol_info)
    && (Option-is_some calls.socket && calls.starts)

create_accept_socket-count :
    (server : Server) (ls : ℕ) (calls : AcceptCalls)
    → count ls (create_accept_socket server ls calls).1.pending
      ≡ (if starts_accept calls then 1 else 0) + count ls server.pending
unfolding create_accept_socket
create_accept_socket-count server ls calls =
    elim (Bool-cases (calls.has_accept_ex && calls.has_get_addrs && calls.has_protocol_info)) [
      | inl yes' ↦ elim (Option-cases calls.socket) [
        | inl e ↦ ground arith
        | inr (a, e) ↦ ground arith
      ]
      | inr no' ↦ ground arith
    ]

-- Each completion of an accept takes one outstanding AcceptEx from its listener, and it is replaced
-- only where the accept succeeded, the client was associated and its first receive was posted, and
-- `CreateAcceptSocket` succeeds.
pub on_accept_complete-count :
    (server : Server) (ls fd : ℕ) (ok associated posts_recv : Bool) (calls : AcceptCalls)
    → count ls (on_accept_complete server ls fd ok associated posts_recv calls).pending
      ≡ (if ok && associated && posts_recv && starts_accept calls then 1 else 0)
        + (count ls server.pending - 1)
unfolding on_accept_complete
on_accept_complete-count server ls fd false associated posts_recv calls =
    count-remove ls server.pending ∙ omega arith
on_accept_complete-count server ls fd true false posts_recv calls =
    count-remove ls server.pending ∙ omega arith
on_accept_complete-count server ls fd true true false calls =
    count-remove ls server.pending ∙ omega arith
on_accept_complete-count server ls fd true true true calls =
    let removed = count-remove ls server.pending in
    elim (Option-cases (find fd server.clients)) [
      | inl e ↦
          rw (e, on_accept_complete)
            (create_accept_socket-count _ ls calls
              ∙ ap (λ n. (if starts_accept calls then 1 else 0) + n) removed)
      | inr (s, e) ↦
          rw (e, on_accept_complete)
            (create_accept_socket-count (record server { pending = remove ls server.pending }) ls
                calls
              ∙ ap (λ n. (if starts_accept calls then 1 else 0) + n) removed)
    ]
