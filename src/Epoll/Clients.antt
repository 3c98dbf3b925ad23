-- ===== src/Epoll/Clients.antt =====
-- `BroadcastMsg` of NetworkBasics/epoll/Server/ChatServer.cpp.
use tcp_simple_chat.Base.{
  ℕ, ◌≡◌, refl, ap, ◌∙◌, inl, inr, List, [], ◌∷◌, false, not, ◌&&◌, none, some, arith, ◌==◌,
  if◌then◌else◌, Bool-cases, Option-cases, contains, Distinct,
}
use mathlib.Core.Option
use tcp_simple_chat.Epoll.{
  Message, Session, Server, find, keys, adjust, post_send, mod_client_writable, post_to, post_all,
  broadcast_msg,
}

pub find-adjust :
    (k q : ℕ) (f : Session → Session) (m : List (ℕ × Session))
    → find q (adjust k f m) ≡ (if q == k then Option.map f (find q m) else find q m)
find-adjust k q f [] = ground arith
find-adjust k q f ((j, s) ∷ m) = ground (arith, find-adjust k q f m)

pub find-keys : (q : ℕ) (m : List (ℕ × Session)) → contains (keys m) q ≡ false → find q m ≡ none
find-keys q [] h = refl
find-keys q ((j, s) ∷ m) h = ground (arith, find-keys q m)

pub mod_client_writable-clients :
    (server : Server) (fd : ℕ) → (mod_client_writable server fd).clients ≡ server.clients
unfolding mod_client_writable
mod_client_writable-clients server fd = elim (Option-cases (find fd server.clients)) [
  | inl e ↦ rw (e, mod_client_writable) refl
  | inr (s, e) ↦ rw (e, mod_client_writable) refl
]

-- The server after the turn of `fd` in the loop.
abbrev turn : Message → ℕ → ℕ → Server → Server
turn msg sender fd server = if fd == sender then server else post_to msg server fd

find-turn :
    (msg : Message) (sender fd q : ℕ) (server : Server)
    → find q (turn msg sender fd server).clients ≡ (
        if q == fd && not (q == sender)
        then Option.map (post_send msg) (find q server.clients)
        else find q server.clients)
unfolding post_to
find-turn msg sender fd q server = elim (Bool-cases (fd == sender)) [
  | inl own ↦
      let same : fd ≡ sender = ground arith in
      rw same (elim (Bool-cases (q == sender)) [ inl e ↦ ground arith | inr e ↦ ground arith ])
  | inr other ↦
      let moved =
        mod_client_writable-clients
          (record server { clients = adjust fd (post_send msg) server.clients }) fd in
      ground (arith, moved, find-adjust fd q (post_send msg) server.clients)
]

find-post_all :
    (msg : Message) (sender : ℕ) (fds : List ℕ) (q : ℕ) (server : Server)
    → Distinct fds
    → find q (post_all msg sender fds server).clients ≡ (
        if contains fds q && not (q == sender)
        then Option.map (post_send msg) (find q server.clients)
        else find q server.clients)
unfolding post_all
find-post_all msg sender [] q server d = refl
find-post_all msg sender (fd ∷ fds) q server d =
    find-post_all msg sender fds q (turn msg sender fd server) d.1
    ∙ rw (find-turn msg sender fd q server) (elim (Bool-cases (q == fd)) [
      | inl same ↦ let e : q ≡ fd = ground arith in ground (arith, ap (contains fds) e)
      | inr other ↦ ground arith
    ])

-- After a broadcast each client but the sender has the message once at the back of its queue, unless
-- the message is empty, and the sender and the set of clients are as before.
pub find-broadcast_msg :
    (server : Server) (msg : Message) (sender q : ℕ)
    → Distinct (keys server.clients)
    → find q (broadcast_msg server msg sender).clients
      ≡ Option.map (λ s. if q == sender then s else post_send msg s) (find q server.clients)
unfolding broadcast_msg
find-broadcast_msg server msg sender q d =
    find-post_all msg sender (keys server.clients) q server d
    ∙ elim (Bool-cases (contains (keys server.clients) q)) [
      | inl inside ↦
          rw inside (elim (find q server.clients) [ none ↦ ground arith | some s ↦ ground arith ])
      | inr outside ↦ rw (outside, find-keys q server.clients outside) refl
    ]
