-- ===== src/Epoll/Invariant.antt =====
-- The keys of the sessions, and the messages that wait for them, in NetworkBasics/epoll/Server.
use tcp_simple_chat.Base.{
  NonEmpty, ℕ, zero, suc, ◌<◌, ◌≡◌, refl, sym, ap, subst, inl, inr, List, [], ◌∷◌, Bool, arith,
  ◌==◌, ◌∙◌, Bool-cases, Distinct, length, length-drop, ltb,
}
use tcp_simple_chat.Net.{Net, SendResult, sent, send_failed, would_block, interrupted, fault}
use tcp_simple_chat.Epoll.{
  Message, Session, Server, keys, adjust, post_send, post_to, post_all, broadcast_msg, after_write,
  write,
}
use tcp_simple_chat.Epoll.Clients.{mod_client_writable-clients}

keys-adjust :
    (k : ℕ) (f : Session → Session) (m : List (ℕ × Session)) → keys (adjust k f m) ≡ keys m
keys-adjust k f [] = refl
keys-adjust k f ((j, s) ∷ m) = elim (Bool-cases (j == k)) [
  | inl same ↦ rw (same, keys) refl
  | inr other ↦ rw (other, keys) (ap (◌∷◌ j) (keys-adjust k f m))
]

keys-post_all :
    (msg : Message) (sender : ℕ) (fds : List ℕ) (server : Server)
    → keys (post_all msg sender fds server).clients ≡ keys server.clients
unfolding post_all post_to
keys-post_all msg sender [] server = refl
keys-post_all msg sender (fd ∷ fds) server =
    keys-post_all msg sender fds _ ∙ elim (Bool-cases (fd == sender)) [
      | inl own ↦ rw own refl
      | inr other ↦
          let posted : Server = record server {
            clients = adjust fd (post_send msg) server.clients;
          } in
          rw other (
            ap keys (mod_client_writable-clients posted fd)
            ∙ keys-adjust fd (post_send msg) server.clients)
    ]

pub broadcast_msg-Distinct :
    (server : Server) (msg : Message) (sender : ℕ)
    → Distinct (keys server.clients)
    → Distinct (keys (broadcast_msg server msg sender).clients)
unfolding broadcast_msg
broadcast_msg-Distinct server msg sender d =
    subst Distinct (sym (keys-post_all msg sender (keys server.clients) server)) d

module _ (net : Net) (fd : ℕ) where
  open net use {World, send}

  after_write-NonEmpty :
      (again : World → Bool × List Message × World) (msg : Message) (rest : List Message)
      → 0 < length msg
      → NonEmpty rest
      → ((v : World) → NonEmpty (again v).1)
      → (w : World) (r : SendResult) → NonEmpty (after_write net again msg rest r w).1
  unfolding after_write
  after_write-NonEmpty again msg rest some' full ih w (sent zero) = (some', full)
  after_write-NonEmpty again msg rest some' full ih w (sent (suc n)) =
      elim (Bool-cases (ltb (suc n) (length msg))) [
        | inl part' ↦ rw (part', after_write) (ground (arith, length-drop (suc n) msg), full)
        | inr all' ↦ rw (all', after_write) (ih w)
      ]
  after_write-NonEmpty again msg rest some' full ih w (send_failed would_block) = (some', full)
  after_write-NonEmpty again msg rest some' full ih w (send_failed interrupted) = (some', full)
  after_write-NonEmpty again msg rest some' full ih w (send_failed fault) = (some', full)

  pub write-NonEmpty : (w : World) (q : List Message) → NonEmpty q → NonEmpty (write net fd w q).1
  unfolding write
  write-NonEmpty w [] full = tt
  write-NonEmpty w (msg ∷ rest) full =
      after_write-NonEmpty (λ v. write net fd v rest) msg rest full.0 full.1
        (λ v. write-NonEmpty v rest full.1) _ _
