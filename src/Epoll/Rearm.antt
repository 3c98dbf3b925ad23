-- ===== src/Epoll/Rearm.antt =====
-- EPOLLONESHOT in NetworkBasics/epoll/Server/ChatServer.cpp: when a client is registered again.
use tcp_simple_chat.Base.{
  ℕ, zero, suc, ◌+◌, ◌≡◌, refl, ◌∙◌, inl, inr, List, [], ◌∷◌, ◌++◌, Bool, true, false, Option, some,
  arith, ◌==◌, if◌then◌else◌, Bool-cases, Option-cases,
}
use tcp_simple_chat.Net.{Net, RecvResult, got, recv_failed, would_block, interrupted, fault}
use tcp_simple_chat.Epoll.{
  Message, Session, Server, Event, Call, ctl_add, ctl_mod, ctl_del, shuts_down, closes, find, keys,
  mod_client_writable, adjust, post_send, post_to, post_all, broadcast_msg, after_recv, read,
}
use tcp_simple_chat.Epoll.Events.{after_read, handle_clients}

-- How often the calls add or modify the interest in a descriptor.
abbrev pub registers : ℕ → List Call → ℕ
registers fd [] = 0
registers fd (ctl_add k m ∷ cs) = (if k == fd then 1 else 0) + registers fd cs
registers fd (ctl_mod k m ∷ cs) = (if k == fd then 1 else 0) + registers fd cs
registers fd (ctl_del k ∷ cs) = registers fd cs
registers fd (shuts_down k ∷ cs) = registers fd cs
registers fd (closes k ∷ cs) = registers fd cs

registers-append :
    (fd : ℕ) (cs ds : List Call) → registers fd (cs ++ ds) ≡ registers fd cs + registers fd ds
registers-append fd [] ds = omega arith
registers-append fd (ctl_add k m ∷ cs) ds = omega (arith, registers-append fd cs ds)
registers-append fd (ctl_mod k m ∷ cs) ds = omega (arith, registers-append fd cs ds)
registers-append fd (ctl_del k ∷ cs) ds = registers-append fd cs ds
registers-append fd (shuts_down k ∷ cs) ds = registers-append fd cs ds
registers-append fd (closes k ∷ cs) ds = registers-append fd cs ds

mod_client_writable-registers :
    (server : Server) (k fd : ℕ)
    → (k == fd) ≡ false
    → registers fd (mod_client_writable server k).calls ≡ registers fd server.calls
unfolding mod_client_writable
mod_client_writable-registers server k fd apart = elim (Option-cases (find k server.clients)) [
  | inl e ↦ rw (e, mod_client_writable) refl
  | inr (s, e) ↦
      rw (e, mod_client_writable) (registers-append fd server.calls _ ∙ rw apart (omega arith))
]

post_all-registers :
    (msg : Message) (fd : ℕ) (fds : List ℕ) (server : Server)
    → registers fd (post_all msg fd fds server).calls ≡ registers fd server.calls
unfolding post_all post_to
post_all-registers msg fd [] server = refl
post_all-registers msg fd (k ∷ fds) server =
    post_all-registers msg fd fds (if k == fd then server else post_to msg server k)
    ∙ elim (Bool-cases (k == fd)) [
      | inl own ↦ rw own refl
      | inr other ↦ rw other (
          mod_client_writable-registers
            (record server { clients = adjust k (post_send msg) server.clients }) k fd other)
    ]

broadcast_msg-registers :
    (msg : Message) (fd : ℕ) (server : Server)
    → registers fd (broadcast_msg server msg fd).calls ≡ registers fd server.calls
unfolding broadcast_msg
broadcast_msg-registers msg fd server = post_all-registers msg fd (keys server.clients) server

module _ (net : Net) where
  open net use {World, recv}

  after_recv-registers :
      (again : Server → World → Option (Bool × Server × World)) (fd : ℕ)
      → ((s s' : Server) (v v' : World) (ok : Bool)
          → again s v ≡ some (ok, s', v')
          → registers fd s'.calls ≡ registers fd s.calls)
      → (server server' : Server) (r : RecvResult) (w w' : World) (ok : Bool)
      → after_recv net again server fd r w ≡ some (ok, server', w')
      → registers fd server'.calls ≡ registers fd server.calls
  unfolding after_recv
  after_recv-registers again fd ih server server' (got []) w w' ok e = cc
  after_recv-registers again fd ih server server' (got (b ∷ bs)) w w' ok e =
      ih (broadcast_msg server (b ∷ bs) fd) server' w w' ok e
      ∙ broadcast_msg-registers (b ∷ bs) fd server
  after_recv-registers again fd ih server server' (recv_failed would_block) w w' ok e = cc
  after_recv-registers again fd ih server server' (recv_failed interrupted) w w' ok e = cc
  after_recv-registers again fd ih server server' (recv_failed fault) w w' ok e = cc

  read-registers :
      (fuel fd : ℕ) (server server' : Server) (w w' : World) (ok : Bool)
      → read net fuel server fd w ≡ some (ok, server', w')
      → registers fd server'.calls ≡ registers fd server.calls
  unfolding read
  read-registers zero fd server server' w w' ok e = cc
  read-registers (suc fuel) fd server server' w w' ok e =
      after_recv-registers (λ s v. read net fuel s fd v) fd
        (λ s s' v v' b h. read-registers fuel fd s s' v v' b h) server server' _ _ w' ok e

  -- A client that is readable and not writable, and whose `Read` succeeds, is not registered again:
  -- the handler makes no `epoll_ctl` ADD or MOD for its descriptor, although EPOLLONESHOT disabled it.
  pub handle_clients-registers :
      (fuel : ℕ) (server server' : Server) (fd : ℕ) (s : Session) (ev : Event) (w w' : World)
      → ev.failed ≡ false
      → ev.readable ≡ true
      → ev.writable ≡ false
      → find fd server.clients ≡ some s
      → read net fuel server fd w ≡ some (true, server', w')
      → (handle_clients net fuel server fd ev w ≡ some (server', w'))
        × (registers fd server'.calls ≡ registers fd server.calls)
  unfolding handle_clients after_read
  handle_clients-registers fuel server server' fd s ev w w' fine in' out found e = (
    rw (fine, handle_clients)
        (rw (found, handle_clients)
          (rw (in', handle_clients) (rw (e, handle_clients) (rw (out, after_read) refl)))),
    read-registers fuel fd server server' w w' true e,
  )
