-- ===== src/Poll/Queued.antt =====
-- `ClientSession::Read` of NetworkBasics/poll/Server/ClientSession.cpp: what it queues for the other
-- sessions.
use tcp_simple_chat.Base.{
  ℕ, zero, suc, ◌<◌, ◌≡◌, refl, sym, ap, ◌∙◌, List, [], ◌∷◌, ◌++◌, append_assoc, Bool, true, false,
  Option, some, arith, length, length-append, flatten, ◌==◌, if◌then◌else◌, Bool-cases, inl, inr,
}
use tcp_simple_chat.Net.{
  Net, RecvResult, got, recv_failed, would_block, interrupted, fault, ReceivesInOrder,
}
use mathlib.Core.Option
use tcp_simple_chat.Epoll.{Message, Session, find, post_send}
use tcp_simple_chat.Epoll.Queues.{AreQueued, none-AreQueued, cons-AreQueued}
use tcp_simple_chat.Poll.{Server, post_all, broadcast_msg, after_recv, read}

find-post_all :
    (msg : Message) (sender q : ℕ) (m : List (ℕ × Session))
    → find q (post_all msg sender m)
      ≡ Option.map (λ s. if q == sender then s else post_send msg s) (find q m)
unfolding post_all
find-post_all msg sender q [] = refl
find-post_all msg sender q ((k, s) ∷ m) = elim (Bool-cases (k == q)) [
  | inl e ↦
      let e' : k ≡ q = ground arith in
      rw (e, find) (ap some (ap (λ i. if i == sender then s else post_send msg s) e'))
  | inr e ↦ rw (e, find) (find-post_all msg sender q m)
]

module _ (net : Net) (fd : ℕ) (unread : net.World → List ℕ) (retries : net.World → ℕ)
    (ordered : ReceivesInOrder net fd unread retries) where
  open net use {World, recv}

  -- The run ends; the chunks that came to the back of the other queues are together the bytes that it
  -- consumed, in order.
  abbrev pub Queues : Server → World → Option (Bool × Server × World) → Type 0
  Queues server w r =
      (ok : Bool) × (server' : Server) × (w' : World) × (chunks : List Message) × (r
        ≡ some (ok, server', w'))
      × (unread w ≡ flatten chunks ++ unread w')
      × AreQueued fd chunks server.clients server'.clients

  after_recv-Queues :
      (again : Server → World → Option (Bool × Server × World)) (fuel : ℕ) (server : Server)
      (w w' : World) (r : RecvResult)
      → length (unread w) < suc fuel
      → ((s : Server) (v : World) → length (unread v) < fuel → Queues s v (again s v))
      → recv w fd 4096 ≡ (r, w')
      → Queues server w (after_recv net again server fd r w')
  unfolding after_recv broadcast_msg
  after_recv-Queues again fuel server w w' (got []) f ih e =
      (false, server, w', [], refl, (ordered.in_order w w' _ [] e).0, none-AreQueued fd _)
  after_recv-Queues again fuel server w w' (got (b ∷ bs)) f ih e =
      let (split, _, _) = ordered.in_order w w' _ (b ∷ bs) e in
      let shorter = ap length split ∙ length-append (b ∷ bs) (unread w') in
      let server1 : Server = broadcast_msg server (b ∷ bs) fd in
      let (ok, server', v, chunks, run, rest, queued) = ih server1 w' (omega (arith, shorter)) in
      (
        ok,
        server',
        v,
        (b ∷ bs) ∷ chunks,
        run,
        split ∙ ap (◌++◌ (b ∷ bs)) rest ∙ sym (append_assoc (b ∷ bs) (flatten chunks) (unread v)),
        cons-AreQueued fd b bs chunks server.clients server1.clients server'.clients
            (λ q. find-post_all (b ∷ bs) fd q server.clients) queued,
      )
  after_recv-Queues again fuel server w w' (recv_failed would_block) f ih e =
      (true, server, w', [], refl, (ordered.unchanged w w' _ _ e).0, none-AreQueued fd _)
  after_recv-Queues again fuel server w w' (recv_failed interrupted) f ih e =
      (false, server, w', [], refl, (ordered.unchanged w w' _ _ e).0, none-AreQueued fd _)
  after_recv-Queues again fuel server w w' (recv_failed fault) f ih e =
      (false, server, w', [], refl, (ordered.unchanged w w' _ _ e).0, none-AreQueued fd _)

  -- On a connection that gives its bytes in order and with more fuel than unread bytes: `Read` ends.
  -- There are chunks that together are the bytes that it read, in order, and the queue of each other
  -- session is its queue before it and then these chunks, each once; the session itself and the set of
  -- sessions are as before.
  pub read-Queues :
      (fuel : ℕ) (server : Server) (w : World)
      → length (unread w) < fuel
      → Queues server w (read net fuel server fd w)
  unfolding read
  read-Queues zero server w f = absurd (omega arith)
  read-Queues (suc fuel) server w f =
      after_recv-Queues (λ s v. read net fuel s fd v) fuel server w _ _ f (read-Queues fuel) refl
