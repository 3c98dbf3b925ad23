-- ===== src/Epoll/Queued.antt =====
-- `ClientSession::Read` of NetworkBasics/epoll/Server/ClientSession.cpp: what it queues for the other
-- sessions.
use tcp_simple_chat.Base.{
  ℕ, zero, suc, ◌<◌, ◌≡◌, refl, sym, ap, ◌∙◌, List, [], ◌∷◌, ◌++◌, append_assoc, Bool, true, false,
  Option, some, arith, length, length-append, flatten, Distinct,
}
use tcp_simple_chat.Net.{
  Net, RecvResult, got, recv_failed, would_block, interrupted, fault, ReceivesInOrder,
}
use tcp_simple_chat.Epoll.{Message, Server, keys, broadcast_msg, recv_buf, after_recv, read}
use tcp_simple_chat.Epoll.Clients.{find-broadcast_msg}
use tcp_simple_chat.Epoll.Invariant.{broadcast_msg-Distinct}
use tcp_simple_chat.Epoll.Queues.{AreQueued, none-AreQueued, cons-AreQueued}

module _ (net : Net) (fd : ℕ) (unread : net.World → List ℕ) (retries : net.World → ℕ)
    (ordered : ReceivesInOrder net fd unread retries) where
  open net use {World, recv}

  -- The run ends; the chunks that came to the back of the other queues are together the bytes that it
  -- consumed, in order.
  abbrev pub Queued : Server → World → Option (Bool × Server × World) → Type 0
  Queued server w r =
      (ok : Bool) × (server' : Server) × (w' : World) × (chunks : List Message) × (r
        ≡ some (ok, server', w'))
      × (unread w ≡ flatten chunks ++ unread w')
      × AreQueued fd chunks server.clients server'.clients

  after_recv-Queued :
      (again : Server → World → Option (Bool × Server × World)) (fuel : ℕ) (server : Server)
      (w w' : World) (r : RecvResult)
      → length (unread w) < suc fuel
      → Distinct (keys server.clients)
      → ((s : Server) (v : World)
          → length (unread v) < fuel
          → Distinct (keys s.clients)
          → Queued s v (again s v))
      → recv w fd (recv_buf net) ≡ (r, w')
      → Queued server w (after_recv net again server fd r w')
  unfolding after_recv
  after_recv-Queued again fuel server w w' (got []) f d ih e =
      (false, server, w', [], refl, (ordered.in_order w w' _ [] e).0, none-AreQueued fd _)
  after_recv-Queued again fuel server w w' (got (b ∷ bs)) f d ih e =
      let (split, _, _) = ordered.in_order w w' _ (b ∷ bs) e in
      let shorter = ap length split ∙ length-append (b ∷ bs) (unread w') in
      let server1 : Server = broadcast_msg server (b ∷ bs) fd in
      let (ok, server', v, chunks, run, rest, queued) =
        ih server1 w' (omega (arith, shorter)) (broadcast_msg-Distinct server (b ∷ bs) fd d) in
      (
        ok,
        server',
        v,
        (b ∷ bs) ∷ chunks,
        run,
        split ∙ ap (◌++◌ (b ∷ bs)) rest ∙ sym (append_assoc (b ∷ bs) (flatten chunks) (unread v)),
        cons-AreQueued fd b bs chunks server.clients server1.clients server'.clients
            (λ q. find-broadcast_msg server (b ∷ bs) fd q d) queued,
      )
  after_recv-Queued again fuel server w w' (recv_failed would_block) f d ih e =
      (true, server, w', [], refl, (ordered.unchanged w w' _ _ e).0, none-AreQueued fd _)
  after_recv-Queued again fuel server w w' (recv_failed interrupted) f d ih e =
      (false, server, w', [], refl, (ordered.unchanged w w' _ _ e).0, none-AreQueued fd _)
  after_recv-Queued again fuel server w w' (recv_failed fault) f d ih e =
      (false, server, w', [], refl, (ordered.unchanged w w' _ _ e).0, none-AreQueued fd _)

  -- Where the keys are distinct, on a connection that gives its bytes in order and with more fuel than
  -- unread bytes: `Read` ends. There are chunks that together are the bytes that it read, in order, and
  -- the queue of each other session is its queue before it and then these chunks, each once; the
  -- session itself and the set of sessions are as before.
  pub read-Queued :
      (fuel : ℕ) (server : Server) (w : World)
      → length (unread w) < fuel
      → Distinct (keys server.clients)
      → Queued server w (read net fuel server fd w)
  unfolding read
  read-Queued zero server w f d = absurd (omega arith)
  read-Queued (suc fuel) server w f d =
      after_recv-Queued (λ s v. read net fuel s fd v) fuel server w _ _ f d (read-Queued fuel) refl
