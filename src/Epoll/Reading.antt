-- ===== src/Epoll/Reading.antt =====
-- `ClientSession::Read` of NetworkBasics/epoll/Server/ClientSession.cpp: what reaches the others.
use tcp_simple_chat.Base.{
  ℕ, zero, suc, ◌<◌, ◌≡◌, refl, sym, ap, ◌∙◌, List, [], ◌∷◌, ◌++◌, append_assoc, Bool, true, false,
  Option, some, arith, length, length-append, flatten,
}
use tcp_simple_chat.Net.{
  Net, RecvResult, got, recv_failed, would_block, interrupted, fault, ReceivesInOrder,
}
use tcp_simple_chat.Epoll.{Message, Server, broadcast_msg, recv_buf, after_recv, read}

-- The messages are broadcast one after the other.
abbrev pub relay : ℕ → List Message → Server → Server
relay fd [] server = server
relay fd (m ∷ ms) server = relay fd ms (broadcast_msg server m fd)

module _ (net : Net) (fd : ℕ) (unread : net.World → List ℕ) (retries : net.World → ℕ)
    (ordered : ReceivesInOrder net fd unread retries) where
  open net use {World, recv}

  -- The run ends; the chunks that it relayed are the bytes that it consumed, in order.
  abbrev pub Relayed : Server → World → Option (Bool × Server × World) → Type 0
  Relayed server w r =
      (ok : Bool) × (w' : World) × (chunks : List Message) × (r
        ≡ some (ok, relay fd chunks server, w'))
      × (unread w ≡ flatten chunks ++ unread w')

  after_recv-Relayed :
      (again : Server → World → Option (Bool × Server × World)) (fuel : ℕ) (server : Server)
      (w w' : World) (r : RecvResult)
      → length (unread w) < suc fuel
      → ((s : Server) (v : World) → length (unread v) < fuel → Relayed s v (again s v))
      → recv w fd (recv_buf net) ≡ (r, w')
      → Relayed server w (after_recv net again server fd r w')
  unfolding after_recv
  after_recv-Relayed again fuel server w w' (got []) f ih e =
      (false, w', [], refl, (ordered.in_order w w' _ [] e).0)
  after_recv-Relayed again fuel server w w' (got (b ∷ bs)) f ih e =
      let (split, _, _) = ordered.in_order w w' _ (b ∷ bs) e in
      let shorter = ap length split ∙ length-append (b ∷ bs) (unread w') in
      let (ok, v, chunks, run, rest) =
        ih (broadcast_msg server (b ∷ bs) fd) w' (omega (arith, shorter)) in
      (
        ok,
        v,
        (b ∷ bs) ∷ chunks,
        run,
        split ∙ ap (◌++◌ (b ∷ bs)) rest ∙ sym (append_assoc (b ∷ bs) (flatten chunks) (unread v)),
      )
  after_recv-Relayed again fuel server w w' (recv_failed would_block) f ih e =
      (true, w', [], refl, (ordered.unchanged w w' _ _ e).0)
  after_recv-Relayed again fuel server w w' (recv_failed interrupted) f ih e =
      (false, w', [], refl, (ordered.unchanged w w' _ _ e).0)
  after_recv-Relayed again fuel server w w' (recv_failed fault) f ih e =
      (false, w', [], refl, (ordered.unchanged w w' _ _ e).0)

  -- With more fuel than unread bytes `Read` ends, and the server is what the broadcasts of some chunks
  -- make of it, where the chunks together are the bytes that were read, in order.
  pub read-Relayed :
      (fuel : ℕ) (server : Server) (w : World)
      → length (unread w) < fuel
      → Relayed server w (read net fuel server fd w)
  unfolding read
  read-Relayed zero server w f = absurd (omega arith)
  read-Relayed (suc fuel) server w f =
      after_recv-Relayed (λ s v. read net fuel s fd v) fuel server w _ _ f (read-Relayed fuel) refl
