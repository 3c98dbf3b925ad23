-- ===== src/SelectServer/Closing.antt =====
-- `HandleReadyClients` and `RemoveClosedClients` of NetworkBasics/select/Server/ChatServer.cpp.
use tcp_simple_chat.Base.{
  ℕ, ◌≤◌, ◌<◌, ◌≡◌, refl, sym, ◌∙◌, subst, inl, inr, List, [], ◌∷◌, ◌++◌, append-nil, append_assoc,
  Bool, true, not, ◌&&◌, Option, some, arith, Bool-cases, contains, Distinct,
}
use tcp_simple_chat.Net.{Net, RecvResult, got, recv_failed, is_retryable}
use tcp_simple_chat.Epoll.Runs.{Drains, drain-ends}
use tcp_simple_chat.SelectServer.{
  Server, Received, positive, not_positive, remove, recv_buf, broadcast_msg, after_recv,
  receive_msg, scheduled, handle_each, handle_ready_clients, remove_client, remove_each,
  remove_closed_clients, serve_clients,
}
use tcp_simple_chat.SelectServer.Sending.{send_all-ends}
use tcp_simple_chat.SelectServer.Among.{
  contains-remove, Distinct-remove, Among, Among-remove, Among-skip, Among-suffix, AllReady,
  AllReady-snoc,
}

module _ (net : Net) (total : net.World → ℕ) (drains : Drains net total) where
  open net use {World, recv}

  -- The run ends; it removed and closed `gone` and nothing else.
  abbrev pub Removed : Server → List ℕ → World → Option (Server × World) → Type 0
  Removed server gone w r =
      (server' : Server) × (w' : World) × (r ≡ some (server', w'))
      × (server'.closed ≡ server.closed ++ gone)
      × Distinct server'.clients
      × ((q : ℕ)
          → contains server'.clients q ≡ (contains server.clients q && not (contains gone q)))
      × (server'.listen_sockets ≡ server.listen_sockets)
      × (server'.wsa_init ≡ server.wsa_init)
      × (total w' ≤ total w)

  remove_each-Removed :
      (fuel : ℕ) (ks : List ℕ) (server : Server) (w : World)
      → total w < fuel
      → Distinct server.clients
      → Among server.clients ks
      → Removed server ks w (remove_each net fuel ks server w)
  unfolding remove_each remove_client
  remove_each-Removed fuel [] server w f d a =
      (server, w, refl, sym (append-nil _), d, (λ q. ground arith), refl, refl, omega arith)
  remove_each-Removed fuel (k ∷ ks) server w f d (there, once, rest) =
      let (v, run, le) = drain-ends net total drains fuel k w f in
      let server1 : Server = record server {
        clients = remove k server.clients;
        closed = server.closed ++ (k ∷ []);
      } in
      let (server', w', run', closed, d', left, listening, running, le') =
        remove_each-Removed fuel ks server1 v (omega arith) (Distinct-remove k server.clients d)
          (Among-remove k server.clients ks d once rest) in
      rw (there, remove_each, remove_client)
        (rw (run, remove_each, remove_client)
          (
            server',
            w',
            run',
            closed ∙ append_assoc server.closed (k ∷ []) ks,
            d',
            (λ q. left q ∙ ground (arith, contains-remove k q server.clients d)),
            listening,
            running,
            omega arith,
          ))

  -- The loop of `HandleReadyClients` ends, and the sockets that it scheduled are different ones of the
  -- clients that were ready, after those that were scheduled before.
  abbrev Scheduled : (ℕ → Bool) → List ℕ → World → Option (List ℕ × World) → Type 0
  Scheduled read_set cs w r =
      (gone : List ℕ) × (w' : World) × (r ≡ some (gone, w'))
      × Among cs gone
      × AllReady read_set gone
      × (total w' ≤ total w)

  after_recv-ends :
      (server : Server) (k : ℕ) (w w' : World) (r : RecvResult)
      → recv w k (recv_buf net) ≡ (r, w')
      → (n : Received) × (v : World) × (after_recv net server k r w' ≡ some (n, v))
        × (total v ≤ total w)
  unfolding after_recv broadcast_msg
  after_recv-ends server k w w' (got []) e = (not_positive, w', refl, drains.recv_le w w' k _ _ e)
  after_recv-ends server k w w' (got (b ∷ bs)) e =
      let le = drains.recv_le w w' k _ _ e in
      let (v, run, le') = send_all-ends net total drains (b ∷ bs) k server.clients w' in
      rw (run, after_recv) (positive, v, refl, omega arith)
  after_recv-ends server k w w' (recv_failed err) e =
      let le = drains.recv_le w w' k _ _ e in
      elim (Bool-cases (is_retryable err)) [
        | inl e' ↦ rw (e', after_recv) (positive, w', refl, le)
        | inr e' ↦ rw (e', after_recv) (not_positive, w', refl, le)
      ]

  receive_msg-ends :
      (server : Server) (k : ℕ) (w : World)
      → (n : Received) × (w' : World) × (receive_msg net server k w ≡ some (n, w'))
        × (total w' ≤ total w)
  unfolding receive_msg
  receive_msg-ends server k w = after_recv-ends server k w _ _ refl

  Among-scheduled :
      (n : Received) (cs : List ℕ) (k : ℕ) (ks gone : List ℕ)
      → Among cs (gone ++ (k ∷ ks))
      → Among cs (scheduled net n k gone ++ ks)
  Among-scheduled positive cs k ks gone a = Among-skip cs k ks gone a
  Among-scheduled not_positive cs k ks gone a =
      subst (Among cs) (sym (append_assoc gone (k ∷ []) ks)) a

  AllReady-scheduled :
      (n : Received) (read_set : ℕ → Bool) (k : ℕ) (gone : List ℕ)
      → AllReady read_set gone
      → read_set k ≡ true
      → AllReady read_set (scheduled net n k gone)
  AllReady-scheduled positive read_set k gone all' e = all'
  AllReady-scheduled not_positive read_set k gone all' e = AllReady-snoc read_set gone k all' e

  handle_each-Scheduled :
      (read_set : ℕ → Bool) (server : Server) (cs ks gone : List ℕ) (w : World)
      → Among cs (gone ++ ks)
      → AllReady read_set gone
      → Scheduled read_set cs w (handle_each net read_set server ks gone w)
  unfolding handle_each
  handle_each-Scheduled read_set server cs [] gone w a all' =
      (gone, w, refl, subst (Among cs) (append-nil gone) a, all', omega arith)
  handle_each-Scheduled read_set server cs (k ∷ ks) gone w a all' = elim (Bool-cases (read_set k)) [
    | inr e ↦
        rw (e, handle_each)
          (handle_each-Scheduled read_set server cs ks gone w (Among-skip cs k ks gone a) all')
    | inl e ↦
        let (n, v, run, le) = receive_msg-ends server k w in
        let (gone', w', run', a', all'', le') =
          handle_each-Scheduled read_set server cs ks (scheduled net n k gone) v
            (Among-scheduled n cs k ks gone a) (AllReady-scheduled n read_set k gone all' e) in
        rw (e, handle_each) (rw (run, handle_each) (gone', w', run', a', all'', omega arith))
  ]

  handle_ready_clients-run :
      (read_set : ℕ → Bool) (server : Server) (gone : List ℕ) (w v : World)
      → handle_each net read_set server server.clients [] w ≡ some (gone, v)
      → handle_ready_clients net read_set server w ≡ some (record server { to_close = gone }, v)
  unfolding handle_ready_clients
  handle_ready_clients-run read_set server gone w v run = rw (run, handle_ready_clients) refl

  remove_closed_clients-run :
      (fuel : ℕ) (server server' : Server) (w w' : World)
      → remove_each net fuel server.to_close server w ≡ some (server', w')
      → remove_closed_clients net fuel server w ≡ some (record server' { to_close = [] }, w')
  unfolding remove_closed_clients
  remove_closed_clients-run fuel server server' w w' run = rw (run, remove_closed_clients) refl

  -- Where the clients are different sockets, with more fuel than the bytes that the peers will
  -- still send, serving the clients ends. The sockets that it closes were ready and were clients,
  -- each is closed once, and the clients that are left are all the others; the listeners stay.
  pub serve-Removed :
      (fuel : ℕ) (read_set : ℕ → Bool) (server : Server) (w : World)
      → total w < fuel
      → Distinct server.clients
      → (gone : List ℕ) × Among server.clients gone
        × AllReady read_set gone
        × Removed server gone w (serve_clients net fuel read_set server w)
  unfolding serve_clients
  serve-Removed fuel read_set server w f d =
      let (gone, v, run, among, all', fewer) =
        handle_each-Scheduled read_set server server.clients server.clients [] w
          (Among-suffix [] server.clients d) tt in
      let (server', w', run', closed, d', left, listening, running, le') =
        remove_each-Removed fuel gone (record server { to_close = gone }) v (omega arith) d among in
      (
        gone,
        among,
        all',
        rw (handle_ready_clients-run read_set server gone w v run, serve_clients)
            (rw
              (
                remove_closed_clients-run fuel (record server { to_close = gone }) server' v w'
                    run',
                serve_clients,
              )
              (
                record server' { to_close = [] },
                w',
                refl,
                closed,
                d',
                left,
                listening,
                running,
                omega arith,
              )),
      )
