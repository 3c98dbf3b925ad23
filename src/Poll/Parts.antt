-- ===== src/Poll/Parts.antt =====
-- The vector of NetworkBasics/poll/Server/ChatServer.cpp, where listeners come before clients and
-- positions tell them apart, while `AcceptAll` changes the clients between the two handlers.
use tcp_simple_chat.Base.{
  ℕ, zero, suc, ◌+◌, ◌≡◌, refl, sym, ap, ap₂, subst, ◌∙◌, inl, inr, List, [], ◌∷◌, ◌++◌, Option,
  arith, length, drop, Bool-cases,
}
use tcp_simple_chat.Net.{Net}
use tcp_simple_chat.Epoll.{Message}
use tcp_simple_chat.Poll.{
  Server, Event, Pollfd, listener_fds, client_fds, rebuild_poll_set, polled, accept_all,
  handle_listeners, handle_each, handle_clients, round,
}

polled-append :
    (revents : ℕ → Event) (ps qs : List Pollfd) (i : ℕ)
    → polled revents i (ps ++ qs) ≡ polled revents i ps ++ polled revents (i + length ps) qs
unfolding polled
polled-append revents [] qs i = ap (λ n. polled revents n qs) (omega arith)
polled-append revents (p ∷ ps) qs i = ap (◌∷◌ (record p { revents = revents i })) (
    polled-append revents ps qs (suc i)
    ∙ ap (λ n. polled revents (suc i) ps ++ polled revents n qs) (omega arith))

length-polled :
    (revents : ℕ → Event) (ps : List Pollfd) (i : ℕ) → length (polled revents i ps) ≡ length ps
unfolding polled
length-polled revents [] i = refl
length-polled revents (p ∷ ps) i = ap suc (length-polled revents ps (suc i))

length-listener_fds : (ss : List ℕ) → length (listener_fds ss) ≡ length ss
unfolding listener_fds
length-listener_fds [] = refl
length-listener_fds (s ∷ ss) = ap suc (length-listener_fds ss)

drop-append : (ps qs : List Pollfd) → drop (length ps) (ps ++ qs) ≡ qs
drop-append [] qs = refl
drop-append (p ∷ ps) qs = drop-append ps qs

module _ (net : Net) where
  open net use {World, send}

  accept_all-listeners :
      (hello : Message) (accepted : List ℕ) (server : Server) (w : World)
      → (accept_all net hello accepted server w).0.listen_sockets ≡ server.listen_sockets
  unfolding accept_all
  accept_all-listeners hello [] server w = refl
  accept_all-listeners hello (cs ∷ accepted) server w = accept_all-listeners hello accepted _ _

  handle_listeners-listeners :
      (hello : Message) (accepted : ℕ → List ℕ) (n : ℕ) (ps : List Pollfd) (server : Server)
      (w : World)
      → (handle_listeners net hello accepted n ps server w).0.listen_sockets ≡ server.listen_sockets
  unfolding handle_listeners
  handle_listeners-listeners hello accepted zero ps server w = refl
  handle_listeners-listeners hello accepted (suc n) [] server w = refl
  handle_listeners-listeners hello accepted (suc n) (p ∷ ps) server w =
      elim (Bool-cases p.revents.failed) [
        | inl e ↦ rw (e, handle_listeners) refl
        | inr e ↦ elim (Bool-cases p.revents.readable) [
          | inl reads ↦
              rw (e, handle_listeners)
                (rw (reads, handle_listeners)
                  (handle_listeners-listeners hello accepted n ps _ _
                    ∙ accept_all-listeners hello (accepted p.fd) server w))
          | inr idle ↦
              rw (e, handle_listeners)
                (rw (idle, handle_listeners)
                  (handle_listeners-listeners hello accepted n ps server w))
        ]
      ]

  -- The loop over the positions of the listeners reads nothing behind them.
  handle_listeners-front :
      (hello : Message) (accepted : ℕ → List ℕ) (ps qs : List Pollfd) (server : Server) (w : World)
      → handle_listeners net hello accepted (length ps) (ps ++ qs) server w
        ≡ handle_listeners net hello accepted (length ps) ps server w
  unfolding handle_listeners
  handle_listeners-front hello accepted [] qs server w = refl
  handle_listeners-front hello accepted (p ∷ ps) qs server w = elim (Bool-cases p.revents.failed) [
    | inl e ↦ rw (e, handle_listeners) refl
    | inr e ↦ elim (Bool-cases p.revents.readable) [
      | inl reads ↦
          rw (e, handle_listeners)
            (rw (reads, handle_listeners)
              (handle_listeners-front hello accepted ps qs
                (accept_all net hello (accepted p.fd) server w).0
                (accept_all net hello (accepted p.fd) server w).1))
      | inr idle ↦
          rw (e, handle_listeners)
            (rw (idle, handle_listeners) (handle_listeners-front hello accepted ps qs server w))
    ]
  ]

  handlers_split :
      (fuel : ℕ) (hello : Message) (accepted : ℕ → List ℕ) (server : Server) (w : World)
      (ps ls cs : List Pollfd)
      → ps ≡ ls ++ cs
      → length ls ≡ length server.listen_sockets
      → (let r = handle_listeners net hello accepted (length server.listen_sockets) ps server w in
          handle_clients net fuel ps r.0 r.1)
        ≡ (let r = handle_listeners net hello accepted (length server.listen_sockets) ls server w in
            handle_each net fuel cs r.0 r.1)
  unfolding handle_clients
  handlers_split fuel hello accepted server w ps ls cs split n =
      let k = length server.listen_sockets in
      let r = handle_listeners net hello accepted k ls server w in
      let front : handle_listeners net hello accepted k ps server w ≡ r =
        ap (λ qs. handle_listeners net hello accepted k qs server w) split
        ∙ subst
            (λ i.
              handle_listeners net hello accepted i (ls ++ cs) server w
              ≡ handle_listeners net hello accepted i ls server w)
            n (handle_listeners-front hello accepted ls cs server w) in
      let behind : drop (length r.0.listen_sockets) ps ≡ cs =
        ap (λ ss. drop (length ss) ps) (handle_listeners-listeners hello accepted k ls server w)
        ∙ ap₂ drop (sym n) split
        ∙ drop-append ls cs in
      ap
        (λ (v : Server × World). handle_each net fuel (drop (length v.0.listen_sockets) ps) v.0 v.1)
        front
      ∙ ap (λ qs. handle_each net fuel qs r.0 r.1) behind

  -- A round as it is meant: each listener with what was reported for it, then each client that was
  -- in the map when the vector was built, with what was reported for that client.
  abbrev pub round_by_parts :
      ℕ → Message → (ℕ → Event) → (ℕ → List ℕ) → Server → World → Option (Server × World)
  round_by_parts fuel hello revents accepted server w =
      let n = length server.listen_sockets in
      let (server', w') =
        handle_listeners net hello accepted n
          (polled revents 0 (listener_fds server.listen_sockets)) server w in
      handle_each net fuel (polled revents n (client_fds server.clients)) server' w'

  -- A round is the round by parts: the positions that the handlers use are those of the listeners
  -- and of the clients at the time of the call of `poll`, whatever was accepted in between.
  pub round-by_parts :
      (fuel : ℕ) (hello : Message) (revents : ℕ → Event) (accepted : ℕ → List ℕ) (server : Server)
      (w : World)
      → round net fuel hello revents accepted server w
        ≡ round_by_parts fuel hello revents accepted server w
  unfolding round rebuild_poll_set
  round-by_parts fuel hello revents accepted server w =
      handlers_split fuel hello accepted server w _ _ _
        (polled-append revents (listener_fds server.listen_sockets) (client_fds server.clients) 0
          ∙ ap
              (λ k.
                polled revents 0 (listener_fds server.listen_sockets)
                ++ polled revents k (client_fds server.clients))
              (omega (arith, length-listener_fds server.listen_sockets)))
        (length-polled revents (listener_fds server.listen_sockets) 0
          ∙ length-listener_fds server.listen_sockets)
