-- ===== src/SelectServer/Closed.antt =====
-- `Start` of NetworkBasics/select/Server/ChatServer.cpp from the listeners to the end of `Stop`.
use tcp_simple_chat.Base.{
  ℕ, ◌+◌, ◌<◌, ◌≡◌, refl, ap, ◌∙◌, List, [], ◌++◌, true, false, is_empty, some, arith, Distinct,
  count, count-append,
}
use tcp_simple_chat.Net.{Net}
use tcp_simple_chat.Epoll.Runs.{Drains}
use tcp_simple_chat.SelectServer.{Message, Server, Wait}
use tcp_simple_chat.SelectServer.Balance.{any_fails, accepted_in}
use tcp_simple_chat.SelectServer.Rounds.{run_event_loop-Gained}
use tcp_simple_chat.SelectServer.Lifecycle.{start, after_loop, stop-running}

module _ (net : Net) (total : net.World → ℕ) (drains : Drains net total) where
  open net use {World}

  -- With a listening socket and more fuel than the bytes that the peers will still send, where
  -- `select` at some point fails for another reason than that nothing is ready: `Start` returns. The
  -- server does not run and has neither listeners nor clients. In the meantime each socket was closed
  -- as often as it was a listener, was a client before, or was given by `accept` on a ready listener
  -- before `select` failed.
  pub start-Closed :
      (fuel : ℕ) (hello : Message) (made : List ℕ) (waits : List (Wait net)) (server : Server)
      (w : World)
      → total w < fuel
      → Distinct server.clients
      → is_empty (server.listen_sockets ++ made) ≡ false
      → any_fails net waits ≡ true
      → (server' : Server) × (w' : World) × (start net fuel hello true made waits server w
          ≡ some (true, server', w'))
        × (server'.wsa_init ≡ false)
        × (server'.listen_sockets ≡ [])
        × (server'.clients ≡ [])
        × ((q : ℕ)
            → count server'.closed q
              ≡ count server.closed q
                + count (server.listen_sockets ++ made) q
                + count server.clients q
                + count (accepted_in net (server.listen_sockets ++ made) waits) q)
  unfolding start after_loop
  start-Closed fuel hello made waits server w f d some_made fatal =
      let server1 : Server = record server {
        listen_sockets = server.listen_sockets ++ made;
        wsa_init = true;
      } in
      let (server2, w2, run, b, le) =
        run_event_loop-Gained net total drains fuel hello waits server1 w f refl d in
      let (server', w', run', off, no_listener, no_client, closed) =
        stop-running net total drains fuel server2 w2 (omega arith) b.running in
      (
        server',
        w',
        rw (some_made, start, after_loop)
            (rw (run, start, after_loop)
              (rw (fatal, start, after_loop) (rw (run', start, after_loop) refl))),
        off,
        no_listener,
        no_client,
        λ q.
            ap (λ l. count l q) closed
            ∙ omega (
              arith,
              count-append (server2.closed ++ server2.listen_sockets) server2.clients q,
              count-append server2.closed server2.listen_sockets q,
              b.counted q,
              ap (λ l. count l q) b.listening,
            ),
      )
