-- ===== src/SelectServer/Rounds.antt =====
-- Rounds and runs of the loop of NetworkBasics/select/Server/ChatServer.cpp.
use tcp_simple_chat.Base.{
  ℕ, ◌+◌, ◌<◌, ◌≤◌, ◌≡◌, refl, ap, ◌∙◌, subst, inl, inr, List, [], ◌∷◌, append-nil, Bool, not, true,
  false, Option, some, arith, Bool-cases, Distinct, count, count-append,
}
use tcp_simple_chat.Net.{Net, is_retryable}
use tcp_simple_chat.Epoll.Runs.{Drains}
use tcp_simple_chat.SelectServer.{
  Message, Server, round, Wait, ready, timed_out, wait_failed, run_event_loop,
}
use tcp_simple_chat.SelectServer.Closing.{serve-Removed}
use tcp_simple_chat.SelectServer.Balance.{
  IsBalanced, stays, chain, accepted_on, accepted_in, any_fails, count-left, Gained,
  handle_ready_listeners-Gained,
}

module _ (net : Net) (total : net.World → ℕ) (drains : Drains net total) where
  open net use {World}

  round-Gained :
      (fuel : ℕ) (hello : Message) (read_set : ℕ → Bool) (accepted : ℕ → List ℕ) (server : Server)
      (w : World)
      → total w < fuel
      → Distinct server.clients
      → Gained net total drains
          (accepted_on read_set accepted server.listen_sockets)
          server
          w
          (round net fuel hello read_set accepted server w)
  unfolding round
  round-Gained fuel hello read_set accepted server w f d =
      let js = accepted_on read_set accepted server.listen_sockets in
      let (server1, w1, run1, b, le) =
        handle_ready_listeners-Gained net total drains fuel hello read_set accepted
          server.listen_sockets server w f d in
      let (gone, among, all', (server', w', run, closed, d', left, listening, running, le')) =
        serve-Removed net total drains fuel read_set server1 w1 (omega arith) b.distinct in
      let b' : IsBalanced server1 server' [] = record {
        distinct = d';
        listening = listening;
        running = running;
        counted = λ q.
            ap (λ l. count l q + count server'.clients q) closed
            ∙ omega (
              arith,
              count-append server1.closed gone q,
              count-left server1.clients gone server'.clients b.distinct among d' left q,
            );
      } in
      rw (run1, round)
        (
          server',
          w',
          run,
          subst (IsBalanced server server') (append-nil js)
              (chain server server1 server' js [] b b'),
          omega arith,
        )

  -- The test of the loop: the server as it is, or the rest of the turn.
  abbrev turn :
      Bool → Option (Bool × Server × World) → Server → World → Option (Bool × Server × World)
  turn running rest server w = elim running as (λ b. Option (Bool × Server × World)) [
    | false ↦ some (true, server, w)
    | true ↦ rest
  ]

  turn-on :
      (server : Server) (w : World) (rest : Option (Bool × Server × World))
      → server.wsa_init ≡ true
      → turn server.wsa_init rest server w ≡ rest
  turn-on server w rest e = ap (λ b. turn b rest server w) e

  -- The loop of a server that runs has a result for what `select` gives. It is left where `select`
  -- fails, and the server is balanced with the sockets that `accept` gave until then.
  pub run_event_loop-Gained :
      (fuel : ℕ) (hello : Message) (waits : List (Wait net)) (server : Server) (w : World)
      → total w < fuel
      → server.wsa_init ≡ true
      → Distinct server.clients
      → (server' : Server) × (w' : World) × (run_event_loop net fuel hello waits server w
          ≡ some (any_fails net waits, server', w'))
        × IsBalanced server server' (accepted_in net server.listen_sockets waits)
        × (total w' ≤ total w)
  unfolding run_event_loop
  run_event_loop-Gained fuel hello [] server w f on d =
      (server, w, ap (λ b. some (not b, server, w)) on, stays server d, omega arith)
  run_event_loop-Gained fuel hello (timed_out ∷ waits) server w f on d =
      let (server', w', run, b, le) = run_event_loop-Gained fuel hello waits server w f on d in
      (server', w', turn-on server w _ on ∙ run, b, le)
  run_event_loop-Gained fuel hello (wait_failed e ∷ waits) server w f on d =
      elim (Bool-cases (is_retryable e)) [
        | inl again ↦
            let (server', w', run, b, le) =
              run_event_loop-Gained fuel hello waits server w f on d in
            rw again (server', w', turn-on server w _ on ∙ rw again run, b, le)
        | inr fatal ↦
            rw fatal (server, w, turn-on server w _ on ∙ rw fatal refl, stays server d, omega arith)
      ]
  run_event_loop-Gained fuel hello (ready read_set accepted ∷ waits) server w f on d =
      let (server1, w1, run, b, le) = round-Gained fuel hello read_set accepted server w f d in
      let (server', w', run', b', le') =
        run_event_loop-Gained fuel hello waits server1 w1 (omega arith) (b.running ∙ on)
          b.distinct in
      let js = accepted_on read_set accepted server.listen_sockets in
      let b'' : IsBalanced server1 server' (accepted_in net server.listen_sockets waits) =
        subst (λ lss. IsBalanced server1 server' (accepted_in net lss waits)) b.listening b' in
      (
        server',
        w',
        turn-on server w _ on ∙ rw run run',
        chain server server1 server' js (accepted_in net server.listen_sockets waits) b b'',
        omega arith,
      )
