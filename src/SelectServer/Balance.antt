-- ===== src/SelectServer/Balance.antt =====
-- The loop of NetworkBasics/select/Server/ChatServer.cpp and the sockets that it takes over and
-- closes.
use tcp_simple_chat.Base.{
  ℕ, ◌+◌, ◌≤◌, ◌≡◌, refl, ◌∙◌, subst, inl, inr, List, [], ◌∷◌, ◌++◌, Bool, true, false, not, ◌&&◌,
  ◌||◌, Option, some, ◌<◌, arith, Bool-cases, contains, Distinct, Distinct-snoc, count,
  count-append, count-Distinct, if◌then◌else◌, ◌==◌,
}
use tcp_simple_chat.Net.{Net, is_retryable}
use tcp_simple_chat.Epoll.Runs.{Drains, drain-ends}
use tcp_simple_chat.SelectServer.{
  Message, Server, add_client, accept_all, handle_ready_listeners, Wait, ready, timed_out,
  wait_failed,
}
use tcp_simple_chat.SelectServer.Among.{Among}

-- The sockets that stand in the list of clients or were closed are those from before and `joined`.
pub record IsBalanced (server server' : Server) (joined : List ℕ) : Type 0 where
  pub distinct : Distinct server'.clients
  pub listening : server'.listen_sockets ≡ server.listen_sockets
  pub running : server'.wsa_init ≡ server.wsa_init
  pub counted :
      (q : ℕ)
      → count server'.closed q + count server'.clients q
        ≡ count server.closed q + count server.clients q + count joined q

pub stays : (server : Server) → Distinct server.clients → IsBalanced server server []
stays server d = record {
  distinct = d;
  listening = refl;
  running = refl;
  counted = λ q. omega arith;
}

pub joins :
    (server : Server) (cs : ℕ)
    → Distinct server.clients
    → contains server.clients cs ≡ false
    → IsBalanced server (record server { clients = server.clients ++ (cs ∷ []) }) (cs ∷ [])
joins server cs d out = record {
  distinct = Distinct-snoc server.clients cs d out;
  listening = refl;
  running = refl;
  counted = λ q. omega (arith, count-append server.clients (cs ∷ []) q);
}

-- A socket that is closed at once.
pub turned_away :
    (server : Server) (cs : ℕ)
    → Distinct server.clients
    → IsBalanced server (record server { closed = server.closed ++ (cs ∷ []) }) (cs ∷ [])
turned_away server cs d = record {
  distinct = d;
  listening = refl;
  running = refl;
  counted = λ q. omega (arith, count-append server.closed (cs ∷ []) q);
}

pub chain :
    (s t u : Server) (js ks : List ℕ)
    → IsBalanced s t js
    → IsBalanced t u ks
    → IsBalanced s u (js ++ ks)
chain s t u js ks v w = record {
  distinct = w.distinct;
  listening = w.listening ∙ v.listening;
  running = w.running ∙ v.running;
  counted = λ q. omega (arith, v.counted q, w.counted q, count-append js ks q);
}

-- What `accept` gives on the ready listeners.
abbrev pub accepted_on : (ℕ → Bool) → (ℕ → List ℕ) → List ℕ → List ℕ
accepted_on read_set accepted [] = []
accepted_on read_set accepted (ls ∷ lss) =
    if read_set ls
    then accepted ls ++ accepted_on read_set accepted lss
    else accepted_on read_set accepted lss

module _ (net : Net) where
  -- `select` fails for another reason than that nothing is ready.
  abbrev pub any_fails : List (Wait net) → Bool
  any_fails [] = false
  any_fails (wait_failed e ∷ waits) = not (is_retryable e) || any_fails waits
  any_fails (timed_out ∷ waits) = any_fails waits
  any_fails (ready read_set accepted ∷ waits) = any_fails waits

  -- What `accept` gives during the loop, which ends when `select` fails.
  abbrev pub accepted_in : List ℕ → List (Wait net) → List ℕ
  accepted_in lss [] = []
  accepted_in lss (ready read_set accepted ∷ waits) =
      accepted_on read_set accepted lss ++ accepted_in lss waits
  accepted_in lss (timed_out ∷ waits) = accepted_in lss waits
  accepted_in lss (wait_failed e ∷ waits) = if is_retryable e then accepted_in lss waits else []

Among-contains :
    (cs ks : List ℕ) (q : ℕ) → Among cs ks → contains ks q ≡ true → contains cs q ≡ true
Among-contains cs [] q a e = absurd (ground arith)
Among-contains cs (k ∷ ks) q (there, once, rest) e = elim (Bool-cases (q == k)) [
  | inl same ↦ let e' : k ≡ q = ground arith in subst (λ i. contains cs i ≡ true) e' there
  | inr other ↦ Among-contains cs ks q rest (ground arith)
]

Among-Distinct : (cs ks : List ℕ) → Among cs ks → Distinct ks
Among-Distinct cs [] a = tt
Among-Distinct cs (k ∷ ks) (there, once, rest) = (once, Among-Distinct cs ks rest)

-- The clients that are left where those of `gone` are taken out.
pub count-left :
    (cs gone left : List ℕ)
    → Distinct cs
    → Among cs gone
    → Distinct left
    → ((q : ℕ) → contains left q ≡ (contains cs q && not (contains gone q)))
    → (q : ℕ) → count gone q + count left q ≡ count cs q
count-left cs gone left d a d' e q =
    let c1 = count-Distinct cs q d in
    let c2 = count-Distinct gone q (Among-Distinct cs gone a) in
    let c3 = count-Distinct left q d' in
    elim (Bool-cases (contains gone q)) [
      | inl t ↦ let u = Among-contains cs gone q a t in ground (arith, c1, c2, c3, e q, u)
      | inr t ↦ ground (arith, c1, c2, c3, e q)
    ]

module _ (net : Net) (total : net.World → ℕ) (drains : Drains net total) where
  open net use {World}

  -- The run ends, the server after it is balanced, and the sockets that joined are `offered`.
  abbrev pub Gained : List ℕ → Server → World → Option (Server × World) → Type 0
  Gained offered server w r =
      (server' : Server) × (w' : World) × (r ≡ some (server', w'))
      × IsBalanced server server' offered
      × (total w' ≤ total w)

  add_client-Gained :
      (fuel : ℕ) (hello : Message) (server : Server) (cs : ℕ) (w : World)
      → total w < fuel
      → Distinct server.clients
      → Gained (cs ∷ []) server w (add_client net fuel hello server cs w)
  unfolding add_client
  add_client-Gained fuel hello server cs w f d =
      let w1 = (net.send w cs hello).1 in
      let le = drains.send_le w w1 cs hello _ refl in
      elim (Bool-cases (contains server.clients cs)) [
        | inr e ↦ rw (e, add_client) (_, w1, refl, joins server cs d e, le)
        | inl e ↦
            let (w2, run, le') = drain-ends net total drains fuel cs w1 (omega arith) in
            rw (e, add_client)
              (rw (run, add_client) (_, w2, refl, turned_away server cs d, omega arith))
      ]

  accept_all-Gained :
      (fuel : ℕ) (hello : Message) (accepted : List ℕ) (server : Server) (w : World)
      → total w < fuel
      → Distinct server.clients
      → Gained accepted server w (accept_all net fuel hello accepted server w)
  unfolding accept_all
  accept_all-Gained fuel hello [] server w f d = (server, w, refl, stays server d, omega arith)
  accept_all-Gained fuel hello (cs ∷ accepted) server w f d =
      let (server1, w1, run, b, le) = add_client-Gained fuel hello server cs w f d in
      let (server2, w2, run', b', le') =
        accept_all-Gained fuel hello accepted server1 w1 (omega arith) b.distinct in
      rw (run, accept_all)
        (server2, w2, run', chain server server1 server2 (cs ∷ []) accepted b b', omega arith)

  pub handle_ready_listeners-Gained :
      (fuel : ℕ) (hello : Message) (read_set : ℕ → Bool) (accepted : ℕ → List ℕ) (lss : List ℕ)
      (server : Server) (w : World)
      → total w < fuel
      → Distinct server.clients
      → Gained
          (accepted_on read_set accepted lss)
          server
          w
          (handle_ready_listeners net fuel hello read_set accepted lss server w)
  unfolding handle_ready_listeners
  handle_ready_listeners-Gained fuel hello read_set accepted [] server w f d =
      (server, w, refl, stays server d, omega arith)
  handle_ready_listeners-Gained fuel hello read_set accepted (ls ∷ lss) server w f d =
      elim (Bool-cases (read_set ls)) [
        | inr e ↦
            rw (e, handle_ready_listeners)
              (handle_ready_listeners-Gained fuel hello read_set accepted lss server w f d)
        | inl e ↦
            let (server1, w1, run, b, le) =
              accept_all-Gained fuel hello (accepted ls) server w f d in
            let (server2, w2, run', b', le') =
              handle_ready_listeners-Gained fuel hello read_set accepted lss server1 w1
                (omega arith) b.distinct in
            rw (e, handle_ready_listeners)
              (rw (run, handle_ready_listeners)
                (
                  server2,
                  w2,
                  run',
                  chain server server1 server2 (accepted ls) (accepted_on read_set accepted lss) b
                      b',
                  omega arith,
                ))
      ]
