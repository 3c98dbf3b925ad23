-- ===== src/Epoll/Closing.antt =====
-- `CloseClient` of NetworkBasics/epoll/Server/ChatServer.cpp and `Stop` of a session.
use tcp_simple_chat.Base.{
  ℕ, zero, suc, ◌<◌, ◌≡◌, refl, ap, ◌∙◌, inl, inr, List, [], ◌∷◌, ◌++◌, Option, none, some, arith,
  length, length-append, ◌==◌, if◌then◌else◌, Bool-cases, Distinct,
}
use tcp_simple_chat.Net.{Net, RecvResult, got, recv_failed, ReceivesInOrder}
use tcp_simple_chat.Epoll.{
  Session, Server, Call, ctl_del, shuts_down, closes, find, keys, erase, tell, recv_buf,
  after_drain, drain, stop_session, forget, close_client,
}
use tcp_simple_chat.Epoll.Clients.{find-keys}

four_told :
    (cs : List Call) (a b c d : Call)
    → (((cs ++ (a ∷ [])) ++ (b ∷ [])) ++ (c ∷ [])) ++ (d ∷ []) ≡ cs ++ (a ∷ b ∷ c ∷ d ∷ [])
four_told [] a b c d = refl
four_told (x ∷ cs) a b c d = ap (◌∷◌ x) (four_told cs a b c d)

forget-polling :
    (net : Net) (server : Server) (fd e : ℕ)
    → server.epoll ≡ some e
    → forget net server fd ≡ tell (tell server (ctl_del fd)) (closes fd)
unfolding forget
forget-polling net server fd e polls =
    ap
      (λ (o : Option ℕ).
        tell (elim o [ none ↦ server | some p ↦ tell server (ctl_del fd) ]) (closes fd))
      polls

pub find-erase :
    (k q : ℕ) (m : List (ℕ × Session))
    → Distinct (keys m)
    → find q (erase k m) ≡ (if q == k then none else find q m)
find-erase k q [] d = ground arith
find-erase k q ((j, s) ∷ m) d = elim (Bool-cases (j == k)) [
  | inl same ↦ elim (Bool-cases (q == k)) [
    | inl e ↦
        let e' : j ≡ q = ground arith in
        let out : find q m ≡ none = find-keys q m (ground (arith, e', d.0)) in ground (arith, out)
    | inr e ↦ ground arith
  ]
  | inr other ↦ ground (arith, find-erase k q m d.1)
]

module _ (net : Net) (socket : ℕ) (unread : net.World → List ℕ) (retries : net.World → ℕ)
    (ordered : ReceivesInOrder net socket unread retries) where
  open net use {World, recv}

  after_drain-some :
      (again : World → Option World) (fuel : ℕ) (w w' : World) (r : RecvResult)
      → length (unread w) < suc fuel
      → ((v : World) → length (unread v) < fuel → (v' : World) × (again v ≡ some v'))
      → recv w socket (recv_buf net) ≡ (r, w')
      → (v' : World) × (after_drain net again r w' ≡ some v')
  unfolding after_drain
  after_drain-some again fuel w w' (got []) f ih e = (w', refl)
  after_drain-some again fuel w w' (got (b ∷ bs)) f ih e =
      let (split, _, _) = ordered.in_order w w' _ (b ∷ bs) e in
      let shorter = ap length split ∙ length-append (b ∷ bs) (unread w') in
      ih w' (omega (arith, shorter))
  after_drain-some again fuel w w' (recv_failed e') f ih e = (w', refl)

  pub drain-some :
      (fuel : ℕ) (w : World)
      → length (unread w) < fuel
      → (w' : World) × (drain net fuel socket w ≡ some w')
  unfolding drain
  drain-some zero w f = absurd (omega arith)
  drain-some (suc fuel) w f =
      after_drain-some (drain net fuel socket) fuel w _ _ f (drain-some fuel) refl

  abbrev close_calls : Server → ℕ → List Call
  close_calls server fd =
      server.calls ++ (shuts_down socket ∷ closes socket ∷ ctl_del fd ∷ closes fd ∷ [])

  close_client-calls :
      (fuel : ℕ) (server : Server) (fd e : ℕ) (s : Session) (w : World)
      → length (unread w) < fuel
      → s.socket ≡ socket
      → server.epoll ≡ some e
      → find fd server.clients ≡ some s
      → (w' : World) × (close_client net fuel server fd w
          ≡ some (
            record server { clients = erase fd server.clients; calls = close_calls server fd },
            w',
          ))
  unfolding close_client stop_session
  close_client-calls fuel server fd e s w f same polls found =
      let (w', ends) = drain-some fuel w f in
      let ends' : drain net fuel s.socket w ≡ some w' = ap (λ k. drain net fuel k w) same ∙ ends in
      let stopped : Server = record server {
        clients = erase fd server.clients;
        calls = (server.calls ++ (shuts_down s.socket ∷ [])) ++ (closes s.socket ∷ []);
      } in
      (
        w',
        rw (found, close_client)
            (rw (ends', close_client)
              (ap (λ t. some (t, w'))
                (forget-polling net stopped fd e polls
                  ∙ ap (λ cs. record server { clients = erase fd server.clients; calls = cs })
                      (four_told server.calls _ _ _ _
                        ∙ ap
                            (λ k.
                              server.calls
                              ++ (shuts_down k ∷ closes k ∷ ctl_del fd ∷ closes fd ∷ []))
                            same)))),
      )

  -- `CloseClient` of a connected client ends, given more fuel than its unread bytes. The client is no
  -- longer found and every other one is; and its descriptor is closed twice, by the session and
  -- after the removal from epoll.
  pub close_client-closed :
      (fuel : ℕ) (server : Server) (fd e : ℕ) (s : Session) (w : World) (q : ℕ)
      → length (unread w) < fuel
      → s.socket ≡ socket
      → server.epoll ≡ some e
      → find fd server.clients ≡ some s
      → Distinct (keys server.clients)
      → (server' : Server) × (w' : World) × (close_client net fuel server fd w ≡ some (server', w'))
        × (find q server'.clients ≡ (if q == fd then none else find q server.clients))
        × (server'.calls ≡ close_calls server fd)
  close_client-closed fuel server fd e s w q f same polls found d =
      let (w', run) = close_client-calls fuel server fd e s w f same polls found in
      (
        record server { clients = erase fd server.clients; calls = close_calls server fd },
        w',
        run,
        find-erase fd q server.clients d,
        refl,
      )
