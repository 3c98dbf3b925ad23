-- ===== src/Epoll/Halt.antt =====
-- `Stop` of NetworkBasics/epoll/Server/ChatServer.cpp.
use tcp_simple_chat.Base.{
  is_empty, ℕ, ◌<◌, ◌≡◌, refl, inl, inr, List, [], ◌∷◌, true, false, not, ◌&&◌, some, arith,
  Bool-cases,
}
use tcp_simple_chat.Net.{Net}
use tcp_simple_chat.Epoll.{Session, Server, stop_session}
use tcp_simple_chat.Epoll.Runs.{Drains, drain-ends}
use tcp_simple_chat.Epoll.Events.{stop_clients, close_all, stop}

is_empty→[] : {A : Type 0} (xs : List A) → is_empty xs ≡ true → xs ≡ []
is_empty→[] [] e = refl
is_empty→[] (x ∷ xs) e = cc

module _ (net : Net) (total : net.World → ℕ) (drains : Drains net total) where
  open net use {World}

  stop_clients-some :
      (fuel : ℕ) (m : List (ℕ × Session)) (server : Server) (w : World)
      → total w < fuel
      → (server' : Server) × (w' : World) × (stop_clients net fuel m server w ≡ some (server', w'))
  unfolding stop_clients stop_session
  stop_clients-some fuel [] server w f = (server, w, refl)
  stop_clients-some fuel ((k, s) ∷ m) server w f =
      let (w', run, le) = drain-ends net total drains fuel s.socket w f in
      rw (run, stop_clients) (stop_clients-some fuel m _ w' (omega arith))

  -- With more fuel than the bytes that the peers will still send, `Stop` ends in every state of the
  -- server: no client and no listener is left, and the server does not run.
  pub stop-some :
      (fuel : ℕ) (server : Server) (w : World)
      → total w < fuel
      → (server' : Server) × (w' : World) × (stop net fuel server w ≡ some (server', w'))
        × (server'.clients ≡ [])
        × (server'.listen_sockets ≡ [])
        × (server'.running ≡ false)
  unfolding stop close_all
  stop-some fuel server w f =
      elim (Bool-cases
        (not server.running && is_empty server.listen_sockets && is_empty server.clients)) [
          | inl idle ↦
              rw (idle, stop)
                (
                  server,
                  w,
                  refl,
                  is_empty→[] server.clients (ground arith),
                  is_empty→[] server.listen_sockets (ground arith),
                  ground arith,
                )
          | inr busy ↦
              let (s', w', run) = stop_clients-some fuel server.clients server w f in
              rw (busy, stop) (rw (run, stop) (close_all net s', w', refl, refl, refl, refl))
        ]
