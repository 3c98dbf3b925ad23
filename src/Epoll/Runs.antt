-- ===== src/Epoll/Runs.antt =====
-- The loop of `GracefulShutdown` of NetworkBasics/epoll/Server/ClientSession.cpp, and the bytes that are
-- still to come.
use tcp_simple_chat.Base.{ℕ, zero, suc, ◌≤◌, ◌<◌, ◌≡◌, refl, List, [], ◌∷◌, Option, some, arith}
use tcp_simple_chat.Net.{Net, RecvResult, got, recv_failed, SendResult}
use tcp_simple_chat.Epoll.{recv_buf, after_drain, drain}

-- `total` bounds the bytes that the peers will still send, on all connections together.
pub record Drains (net : Net) (total : net.World → ℕ) : Type 0 where
  pub recv_le :
      (w w' : net.World) (s len : ℕ) (r : RecvResult)
      → net.recv w s len ≡ (r, w')
      → total w' ≤ total w
  pub recv_lt :
      (w w' : net.World) (s len b : ℕ) (bs : List ℕ)
      → net.recv w s len ≡ (got (b ∷ bs), w')
      → total w' < total w
  pub send_le :
      (w w' : net.World) (s : ℕ) (bs : List ℕ) (r : SendResult)
      → net.send w s bs ≡ (r, w')
      → total w' ≤ total w

module _ (net : Net) (total : net.World → ℕ) (drains : Drains net total) where
  open net use {World, recv, send}

  after_drain-ends :
      (again : World → Option World) (fuel s : ℕ) (w w' : World) (r : RecvResult)
      → total w < suc fuel
      → ((v : World) → total v < fuel → (v' : World) × (again v ≡ some v') × (total v' ≤ total v))
      → recv w s (recv_buf net) ≡ (r, w')
      → (v' : World) × (after_drain net again r w' ≡ some v') × (total v' ≤ total w)
  unfolding after_drain
  after_drain-ends again fuel s w w' (got []) f ih e = (w', refl, drains.recv_le w w' s _ _ e)
  after_drain-ends again fuel s w w' (got (b ∷ bs)) f ih e =
      let lower = drains.recv_lt w w' s _ b bs e in
      let (v', run, le) = ih w' (omega arith) in (v', run, omega arith)
  after_drain-ends again fuel s w w' (recv_failed e') f ih e =
      (w', refl, drains.recv_le w w' s _ _ e)

  pub drain-ends :
      (fuel s : ℕ) (w : World)
      → total w < fuel
      → (w' : World) × (drain net fuel s w ≡ some w') × (total w' ≤ total w)
  unfolding drain
  drain-ends zero s w f = absurd (omega arith)
  drain-ends (suc fuel) s w f =
      after_drain-ends (drain net fuel s) fuel s w _ _ f (drain-ends fuel s) refl
  -- A handler ends, the sessions are well-formed after it, no new bytes are to come, and what was done
  -- to the sessions `m` is a sequence of steps of the room.
