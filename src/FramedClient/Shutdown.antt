-- ===== src/FramedClient/Shutdown.antt =====
-- `GracefulShutDown` and `Disconnect` of Protocols/Framing/Client/ChatClient.cpp.
use tcp_simple_chat.Base.{
  ℕ, zero, suc, ◌+◌, ◌≤◌, ◌<◌, ◌≡◌, ap, List, ◌++◌, Bool, true, false, Option, none, some, arith,
  length, length-append,
}
use tcp_simple_chat.Net.{Net, ReceivesInOrder}
use tcp_simple_chat.Framing.{Host, max_payload, recv_frame}
use tcp_simple_chat.Framing.RoundTrip.{Frame, recv_frame-Frame}
use tcp_simple_chat.FramedClient.{Message, Client}

module _ (net : Net) (host : Host) (socket : ℕ) where
  open net use {World}

  unfoldable pub after_frame :
      (World → Option World) → Option (Bool × Message × World) → Option World
  after_frame again none = none
  after_frame again (some (false, msg, w)) = some w
  after_frame again (some (true, msg, w)) = again w

  -- `while (recv_frame(m_socket, msg)) {}`
  unfoldable pub graceful_shut_down : ℕ → ℕ → World → Option World
  unfolding after_frame
  graceful_shut_down zero bound w = none
  graceful_shut_down (suc fuel) bound w =
      after_frame (graceful_shut_down fuel bound) (recv_frame net socket host bound w)

module _ (net : Net) (host : Host) where
  open net use {World}

  -- The notifications are left out: they wake the other threads.
  unfoldable pub disconnect : ℕ → ℕ → Client → World → Option (Client × World)
  disconnect fuel bound c w = elim c.socket [
    | none ↦ some (record c { is_active = false }, w)
    | some s ↦ elim (graceful_shut_down net host s fuel bound w) [
      | none ↦ none
      | some w' ↦ some (record c { is_active = false; socket = none }, w')
    ]
  ]

module _ (net : Net) (host : Host) (socket : ℕ) (unread : net.World → List ℕ)
    (retries : net.World → ℕ) (ordered : ReceivesInOrder net socket unread retries) where
  open net use {World}

  after_frame-some :
      (again : World → Option World) (w : World) (r : Option (Bool × Message × World))
      → Frame net socket unread retries ordered host w r
      → ((v : World)
          → length (unread v) < length (unread w)
          → retries v ≤ retries w
          → (w' : World) × (again v ≡ some w'))
      → (w' : World) × (after_frame net host socket again r ≡ some w')
  unfolding after_frame
  after_frame-some again w r (false, out, v, run, accepts, fewer) ih = (v, rw run)
  after_frame-some again w r (true, out, v, run, (header, split, four, _, _), fewer) ih =
      let shorter : length (unread v) < length (unread w) = omega (
        arith,
        ap length split,
        length-append header (out ++ unread v),
        length-append out (unread v),
      ) in
      let (w', e) = ih v shorter fewer in (w', rw run e)

  drains :
      (fuel bound : ℕ) (w : World)
      → length (unread w) < fuel
      → max_payload + retries w < bound
      → (w' : World) × (graceful_shut_down net host socket fuel bound w ≡ some w')
  unfolding graceful_shut_down
  drains zero bound w f b = absurd (omega arith)
  drains (suc fuel) bound w f b =
      after_frame-some (graceful_shut_down net host socket fuel bound) w _
        (recv_frame-Frame net socket unread retries ordered host bound w b)
        (λ v shorter fewer. drains fuel bound v (omega arith) (omega arith))

  -- `Disconnect` ends, whatever the peer still sends: each frame that it reads takes at least four
  -- of the unread bytes. It leaves the client inactive and without a socket, and its queues alone.
  pub disconnect-some :
      (fuel bound : ℕ) (c : Client) (w : World)
      → c.socket ≡ some socket
      → length (unread w) < fuel
      → max_payload + retries w < bound
      → (w' : World) × (disconnect net host fuel bound c w
          ≡ some (record c { is_active = false; socket = none }, w'))
  unfolding disconnect
  disconnect-some fuel bound c w on f b =
      let (w', e) = drains fuel bound w f b in (w', ground (arith, e))
