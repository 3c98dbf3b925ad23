-- ===== src/FramedSession/Backpressure.antt =====
-- When `SendMsg` of Protocols/Framing/Server/ClientSession.cpp waits, and what it does otherwise.
use tcp_simple_chat.Base.{
  ℕ, ◌+◌, ◌^◌, ◌≤◌, ◌<◌, ◌≡◌, refl, ap, ◌⊎◌, List, [], ◌∷◌, ◌++◌, suc, true, false, arith, length,
  some,
}
use tcp_simple_chat.Net.{Net}
use tcp_simple_chat.Framing.{Host, send_frame}
use tcp_simple_chat.FramedSession.{
  Message, Session, tx_hwm_bytes, Progress, waits, returns, enqueue, has_room, send_msg, failed,
  send_loop, dequeue, take_front,
}
use tcp_simple_chat.FramedSession.Queue.{History, Reach, Reach-IsValid}

abbrev pub with_message : Session → Message → Session
with_message s msg = record s {
  tx_queue = s.tx_queue ++ (msg ∷ []);
  tx_bytes_queued = s.tx_bytes_queued + length msg;
}

-- A producer at a bounded queue: it waits, finds the queue closed, or appends.
abbrev pub Produces : Session → Message → Progress → Type 0
Produces s msg r =
    ((s.active ≡ true) × (tx_hwm_bytes < s.tx_bytes_queued + length msg) × (r ≡ waits))
    ⊎ (((s.active ≡ false) × (r ≡ returns s))
        ⊎ ((s.active ≡ true)
            × (s.tx_bytes_queued + length msg ≤ tx_hwm_bytes)
            × (r ≡ returns (with_message s msg))))

-- In every reachable state `SendMsg` waits exactly when the session is active and the message
-- would take the queue over 256 KiB. On a session that is not active it returns and queues
-- nothing; otherwise it appends the message and counts its bytes, without a wrap.
pub enqueue-Produces :
    {socket : ℕ} {h : History} (msg : Message)
    → Reach socket h
    → length msg < 2 ^ 63
    → Produces h.session msg (enqueue h.session msg)
unfolding enqueue has_room
enqueue-Produces msg r small = let v = Reach-IsValid r in ground (arith, v.bounded)

-- In every reachable state a message of more than 256 KiB makes `SendMsg` wait while the session is
-- active, also when the queue is empty.
pub enqueue_oversized :
    {socket : ℕ} {h : History} (msg : Message)
    → Reach socket h
    → h.session.active ≡ true
    → tx_hwm_bytes < length msg
    → length msg < 2 ^ 63
    → enqueue h.session msg ≡ waits
unfolding enqueue has_room
enqueue_oversized msg r on big small = let v = Reach-IsValid r in ground (arith, v.bounded)

module _ (net : Net) (host : Host) (socket : ℕ) where
  open net use {World}

  -- The round of `SendLoop` that takes an empty message out.
  send_loop_takes_empty :
      (fuel bound : ℕ) (w : World) (s : Session) (rest : List Message)
      → s.tx_queue ≡ [] ∷ rest
      → (s' : Session) × (send_loop net host socket (suc fuel) bound w s ≡ some (failed s' w))
        × (s'.active ≡ false)
  unfolding send_loop send_frame dequeue take_front
  send_loop_takes_empty fuel bound w s rest e = (
    record s { tx_queue = rest; tx_bytes_queued = s.tx_bytes_queued; active = false },
    ground arith,
    refl,
  )

  -- An empty message, which `recv_frame` accepts from a peer and `BroadcastMsg` passes to every other
  -- session, shuts a session down: where the session is active and its queue is empty, `SendMsg`
  -- queues the message, and the round of `SendLoop` that follows writes nothing and makes the
  -- session inactive, on a connection in whatever state.
  pub send_loop-empty_message :
      (fuel bound : ℕ) (w : World) (s : Session)
      → s.active ≡ true
      → s.tx_queue ≡ []
      → s.tx_bytes_queued ≤ tx_hwm_bytes
      → (queued : Session) × (s' : Session) × (send_msg s [] ≡ returns queued)
        × (send_loop net host socket (suc fuel) bound w queued ≡ some (failed s' w))
        × (s'.active ≡ false)
  unfolding send_msg has_room
  send_loop-empty_message fuel bound w s on e b =
      let queued = with_message s [] in
      let (s', run, off) =
        send_loop_takes_empty fuel bound w queued [] (ap (λ q. q ++ ([] ∷ [])) e) in
      (queued, s', ground arith, run, off)
