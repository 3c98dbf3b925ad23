-- ===== src/FramedServer/Oversized.antt =====
-- A message between 256 KiB and 1 MiB at Protocols/Framing/Server: `recv_frame` of Framing.cpp gives
-- it to `BroadcastMsg` of ChatServer.cpp.
use tcp_simple_chat.Base.{
  update, contains, ℕ, ◌+◌, ◌≤◌, ◌<◌, ◌≡◌, refl, ap, ◌∙◌, fun_ext, inl, inr, List, [], ◌∷◌, ◌++◌,
  true, false, some, arith, length, ◌==◌, Bool-cases,
}
use tcp_simple_chat.Net.{Net, ReceivesInOrder, StaysUp}
use tcp_simple_chat.Framing.{Host, IsNetworkOrder, max_payload, recv_frame}
use tcp_simple_chat.Framing.Transmit.{frame}
use tcp_simple_chat.Framing.RoundTrip.{recv_frame-frame}
use tcp_simple_chat.FramedSession.{Message, Session, tx_hwm_bytes, send_msg, returns}
use tcp_simple_chat.FramedServer.{Server, snapshot, stuck, deliver, broadcast_msg}
use tcp_simple_chat.FramedServer.Broadcast.{send_msg-full, contains-snapshot}

send_msg-inactive : (s : Session) (msg : Message) → s.active ≡ false → send_msg s msg ≡ returns s
unfolding send_msg
send_msg-inactive s msg off = ground arith

update-same : (h : ℕ → Session) (p : ℕ) → update h p (h p) ≡ h
update-same h p = fun_ext λ k. elim (Bool-cases (k == p)) [
  | inl e ↦ let e' : p ≡ k = ground arith in rw e (ap h e')
  | inr e ↦ rw e refl
]

deliver-oversized :
    (ps : List ℕ) (msg : Message) (h : ℕ → Session) (q : ℕ)
    → ((k : ℕ) → (h k).tx_bytes_queued ≤ tx_hwm_bytes)
    → tx_hwm_bytes < length msg
    → length msg ≤ max_payload
    → contains ps q ≡ true
    → (h q).active ≡ true
    → (k : ℕ) × (rest : List ℕ) × (deliver ps msg h ≡ stuck k rest h) × ((h k).active ≡ true)
unfolding deliver
deliver-oversized [] msg h q small big fits there on = absurd (ground arith)
deliver-oversized (p ∷ ps) msg h q small big fits there on = elim (Bool-cases (h p).active) [
  | inl live ↦
      let full = send_msg-full (h p) msg live (omega arith) (omega (arith, small p)) in
      (p, ps, rw (full, deliver) refl, live)
  | inr off ↦
      let other : contains ps q ≡ true = elim (Bool-cases (q == p)) [
        | inl e ↦
            let e' : q ≡ p = ground arith in absurd (ground (arith, ap (λ i. (h i).active) e'))
        | inr e ↦ ground arith
      ] in
      let (k, rest, run, live) = deliver-oversized ps msg h q small big fits other on in
      (
        k,
        rest,
        rw (send_msg-inactive (h p) msg off, deliver) (ap (deliver ps msg) (update-same h p) ∙ run),
        live,
      )
]

module _ (net : Net) (s : ℕ) (unread : net.World → List ℕ) (retries : net.World → ℕ)
    (ordered : ReceivesInOrder net s unread retries) (host : Host) (up : StaysUp net s unread)
    (order : IsNetworkOrder host) where
  open net use {World}

  -- A frame of more than 256 KiB and at most 1 MiB arrives on a connection that stays up, fuel is
  -- given, and no session has more than 256 KiB queued, as in every reachable state. Then
  -- `recv_frame` accepts it; and where another client is active, `BroadcastMsg` of the message waits
  -- in `SendMsg` of an active session, and no session has got the message, however empty the queues.
  pub broadcast_msg-oversized :
      (fuel : ℕ) (w : World) (p rest : List ℕ) (server : Server) (sender q : ℕ)
      → unread w ≡ frame p ++ rest
      → max_payload + retries w < fuel
      → tx_hwm_bytes < length p
      → length p ≤ max_payload
      → ((k : ℕ) → (server.sessions k).tx_bytes_queued ≤ tx_hwm_bytes)
      → contains server.clients q ≡ true
      → (q == sender) ≡ false
      → (server.sessions q).active ≡ true
      → (w' : World) × (k : ℕ) × (others : List ℕ) × (recv_frame net s host fuel w
          ≡ some (true, p, w'))
        × (broadcast_msg server p sender ≡ stuck k others server.sessions)
        × ((server.sessions k).active ≡ true)
  unfolding broadcast_msg
  broadcast_msg-oversized fuel w p rest server sender q arrives f big fits small there other on =
      let (w', run, left, fewer) =
        recv_frame-frame net s unread retries ordered host up order fuel w p rest fits arrives f in
      let (k, others, waiting, live) =
        deliver-oversized (snapshot sender server.clients) p server.sessions q small big fits
          (ground (arith, contains-snapshot sender server.clients q)) on in
      (w', k, others, run, waiting, live)
