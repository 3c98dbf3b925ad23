-- ===== src/FramedSession/Loops.antt =====
-- `SendLoop` and `RecvLoop` of Protocols/Framing/Server/ClientSession.cpp over whole queues, and the
-- two ends of a connection together.
use mathlib.Core.List.{foldl}
use tcp_simple_chat.Base.{
  ℕ, zero, suc, ◌+◌, ◌≤◌, ◌<◌, ◌≡◌, refl, sym, ap, ◌∙◌, ◌⊎◌, inl, inr, List, [], ◌∷◌, ◌++◌, map,
  append_assoc, append-nil, Bool, true, false, Option, some, arith, length, length-append, flatten,
  subst, ◌-◌, leb, if◌then◌else◌, Bool-cases,
}
use tcp_simple_chat.Net.{Net, ReceivesInOrder, StaysUp, SendsInOrder}
use tcp_simple_chat.Framing.{Host, IsNetworkOrder, max_payload, recv_frame}
use tcp_simple_chat.Framing.Transmit.{frame, Sent, send_frame-Sent}
use tcp_simple_chat.Framing.RoundTrip.{Frame, recv_frame-Frame, recv_frame-frame}
use tcp_simple_chat.FramedSession.{
  Message, Session, Sending, blocked, left, failed, send_loop, recv_loop, after_frame,
  after_dequeue, after_message, dequeue, take_front, deactivate,
}

abbrev pub frames : List Message → List ℕ
frames ms = flatten (map frame ms)

-- Every message is one that `send_frame` sends and `recv_frame` accepts.
abbrev pub Sizes : List Message → Type 0
Sizes [] = Unit
Sizes (m ∷ ms) = ((0 < length m) × (length m ≤ max_payload)) × Sizes ms

abbrev taken : Session → Message → List Message → Session
taken s m ms = record s {
  tx_queue = ms;
  tx_bytes_queued = if leb (length m) s.tx_bytes_queued then s.tx_bytes_queued - length m else 0;
}

module _ (net : Net) (host : Host) (socket : ℕ) (written : net.World → List ℕ)
    (retries : net.World → ℕ) (ordered : SendsInOrder net socket written retries)
    (order : IsNetworkOrder host) where
  open net use {World}

  -- A run of `SendLoop` on the queue `ms`: it ends, having written the frames of the queue in
  -- order, all of them unless a send failed, and then the session is inactive.
  abbrev pub SendsAll : List Message → World → Session → Option (Sending net host socket) → Type 0
  SendsAll ms w s r =
      (end : Sending net host socket) × (s' : Session) × (w' : World) × (part : List ℕ)
      × (rest : List ℕ) × (r ≡ some end)
      × (written w' ≡ written w ++ part)
      × (frames ms ≡ part ++ rest)
      × (((end ≡ failed s' w') × (s'.active ≡ false))
          ⊎ ((rest ≡ [])
              × (s'.tx_queue ≡ [])
              × (s'.active ≡ s.active)
              × ((end ≡ blocked s' w') ⊎ (end ≡ left s' w'))))

  send_loop-idle :
      (again : World → Session → Option (Sending net host socket)) (bound : ℕ) (w : World)
      (s : Session)
      → s.tx_queue ≡ []
      → SendsAll [] w s (after_dequeue net host socket bound again w s (take_front s []))
  unfolding after_dequeue take_front
  send_loop-idle again bound w s e = elim (Bool-cases s.active) [
    | inl on ↦ (
      blocked s w,
      s,
      w,
      [],
      [],
      ground arith,
      sym (append-nil _),
      refl,
      inr (refl, e, refl, inl refl),
    )
    | inr off ↦ (
      left s w,
      s,
      w,
      [],
      [],
      ground arith,
      sym (append-nil _),
      refl,
      inr (refl, e, refl, inr refl),
    )
  ]

  after_frame-SendsAll :
      (again : World → Session → Option (Sending net host socket)) (w : World) (s : Session)
      (m : Message) (ms : List Message)
      → ((v : World) → retries v ≤ retries w → SendsAll ms v s (again v s))
      → (r : Option (Bool × World)) → Sent net socket written retries ordered (frame m) w r
      → SendsAll (m ∷ ms) w s (after_frame net host socket again s r)
  unfolding after_frame deactivate
  after_frame-SendsAll again w s m ms ih r (false, v, part, rest, run, out, split, full, fewer) =
      rw run (
        failed (deactivate s) v,
        deactivate s,
        v,
        part,
        rest ++ frames ms,
        refl,
        out,
        ap (λ l. l ++ frames ms) split ∙ append_assoc part rest (frames ms),
        inl (refl, refl),
      )
  after_frame-SendsAll again w s m ms ih r (true, v, part, rest, run, out, split, inl bad, fewer) =
      cc
  after_frame-SendsAll again w s m ms ih r (true, v, part, rest, run, out, split, inr full, fewer) =
      let whole : part ≡ frame m = sym (append-nil part) ∙ ap (◌++◌ part) (sym full) ∙ sym split in
      let (end, s', v', part', rest', run', out', split', ends) = ih v fewer in
      rw run (
        end,
        s',
        v',
        frame m ++ part',
        rest',
        run',
        out'
            ∙ ap (λ l. l ++ part') (out ∙ ap (◌++◌ (written w)) whole)
            ∙ append_assoc (written w) (frame m) part',
        ap (◌++◌ (frame m)) split' ∙ sym (append_assoc (frame m) part' rest'),
        ends,
      )

  -- `SendLoop` on a queue of messages of 1 byte to 1 MiB, given fuel, comes to rest. It wrote a first
  -- part of the messages' frames, in order. Either a send failed and the session is inactive, or
  -- all frames are written, the queue is empty and the session is as active as it was.
  pub send_loop-SendsAll :
      (fuel bound : ℕ) (w : World) (s : Session) (ms : List Message)
      → s.tx_queue ≡ ms
      → Sizes ms
      → length ms < fuel
      → max_payload + 4 + retries w < bound
      → SendsAll ms w s (send_loop net host socket fuel bound w s)
  unfolding send_loop dequeue
  send_loop-SendsAll zero bound w s ms e sizes f b = absurd (omega arith)
  send_loop-SendsAll (suc fuel) bound w s [] e sizes f b =
      subst
        (λ q. SendsAll [] w s (
          after_dequeue net host socket bound (send_loop net host socket fuel bound) w s
            (take_front s q)))
        (sym e) (send_loop-idle _ bound w s e)
  send_loop-SendsAll (suc fuel) bound w s (m ∷ ms) e sizes f b =
      subst
        (λ q. SendsAll (m ∷ ms) w s (
          after_dequeue net host socket bound (send_loop net host socket fuel bound) w s
            (take_front s q)))
        (sym e)
        (after_frame-SendsAll (send_loop net host socket fuel bound) w (taken s m ms) m ms
          (λ v fewer.
            send_loop-SendsAll fuel bound v (taken s m ms) ms refl sizes.1 (omega arith)
              (omega arith))
          _
          (send_frame-Sent net socket written retries ordered host order bound w m (sizes.0.0)
            (omega arith) (omega arith)))

module _ (net : Net) (host : Host) (socket : ℕ) (unread : net.World → List ℕ)
    (retries : net.World → ℕ) (ordered : ReceivesInOrder net socket unread retries)
    (up : StaysUp net socket unread) (order : IsNetworkOrder host) (S : Type 0)
    (is_active : S → Bool) (broadcast : S → Message → S)
    (stays : (st : S) (m : Message) → is_active st ≡ true → is_active (broadcast st m) ≡ true) where
  open net use {World}

  recv_loop-ends :
      (again : World → S → Option (S × World)) (bound : ℕ) (w : World) (st : S)
      → unread w ≡ []
      → max_payload + retries w < bound
      → (w' : World) × (after_message net host socket S is_active broadcast again st
            (recv_frame net socket host bound w)
          ≡ some (st, w'))
  unfolding after_message
  recv_loop-ends again bound w st e b =
      go (recv_frame-Frame net socket unread retries ordered host bound w b)
    where
      go :
          Frame net socket unread retries ordered host w (recv_frame net socket host bound w)
          → (w' : World) × (after_message net host socket S is_active broadcast again st
                (recv_frame net socket host bound w)
              ≡ some (st, w'))
      go (false, out, v, run, _, _) = (v, rw (run, after_message))
      go (true, out, v, run, (header, split, four, _, _), _) =
          absurd (omega (arith, ap length (sym e ∙ split), length-append header (out ++ unread v)))

  -- `RecvLoop` on a connection that stays up and brings the frames of `ms` and then the close:
  -- given fuel, it broadcasts exactly the messages of `ms`, in order, and ends.
  pub recv_loop-foldl :
      (fuel bound : ℕ) (w : World) (st : S) (ms : List Message)
      → unread w ≡ frames ms
      → Sizes ms
      → is_active st ≡ true
      → length ms < fuel
      → max_payload + retries w < bound
      → (w' : World) × (recv_loop net host socket S is_active broadcast fuel bound w st
          ≡ some (foldl broadcast st ms, w'))
  unfolding recv_loop
  recv_loop-foldl zero bound w st ms e sizes on f b = absurd (omega arith)
  recv_loop-foldl (suc fuel) bound w st [] e sizes on f b =
      rw (on, recv_loop)
        (recv_loop-ends (recv_loop net host socket S is_active broadcast fuel bound) bound w st e b)
  recv_loop-foldl (suc fuel) bound w st (m ∷ ms) e sizes on f b =
      let (v, run, rest, fewer) =
        recv_frame-frame net socket unread retries ordered host up order bound w m (frames ms)
          sizes.0.1 e b in
      let (v', run') =
        recv_loop-foldl fuel bound v (broadcast st m) ms rest sizes.1 (stays st m on) (omega arith)
          (omega arith) in
      (v', rw (on, recv_loop, run, after_message) run')
