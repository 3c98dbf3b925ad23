-- ===== src/Framing/RoundTrip.antt =====
-- `recv_frame` of Protocols/Framing/Shared/Framing.cpp, against the frames that `send_frame` writes.
use tcp_simple_chat.Base.{
  ℕ, ◌+◌, ◌-◌, ◌^◌, ◌≤◌, ◌<◌, ◌≡◌, refl, sym, ap, ◌∙◌, inl, inr, List, [], ◌∷◌, ◌++◌, append_assoc,
  append-nil, Bool, true, false, Option, some, arith, length, length-append, replicate,
  append-cancel, ltb, ◌==◌, Bool-cases,
}
use tcp_simple_chat.Net.{Net, ReceivesInOrder, StaysUp}
use tcp_simple_chat.Framing.{
  Host, IsNetworkOrder, big_endian, max_payload, recv_all, resized, recv_payload, recv_sized,
  recv_frame,
}
use tcp_simple_chat.Framing.Receive.{Received, recv_all-Received, recv_all-ReceivedAll}
use tcp_simple_chat.Framing.Transmit.{frame}

no_padding :
    (out : List ℕ) (size : ℕ) → length out ≡ size → out ++ replicate (size - length out) 0 ≡ out
no_padding out size e =
    let none_left : size - length out ≡ 0 = omega arith in rw none_left (append-nil out)

module _ (net : Net) (s : ℕ) (unread : net.World → List ℕ) (retries : net.World → ℕ)
    (ordered : ReceivesInOrder net s unread retries) (host : Host) where
  open net use {World}

  -- What `recv_frame` accepts: a header, and as many bytes as it announces, at most 1 MiB.
  abbrev pub Accepts : World → Bool → List ℕ → World → Type 0
  Accepts w false out w' = Unit
  Accepts w true out w' =
      (header : List ℕ) × (unread w ≡ header ++ (out ++ unread w'))
      × (length header ≡ 4)
      × (host.ntohl (host.load header) ≡ length out)
      × (length out ≤ max_payload)

  abbrev pub Frame : World → Option (Bool × List ℕ × World) → Type 0
  Frame w r =
      (ok : Bool) × (out : List ℕ) × (w' : World) × (r ≡ some (ok, out, w'))
      × Accepts w ok out w'
      × (retries w' ≤ retries w)

  recv_payload-Frame :
      (fuel : ℕ) (w v : World) (header : List ℕ)
      → unread w ≡ header ++ unread v
      → length header ≡ 4
      → retries v ≤ retries w
      → max_payload + retries w < fuel
      → Frame w (recv_payload net s host fuel (host.ntohl (host.load header)) v)
  unfolding recv_payload resized
  recv_payload-Frame fuel w v header e n tries f = elim (Bool-cases (ltb max_payload size)) [
    | inl big ↦ rw big (false, [], v, refl, tt, tries)
    | inr fits ↦ elim (Bool-cases (size == 0)) [
      | inl empty ↦
          rw (fits, empty) (true, [], v, refl, (header, e, n, ground arith, omega arith), tries)
      | inr some' ↦
          rw (fits, some')
            (filled
              (recv_all-Received net s unread retries ordered fuel v [] size (omega arith)
                (ground arith))
              (ground arith))
    ]
  ]
    where
      size : ℕ
      size = host.ntohl (host.load header)

      filled :
          Received net s unread retries ordered size [] v (recv_all net s fuel v [] size)
          → size ≤ max_payload
          → Frame w (resized net s host size (recv_all net s fuel v [] size))
      filled (false, out, v', run, kept, small, full, fewer) fits =
          rw (run, resized) (false, _, v', refl, tt, omega arith)
      filled (true, out, v', run, kept, small, inl bad, fewer) fits = cc
      filled (true, out, v', run, kept, small, inr full, fewer) fits =
          rw (run, resized)
            (
              true,
              out,
              v',
              ap (λ l. some (true, l, v')) (no_padding out size full),
              (header, e ∙ ap (◌++◌ header) kept, n, sym full, omega arith),
              omega arith,
            )

  -- Whatever the peer sends, `recv_frame` ends when fuel is given for 1 MiB, the header and the
  -- retries. If it returns true, it read a header of four bytes and then exactly the number of
  -- bytes that the header announces, at most 1 MiB, and nothing beyond them.
  pub recv_frame-Frame :
      (fuel : ℕ) (w : World)
      → max_payload + retries w < fuel
      → Frame w (recv_frame net s host fuel w)
  unfolding recv_frame recv_sized
  recv_frame-Frame fuel w f =
      sized (recv_all-Received net s unread retries ordered fuel w [] 4 (omega arith) (omega arith))
    where
      sized :
          Received net s unread retries ordered 4 [] w (recv_all net s fuel w [] 4)
          → Frame w (recv_sized net s host fuel (recv_all net s fuel w [] 4))
      sized (false, out, v, run, kept, small, full, fewer) =
          rw (run, recv_sized) (false, [], v, refl, tt, fewer)
      sized (true, out, v, run, kept, small, inl bad, fewer) = cc
      sized (true, out, v, run, kept, small, inr full, fewer) =
          rw (run, recv_sized) (recv_payload-Frame fuel w v out kept full fewer f)

  module _ (up : StaysUp net s unread) (order : IsNetworkOrder host) where
    header_read :
        (fuel : ℕ) (w : World) (n : ℕ) (rest : List ℕ)
        → n < 2 ^ 32
        → unread w ≡ big_endian n ++ rest
        → 4 + retries w < fuel
        → (v : World) × (recv_frame net s host fuel w ≡ recv_payload net s host fuel n v)
          × (unread v ≡ rest)
          × (retries v ≤ retries w)
    unfolding recv_frame recv_sized
    header_read fuel w n rest small e f =
        let long : 4 ≤ 0 + length (unread w) = rw e (omega arith) in
        let (out, v, run, kept, full, fewer) =
          recv_all-ReceivedAll net s unread retries ordered up fuel w [] 4 (omega arith) long
            (omega arith) in
        let (header, left) =
          append-cancel out (big_endian n) (unread v) rest (omega arith) (sym kept ∙ e) in
        (v, rw (run, recv_sized, header, order.ntohl-load n small), left, fewer)

    -- A frame that announces more than 1 MiB is refused: `recv_frame` returns false, and the
    -- payload stays in the stream, where it would be read as the next header.
    pub recv_frame-oversized :
        (fuel : ℕ) (w : World) (p rest : List ℕ)
        → max_payload < length p
        → length p < 2 ^ 32
        → unread w ≡ frame p ++ rest
        → 4 + retries w < fuel
        → (w' : World) × (recv_frame net s host fuel w ≡ some (false, [], w'))
          × (unread w' ≡ p ++ rest)
    unfolding recv_payload
    recv_frame-oversized fuel w p rest big small e f =
        let (v, run, left, _) =
          header_read fuel w (length p) (p ++ rest) small
            (e ∙ append_assoc (big_endian (length p)) p rest) f in
        (v, ground arith, left)

    -- The bytes of a frame, an empty one too, give the payload back, and the stream stands at
    -- what follows.
    pub recv_frame-frame :
        (fuel : ℕ) (w : World) (p rest : List ℕ)
        → length p ≤ max_payload
        → unread w ≡ frame p ++ rest
        → max_payload + retries w < fuel
        → (w' : World) × (recv_frame net s host fuel w ≡ some (true, p, w'))
          × (unread w' ≡ rest)
          × (retries w' ≤ retries w)
    unfolding recv_payload resized
    recv_frame-frame fuel w [] rest small e f =
        let (v, run, left, fewer) = header_read fuel w 0 rest (omega arith) e (omega arith) in
        (v, run, left, fewer)
    recv_frame-frame fuel w (b ∷ bs) rest small e f =
        let p = b ∷ bs in
        let (v, run, left, fewer) =
          header_read fuel w (length p) (p ++ rest) (omega arith) e (omega arith) in
        let (out, v', run', kept, full, fewer') =
          recv_all-ReceivedAll net s unread retries ordered up fuel v [] (length p) (omega arith)
            (omega (arith, ap length left, length-append p rest)) (omega arith) in
        let (same, left') = append-cancel out p (unread v') rest full (sym kept ∙ left) in
        (v', run ∙ ground (arith, run', same, no_padding out (length p) full), left', omega arith)
