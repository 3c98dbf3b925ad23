-- ===== src/Tests/Framing.antt =====
-- Protocols/Framing/Shared/Framing.cpp at concrete inputs.
use tcp_simple_chat.Base.{◌≤◌, ◌≡◌, refl, [], ◌∷◌, true, false, some, arith}
use tcp_simple_chat.Framing.{
  recv_all, send_all, send_frame, recv_frame, recv_payload, after_recv, after_send, send_payload,
  resized, recv_sized,
}
use tcp_simple_chat.Framing.RoundTrip.{Frame, recv_frame-Frame, recv_frame-frame}
use tcp_simple_chat.Tests.Pipe.{
  Wire, pipe, wire_unread, wire_interruptions, pipe-ReceivesInOrder, pipe-StaysUp, little_host,
  big_host, little_host-IsNetworkOrder,
}

-- A frame with the payload 7 8 9, and the beginning of the next header.
abbrev arriving : Wire
arriving = record {
  unread = 0 ∷ 0 ∷ 0 ∷ 3 ∷ 7 ∷ 8 ∷ 9 ∷ 0 ∷ 0 ∷ [];
  written = [];
  interruptions = 2;
}

send_frame_run :
    send_frame pipe 5 little_host 100
      (record { unread = []; written = []; interruptions = 1 })
      (7 ∷ 8 ∷ 9 ∷ [])
    ≡ some
        (true, record { unread = []; written = 0 ∷ 0 ∷ 0 ∷ 3 ∷ 7 ∷ 8 ∷ 9 ∷ []; interruptions = 0 })
unfolding send_frame send_payload send_all after_send
send_frame_run = refl

recv_frame_run :
    recv_frame pipe 5 big_host 100 arriving
    ≡ some (true, 7 ∷ 8 ∷ 9 ∷ [], record { unread = 0 ∷ 0 ∷ []; written = []; interruptions = 0 })
unfolding recv_frame recv_sized recv_payload resized recv_all after_recv
recv_frame_run = refl

send_frame_empty : send_frame pipe 5 little_host 100 arriving [] ≡ some (false, arriving)
unfolding send_frame
send_frame_empty = refl

recv_frame-Frame_example :
    Frame pipe 5 wire_unread wire_interruptions
      (pipe-ReceivesInOrder 5)
      little_host
      arriving
      (recv_frame pipe 5 little_host 2_000_000 arriving)
recv_frame-Frame_example =
    recv_frame-Frame pipe 5 wire_unread wire_interruptions (pipe-ReceivesInOrder 5) little_host
      2_000_000 arriving (omega arith)

recv_frame-frame_example :
    (w' : Wire) × (recv_frame pipe 5 little_host 2_000_000 arriving
      ≡ some (true, 7 ∷ 8 ∷ 9 ∷ [], w'))
    × (w'.unread ≡ 0 ∷ 0 ∷ [])
    × (w'.interruptions ≤ 2)
recv_frame-frame_example =
    recv_frame-frame pipe 5 wire_unread wire_interruptions (pipe-ReceivesInOrder 5) little_host
      (pipe-StaysUp 5) little_host-IsNetworkOrder 2_000_000 arriving (7 ∷ 8 ∷ 9 ∷ []) (0 ∷ 0 ∷ [])
      (omega arith) refl (omega arith)
