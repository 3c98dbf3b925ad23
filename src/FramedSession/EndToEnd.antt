-- ===== src/FramedSession/EndToEnd.antt =====
-- The two ends of a connection of Protocols/Framing: `SendLoop` at one, `RecvLoop` at the other.
use mathlib.Core.List.{foldl}
use tcp_simple_chat.Base.{
  ℕ, ◌+◌, ◌<◌, ◌≡◌, refl, sym, ◌∙◌, ◌⊎◌, List, ◌++◌, append-nil, Bool, true, some, arith, length,
  append-cancel,
}
use tcp_simple_chat.Net.{Net, ReceivesInOrder, StaysUp, SendsInOrder}
use tcp_simple_chat.Framing.{Host, IsNetworkOrder, max_payload}
use tcp_simple_chat.FramedSession.{Message, Session, blocked, left, send_loop, recv_loop}
use tcp_simple_chat.FramedSession.Loops.{frames, Sizes, send_loop-SendsAll, recv_loop-foldl}

module _ (net : Net) (host : Host) (socket : ℕ) (written : net.World → List ℕ)
    (retries : net.World → ℕ) (ordered : SendsInOrder net socket written retries)
    (order : IsNetworkOrder host) where
  open net use {World}

  -- A run of `SendLoop` that did not fail wrote the frames of its whole queue.
  sends_all :
      (fuel bound : ℕ) (w : World) (s s' : Session) (w' : World)
      → Sizes s.tx_queue
      → length s.tx_queue < fuel
      → max_payload + 4 + retries w < bound
      → (send_loop net host socket fuel bound w s ≡ some (blocked s' w'))
        ⊎ (send_loop net host socket fuel bound w s ≡ some (left s' w'))
      → written w' ≡ written w ++ frames s.tx_queue
  sends_all fuel bound w s s' w' sizes f b e =
      let (end, t, v, part, rest, run, out, split, ends) =
        send_loop-SendsAll net host socket written retries ordered order fuel bound w s s.tx_queue
          refl sizes f b in
      ground (arith, append-nil part)

module _ (net : Net) (host : Host) (socket : ℕ) (written : net.World → List ℕ)
    (tries : net.World → ℕ) (sends : SendsInOrder net socket written tries)
    (order : IsNetworkOrder host) (net' : Net) (host' : Host) (socket' : ℕ)
    (unread : net'.World → List ℕ) (tries' : net'.World → ℕ)
    (receives : ReceivesInOrder net' socket' unread tries') (up : StaysUp net' socket' unread)
    (order' : IsNetworkOrder host') (S : Type 0) (is_active : S → Bool)
    (broadcast : S → Message → S)
    (stays : (st : S) (m : Message) → is_active st ≡ true → is_active (broadcast st m) ≡ true) where
  -- Two hosts, of whatever byte order, with a connection that stays up. A run of `SendLoop` that did
  -- not fail put some bytes on the wire; where `RecvLoop` at the other end reads those bytes and then
  -- the close, in pieces of whatever size, it broadcasts exactly the messages of the sender's queue,
  -- in order, with their boundaries, and ends. The messages have 1 byte to 1 MiB, fuel is given, and
  -- broadcasting leaves the receiving session active.
  pub recv_loop-send_loop :
      (fuel bound : ℕ) (w w' : net.World) (s s' : Session) (v : net'.World) (st : S) (wire : List ℕ)
      → Sizes s.tx_queue
      → length s.tx_queue < fuel
      → max_payload + 4 + tries w < bound
      → max_payload + tries' v < bound
      → is_active st ≡ true
      → (send_loop net host socket fuel bound w s ≡ some (blocked s' w'))
        ⊎ (send_loop net host socket fuel bound w s ≡ some (left s' w'))
      → written w' ≡ written w ++ wire
      → unread v ≡ wire
      → (v' : net'.World) × (recv_loop net' host' socket' S is_active broadcast fuel bound v st
          ≡ some (foldl broadcast st s.tx_queue, v'))
  recv_loop-send_loop fuel bound w w' s s' v st wire sizes f b b' on run out same =
      let wrote =
        sends_all net host socket written tries sends order fuel bound w s s' w' sizes f b run in
      let bytes : wire ≡ frames s.tx_queue =
        (append-cancel (written w) (written w) wire (frames s.tx_queue) refl (sym out ∙ wrote)).1 in
      recv_loop-foldl net' host' socket' unread tries' receives up order' S is_active broadcast
        stays fuel bound v st s.tx_queue (same ∙ bytes) sizes on f b'
