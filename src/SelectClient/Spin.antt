-- ===== src/SelectClient/Spin.antt =====
-- `RunEventLoop` of NetworkBasics/select/Client/ChatClient.cpp when the server closed the connection.
use tcp_simple_chat.Base.{ℕ, zero, suc, not, ◌≡◌, refl, ap, ◌∙◌, [], Bool, true, false, replicate}
use tcp_simple_chat.Net.{Net, RecvResult, got}
use tcp_simple_chat.SelectClient.{
  Client, Code, closed_by_peer, is_error, left, recv_buf, after_recv, receive_loop, receive_msg,
  handle_ready_receivers, handle_ready_writers, round, ready, Ran, goes_on, run_event_loop,
}

abbrev pub active : Client → Client
active c = record c { is_active = true }

module _ (net : Net) where
  open net use {World, recv}

  receive_loop-closed :
      (reads s : ℕ) (c : Client) (w : World)
      → recv w s recv_buf ≡ (got [], w)
      → receive_loop net (suc reads) s c w ≡ (closed_by_peer, c, w)
  unfolding receive_loop after_recv
  receive_loop-closed reads s c w closed =
      ap (λ (r : RecvResult × World). after_recv net (receive_loop net reads s) c r.0 r.1) closed

  receive_msg-closed :
      (s : ℕ) (c : Client) (w : World)
      → recv w s recv_buf ≡ (got [], w)
      → receive_msg net s c w ≡ (closed_by_peer, c, w)
  unfolding receive_msg
  receive_msg-closed s c w closed = receive_loop-closed 19 s c w closed

  round-closed :
      (s : ℕ) (c : Client) (w : World)
      → recv w s recv_buf ≡ (got [], w)
      → round net true false s c w ≡ (true, c, w)
  unfolding round handle_ready_receivers handle_ready_writers
  round-closed s c w closed =
      ap
        (λ (r : Code × Client × World). elim (not (is_error r.0)) as (λ _. Bool × Client × World) [
          | false ↦ (false, r.1, r.2)
          | true ↦ (true, r.1, r.2)
        ])
        (receive_msg-closed s c w closed)

  -- After the server closed the connection `recv` returns 0 in every round, and the loop never ends by
  -- itself: for each number of rounds, an active client in the state of the start still goes on, with
  -- nothing changed. `ReceiveMsg` returns 0 and `HandleReadyReceivers` only stops on -1.
  pub run_event_loop-goes_on :
      (s : ℕ) (c : Client) (w : World) (rounds : ℕ)
      → recv w s recv_buf ≡ (got [], w)
      → run_event_loop net s (replicate rounds (ready true false)) (active c) w
        ≡ goes_on (active c) w
  unfolding run_event_loop
  run_event_loop-goes_on s c w zero closed = refl
  run_event_loop-goes_on s c w (suc rounds) closed =
      ap
        (λ (r : Bool × Client × World). elim r.0 as (λ _. Ran net) [
          | false ↦ left r.1 r.2
          | true ↦ run_event_loop net s (replicate rounds (ready true false)) r.1 r.2
        ])
        (round-closed s (active c) w closed)
      ∙ run_event_loop-goes_on s c w rounds closed
