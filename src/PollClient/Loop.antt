-- ===== src/PollClient/Loop.antt =====
-- `RunLoop` of NetworkBasics/poll/Client/ChatClient.cpp ends.
use tcp_simple_chat.Base.{
  ℕ, zero, suc, ◌≤◌, ◌<◌, ◌≡◌, refl, sym, subst, inl, inr, List, [], ◌∷◌, Bool, true, false, not,
  ◌&&◌, ◌||◌, Option, some, arith, Bool-cases, NonEmpty, NonEmpty-snoc,
}
use tcp_simple_chat.Net.{Net, RecvResult, got, recv_failed, would_block, interrupted, fault}
use tcp_simple_chat.Epoll.{Message}
use tcp_simple_chat.Epoll.Invariant.{write-NonEmpty}
use tcp_simple_chat.Epoll.Runs.{Drains}
use tcp_simple_chat.Epoll.Handlers.{write-total}
use tcp_simple_chat.PollClient.{
  Client, Event, send_msg, send_each, set_poll_events, after_recv, read, write, after_read,
  handle_connection, Wait, ready, timed_out, wait_failed, Turn, polled, asked, after_poll, run_loop,
}

send_msg-NonEmpty :
    (c : Client) (m : Message) → NonEmpty c.send_queue → NonEmpty (send_msg c m).send_queue
unfolding send_msg
send_msg-NonEmpty c [] v = v
send_msg-NonEmpty c (b ∷ bs) v = NonEmpty-snoc c.send_queue (b ∷ bs) v (omega arith)

send_each-NonEmpty :
    (ms : List Message) (c : Client) → NonEmpty c.send_queue → NonEmpty (send_each ms c).send_queue
unfolding send_each
send_each-NonEmpty [] c v = v
send_each-NonEmpty (m ∷ ms) c v = send_each-NonEmpty ms (send_msg c m) (send_msg-NonEmpty c m v)

module _ (net : Net) where
  -- What `poll` gives makes the loop end: the call failed, or the socket did.
  abbrev fails : Wait net → Bool
  fails timed_out = false
  fails (wait_failed interrupted) = false
  fails (wait_failed other) = true
  fails (ready ev) = ev.failed

  abbrev pub any_fails : List (Turn net) → Bool
  any_fails [] = false
  any_fails (t ∷ turns) = fails t.wait || any_fails turns

module _ (net : Net) (total : net.World → ℕ) (drains : Drains net total) where
  open net use {World, recv}

  -- A handler ends, with no more bytes to come and no empty message in the queue.
  abbrev Handled : World → Option (Bool × Client × World) → Type 0
  Handled w r =
      (ok : Bool) × (c : Client) × (w' : World) × (r ≡ some (ok, c, w'))
      × (total w' ≤ total w)
      × NonEmpty c.send_queue

  Handled-later :
      {w v : World} {r : Option (Bool × Client × World)}
      → total v ≤ total w
      → Handled v r
      → Handled w r
  Handled-later le (ok, c, w', e, le', v) = (ok, c, w', e, omega arith, v)

  after_recv-Handled :
      (again : Client → World → Option (Bool × Client × World)) (c : Client) (w w' : World)
      (r : RecvResult) (len s bound : ℕ)
      → ((c' : Client) (v : World)
          → total v < bound
          → NonEmpty c'.send_queue
          → Handled v (again c' v))
      → recv w s len ≡ (r, w')
      → total w < suc bound
      → NonEmpty c.send_queue
      → Handled w' (after_recv net again c r w')
  unfolding after_recv
  after_recv-Handled again c w w' (got []) len s bound ih e f v =
      (false, c, w', refl, omega arith, v)
  after_recv-Handled again c w w' (got (b ∷ bs)) len s bound ih e f v =
      let lt = drains.recv_lt w w' s len b bs e in ih _ w' (omega (arith, lt)) v
  after_recv-Handled again c w w' (recv_failed would_block) len s bound ih e f v =
      (true, c, w', refl, omega arith, v)
  after_recv-Handled again c w w' (recv_failed interrupted) len s bound ih e f v =
      (false, c, w', refl, omega arith, v)
  after_recv-Handled again c w w' (recv_failed fault) len s bound ih e f v =
      (false, c, w', refl, omega arith, v)

  read-Handled :
      (fuel fd : ℕ) (c : Client) (w : World)
      → total w < fuel
      → NonEmpty c.send_queue
      → Handled w (read net fuel fd c w)
  unfolding read
  read-Handled zero fd c w f v = absurd (omega arith)
  read-Handled (suc fuel) fd c w f v = Handled-later (drains.recv_le w _ fd 4096 _ refl) (
      after_recv-Handled (read net fuel fd) c w _ _ 4096 fd fuel
        (λ c' u less full. read-Handled fuel fd c' u less full) refl f v)

  write-Handled :
      (fd : ℕ) (c : Client) (w : World)
      → NonEmpty c.send_queue
      → Handled w (some (write net fd c w))
  unfolding write
  write-Handled fd c w v = (
    _,
    _,
    _,
    refl,
    write-total net total drains fd w c.send_queue,
    write-NonEmpty net fd w c.send_queue v,
  )

  after_read-Handled :
      (fd : ℕ) (writable : Bool) (w : World) (r : Option (Bool × Client × World))
      → Handled w r
      → Handled w (after_read net fd writable r)
  unfolding after_read
  after_read-Handled fd writable w r (false, c, w', e, le, v) =
      rw (e, after_read) (false, c, w', refl, le, v)
  after_read-Handled fd false w r (true, c, w', e, le, v) =
      rw (e, after_read) (true, c, w', refl, le, v)
  after_read-Handled fd true w r (true, c, w', e, le, v) =
      rw (e, after_read) (Handled-later le (write-Handled fd c w' v))

  handle_connection-Handled :
      (fuel fd : ℕ) (ev : Event) (c : Client) (w : World)
      → total w < fuel
      → NonEmpty c.send_queue
      → Handled w (handle_connection net fuel fd ev c w)
  unfolding handle_connection
  handle_connection-Handled fuel fd ev c w f v = elim (Bool-cases ev.failed) [
    | inl e ↦ rw (e, handle_connection) (false, c, w, refl, omega arith, v)
    | inr e ↦ elim (Bool-cases ev.readable) [
      | inl reads ↦
          rw (e, handle_connection)
            (rw (reads, handle_connection)
              (after_read-Handled fd ev.writable w (read net fuel fd c w)
                (read-Handled fuel fd c w f v)))
      | inr idle ↦
          rw (e, handle_connection)
            (rw (idle, handle_connection)
              (after_read-Handled fd ev.writable w (some (true, c, w))
                (true, c, w, refl, omega arith, v)))
    ]
  ]

  handle_connection-failed :
      (fuel fd : ℕ) (ev : Event) (c : Client) (w : World)
      → ev.failed ≡ true
      → handle_connection net fuel fd ev c w ≡ some (false, c, w)
  unfolding handle_connection
  handle_connection-failed fuel fd ev c w e = rw (e, handle_connection) refl

  -- The run of the loop so far has a result, with no more bytes to come and no empty message in the
  -- queue; where `failed` is set, the loop was left.
  abbrev pub Ran : Bool → World → Option (Bool × Client × World) → Type 0
  Ran failed w r =
      (left : Bool) × (c : Client) × (w' : World) × (r ≡ some (left, c, w'))
      × (total w' ≤ total w)
      × NonEmpty c.send_queue
      × ((failed && not left) ≡ false)

  Ran-later :
      (failed : Bool) {w v : World} {r : Option (Bool × Client × World)}
      → total v ≤ total w
      → Ran failed v r
      → Ran failed w r
  Ran-later failed le (left, c, w', e, le', v, t) = (left, c, w', e, omega arith, v, t)

  -- The loop was left.
  left_loop :
      {w v : World} {r : Option (Bool × Client × World)} (failed : Bool) (c : Client)
      → r ≡ some (true, c, v)
      → total v ≤ total w
      → NonEmpty c.send_queue
      → Ran failed w r
  left_loop failed c e le v = (true, c, _, e, le, v, ground arith)

  polled-NonEmpty :
      (t : Turn net) (c : Client) → NonEmpty c.send_queue → NonEmpty (polled net t c).send_queue
  unfolding set_poll_events
  polled-NonEmpty t c v = send_each-NonEmpty t.meanwhile _ (send_each-NonEmpty t.earlier c v)

  after_poll-Ran :
      (again : Client → World → Option (Bool × Client × World)) (fuel fd : ℕ) (failed : Bool)
      → ((c : Client) (w : World)
          → total w < fuel
          → NonEmpty c.send_queue
          → Ran failed w (again c w))
      → (wait : Wait net) (c : Client) (w : World) → total w < fuel
      → NonEmpty c.send_queue
      → Ran (fails net wait || failed) w (after_poll net again fuel fd wait c w)
  unfolding after_poll
  after_poll-Ran again fuel fd failed ih timed_out c w f v = ih c w f v
  after_poll-Ran again fuel fd failed ih (wait_failed interrupted) c w f v = ih c w f v
  after_poll-Ran again fuel fd failed ih (wait_failed would_block) c w f v =
      left_loop true c refl (omega arith) v
  after_poll-Ran again fuel fd failed ih (wait_failed fault) c w f v =
      left_loop true c refl (omega arith) v
  after_poll-Ran again fuel fd failed ih (ready ev) c w f v = elim (Bool-cases ev.failed) [
    | inl e ↦
        rw (handle_connection-failed fuel fd (asked net ev c) c w e, after_poll)
          (left_loop (ev.failed || failed) c refl (omega arith) v)
    | inr e ↦
        let (ok, c', w', e', le, v') = handle_connection-Handled fuel fd (asked net ev c) c w f v in
        let r = after_poll net again fuel fd (ready ev) c w in
        let r-Ran : Ran failed w r = elim (Bool-cases ok) [
          | inl go ↦
              rw (e', after_poll)
                (rw (go, after_poll) (Ran-later failed le (ih c' w' (omega arith) v')))
          | inr over ↦ rw (e', after_poll) (rw (over, after_poll) (left_loop failed c' refl le v'))
        ] in
        subst (λ b. Ran (b || failed) w r) (sym e) r-Ran
  ]

  -- With more fuel than the bytes that the server will still send the loop has a result for the given
  -- turns, with no empty message in its queue, so `send` is never asked for 0 bytes, whose result 0
  -- would close the connection. Where `poll` or the socket failed in a turn, the loop was left.
  pub run_loop-Ran :
      (fuel fd : ℕ) (turns : List (Turn net)) (c : Client) (w : World)
      → total w < fuel
      → NonEmpty c.send_queue
      → Ran (any_fails net turns) w (run_loop net fuel fd turns c w)
  unfolding run_loop
  run_loop-Ran fuel fd [] c w f v = (not c.running, c, w, refl, omega arith, v, refl)
  run_loop-Ran fuel fd (t ∷ turns) c w f v = elim (Bool-cases c.running) [
    | inr e ↦ rw (e, run_loop) (left_loop (any_fails net (t ∷ turns)) c refl (omega arith) v)
    | inl e ↦
        rw (e, run_loop)
          (after_poll-Ran (run_loop net fuel fd turns) fuel fd (any_fails net turns)
            (λ c' u less full. run_loop-Ran fuel fd turns c' u less full) t.wait (polled net t c) w
            f (polled-NonEmpty t c v))
  ]
