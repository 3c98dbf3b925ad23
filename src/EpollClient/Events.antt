-- ===== src/EpollClient/Events.antt =====
-- The handlers and the loop of NetworkBasics/epoll/Client/ChatClient.cpp.
use tcp_simple_chat.Base.{
  is_empty, ℕ, zero, suc, List, [], ◌∷◌, ◌++◌, Bool, true, false, Option, none, some, length, drop,
  ltb,
}
use tcp_simple_chat.Net.{
  Net, RecvResult, got, recv_failed, SendResult, sent, send_failed, Errno, would_block, interrupted,
}
use tcp_simple_chat.EpollClient.{
  Message, Event, Client, lock, unlock, mod_writable, Leaves, Handled, returns, partly, handled,
  deadlocked, no_fuel,
}

module _ (net : Net) where
  open net use {World, recv, send}

  unfoldable pub after_send :
      (World → Leaves × List Message × World)
      → Message
      → List Message
      → SendResult
      → World
      → Leaves × List Message × World
  after_send again msg rest (sent zero) w = (returns false, msg ∷ rest, w)
  after_send again msg rest (sent (suc n)) w = elim (ltb (suc n) (length msg)) [
    | true ↦ (partly, drop (suc n) msg ∷ rest, w)
    | false ↦ again w
  ]
  after_send again msg rest (send_failed would_block) w = (returns true, msg ∷ rest, w)
  after_send again msg rest (send_failed other) w = (returns false, msg ∷ rest, w)

  -- The loop of `Write`.
  unfoldable pub write_loop : ℕ → World → List Message → Leaves × List Message × World
  unfolding after_send
  write_loop fd w [] = (returns true, [], w)
  write_loop fd w (msg ∷ rest) =
      let (r, w') = send w fd msg in after_send (λ v. write_loop fd v rest) msg rest r w'

  -- `Write` after its loop, with the mutex held.
  unfoldable pub after_loop : Client → World → Leaves → Handled World
  unfolding mod_writable
  after_loop c w (returns ok) = handled ok (unlock c) w
  after_loop c w partly = elim (mod_writable true c) [
    | none ↦ deadlocked c w
    | some c' ↦ handled true (unlock c') w
  ]

  unfoldable pub write : ℕ → Client → World → Handled World
  unfolding lock after_loop
  write fd c w = elim (lock c) [
    | none ↦ deadlocked c w
    | some c' ↦
        let (leaves, q, w') = write_loop fd w c'.send_queue in
        after_loop (record c' { send_queue = q }) w' leaves
  ]

  abbrev pub recv_buf : ℕ
  recv_buf = 4096

  unfoldable pub after_recv :
      (Client → World → Option (Bool × Client × World))
      → Client
      → RecvResult
      → World
      → Option (Bool × Client × World)
  after_recv again c (got []) w = some (false, c, w)
  after_recv again c (got (b ∷ bs)) w = again (record c { printed = c.printed ++ (b ∷ bs) }) w
  after_recv again c (recv_failed would_block) w = some (true, c, w)
  after_recv again c (recv_failed other) w = some (false, c, w)

  unfoldable pub read : ℕ → ℕ → Client → World → Option (Bool × Client × World)
  unfolding after_recv
  read zero fd c w = none
  read (suc fuel) fd c w = let (r, w') = recv w fd recv_buf in after_recv (read fuel fd) c r w'

  -- `HandleConnection` after `Write` returned true.
  unfoldable pub after_write : Client → World → Handled World
  unfolding lock mod_writable
  after_write c w = elim (lock c) [
    | none ↦ deadlocked c w
    | some c' ↦ elim (is_empty c'.send_queue) [
      | false ↦ handled true (unlock c') w
      | true ↦ elim (mod_writable false c') [
        | none ↦ deadlocked c' w
        | some c'' ↦ handled true (unlock c'') w
      ]
    ]
  ]

  -- `HandleConnection` after `Write`.
  unfoldable pub after_handled : Handled World → Handled World
  unfolding after_write
  after_handled (handled true c w) = after_write c w
  after_handled (handled false c w) = handled false c w
  after_handled (deadlocked c w) = deadlocked c w
  after_handled no_fuel = no_fuel

  unfoldable pub after_read : ℕ → Bool → Option (Bool × Client × World) → Handled World
  unfolding write after_handled
  after_read fd writable none = no_fuel
  after_read fd writable (some (false, c, w)) = handled false c w
  after_read fd writable (some (true, c, w)) = elim writable [
    | false ↦ handled true c w
    | true ↦ after_handled (write fd c w)
  ]

  unfoldable pub handle_connection : ℕ → ℕ → Client → Event → World → Handled World
  unfolding after_read
  handle_connection fuel fd c ev w = elim ev.failed [
    | true ↦ handled false c w
    | false ↦ elim ev.readable [
      | true ↦ after_read fd ev.writable (read fuel fd c w)
      | false ↦ after_read fd ev.writable (some (true, c, w))
    ]
  ]

  -- The events of one `epoll_wait`.
  unfoldable pub handle_events : ℕ → ℕ → List Event → Client → World → Handled World
  unfolding handle_connection
  handle_events fuel fd [] c w = handled true c w
  handle_events fuel fd (ev ∷ evs) c w = elim (handle_connection fuel fd c ev w) [
    | handled true c' w' ↦ handle_events fuel fd evs c' w'
    | handled false c' w' ↦ handled true (record c' { running = false }) w'
    | deadlocked c' w' ↦ deadlocked c' w'
    | no_fuel ↦ no_fuel
  ]

  -- What `epoll_wait` returns.
  pub data Wait : Type 0 where
    reported : List Event → Wait
    wait_failed : Errno → Wait

  unfoldable pub run_loop : ℕ → ℕ → List Wait → Client → World → Handled World
  unfolding handle_events
  run_loop fuel fd [] c w = handled true c w
  run_loop fuel fd (wait_failed interrupted ∷ waits) c w = elim c.running [
    | false ↦ handled true c w
    | true ↦ run_loop fuel fd waits c w
  ]
  run_loop fuel fd (wait_failed other ∷ waits) c w = handled true c w
  run_loop fuel fd (reported evs ∷ waits) c w = elim c.running [
    | false ↦ handled true c w
    | true ↦ elim (handle_events fuel fd evs c w) [
      | handled ok c' w' ↦ run_loop fuel fd waits c' w'
      | deadlocked c' w' ↦ deadlocked c' w'
      | no_fuel ↦ no_fuel
    ]
  ]
