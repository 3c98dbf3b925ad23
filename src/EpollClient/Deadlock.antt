-- ===== src/EpollClient/Deadlock.antt =====
-- The locks of `HandleConnection` in NetworkBasics/epoll/Client/ChatClient.cpp.
use tcp_simple_chat.Base.{ℕ, ◌≡◌, refl, ap, ◌∙◌, inl, inr, ◌⊎◌, List, [], ◌∷◌, true, false, some}
use tcp_simple_chat.Net.{Net}
use tcp_simple_chat.EpollClient.{
  Client, Event, Leaves, returns, partly, deadlocked, lock, mod_socket, mod_writable,
}
use tcp_simple_chat.EpollClient.Events.{
  write_loop, after_loop, write, after_write, after_handled, after_read, handle_connection,
}

-- The client on a socket that is registered with an epoll instance, while no thread holds the mutex.
abbrev pub connected : Client → ℕ → ℕ → Client
connected c fd e = record c { socket = some fd; epoll = some e; locked = false }

abbrev pub writable_only : Event
writable_only = record { failed = false; readable = false; writable = true }

module _ (net : Net) where
  open net use {World}

  -- The loop of `Write` sent the whole queue, or a message in part.
  abbrev pub Sends : Leaves → List (List ℕ) → Type 0
  Sends leaves q = (leaves ≡ partly) ⊎ ((leaves ≡ returns true) × (q ≡ []))

  after_write-deadlocked :
      (fd e : ℕ) (c : Client) (w : World) (q : List (List ℕ))
      → q ≡ []
      → after_write net (record (connected c fd e) { send_queue = q }) w
        ≡ deadlocked (record (connected c fd e) { send_queue = q; locked = true }) w
  unfolding after_write lock mod_writable mod_socket
  after_write-deadlocked fd e c w [] empty = refl
  after_write-deadlocked fd e c w (m ∷ q) empty = cc

  -- The client inside `Write`, after its loop.
  abbrev holding : Client → ℕ → ℕ → List (List ℕ) → Client
  holding c fd e q = record (connected c fd e) { send_queue = q; locked = true }

  after_loop-deadlocked :
      (fd e : ℕ) (c : Client) (w : World) (leaves : Leaves) (q : List (List ℕ))
      → Sends leaves q
      → after_handled net (after_loop net (holding c fd e q) w leaves)
        ≡ deadlocked (holding c fd e q) w
  unfolding after_loop mod_writable mod_socket lock after_handled
  after_loop-deadlocked fd e c w partly q how = refl
  after_loop-deadlocked fd e c w (returns true) q (inl bad) = cc
  after_loop-deadlocked fd e c w (returns true) q (inr (_, empty)) =
      after_write-deadlocked fd e c w q empty
  after_loop-deadlocked fd e c w (returns false) q (inl bad) = cc
  after_loop-deadlocked fd e c w (returns false) q (inr (bad, _)) = cc

  -- An event that is only writable, on a connected client: where the loop of `Write` sends the whole
  -- queue, or sends a message in part, the handler never returns. `HandleConnection`, or `Write`,
  -- calls `ModWritable` with the mutex held, and that locks it again.
  pub handle_connection-deadlocked :
      (fuel fd e : ℕ) (c : Client) (w w' : World) (leaves : Leaves) (q : List (List ℕ))
      → write_loop net fd w c.send_queue ≡ (leaves, q, w')
      → Sends leaves q
      → handle_connection net fuel fd (connected c fd e) writable_only w
        ≡ deadlocked (record (connected c fd e) { send_queue = q; locked = true }) w'
  unfolding handle_connection after_read write lock
  handle_connection-deadlocked fuel fd e c w w' leaves q run how =
      ap (λ r. after_handled net (after_loop net (holding c fd e r.1) r.2 r.0)) run
      ∙ after_loop-deadlocked fd e c w' leaves q how
