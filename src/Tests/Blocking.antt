-- ===== src/Tests/Blocking.antt =====
-- NetworkBasics/blocking-multithreaded/Server at concrete inputs.
use tcp_simple_chat.Base.{◌≡◌, refl, [], ◌∷◌, true, false, none, some}
use tcp_simple_chat.Blocking.Lifecycle
use tcp_simple_chat.Tests.Epoll.{wire, quiet}
use tcp_simple_chat.Blocking.{
  receiving, wants_lock, free, idle, waiting, System, set_receiver, lock_for_broadcast, pass,
  lock_for_stop, close_session, Reach, receives, locks, passes, stop_begins, stop_locks,
  stop_closes, here, after,
}
use tcp_simple_chat.Blocking.Broadcasts.{IsDelivering, Reach-IsDelivering}
use tcp_simple_chat.Blocking.Stops.{IsStuck, Reach-IsStuck}

-- Two sessions that receive.
abbrev two_sessions : System
two_sessions = record {
  clients = 1 ∷ 2 ∷ [];
  mutex = free;
  stopper = idle;
  receivers = λ q. receiving;
  active = λ q. true;
  delivered = λ q. [];
  history = [];
}

-- The first received a message, the second one took the mutex for another, and its loop is at the first.
abbrev asked : System
asked = set_receiver (set_receiver two_sessions 1 (wants_lock (8 ∷ []))) 2 (wants_lock (9 ∷ []))

abbrev locked : System
locked = lock_for_broadcast asked 2 (9 ∷ [])

Reach-IsDelivering_example : IsDelivering (pass locked 2 (9 ∷ []) 1 (2 ∷ []))
Reach-IsDelivering_example =
    Reach-IsDelivering
      (after
        (after
          (after (after (here two_sessions) (receives two_sessions 1 (8 ∷ []) refl))
            (receives (set_receiver two_sessions 1 (wants_lock (8 ∷ []))) 2 (9 ∷ []) refl))
          (locks asked 2 (9 ∷ []) refl refl))
        (passes locked 2 (9 ∷ []) 1 (2 ∷ []) refl))
      ((refl, (refl, tt)), tt, tt, λ q. refl)

-- The first session waits for the mutex that `Stop` took before it.
abbrev wanting : System
wanting = set_receiver two_sessions 1 (wants_lock (8 ∷ []))

abbrev stopping : System
stopping = lock_for_stop (record wanting { stopper = waiting })

abbrev stuck : System
stuck = close_session stopping 1 (2 ∷ [])

-- The steps that lead there from two sessions that receive.
Reach-stuck : Reach two_sessions stuck
Reach-stuck =
    after
      (after
        (after (after (here two_sessions) (receives two_sessions 1 (8 ∷ []) refl))
          (stop_begins wanting refl))
        (stop_locks (record wanting { stopper = waiting }) refl refl))
      (stop_closes stopping 1 (2 ∷ []) refl)

Reach-IsStuck_example : IsStuck 1 (2 ∷ []) (8 ∷ []) (set_receiver stuck 2 (wants_lock (9 ∷ [])))
Reach-IsStuck_example =
    Reach-IsStuck 1 (2 ∷ []) (8 ∷ []) (after (here stuck) (receives stuck 2 (9 ∷ []) refl))
      (refl, refl, refl)

-- The second listener failed, and one of two sessions has no socket.
abbrev two_listeners : Lifecycle.Server
two_listeners = record {
  running = true;
  listen_sockets = some 3 ∷ none ∷ [];
  accept_threads = some 3 ∷ none ∷ [];
  clients =
      record { socket = some 4; active = true; thread = true }
      ∷ record { socket = none; active = false; thread = false }
      ∷ [];
  closed = [];
  cleanups = 0;
}

abbrev all_stopped : Lifecycle.Server
all_stopped = record {
  running = false;
  listen_sockets = [];
  accept_threads = [];
  clients = [];
  closed = 3 ∷ 4 ∷ [];
  cleanups = 1;
}

stop_run :
    Lifecycle.stop quiet 4 two_listeners wire ≡ some (all_stopped, record wire { unread = [] })
unfolding Lifecycle.stop
stop_run = refl
