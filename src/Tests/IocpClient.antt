-- ===== src/Tests/IocpClient.antt =====
-- NetworkBasics/iocp/Client at a concrete input.
use tcp_simple_chat.Base.{
  ◌≡◌, refl, inr, List, [], ◌∷◌, true, false, Option, none, some, arith, length,
}
use tcp_simple_chat.IocpClient.{Client, waiting, send_msg, wake, sends, here, after}
use tcp_simple_chat.IocpClient
use tcp_simple_chat.IocpClient.Connection
use tcp_simple_chat.IocpClient.Connection.{
  Address, Completion, woken, received, starts_up, cleans_up, wakes, opens, closes, receives,
  prints, set_up, start,
}
use tcp_simple_chat.IocpClient.Released.{IsIdle, tally, prints_of}
use tcp_simple_chat.IocpClient.Served.{startups_of, cleanups_of, start-IsIdle, start-unclean}
use tcp_simple_chat.IocpClient.Sends.{idles, IsSound}
use tcp_simple_chat.IocpClient.Completions.{Reach-IsSound}

abbrev client : Client
client = record {
  send_queue = [];
  send_in_flight = false;
  open_socket = true;
  worker = waiting;
  completer = waiting;
  outstanding = none;
  sent = [];
  queued = [];
  lost = false;
}

Reach-IsSound_example : IsSound (wake (send_msg client (1 ∷ 2 ∷ [])))
Reach-IsSound_example =
    Reach-IsSound
      (after (after (here client) (sends client (1 ∷ 2 ∷ []) (omega arith)))
        (IocpClient.wakes (send_msg client (1 ∷ 2 ∷ [])) refl refl (λ e. cc)))
      (tt, idles refl refl refl refl, inr refl)

-- The first address refuses; then a message comes, and the end of the stream.
abbrev fresh : Connection.Connection
fresh = record {
  iocp = false;
  socket = none;
  is_active = false;
  run_send = false;
  send_thread = false;
  calls = [];
}

abbrev addresses : Option (List Address)
addresses = some (
    record { socket = some 3; connects = false } ∷ record { socket = some 4; connects = true } ∷ [])

abbrev stream : List Completion
stream = received true (104 ∷ 105 ∷ []) true ∷ received true [] false ∷ woken ∷ []

abbrev all_closed : Connection.Connection
all_closed = record fresh {
  iocp = true;
  calls =
      starts_up
      ∷ opens 3
      ∷ closes 3
      ∷ opens 4
      ∷ receives (some 4)
      ∷ prints (104 ∷ 105 ∷ [])
      ∷ receives (some 4)
      ∷ closes 4
      ∷ wakes
      ∷ cleans_up
      ∷ [];
}

start_run : start true true addresses true true stream fresh ≡ some all_closed
unfolding start
start_run = refl

fresh-IsIdle : IsIdle fresh
fresh-IsIdle = record { no_socket = refl; inactive = refl; joined = refl; released = refl }

start-IsIdle_example :
    (d : Connection.Connection) × (start true true addresses true true stream fresh ≡ some d)
    × IsIdle d
    × (tally prints_of d.calls ≡ 104 ∷ 105 ∷ [])
unfolding set_up
start-IsIdle_example = start-IsIdle true true addresses true true stream fresh fresh-IsIdle refl

start-unclean_example :
    (d : Connection.Connection) × (start true true none true true stream fresh ≡ some d)
    × (length (tally startups_of d.calls) ≡ 1)
    × (length (tally cleanups_of d.calls) ≡ 0)
unfolding set_up
start-unclean_example = start-unclean true none true true stream fresh refl refl
