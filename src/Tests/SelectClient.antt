-- ===== src/Tests/SelectClient.antt =====
-- NetworkBasics/select/Client at concrete inputs.
use tcp_simple_chat.Base.{◌≡◌, refl, [], ◌∷◌, true, false, some, replicate}
use tcp_simple_chat.SelectClient.{
  Client, terminated, enqueue_send, send_msg, ready, goes_on, run_event_loop,
}
use tcp_simple_chat.SelectClient.Stream.{enqueues, sends, here, after, IsStreamed, Reach-IsStreamed}
use tcp_simple_chat.SelectClient.Spin.{active, run_event_loop-goes_on}
use tcp_simple_chat.Tests.Pipe.{Wire, pipe, wire_written, wire_interruptions, pipe-SendsInOrder}

abbrev wire : Wire
wire = record { unread = []; written = 1 ∷ []; interruptions = 0 }

abbrev client : Client
client = record { is_active = true; socket = some 4; send_q = []; printed = []; closed = [] }

-- A line of four characters, and a turn that sends three bytes.
abbrev typed : Client
typed = enqueue_send client (2 ∷ 3 ∷ 4 ∷ 5 ∷ [])

Reach-IsStreamed_example :
    IsStreamed pipe 4 wire_written wire_interruptions (pipe-SendsInOrder 4) (1 ∷ []) (
      (send_msg pipe typed wire).1,
      (send_msg pipe typed wire).2,
      terminated (2 ∷ 3 ∷ 4 ∷ 5 ∷ []) ∷ [],
    )
Reach-IsStreamed_example =
    Reach-IsStreamed pipe 4 wire_written wire_interruptions (pipe-SendsInOrder 4) (1 ∷ [])
      (after (after (here (client, wire, [])) (enqueues (2 ∷ 3 ∷ 4 ∷ 5 ∷ []) client wire []))
        (sends typed wire (terminated (2 ∷ 3 ∷ 4 ∷ 5 ∷ []) ∷ [])))
      (refl, tt, refl)

run_event_loop-goes_on_example :
    run_event_loop pipe 4 (replicate 3 (ready true false)) (active client) wire
    ≡ goes_on (active client) wire
run_event_loop-goes_on_example = run_event_loop-goes_on pipe 4 client wire 3 refl
