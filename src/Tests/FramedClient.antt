-- ===== src/Tests/FramedClient.antt =====
-- Protocols/Framing/Client/ChatClient.cpp at concrete inputs.
use tcp_simple_chat.Base.{ℕ, ◌≡◌, ◌≢◌, refl, List, [], ◌∷◌, ◌++◌, true, false, none, some, arith}
use tcp_simple_chat.FramedClient.{
  Message, Client, block_producer, TxOverflowMode, drop_newest, producer_ready, tx_enqueue, waits,
  returns, tx_dequeue, takes, idles,
}
use tcp_simple_chat.FramedClient.TxBounds.{IsValid, Outcome, tx_enqueue-Outcome}
use tcp_simple_chat.FramedClient.TxOrder
use tcp_simple_chat.FramedClient.TxWakeup.{
  tx_enqueue_notifies, tx_dequeue_notifies, tx_enqueue_waits,
}
use tcp_simple_chat.FramedClient.Input.{ended, cin_messages, cin_messages-readable}
use tcp_simple_chat.FramedClient.Rx
use tcp_simple_chat.FramedClient.Connect.{no_socket, refused, runs, run, try_addresses, run-refused}
use tcp_simple_chat.FramedClient.Shutdown.{disconnect, disconnect-some}
use tcp_simple_chat.Tests.Pipe.{
  Wire, pipe, filler, length-filler, wire_unread, wire_interruptions, pipe-ReceivesInOrder,
  little_host,
}

abbrev online : Client
online = record {
  is_active = true;
  socket = some 5;
  rx_queue = [];
  rx_mode = drop_newest;
  tx_bytes_queued = 0;
  tx_queue = [];
  tx_mode = block_producer;
}

abbrev hi : Message
hi = b'h' ∷ b'i' ∷ []

abbrev dropping : Client
dropping = record online {
  tx_bytes_queued = 2;
  tx_queue = hi ∷ [];
  tx_mode = TxOverflowMode.drop_oldest;
}

tx_enqueue-Outcome_example : Outcome TxOverflowMode.drop_oldest dropping hi (tx_enqueue dropping hi)
tx_enqueue-Outcome_example =
    tx_enqueue-Outcome dropping hi (record { counted = refl; bounded = omega arith }) (omega arith)

one_accepted : TxOrder.Reach online (record {
  client = record online { tx_bytes_queued = 2; tx_queue = hi ∷ [] };
  accepted = hi ∷ [];
  taken = [];
})
unfolding tx_enqueue
one_accepted = TxOrder.later TxOrder.begins (TxOrder.input hi true _ true (omega arith) refl)

Reach-IsOrdered_example : TxOrder.IsOrdered (record {
  client = record online { tx_bytes_queued = 2; tx_queue = hi ∷ [] };
  accepted = hi ∷ [];
  taken = [];
})
Reach-IsOrdered_example = TxOrder.Reach-IsOrdered refl refl one_accepted

enqueue_run :
    tx_enqueue online hi
    ≡ returns true (record online { tx_bytes_queued = 2; tx_queue = hi ∷ [] }) true
unfolding tx_enqueue
enqueue_run = refl

tx_enqueue_notifies_example : true ≡ true
tx_enqueue_notifies_example =
    tx_enqueue_notifies online (record online { tx_bytes_queued = 2; tx_queue = hi ∷ [] }) hi true
      true (record { counted = refl; bounded = omega arith }) (omega arith) enqueue_run refl refl

abbrev crowded : Client
crowded = record online { tx_bytes_queued = 600_000; tx_queue = filler 600_000 ∷ [] }

crowded-IsValid : IsValid crowded
crowded-IsValid = record { counted = omega (arith, length-filler 600_000); bounded = omega arith }

crowded_waits : tx_enqueue crowded hi ≡ waits
unfolding tx_enqueue
crowded_waits = refl

tx_enqueue_waits_example : tx_dequeue crowded ≢ idles
tx_enqueue_waits_example = tx_enqueue_waits crowded hi crowded-IsValid (omega arith) crowded_waits

dequeue_run : tx_dequeue crowded ≡ takes (filler 600_000) online true
unfolding tx_dequeue
dequeue_run = ground (arith, length-filler 600_000)

crowded_busy : producer_ready crowded 2 ≡ false
unfolding producer_ready
crowded_busy = refl

online_ready : producer_ready online 2 ≡ true
unfolding producer_ready
online_ready = refl

tx_dequeue_notifies_example : true ≡ true
tx_dequeue_notifies_example =
    tx_dequeue_notifies crowded online (filler 600_000) true 2 dequeue_run crowded_busy online_ready

cin_messages-readable_example :
    (c' : Client) × (cin_messages online (hi ∷ hi ∷ []) ≡ ended c') × (c'.tx_queue ≡ hi ∷ hi ∷ [])
cin_messages-readable_example =
    cin_messages-readable online (hi ∷ hi ∷ []) (record { counted = refl; bounded = omega arith })
      refl refl (omega arith)

one_arrived :
    Rx.Reach online
      (record { client = record online { rx_queue = hi ∷ [] }; arrived = hi ∷ []; printed = [] })
unfolding Rx.receive
one_arrived = Rx.later Rx.begins (Rx.receiver hi _ refl)

Reach-IsRelayed_example :
    Rx.IsRelayed
      (record { client = record online { rx_queue = hi ∷ [] }; arrived = hi ∷ []; printed = [] })
Reach-IsRelayed_example = Rx.Reach-IsRelayed refl one_arrived

run-refused_example :
    (before : List ℕ) × (try_addresses (some 5) [] (no_socket ∷ refused 4 ∷ [])
      ≡ (some 4, before ++ (4 ∷ [])))
    × (run online 0 0 (no_socket ∷ refused 4 ∷ []) ≡ runs (record online { socket = some 4 }))
run-refused_example = run-refused online (no_socket ∷ []) 4 (omega arith)

abbrev leftover : Wire
leftover = record { unread = 0 ∷ 0 ∷ 0 ∷ 1 ∷ 7 ∷ 0 ∷ []; written = []; interruptions = 1 }

disconnect-some_example :
    (w' : Wire) × (disconnect pipe little_host 7 2_000_000 online leftover
      ≡ some (record online { is_active = false; socket = none }, w'))
disconnect-some_example =
    disconnect-some pipe little_host 5 wire_unread wire_interruptions (pipe-ReceivesInOrder 5) 7
      2_000_000 online leftover refl (omega arith) (omega arith)
