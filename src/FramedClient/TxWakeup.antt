-- ===== src/FramedClient/TxWakeup.antt =====
-- The condition variables of the transmit queue of Protocols/Framing/Client/ChatClient.cpp: the
-- input thread waits on `m_txNotFull`, the sending thread on `m_txNotEmpty`.
use tcp_simple_chat.Base.{
  is_empty, ℕ, ◌≤◌, ◌≡◌, ◌≢◌, List, [], ◌∷◌, Bool, true, false, not, refl, ap, subst, ◌||◌, arith,
  length,
}
use tcp_simple_chat.FramedClient.{
  Message, Client, TxOverflowMode, block_producer, tx_hwm, producer_ready, waits, returns,
  tx_enqueue, takes, idles, take_front, tx_dequeue,
}
use tcp_simple_chat.FramedClient.TxBounds.{total, IsValid, Outcome, tx_enqueue-Outcome, Drops}

-- The predicate of `m_txNotEmpty.wait` in `SendMessages`.
abbrev pub sender_ready : Client → Bool
sender_ready c = not c.is_active || not (is_empty c.tx_queue)

take_front_notifies :
    (c c' : Client) (q : List Message) (msg : Message) (n : Bool) (size : ℕ)
    → take_front c q ≡ takes msg c' n
    → producer_ready c size ≡ false
    → producer_ready c' size ≡ true
    → n ≡ true
unfolding take_front producer_ready
take_front_notifies c c' [] msg n size e before after = ground arith
take_front_notifies c c' (m ∷ q) msg n size e before after = ground arith

-- A dequeue after which the predicate of a producer with a message of a given size holds, where it
-- did not hold before, notifies `m_txNotFull`.
pub tx_dequeue_notifies :
    (c c' : Client) (msg : Message) (n : Bool) (size : ℕ)
    → tx_dequeue c ≡ takes msg c' n
    → producer_ready c size ≡ false
    → producer_ready c' size ≡ true
    → n ≡ true
unfolding tx_dequeue
tx_dequeue_notifies c c' msg n size e before after =
    take_front_notifies c c' c.tx_queue msg n size e before after

kept_empty :
    (size : ℕ) (q gone kept : List Message)
    → Drops size q gone kept
    → is_empty q ≡ true
    → is_empty kept ≡ true
kept_empty size [] [] kept (e, _, _) h = ground arith
kept_empty size [] (g ∷ gone) kept (e, _, _) h = cc
kept_empty size (m ∷ q) gone kept d h = cc

notifies-Outcome :
    (mode : TxOverflowMode) (c c' : Client) (msg : Message) (ok n : Bool)
    → Outcome mode c msg (returns ok c' n)
    → sender_ready c ≡ false
    → sender_ready c' ≡ true
    → n ≡ true
notifies-Outcome block_producer c c' msg ok n o before after = ground arith
notifies-Outcome TxOverflowMode.drop_newest c c' msg ok n o before after = ground arith
notifies-Outcome TxOverflowMode.drop_oldest c c' msg ok n (gone, kept, run, drops) before after =
    ground (arith, kept_empty (length msg) c.tx_queue gone kept drops)
notifies-Outcome TxOverflowMode.disconnect_on_overflow c c' msg ok n o before after = ground arith

-- In every mode, an enqueue after which the sending thread's predicate holds, where it did not
-- hold before, notifies `m_txNotEmpty`.
pub tx_enqueue_notifies :
    (c c' : Client) (msg : Message) (ok n : Bool)
    → IsValid c
    → length msg ≤ tx_hwm
    → tx_enqueue c msg ≡ returns ok c' n
    → sender_ready c ≡ false
    → sender_ready c' ≡ true
    → n ≡ true
tx_enqueue_notifies c c' msg ok n v small e before after =
    notifies-Outcome c.tx_mode c c' msg ok n
      (subst (Outcome c.tx_mode c msg) e (tx_enqueue-Outcome c msg v small)) before after

take_front_idles : (c : Client) (q : List Message) → take_front c q ≡ idles → q ≡ []
unfolding take_front
take_front_idles c [] e = refl
take_front_idles c (m ∷ q) e = cc

-- The input thread and the sending thread never wait for one another: while `TxEnqueueMessage` waits
-- with a message of at most 1 MiB, the sending thread does not.
pub tx_enqueue_waits :
    (c : Client) (msg : Message)
    → IsValid c
    → length msg ≤ tx_hwm
    → tx_enqueue c msg ≡ waits
    → tx_dequeue c ≢ idles
unfolding tx_enqueue tx_dequeue
tx_enqueue_waits c msg v small e stuck =
    let empty = take_front_idles c c.tx_queue stuck in
    ground (arith, ap total empty, v.counted, v.bounded)
