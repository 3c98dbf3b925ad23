-- ===== src/FramedClient/TxBounds.antt =====
-- `TxEnqueueMessage` and `SendMessages` of Protocols/Framing/Client/ChatClient.cpp: the queue is
-- bounded in every overflow mode, and what each mode does with it.
use tcp_simple_chat.Base.{
  is_empty, ℕ, ◌+◌, ◌≤◌, ◌<◌, ◌≡◌, refl, ap, ◌∙◌, ◌⊎◌, inl, inr, List, [], ◌∷◌, ◌++◌, true, false,
  arith, length, Bool-cases,
}
use tcp_simple_chat.FramedClient.{
  Message, Client, TxOverflowMode, tx_hwm, tx_lwm, block_producer, would_overflow_msgs,
  drop_oldest_until, Enqueued, waits, returns, tx_enqueue, sub64,
}

abbrev pub total : List Message → ℕ
total [] = 0
total (m ∷ ms) = length m + total ms

pub total-append : (xs ys : List Message) → total (xs ++ ys) ≡ total xs + total ys
total-append [] ys = omega arith
total-append (x ∷ xs) ys = omega (arith, total-append xs ys)

-- The bytes of the queue are counted, and there are at most 1 MiB.
pub record IsValid (c : Client) : Type 0 where
  pub counted : c.tx_bytes_queued ≡ total c.tx_queue
  pub bounded : c.tx_bytes_queued ≤ tx_hwm

-- The first part of the queue that `DropOldest` drops, the shortest that makes room.
abbrev pub Drops : ℕ → List Message → List Message → List Message → Type 0
Drops size q gone kept =
    (q ≡ gone ++ kept)
    × (total kept + size ≤ tx_hwm)
    × ((gone ≡ [])
        ⊎ ((before : List Message) × (last : Message) × (gone ≡ before ++ (last ∷ []))
            × (tx_hwm < length last + total kept + size)))

Drops-cons :
    (size : ℕ) (m : Message) (q gone kept : List Message)
    → tx_hwm < length m + total q + size
    → Drops size q gone kept
    → Drops size (m ∷ q) (m ∷ gone) kept
Drops-cons size m q gone kept over (split, room, inl none_yet) = (
  ap (◌∷◌ m) split,
  room,
  inr ([], m, ap (◌∷◌ m) none_yet, omega (arith, ap total (split ∙ ap (λ g. g ++ kept) none_yet))),
)
Drops-cons size m q gone kept over (split, room, inr (before, last, e, needed)) =
    (ap (◌∷◌ m) split, room, inr (m ∷ before, last, ap (◌∷◌ m) e, needed))

drop_oldest_until-Drops :
    (size bytes : ℕ) (q : List Message)
    → size ≤ tx_hwm
    → bytes ≡ total q
    → bytes ≤ tx_hwm
    → (gone kept : List Message) × (drop_oldest_until size bytes q ≡ (total kept, kept))
      × Drops size q gone kept
unfolding drop_oldest_until
drop_oldest_until-Drops size bytes [] s c b =
    ([], [], ap (λ n. (n, [])) c, (refl, omega arith, inl refl))
drop_oldest_until-Drops size bytes (m ∷ ms) s c b =
    elim (Bool-cases (would_overflow_msgs bytes size)) [
      | inl over ↦
          let less : sub64 bytes (length m) ≡ total ms = omega arith in
          let (gone, kept, run, drops) =
            drop_oldest_until-Drops size (sub64 bytes (length m)) ms s less (omega arith) in
          (
            m ∷ gone,
            kept,
            rw (over, drop_oldest_until) run,
            Drops-cons size m ms gone kept (ground arith) drops,
          )
      | inr fits ↦ (
        [],
        m ∷ ms,
        rw (fits, drop_oldest_until) (ap (λ n. (n, m ∷ ms)) c),
        (refl, ground arith, inl refl),
      )
    ]

abbrev pub with_queue : Client → List Message → Message → Client
with_queue c q msg = record c { tx_queue = q ++ (msg ∷ []); tx_bytes_queued = total q + length msg }

abbrev pub Fits : Client → Message → Type 0
Fits c msg = total c.tx_queue + length msg ≤ tx_hwm

abbrev pub Overflows : Client → Message → Type 0
Overflows c msg = tx_hwm < total c.tx_queue + length msg

abbrev pub Appends : Client → Message → Enqueued → Type 0
Appends c msg r =
    Fits c msg × (r ≡ returns true (with_queue c c.tx_queue msg) (is_empty c.tx_queue))

-- What `TxEnqueueMessage` does in each mode.
abbrev pub Outcome : TxOverflowMode → Client → Message → Enqueued → Type 0
Outcome block_producer c msg r =
    ((c.is_active ≡ true) × ((tx_lwm < total c.tx_queue) ⊎ Overflows c msg) × (r ≡ waits))
    ⊎ (((c.is_active ≡ false) × (r ≡ returns false c false))
        ⊎ ((c.is_active ≡ true) × (total c.tx_queue ≤ tx_lwm) × Appends c msg r))
Outcome TxOverflowMode.drop_newest c msg r =
    (Overflows c msg × (r ≡ returns false c false)) ⊎ Appends c msg r
Outcome TxOverflowMode.drop_oldest c msg r =
    (gone kept : List Message) × (r ≡ returns true (with_queue c kept msg) (is_empty kept))
    × Drops (length msg) c.tx_queue gone kept
Outcome TxOverflowMode.disconnect_on_overflow c msg r =
    (Overflows c msg × (r ≡ returns false (record c { is_active = false }) true)) ⊎ Appends c msg r

Outcome-drop_oldest :
    (c : Client) (msg : Message)
    → IsValid c
    → length msg ≤ tx_hwm
    → c.tx_mode ≡ TxOverflowMode.drop_oldest
    → Outcome TxOverflowMode.drop_oldest c msg (tx_enqueue c msg)
unfolding tx_enqueue
Outcome-drop_oldest c msg v small e =
    elim (Bool-cases (would_overflow_msgs c.tx_bytes_queued (length msg))) [
      | inl over ↦
          let (gone, kept, run, drops) =
            drop_oldest_until-Drops (length msg) c.tx_bytes_queued c.tx_queue small v.counted
              v.bounded in
          (gone, kept, ground (arith, drops.1), drops)
      | inr fits ↦
          ([], c.tx_queue, ground (arith, v.counted), (refl, ground (arith, v.counted), inl refl))
    ]

Outcome-cases :
    (mode : TxOverflowMode) (c : Client) (msg : Message)
    → IsValid c
    → length msg ≤ tx_hwm
    → c.tx_mode ≡ mode
    → Outcome mode c msg (tx_enqueue c msg)
unfolding tx_enqueue
Outcome-cases block_producer c msg v small e = ground (arith, v.counted, v.bounded)
Outcome-cases TxOverflowMode.drop_newest c msg v small e = ground (arith, v.counted, v.bounded)
Outcome-cases TxOverflowMode.drop_oldest c msg v small e = Outcome-drop_oldest c msg v small e
Outcome-cases TxOverflowMode.disconnect_on_overflow c msg v small e =
    ground (arith, v.counted, v.bounded)

-- For a message of at most 1 MiB and a queue whose bytes are counted, `TxEnqueueMessage` in each
-- mode. `BlockProducer`: it waits exactly while the client is active and more than 512 KiB are
-- queued or the message does not fit into 1 MiB; it returns false on an inactive client, and
-- appends otherwise. `DropNewest`: it returns false and changes nothing if the message does not
-- fit, and appends otherwise. `DropOldest`: it drops the shortest first part of the queue that
-- makes room and appends. `DisconnectOnOverflow`: it makes the client inactive and returns false
-- if the message does not fit, and appends otherwise. Where it appends, it counts the bytes
-- and notifies `m_txNotEmpty` exactly if the queue was empty.
pub tx_enqueue-Outcome :
    (c : Client) (msg : Message)
    → IsValid c
    → length msg ≤ tx_hwm
    → Outcome c.tx_mode c msg (tx_enqueue c msg)
tx_enqueue-Outcome c msg v small = Outcome-cases c.tx_mode c msg v small refl
