-- ===== src/FramedSession/Queue.antt =====
-- Any interleaving of the producers (`SendMsg`), `SendLoop`, `RecvLoop` and `Stop` of a session of
-- Protocols/Framing/Server/ClientSession.cpp, with the messages that went in and out.
use tcp_simple_chat.Base.{
  ℕ, ◌+◌, ◌^◌, ◌≤◌, ◌<◌, ◌≡◌, refl, sym, ap, ap₂, ◌∙◌, ◌⊎◌, inl, inr, List, [], ◌∷◌, ◌++◌,
  append_assoc, append-nil, true, false, arith, length,
}
use tcp_simple_chat.FramedSession.{
  Message, Session, tx_hwm_bytes, make, start, returns, enqueue, has_room, takes, take_front,
  dequeue, deactivate, close,
}

pub record History : Type 0 where
  pub session : Session
  -- messages that `SendMsg` queued, that `SendLoop` took, and that `Stop` dropped, oldest first
  pub accepted : List Message
  pub taken : List Message
  pub dropped : List Message

abbrev pub begin : ℕ → History
begin socket = record { session = start (make socket); accepted = []; taken = []; dropped = [] }

-- `std::string::max_size()` is below 2 ^ 63.
pub data Step (h : History) : History → Type 0 where
  producer_returns :
      (msg : Message) (s : Session)
      → length msg < 2 ^ 63
      → h.session.active ≡ true
      → enqueue h.session msg ≡ returns s
      → Step h (record h { session = s; accepted = h.accepted ++ (msg ∷ []) })
  producer_gives_up :
      (msg : Message) (s : Session)
      → h.session.active ≡ false
      → enqueue h.session msg ≡ returns s
      → Step h (record h { session = s })
  sender_takes :
      (msg : Message) (s : Session)
      → dequeue h.session ≡ takes msg s
      → Step h (record h { session = s; taken = h.taken ++ (msg ∷ []) })
  deactivates : Step h (record h { session = deactivate h.session })
  closes :
      h.session.active ≡ false
      → Step h (record h { session = close h.session; dropped = h.dropped ++ h.session.tx_queue })

pub data Reach (socket : ℕ) : History → Type 0 where
  begins : Reach socket (begin socket)
  later : {h k : History} → Reach socket h → Step h k → Reach socket k

abbrev pub total : List Message → ℕ
total [] = 0
total (m ∷ ms) = length m + total ms

total-append : (xs ys : List Message) → total (xs ++ ys) ≡ total xs + total ys
total-append [] ys = omega arith
total-append (x ∷ xs) ys = omega (arith, total-append xs ys)

pub record IsValid (h : History) : Type 0 where
  pub fifo : h.accepted ≡ h.taken ++ (h.dropped ++ h.session.tx_queue)
  pub dropped_last : (h.dropped ≡ []) ⊎ ((h.session.tx_queue ≡ []) × (h.session.active ≡ false))
  pub counted : h.session.tx_bytes_queued ≡ total h.session.tx_queue
  pub bounded : h.session.tx_bytes_queued ≤ tx_hwm_bytes

pub begin-IsValid : (socket : ℕ) → IsValid (begin socket)
unfolding start make
begin-IsValid socket = record {
  fifo = refl;
  dropped_last = inl refl;
  counted = refl;
  bounded = omega arith;
}

-- What a producer's section did, when it returned on an active session.
enqueue_active :
    (s s' : Session) (msg : Message)
    → s.active ≡ true
    → length msg < 2 ^ 63
    → s.tx_bytes_queued ≤ tx_hwm_bytes
    → enqueue s msg ≡ returns s'
    → (s'.tx_queue ≡ s.tx_queue ++ (msg ∷ []))
      × (s'.tx_bytes_queued ≡ s.tx_bytes_queued + length msg)
      × (s'.tx_bytes_queued ≤ tx_hwm_bytes)
      × (s'.active ≡ true)
unfolding enqueue has_room
enqueue_active s s' msg on small v e = ground arith

enqueue_inactive :
    (s s' : Session) (msg : Message) → s.active ≡ false → enqueue s msg ≡ returns s' → s' ≡ s
unfolding enqueue has_room
enqueue_inactive s s' msg off e = ground arith

take_front_takes :
    (s s' : Session) (q : List Message) (msg : Message)
    → take_front s q ≡ takes msg s'
    → s.tx_bytes_queued ≡ total q
    → (q ≡ msg ∷ s'.tx_queue)
      × (s'.tx_bytes_queued ≡ total s'.tx_queue)
      × (s'.tx_bytes_queued ≤ s.tx_bytes_queued)
      × (s'.active ≡ s.active)
unfolding take_front
take_front_takes s s' [] msg e c = ground arith
take_front_takes s s' (m ∷ q) msg e c = ground arith

dequeue_takes :
    (s s' : Session) (msg : Message)
    → dequeue s ≡ takes msg s'
    → s.tx_bytes_queued ≡ total s.tx_queue
    → (s.tx_queue ≡ msg ∷ s'.tx_queue)
      × (s'.tx_bytes_queued ≡ total s'.tx_queue)
      × (s'.tx_bytes_queued ≤ s.tx_bytes_queued)
      × (s'.active ≡ s.active)
unfolding dequeue
dequeue_takes s s' msg e c = take_front_takes s s' s.tx_queue msg e c

fifo_push :
    (taken dropped q : List Message) (msg : Message)
    → (taken ++ (dropped ++ q)) ++ (msg ∷ []) ≡ taken ++ (dropped ++ (q ++ (msg ∷ [])))
fifo_push taken dropped q msg = simp append_assoc

push-IsValid :
    (h : History) (s : Session) (msg : Message)
    → IsValid h
    → h.session.active ≡ true
    → (s.tx_queue ≡ h.session.tx_queue ++ (msg ∷ []))
      × (s.tx_bytes_queued ≡ h.session.tx_bytes_queued + length msg)
      × (s.tx_bytes_queued ≤ tx_hwm_bytes)
      × (s.active ≡ true)
    → IsValid (record h { session = s; accepted = h.accepted ++ (msg ∷ []) })
push-IsValid h s msg v on (queue, bytes, bound, still) = record {
  fifo =
      ap (λ l. l ++ (msg ∷ [])) v.fifo
      ∙ fifo_push h.taken h.dropped h.session.tx_queue msg
      ∙ ap (λ q. h.taken ++ (h.dropped ++ q)) (sym queue);
  dropped_last = ground arith;
  counted =
      bytes
      ∙ omega (arith, v.counted, total-append h.session.tx_queue (msg ∷ []))
      ∙ ap total (sym queue);
  bounded = bound;
}

-- The message that leaves is the oldest one, and nothing was dropped before.
take-IsValid :
    (h : History) (s : Session) (msg : Message)
    → IsValid h
    → (h.session.tx_queue ≡ msg ∷ s.tx_queue)
      × (s.tx_bytes_queued ≡ total s.tx_queue)
      × (s.tx_bytes_queued ≤ h.session.tx_bytes_queued)
      × (s.active ≡ h.session.active)
    → IsValid (record h { session = s; taken = h.taken ++ (msg ∷ []) })
take-IsValid h s msg v (queue, bytes, bound, same) =
    let none_dropped : h.dropped ≡ [] = ground arith in
    record {
      fifo =
          v.fifo
          ∙ ap₂ (λ d q. h.taken ++ (d ++ q)) none_dropped queue
          ∙ sym (append_assoc h.taken (msg ∷ []) s.tx_queue)
          ∙ ap (λ d. (h.taken ++ (msg ∷ [])) ++ (d ++ s.tx_queue)) (sym none_dropped);
      dropped_last = inl none_dropped;
      counted = bytes;
      bounded = omega (arith, v.bounded);
    }

pub Step-IsValid : {h k : History} → IsValid h → Step h k → IsValid k
unfolding deactivate close
Step-IsValid {h} v (producer_returns msg s small on e) =
    push-IsValid h s msg v on (enqueue_active h.session s msg on small v.bounded e)
Step-IsValid {h} v (producer_gives_up msg s off e) =
    let same = enqueue_inactive h.session s msg off e in ground (arith, same)
Step-IsValid {h} v (sender_takes msg s e) =
    take-IsValid h s msg v (dequeue_takes h.session s msg e v.counted)
Step-IsValid {h} v deactivates = ground arith
Step-IsValid {h} v (closes off) = record {
  fifo = v.fifo ∙ ap (◌++◌ h.taken) (sym (append-nil (h.dropped ++ h.session.tx_queue)));
  dropped_last = inr (refl, off);
  counted = refl;
  bounded = omega arith;
}

-- In every interleaving the transmit queue is first-in first-out and bounded: the messages that
-- `SendMsg` queued are those that `SendLoop` took, in order, then those that `Stop` dropped and
-- those still queued. Messages are dropped only from a session that is no longer active and whose
-- queue is empty since. `m_txBytesQueued` is the number of bytes in the queue, at most 256 KiB.
pub Reach-IsValid : {socket : ℕ} {h : History} → Reach socket h → IsValid h
Reach-IsValid {socket} begins = begin-IsValid socket
Reach-IsValid (later r st) = Step-IsValid (Reach-IsValid r) st
