-- ===== src/FramedClient/TxOrder.antt =====
-- The transmit queue of Protocols/Framing/Client/ChatClient.cpp over any interleaving of the input
-- thread and the sending thread.
use tcp_simple_chat.Base.{
  ◌≤◌, ◌≡◌, refl, sym, ap, ◌∙◌, ◌⊎◌, inl, inr, List, [], ◌∷◌, ◌++◌, append_assoc, Bool, true, false,
  arith, length, subst,
}
use tcp_simple_chat.Base.Sub.{Sub, none_left, Sub-snoc, Sub-trans, Sub-drop}
use tcp_simple_chat.FramedClient.{
  Message, Client, TxOverflowMode, block_producer, tx_hwm, returns, tx_enqueue, takes, take_front,
  tx_dequeue,
}
use tcp_simple_chat.FramedClient.TxBounds.{
  total, total-append, IsValid, Outcome, tx_enqueue-Outcome,
}

pub record History : Type 0 where
  pub client : Client
  -- messages that `TxEnqueueMessage` queued, and that `SendMessages` took, oldest first
  pub accepted : List Message
  pub taken : List Message

abbrev pub accept : Bool → List Message → Message → List Message
accept true ms msg = ms ++ (msg ∷ [])
accept false ms msg = ms

pub data Step (h : History) : History → Type 0 where
  input :
      (msg : Message) (ok : Bool) (c : Client) (notified : Bool)
      → length msg ≤ tx_hwm
      → tx_enqueue h.client msg ≡ returns ok c notified
      → Step h (record h { client = c; accepted = accept ok h.accepted msg })
  sender :
      (msg : Message) (c : Client) (notified : Bool)
      → tx_dequeue h.client ≡ takes msg c notified
      → Step h (record h { client = c; taken = h.taken ++ (msg ∷ []) })
  deactivates : Step h (record h { client = record (h.client) { is_active = false } })

pub data Reach (start : Client) : History → Type 0 where
  begins : Reach start (record { client = start; accepted = []; taken = [] })
  later : {h k : History} → Reach start h → Step h k → Reach start k

pub record IsOrdered (h : History) : Type 0 where
  pub valid : IsValid h.client
  pub in_order : Sub (h.taken ++ h.client.tx_queue) h.accepted
  pub complete :
      (h.client.tx_mode ≡ TxOverflowMode.drop_oldest) ⊎ (h.taken ++ h.client.tx_queue ≡ h.accepted)

-- What a call of `TxEnqueueMessage` that returned did to the queue.
abbrev Changes : TxOverflowMode → Client → Message → Bool → Client → Type 0
Changes mode c msg ok c' =
    (gone kept : List Message) × (c.tx_queue ≡ gone ++ kept)
    × (c'.tx_queue ≡ accept ok kept msg)
    × ((mode ≡ TxOverflowMode.drop_oldest) ⊎ (gone ≡ []))
    × (c'.tx_mode ≡ c.tx_mode)
    × (c'.tx_bytes_queued ≡ total c'.tx_queue)
    × (c'.tx_bytes_queued ≤ tx_hwm)

Outcome-Changes :
    (mode : TxOverflowMode) (c c' : Client) (msg : Message) (ok notified : Bool)
    → IsValid c
    → Outcome mode c msg (returns ok c' notified)
    → Changes mode c msg ok c'
Outcome-Changes block_producer c c' msg ok n v o = (
  [],
  c.tx_queue,
  refl,
  ground (arith, total-append c.tx_queue (msg ∷ [])),
  inr refl,
  ground arith,
  ground (arith, total-append c.tx_queue (msg ∷ [])),
  ground arith,
)
Outcome-Changes TxOverflowMode.drop_newest c c' msg ok n v o = (
  [],
  c.tx_queue,
  refl,
  ground arith,
  inr refl,
  ground arith,
  ground (arith, total-append c.tx_queue (msg ∷ [])),
  ground arith,
)
Outcome-Changes TxOverflowMode.drop_oldest c c' msg ok n v (gone, kept, run, drops) = (
  gone,
  kept,
  drops.0,
  ground arith,
  inl refl,
  ground arith,
  ground (arith, total-append kept (msg ∷ [])),
  ground arith,
)
Outcome-Changes TxOverflowMode.disconnect_on_overflow c c' msg ok n v o = (
  [],
  c.tx_queue,
  refl,
  ground arith,
  inr refl,
  ground arith,
  ground (arith, total-append c.tx_queue (msg ∷ [])),
  ground arith,
)

Sub-accept :
    (taken q gone kept accepted : List Message) (msg : Message) (ok : Bool)
    → q ≡ gone ++ kept
    → Sub (taken ++ q) accepted
    → Sub (taken ++ accept ok kept msg) (accept ok accepted msg)
Sub-accept taken q gone kept accepted msg false e s =
    Sub-trans (Sub-drop taken gone kept) (subst (λ l. Sub (taken ++ l) accepted) e s)
Sub-accept taken q gone kept accepted msg true e s =
    subst (λ l. Sub l (accepted ++ (msg ∷ []))) (append_assoc taken kept (msg ∷ []))
      (Sub-snoc msg
        (Sub-trans (Sub-drop taken gone kept) (subst (λ l. Sub (taken ++ l) accepted) e s)))

eq-accept :
    (taken q kept accepted : List Message) (msg : Message) (ok : Bool)
    → q ≡ kept
    → taken ++ q ≡ accepted
    → taken ++ accept ok kept msg ≡ accept ok accepted msg
eq-accept taken q kept accepted msg false e s = ap (◌++◌ taken) (sym e) ∙ s
eq-accept taken q kept accepted msg true e s =
    sym (append_assoc taken kept (msg ∷ []))
    ∙ ap (λ l. l ++ (msg ∷ [])) (ap (◌++◌ taken) (sym e) ∙ s)

input-IsOrdered :
    (h : History) (msg : Message) (ok : Bool) (c : Client)
    → IsOrdered h
    → Changes h.client.tx_mode h.client msg ok c
    → IsOrdered (record h { client = c; accepted = accept ok h.accepted msg })
input-IsOrdered h msg ok c o (gone, kept, split, after, why, mode, counted, bounded) = record {
  valid = record { counted = counted; bounded = bounded };
  in_order =
      subst (λ q. Sub (h.taken ++ q) (accept ok h.accepted msg)) (sym after)
        (Sub-accept h.taken h.client.tx_queue gone kept h.accepted msg ok split o.in_order);
  complete = ground (arith, o.complete, eq-accept h.taken h.client.tx_queue kept h.accepted msg ok);
}

take_front-takes :
    (c c' : Client) (q : List Message) (msg : Message) (n : Bool)
    → take_front c q ≡ takes msg c' n
    → c.tx_bytes_queued ≡ total q
    → c.tx_bytes_queued ≤ tx_hwm
    → (q ≡ msg ∷ c'.tx_queue)
      × (c'.tx_bytes_queued ≡ total c'.tx_queue)
      × (c'.tx_bytes_queued ≤ c.tx_bytes_queued)
      × (c'.tx_mode ≡ c.tx_mode)
unfolding take_front
take_front-takes c c' [] msg n e t b = ground arith
take_front-takes c c' (m ∷ q) msg n e t b = ground arith

pub tx_dequeue-takes :
    (c c' : Client) (msg : Message) (n : Bool)
    → tx_dequeue c ≡ takes msg c' n
    → IsValid c
    → (c.tx_queue ≡ msg ∷ c'.tx_queue)
      × (c'.tx_bytes_queued ≡ total c'.tx_queue)
      × (c'.tx_bytes_queued ≤ c.tx_bytes_queued)
      × (c'.tx_mode ≡ c.tx_mode)
unfolding tx_dequeue
tx_dequeue-takes c c' msg n e v = take_front-takes c c' c.tx_queue msg n e v.counted v.bounded

sender-IsOrdered :
    (h : History) (msg : Message) (c : Client) (n : Bool)
    → IsOrdered h
    → tx_dequeue h.client ≡ takes msg c n
    → IsOrdered (record h { client = c; taken = h.taken ++ (msg ∷ []) })
sender-IsOrdered h msg c n o e =
    let (split, counted, less, mode) = tx_dequeue-takes h.client c msg n e o.valid in
    let same : h.taken ++ h.client.tx_queue ≡ (h.taken ++ (msg ∷ [])) ++ c.tx_queue =
      ap (◌++◌ h.taken) split ∙ sym (append_assoc h.taken (msg ∷ []) c.tx_queue) in
    record {
      valid = record { counted = counted; bounded = omega (arith, o.valid.bounded) };
      in_order = subst (λ l. Sub l h.accepted) same o.in_order;
      complete = ground (arith, o.complete);
    }

Step-IsOrdered : {h k : History} → IsOrdered h → Step h k → IsOrdered k
Step-IsOrdered {h} o (input msg ok c n small e) = input-IsOrdered h msg ok c o (
    Outcome-Changes h.client.tx_mode h.client c msg ok n o.valid (
      subst (Outcome h.client.tx_mode h.client msg) e
        (tx_enqueue-Outcome h.client msg o.valid small)))
Step-IsOrdered {h} o (sender msg c n e) = sender-IsOrdered h msg c n o e
Step-IsOrdered {h} o deactivates = record {
  valid = record { counted = o.valid.counted; bounded = o.valid.bounded };
  in_order = o.in_order;
  complete = o.complete;
}

-- From a client with an empty queue, in every mode and every interleaving of input and sending: the
-- bytes of the queue are counted and at most 1 MiB. The messages that were taken and those still
-- queued are accepted messages in the order in which they were accepted, none twice; and they are
-- all the accepted messages unless the mode is `DropOldest`.
pub Reach-IsOrdered :
    {start : Client} {h : History}
    → start.tx_queue ≡ []
    → start.tx_bytes_queued ≡ 0
    → Reach start h
    → IsOrdered h
Reach-IsOrdered {start} e z begins = record {
  valid = record { counted = rw (e, z) refl; bounded = omega arith };
  in_order = subst (λ q. Sub q []) (sym e) none_left;
  complete = inr e;
}
Reach-IsOrdered e z (later r st) = Step-IsOrdered (Reach-IsOrdered e z r) st
