-- ===== src/FramedClient/Rx.antt =====
-- The receive side of Protocols/Framing/Client/ChatClient.cpp: `ReceiveMessages` fills a bounded queue
-- and `PrintMessages` empties it. The sections under `m_rxMutex`, and their interleavings.
use tcp_simple_chat.Base.{
  ℕ, ◌+◌, ◌%◌, ◌^◌, ◌≤◌, ◌<◌, ◌≡◌, ◌≢◌, refl, sym, ap, ◌∙◌, ◌⊎◌, inl, inr, subst, List, [], ◌∷◌,
  ◌++◌, append_assoc, Bool, true, false, arith, length, length-append, leb, if◌then◌else◌,
}
use tcp_simple_chat.FramedClient.{
  Message, Client, RxOverflowMode, drop_newest, drop_oldest, disconnect_on_overflow,
}
use tcp_simple_chat.Base.Sub.{Sub, none_left, keeps, skips, Sub-snoc, Sub-trans, Sub-drop}

abbrev pub max_rx_queue_size : ℕ
max_rx_queue_size = 500

-- A round of `ReceiveMessages` after its `recv_frame`: the loop goes on, or the thread ends.
pub data Received : Type 0 where
  continues : Client → Received
  ends : Client → Received

unfoldable pub push : Client → List Message → Message → Client
push c queue msg = record c { rx_queue = queue ++ (msg ∷ []) }

abbrev pub without_front : List Message → List Message
without_front [] = []
without_front (m ∷ ms) = ms

unfoldable pub overflowing : RxOverflowMode → Client → Message → Received
unfolding push
overflowing drop_newest c msg = continues c
overflowing drop_oldest c msg = continues (push c (without_front c.rx_queue) msg)
overflowing disconnect_on_overflow c msg = ends (record c { is_active = false })

unfoldable pub receive : Client → Bool → Message → Received
unfolding overflowing push
receive c false msg = ends (record c { is_active = false })
receive c true msg =
    if leb max_rx_queue_size (length c.rx_queue % 2 ^ 32)
    then overflowing c.rx_mode c msg
    else continues (push c c.rx_queue msg)

-- The locked section of a round of `PrintMessages`.
pub data Printed : Type 0 where
  idles : Printed
  exits : Printed
  prints : Message → Client → Printed

unfoldable pub print_front : Client → List Message → Printed
print_front c [] = if c.is_active then idles else exits
print_front c (msg ∷ rest) = prints msg (record c { rx_queue = rest })

unfoldable pub print_turn : Client → Printed
unfolding print_front
print_turn c = print_front c c.rx_queue

pub record History : Type 0 where
  pub client : Client
  -- messages that `recv_frame` brought, and that were printed, oldest first
  pub arrived : List Message
  pub printed : List Message

pub data Step (h : History) : History → Type 0 where
  receiver :
      (msg : Message) (c : Client)
      → receive h.client true msg ≡ continues c
      → Step h (record h { client = c; arrived = h.arrived ++ (msg ∷ []) })
  receiver_ends :
      (ok : Bool) (msg : Message) (c : Client)
      → receive h.client ok msg ≡ ends c
      → Step h (record h { client = c })
  printer :
      (msg : Message) (c : Client)
      → print_turn h.client ≡ prints msg c
      → Step h (record h { client = c; printed = h.printed ++ (msg ∷ []) })
  deactivates : Step h (record h { client = record (h.client) { is_active = false } })

pub data Reach (start : Client) : History → Type 0 where
  begins : Reach start (record { client = start; arrived = []; printed = [] })
  later : {h k : History} → Reach start h → Step h k → Reach start k

pub record IsRelayed (h : History) : Type 0 where
  pub bounded : length h.client.rx_queue ≤ max_rx_queue_size
  pub in_order : Sub (h.printed ++ h.client.rx_queue) h.arrived
  pub complete :
      (h.client.rx_mode ≢ disconnect_on_overflow) ⊎ (h.printed ++ h.client.rx_queue ≡ h.arrived)

-- What a round that goes on did to the queue.
abbrev Changes : Client → Message → Client → Type 0
Changes c msg c' =
    ((c.rx_mode ≡ drop_newest) × (c'.rx_queue ≡ c.rx_queue) × (c'.rx_mode ≡ c.rx_mode))
    ⊎ (((c.rx_mode ≡ drop_oldest)
          × (c'.rx_queue ≡ without_front c.rx_queue ++ (msg ∷ []))
          × (max_rx_queue_size ≤ length c.rx_queue)
          × (c'.rx_mode ≡ c.rx_mode))
        ⊎ ((c'.rx_queue ≡ c.rx_queue ++ (msg ∷ []))
            × (length c.rx_queue < max_rx_queue_size)
            × (c'.rx_mode ≡ c.rx_mode)))

receive-Changes :
    (mode : RxOverflowMode) (c c' : Client) (msg : Message)
    → c.rx_mode ≡ mode
    → length c.rx_queue ≤ max_rx_queue_size
    → receive c true msg ≡ continues c'
    → Changes c msg c'
unfolding receive
receive-Changes drop_newest c c' msg m b e = ground arith
receive-Changes drop_oldest c c' msg m b e = ground arith
receive-Changes disconnect_on_overflow c c' msg m b e = ground arith

Sub-skip : {xs ys : List Message} (m : Message) → Sub xs ys → Sub xs (ys ++ (m ∷ []))
Sub-skip m none_left = skips m none_left
Sub-skip m (keeps n s) = keeps n (Sub-skip m s)
Sub-skip m (skips n s) = skips n (Sub-skip m s)

length-without_front : (q : List Message) → 0 < length q → length (without_front q) + 1 ≡ length q
length-without_front [] h = absurd (omega arith)
length-without_front (m ∷ q) h = omega arith

Sub-without_front : (xs q : List Message) → Sub (xs ++ without_front q) (xs ++ q)
Sub-without_front xs [] = Sub-drop xs [] []
Sub-without_front xs (m ∷ q) = Sub-drop xs (m ∷ []) q

push-Sub :
    (printed q arrived : List Message) (msg : Message)
    → Sub (printed ++ q) arrived
    → Sub (printed ++ (q ++ (msg ∷ []))) (arrived ++ (msg ∷ []))
push-Sub printed q arrived msg s =
    subst (λ l. Sub l (arrived ++ (msg ∷ []))) (append_assoc printed q (msg ∷ [])) (Sub-snoc msg s)

receiver-IsRelayed :
    (h : History) (msg : Message) (c : Client)
    → IsRelayed h
    → Changes h.client msg c
    → IsRelayed (record h { client = c; arrived = h.arrived ++ (msg ∷ []) })
receiver-IsRelayed h msg c o (inl (mode, same, kept)) = record {
  bounded = ground (arith, o.bounded);
  in_order =
      subst (λ q. Sub (h.printed ++ q) (h.arrived ++ (msg ∷ []))) (sym same)
        (Sub-skip msg o.in_order);
  complete = inl (λ e. ground arith);
}
receiver-IsRelayed h msg c o (inr (inl (mode, queue, full, kept))) = record {
  bounded = omega (
    arith,
    o.bounded,
    ap length queue,
    length-append (without_front h.client.rx_queue) (msg ∷ []),
    length-without_front h.client.rx_queue (omega arith),
  );
  in_order =
      subst (λ q. Sub (h.printed ++ q) (h.arrived ++ (msg ∷ []))) (sym queue)
        (push-Sub h.printed (without_front h.client.rx_queue) h.arrived msg
          (Sub-trans (Sub-without_front h.printed h.client.rx_queue) o.in_order));
  complete = inl (λ e. ground arith);
}
receiver-IsRelayed h msg c o (inr (inr (queue, room, kept))) = record {
  bounded = omega (arith, ap length queue, length-append h.client.rx_queue (msg ∷ []));
  in_order =
      subst (λ q. Sub (h.printed ++ q) (h.arrived ++ (msg ∷ []))) (sym queue)
        (push-Sub h.printed h.client.rx_queue h.arrived msg o.in_order);
  complete = ground (arith, o.complete, append_assoc h.printed h.client.rx_queue (msg ∷ []));
}

receive-ends :
    (c c' : Client) (ok : Bool) (msg : Message)
    → receive c ok msg ≡ ends c'
    → c' ≡ record c { is_active = false }
unfolding receive
receive-ends c c' false msg e = ground arith
receive-ends c c' true msg e = ground arith

print_front-prints :
    (c c' : Client) (q : List Message) (msg : Message)
    → print_front c q ≡ prints msg c'
    → (q ≡ msg ∷ c'.rx_queue) × (c'.rx_mode ≡ c.rx_mode)
unfolding print_front
print_front-prints c c' [] msg e = ground arith
print_front-prints c c' (m ∷ q) msg e = ground arith

printer-IsRelayed :
    (h : History) (msg : Message) (c : Client)
    → IsRelayed h
    → print_turn h.client ≡ prints msg c
    → IsRelayed (record h { client = c; printed = h.printed ++ (msg ∷ []) })
unfolding print_turn
printer-IsRelayed h msg c o e =
    let (queue, mode) = print_front-prints h.client c h.client.rx_queue msg e in
    let same : h.printed ++ h.client.rx_queue ≡ (h.printed ++ (msg ∷ [])) ++ c.rx_queue =
      ap (◌++◌ h.printed) queue ∙ sym (append_assoc h.printed (msg ∷ []) c.rx_queue) in
    record {
      bounded = omega (arith, o.bounded, ap length queue);
      in_order = subst (λ l. Sub l h.arrived) same o.in_order;
      complete = elim o.complete [
        | inl other ↦ inl (λ e'. other (sym mode ∙ e'))
        | inr all ↦ inr (sym same ∙ all)
      ];
    }

Step-IsRelayed : {h k : History} → IsRelayed h → Step h k → IsRelayed k
Step-IsRelayed {h} o (receiver msg c e) =
    receiver-IsRelayed h msg c o (receive-Changes h.client.rx_mode h.client c msg refl o.bounded e)
Step-IsRelayed {h} o (receiver_ends ok msg c e) =
    let same = receive-ends h.client c ok msg e in
    rw same (record { bounded = o.bounded; in_order = o.in_order; complete = o.complete })
Step-IsRelayed {h} o (printer msg c e) = printer-IsRelayed h msg c o e
Step-IsRelayed {h} o deactivates = record {
  bounded = o.bounded;
  in_order = o.in_order;
  complete = o.complete;
}

-- From a client with an empty receive queue, in every mode and every interleaving of receiving and
-- printing: at most 500 messages are queued. The messages that were printed and those still queued
-- are messages that arrived, in the order of arrival, none twice; in the mode
-- `DisconnectOnOverflow` they are all the messages that arrived while the loop went on.
pub Reach-IsRelayed :
    {start : Client} {h : History} → start.rx_queue ≡ [] → Reach start h → IsRelayed h
Reach-IsRelayed {start} e begins = record {
  bounded = omega (arith, ap length e);
  in_order = subst (λ q. Sub q []) (sym e) none_left;
  complete = inr e;
}
Reach-IsRelayed e (later r st) = Step-IsRelayed (Reach-IsRelayed e r) st
