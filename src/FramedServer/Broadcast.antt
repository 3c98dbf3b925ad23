-- ===== src/FramedServer/Broadcast.antt =====
-- `BroadcastMsg` of Protocols/Framing/Server/ChatServer.cpp.
use tcp_simple_chat.Base.{
  update, contains, Distinct, contains-append, ℕ, ◌+◌, ◌^◌, ◌≤◌, ◌<◌, ◌≡◌, refl, ap, ◌∙◌, fun_ext,
  subst, inl, inr, List, [], ◌∷◌, ◌++◌, Bool, true, false, not, ◌&&◌, arith, length, ◌==◌,
  if◌then◌else◌, Bool-cases,
}
use tcp_simple_chat.FramedSession.{
  Message, Session, tx_hwm_bytes, send_msg, has_room, waits, returns,
}
use tcp_simple_chat.FramedSession.Backpressure.{with_message}
use tcp_simple_chat.FramedServer.{Server, snapshot, delivered, stuck, deliver, broadcast_msg}

-- Every session of the list has room for the message.
abbrev pub AllReady : (ℕ → Session) → ℕ → List ℕ → Type 0
AllReady h size [] = Unit
AllReady h size (p ∷ ps) = ((h p).tx_bytes_queued + size ≤ tx_hwm_bytes) × AllReady h size ps

-- What a session becomes when a message is sent to it.
abbrev pub sent_to : Session → Message → Session
sent_to s msg = if s.active then with_message s msg else s

send_msg-ready :
    (s : Session) (msg : Message)
    → s.tx_bytes_queued + length msg ≤ tx_hwm_bytes
    → send_msg s msg ≡ returns (sent_to s msg)
unfolding send_msg has_room
send_msg-ready s msg room = ground arith

pub send_msg-full :
    (s : Session) (msg : Message)
    → s.active ≡ true
    → tx_hwm_bytes < s.tx_bytes_queued + length msg
    → s.tx_bytes_queued + length msg < 2 ^ 64
    → send_msg s msg ≡ waits
unfolding send_msg has_room
send_msg-full s msg on full small = ground arith

AllReady-update :
    (h : ℕ → Session) (p : ℕ) (s : Session) (size : ℕ) (ps : List ℕ)
    → contains ps p ≡ false
    → AllReady h size ps
    → AllReady (update h p s) size ps
AllReady-update h p s size [] out r = tt
AllReady-update h p s size (q ∷ ps) out r =
    (ground arith, AllReady-update h p s size ps (ground arith) r.1)

-- The sessions after a message was sent to those of the list.
abbrev pub after : List ℕ → Message → (ℕ → Session) → ℕ → Session
after ps msg h q = if contains ps q then sent_to (h q) msg else h q

after-cons :
    (p : ℕ) (ps : List ℕ) (msg : Message) (h : ℕ → Session) (q : ℕ)
    → contains ps p ≡ false
    → after ps msg (update h p (sent_to (h p) msg)) q ≡ after (p ∷ ps) msg h q
after-cons p ps msg h q out = elim (Bool-cases (q == p)) [
  | inl same ↦ let e : q ≡ p = ground arith in ground (arith, e)
  | inr other ↦ ground arith
]

deliver-after :
    (ps : List ℕ) (msg : Message) (h : ℕ → Session)
    → Distinct ps
    → AllReady h (length msg) ps
    → deliver ps msg h ≡ delivered (after ps msg h)
unfolding deliver
deliver-after [] msg h d r = refl
deliver-after (p ∷ ps) msg h d r =
    rw (send_msg-ready (h p) msg r.0, deliver)
      (deliver-after ps msg (update h p (sent_to (h p) msg)) d.1
          (AllReady-update h p _ (length msg) ps d.0 r.1)
        ∙ ap delivered (fun_ext λ q. after-cons p ps msg h q d.0))

pub contains-snapshot :
    (sender : ℕ) (ps : List ℕ) (q : ℕ)
    → contains (snapshot sender ps) q ≡ (contains ps q && not (q == sender))
unfolding snapshot
contains-snapshot sender [] q = refl
contains-snapshot sender (p ∷ ps) q = ground (arith, contains-snapshot sender ps q)

pub Distinct-snapshot : (sender : ℕ) (ps : List ℕ) → Distinct ps → Distinct (snapshot sender ps)
unfolding snapshot
Distinct-snapshot sender [] d = tt
Distinct-snapshot sender (p ∷ ps) d =
    ground (arith, Distinct-snapshot sender ps d.1, contains-snapshot sender ps p)

-- Where every session but the sender's has room for the message below 256 KiB, `BroadcastMsg`
-- returns; it queued the message once at the back of every active session but the sender's, and
-- changed no other session.
pub broadcast_msg-delivered :
    (server : Server) (msg : Message) (sender : ℕ)
    → Distinct server.clients
    → AllReady server.sessions (length msg) (snapshot sender server.clients)
    → broadcast_msg server msg sender
      ≡ delivered (λ q.
        if contains server.clients q && not (q == sender)
        then sent_to (server.sessions q) msg
        else server.sessions q)
unfolding broadcast_msg
broadcast_msg-delivered server msg sender d r =
    deliver-after (snapshot sender server.clients) msg server.sessions
      (Distinct-snapshot sender server.clients d) r
    ∙ ap delivered (
        fun_ext λ q.
          ap (λ (b : Bool). if b then sent_to (server.sessions q) msg else server.sessions q)
            (contains-snapshot sender server.clients q))

deliver-stuck :
    (before : List ℕ) (p : ℕ) (rest : List ℕ) (msg : Message) (h : ℕ → Session)
    → Distinct (before ++ (p ∷ rest))
    → AllReady h (length msg) before
    → (h p).active ≡ true
    → tx_hwm_bytes < (h p).tx_bytes_queued + length msg
    → (h p).tx_bytes_queued + length msg < 2 ^ 64
    → deliver (before ++ (p ∷ rest)) msg h ≡ stuck p rest (after before msg h)
unfolding deliver
deliver-stuck [] p rest msg h d r on full small =
    rw (send_msg-full (h p) msg on full small, deliver)
deliver-stuck (q ∷ before) p rest msg h d r on full small =
    let s' = sent_to (h q) msg in
    let apart : contains before q ≡ false = ground (arith, contains-append before (p ∷ rest) q) in
    let same : update h q s' p ≡ h p = ground (arith, contains-append before (p ∷ rest) q) in
    rw (send_msg-ready (h q) msg r.0, deliver)
      (deliver-stuck before p rest msg (update h q s') d.1
          (AllReady-update h q s' (length msg) before apart r.1) (ground (arith, same))
          (ground (arith, same)) (ground (arith, same))
        ∙ ap (stuck p rest) (fun_ext λ k. after-cons q before msg h k apart))

-- One full session holds up the others: where the sessions before it in the snapshot have room, and
-- it is active and the message would take it over 256 KiB, `BroadcastMsg` waits in its `SendMsg`. The
-- sessions before it have the message; those after it, and all others, are as they were.
pub broadcast_msg-stuck :
    (server : Server) (msg : Message) (sender : ℕ) (before : List ℕ) (p : ℕ) (rest : List ℕ)
    → Distinct server.clients
    → snapshot sender server.clients ≡ before ++ (p ∷ rest)
    → AllReady server.sessions (length msg) before
    → (server.sessions p).active ≡ true
    → tx_hwm_bytes < (server.sessions p).tx_bytes_queued + length msg
    → (server.sessions p).tx_bytes_queued + length msg < 2 ^ 64
    → broadcast_msg server msg sender
      ≡ stuck p rest
          (λ q. if contains before q then sent_to (server.sessions q) msg else server.sessions q)
unfolding broadcast_msg
broadcast_msg-stuck server msg sender before p rest d e r on full small =
    ap (λ ps. deliver ps msg server.sessions) e
    ∙ deliver-stuck before p rest msg server.sessions
        (subst Distinct e (Distinct-snapshot sender server.clients d)) r on full small
