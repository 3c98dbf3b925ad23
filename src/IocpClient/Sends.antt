-- ===== src/IocpClient/Sends.antt =====
-- The sends of NetworkBasics/iocp/Client/ChatClient.cpp, and what the locked sections keep of them.
use tcp_simple_chat.Base.{
  ◌<◌, ◌≡◌, refl, sym, ap, ◌∙◌, subst, ◌⊎◌, inl, inr, List, [], ◌∷◌, ◌++◌, append_assoc, append-nil,
  Bool, true, false, none, some, length, drop, flatten, flatten-append,
}
use tcp_simple_chat.SelectClient.{Pending}
use tcp_simple_chat.SelectClient.Stream.{
  AllUnsent, waiting-snoc, AllUnsent-snoc, drop-drop, drop-end,
}
use tcp_simple_chat.SelectClient.Stream
use tcp_simple_chat.IocpClient.{
  Message, waiting, kicking, Client, send_msg, wake, kick_front, kick_send, worker_kick,
  completer_kick,
}

-- Where the client is with its sends: none is under way, one thread is about to start one, WSASend has
-- the rest of the front of the queue, or the send that was under way failed.
pub data Phase (c : Client) : Type 0 where
  idles :
      c.send_in_flight ≡ false
      → c.worker ≡ waiting
      → c.completer ≡ waiting
      → c.outstanding ≡ none
      → Phase c
  worker_starts :
      c.send_in_flight ≡ true
      → c.worker ≡ kicking
      → c.completer ≡ waiting
      → c.outstanding ≡ none
      → Phase c
  completer_starts :
      c.send_in_flight ≡ true
      → c.worker ≡ waiting
      → c.completer ≡ kicking
      → c.outstanding ≡ none
      → Phase c
  busy :
      (front : Pending) (rest : List Pending)
      → c.send_in_flight ≡ true
      → c.worker ≡ waiting
      → c.completer ≡ waiting
      → c.send_queue ≡ front ∷ rest
      → c.outstanding ≡ some (drop front.ofs front.line)
      → Phase c
  failed :
      c.send_in_flight ≡ true
      → c.worker ≡ waiting
      → c.completer ≡ waiting
      → c.outstanding ≡ none
      → Phase c

-- Nothing that is queued is empty or sent in full, the threads are in step, and unless bytes were
-- given up, those that completed followed by those that wait are the messages queued so far.
abbrev pub IsSound : Client → Type 0
IsSound c =
    AllUnsent c.send_queue
    × Phase c
    × ((c.lost ≡ true) ⊎ (c.sent ++ Stream.waiting c.send_queue ≡ flatten c.queued))

pub send_msg-IsSound :
    (c : Client) (m : Message) → 0 < length m → IsSound c → IsSound (send_msg c m)
send_msg-IsSound c m some' (v, phase, stream) = (
  AllUnsent-snoc c.send_queue _ v some',
  elim phase [
    | idles a b d e ↦ idles a b d e
    | worker_starts a b d e ↦ worker_starts a b d e
    | completer_starts a b d e ↦ completer_starts a b d e
    | busy front rest a b d q e ↦
        busy front (rest ++ (record { line = m; ofs = 0 } ∷ [])) a b d
          (ap (λ l. l ++ (record { line = m; ofs = 0 } ∷ [])) q) e
    | failed a b d e ↦ failed a b d e
  ],
  elim stream [
    | inl gone ↦ inl gone
    | inr e ↦ inr (
        ap (◌++◌ c.sent) (waiting-snoc c.send_queue _)
        ∙ sym (append_assoc c.sent (Stream.waiting c.send_queue) m)
        ∙ ap (λ l. l ++ m) e
        ∙ ap (◌++◌ (flatten c.queued)) (sym (append-nil m))
        ∙ sym (flatten-append c.queued (m ∷ [])))
  ],
)

-- What the bytes that completed and those that wait make up.
abbrev Streams : Client → Type 0
Streams c = (c.lost ≡ true) ⊎ (c.sent ++ Stream.waiting c.send_queue ≡ flatten c.queued)

-- What `kick_send` leaves: nothing under way, or the rest of the front with WSASend.
abbrev Started : Client → Type 0
Started d =
    ((d.send_in_flight ≡ false) × (d.outstanding ≡ none))
    ⊎ ((front : Pending) × (rest : List Pending) × (d.send_in_flight ≡ true)
        × (d.send_queue ≡ front ∷ rest)
        × (d.outstanding ≡ some (drop front.ofs front.line)))

abbrev Kicked : Client → Client → Type 0
Kicked c d =
    AllUnsent d.send_queue
    × Streams d
    × (d.worker ≡ c.worker)
    × (d.completer ≡ c.completer)
    × Started d

kick_front-Kicked :
    (open' posts : Bool) (c : Client) (front : Pending) (rest : List Pending)
    → c.send_queue ≡ front ∷ rest
    → AllUnsent (front ∷ rest)
    → Streams c
    → c.send_in_flight ≡ true
    → c.outstanding ≡ none
    → Kicked c (kick_front open' posts c front rest)
unfolding kick_front
kick_front-Kicked false posts c front rest q v s f o = (tt, inl refl, refl, refl, inl (refl, o))
kick_front-Kicked true true c front rest q v s f o =
    (subst AllUnsent (sym q) v, s, refl, refl, inr (front, rest, f, q, refl))
kick_front-Kicked true false c front rest q (u, v) s f o = (v, inl refl, refl, refl, inl (refl, o))

kick_send-Kicked :
    (posts : Bool) (c : Client) (queue : List Pending)
    → c.send_queue ≡ queue
    → AllUnsent queue
    → Streams c
    → c.send_in_flight ≡ true
    → c.outstanding ≡ none
    → Kicked c (kick_send posts c queue)
unfolding kick_send
kick_send-Kicked posts c [] q v s f o = (subst AllUnsent (sym q) v, s, refl, refl, inl (refl, o))
kick_send-Kicked posts c (front ∷ rest) q v s f o =
    kick_front-Kicked c.open_socket posts c front rest q v s f o

pub worker_kick-IsSound :
    (posts : Bool) (c : Client) → c.worker ≡ kicking → IsSound c → IsSound (worker_kick posts c)
worker_kick-IsSound posts c k (v, phase, stream) = elim phase [
  | idles a b d e ↦ cc
  | worker_starts a b d e ↦
      let (v', s', w', d', started) = kick_send-Kicked posts c c.send_queue refl v stream a e in
      (
        v',
        elim started [
          | inl (f, o) ↦ idles f refl (d' ∙ d) o
          | inr (front, rest, f, q, o) ↦ busy front rest f refl (d' ∙ d) q o
        ],
        s',
      )
  | completer_starts a b d e ↦ cc
  | busy front rest a b d q e ↦ cc
  | failed a b d e ↦ cc
]

pub completer_kick-IsSound :
    (posts : Bool) (c : Client)
    → c.completer ≡ kicking
    → IsSound c
    → IsSound (completer_kick posts c)
completer_kick-IsSound posts c k (v, phase, stream) = elim phase [
  | idles a b d e ↦ cc
  | worker_starts a b d e ↦ cc
  | completer_starts a b d e ↦
      let (v', s', w', d', started) = kick_send-Kicked posts c c.send_queue refl v stream a e in
      (
        v',
        elim started [
          | inl (f, o) ↦ idles f (w' ∙ b) refl o
          | inr (front, rest, f, q, o) ↦ busy front rest f (w' ∙ b) refl q o
        ],
        s',
      )
  | busy front rest a b d q e ↦ cc
  | failed a b d e ↦ cc
]

pub wake-IsSound :
    (c : Client) → c.worker ≡ waiting → c.send_in_flight ≡ false → IsSound c → IsSound (wake c)
wake-IsSound c w f (v, phase, stream) = elim phase [
  | idles a b d e ↦ (v, worker_starts refl refl d e, stream)
  | worker_starts a b d e ↦ cc
  | completer_starts a b d e ↦ cc
  | busy front rest a b d q e ↦ cc
  | failed a b d e ↦ cc
]
