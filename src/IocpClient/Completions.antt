-- ===== src/IocpClient/Completions.antt =====
-- Completions in NetworkBasics/iocp/Client/ChatClient.cpp, and the sends in every interleaving of its threads.
use tcp_simple_chat.Base.{
  ℕ, ◌+◌, ◌≤◌, ◌≡◌, refl, sym, ap, ◌∙◌, subst, ◌⊎◌, inl, inr, List, [], ◌∷◌, ◌++◌, append_assoc,
  true, none, some, length, drop, take, ltb, arith, Bool-cases, flatten, length-drop,
  take-append-drop,
}
use tcp_simple_chat.SelectClient.{Pending}
use tcp_simple_chat.SelectClient.Stream.{
  AllUnsent, waiting-snoc, AllUnsent-snoc, drop-drop, drop-end,
}
use tcp_simple_chat.SelectClient.Stream
use tcp_simple_chat.IocpClient.{
  Message, waiting, Client, pop_front, complete, on_send_complete, close_socket, Step, sends, wakes,
  worker_kicks, completer_kicks, completes, fails, closes, Reach, here, after,
}
use tcp_simple_chat.IocpClient.Sends.{
  idles, worker_starts, completer_starts, busy, failed, IsSound, send_msg-IsSound,
  worker_kick-IsSound, completer_kick-IsSound, wake-IsSound,
}

-- The bytes that completed go to the end of what was sent.
moved :
    (sent : List ℕ) (n : ℕ) (front : Pending) (after_front : List ℕ)
    → (sent ++ take n (drop front.ofs front.line))
        ++ (drop (front.ofs + n) front.line ++ after_front)
      ≡ sent ++ (drop front.ofs front.line ++ after_front)
moved sent n front after_front =
    append_assoc sent (take n (drop front.ofs front.line)) _
    ∙ ap (◌++◌ sent) (
        sym (
          append_assoc (take n (drop front.ofs front.line)) (drop (front.ofs + n) front.line)
            after_front)
        ∙ ap (λ l. l ++ after_front)
            (ap (◌++◌ (take n (drop front.ofs front.line))) (sym (drop-drop front.ofs n front.line))
              ∙ take-append-drop n (drop front.ofs front.line)))

-- An idle client after `pop_front`, or one whose completer starts the next message.
pop_front-IsSound :
    (c : Client) (rest : List Pending)
    → AllUnsent rest
    → c.send_in_flight ≡ true
    → c.worker ≡ waiting
    → c.completer ≡ waiting
    → c.outstanding ≡ none
    → (c.lost ≡ true) ⊎ (c.sent ++ Stream.waiting rest ≡ flatten c.queued)
    → IsSound (pop_front c rest)
unfolding pop_front
pop_front-IsSound c [] v f w k o s = (tt, idles refl w k o, s)
pop_front-IsSound c (p ∷ rest) v f w k o s = (v, completer_starts f w refl o, s)

complete-IsSound :
    (n : ℕ) (c : Client) (front : Pending) (rest : List Pending)
    → AllUnsent (front ∷ rest)
    → n ≤ length (drop front.ofs front.line)
    → c.send_in_flight ≡ true
    → c.worker ≡ waiting
    → c.completer ≡ waiting
    → (c.lost ≡ true) ⊎ (c.sent ++ Stream.waiting (front ∷ rest) ≡ flatten c.queued)
    → IsSound (
        complete n
          (record c { outstanding = none; sent = c.sent ++ take n (drop front.ofs front.line) })
          (front ∷ rest))
unfolding complete
complete-IsSound n c front rest (u, v) le f w k s =
    let s' : (c.lost ≡ true)
        ⊎ ((c.sent ++ take n (drop front.ofs front.line))
              ++ (drop (front.ofs + n) front.line ++ Stream.waiting rest)
            ≡ flatten c.queued) =
      elim s [
        | inl gone ↦ inl gone
        | inr e ↦ inr (moved c.sent n front (Stream.waiting rest) ∙ e)
      ] in
    elim (Bool-cases (ltb (front.ofs + n) (length front.line))) [
      | inl e' ↦ rw (e', complete) ((ground arith, v), completer_starts f w refl refl, s')
      | inr e' ↦
          let at_end : drop (front.ofs + n) front.line ≡ [] =
            drop-end (front.ofs + n) front.line
              (ground (arith, length-drop front.ofs front.line)) in
          rw (e', complete)
            (pop_front-IsSound
              (record c { outstanding = none; sent = c.sent ++ take n (drop front.ofs front.line) })
              rest v f w k refl
              (subst
                (λ l.
                  (c.lost ≡ true)
                  ⊎ ((c.sent ++ take n (drop front.ofs front.line)) ++ (l ++ Stream.waiting rest)
                      ≡ flatten c.queued))
                at_end s'))
    ]

on_send_complete-IsSound :
    (n : ℕ) (buf : Message) (c : Client)
    → c.completer ≡ waiting
    → c.outstanding ≡ some buf
    → n ≤ length buf
    → IsSound c
    → IsSound (on_send_complete n buf c)
on_send_complete-IsSound n buf c k o le (v, phase, stream) = elim phase [
  | idles a b d e ↦ cc
  | worker_starts a b d e ↦ cc
  | completer_starts a b d e ↦ cc
  | busy front rest a b d q e ↦
      let same : buf ≡ drop front.ofs front.line = cc in
      subst
        (λ l.
          IsSound
            (complete n (record c { outstanding = none; sent = c.sent ++ take n l }) c.send_queue))
        (sym same)
        (subst
          (λ l. IsSound (
            complete n
              (record c { outstanding = none; sent = c.sent ++ take n (drop front.ofs front.line) })
              l))
          (sym q)
          (complete-IsSound n c front rest (subst AllUnsent q v) (subst (λ l. n ≤ length l) same le)
            a b d
            (subst (λ l. (c.lost ≡ true) ⊎ (c.sent ++ Stream.waiting l ≡ flatten c.queued)) q
              stream)))
  | failed a b d e ↦ cc
]

fails-IsSound :
    (c : Client) (buf : Message)
    → c.outstanding ≡ some buf
    → IsSound c
    → IsSound (record (close_socket c) { outstanding = none })
fails-IsSound c buf o (v, phase, stream) = elim phase [
  | idles a b d e ↦ cc
  | worker_starts a b d e ↦ cc
  | completer_starts a b d e ↦ cc
  | busy front rest a b d q e ↦ (v, failed a b d refl, stream)
  | failed a b d e ↦ cc
]

close_socket-IsSound : (c : Client) → IsSound c → IsSound (close_socket c)
close_socket-IsSound c (v, phase, stream) = (
  v,
  elim phase [
    | idles a b d e ↦ idles a b d e
    | worker_starts a b d e ↦ worker_starts a b d e
    | completer_starts a b d e ↦ completer_starts a b d e
    | busy front rest a b d q e ↦ busy front rest a b d q e
    | failed a b d e ↦ failed a b d e
  ],
  stream,
)

Step-IsSound : {c d : Client} → Step c d → IsSound c → IsSound d
Step-IsSound (sends c m some') s = send_msg-IsSound c m some' s
Step-IsSound (wakes c w f q) s = wake-IsSound c w f s
Step-IsSound (worker_kicks c posts w) s = worker_kick-IsSound posts c w s
Step-IsSound (completer_kicks c posts k) s = completer_kick-IsSound posts c k s
Step-IsSound (completes c buf n k o some' le) s = on_send_complete-IsSound n buf c k o le s
Step-IsSound (fails c buf k o) s = fails-IsSound c buf o s
Step-IsSound (closes c k) s = close_socket-IsSound c s

-- However the threads are interleaved, a client whose threads are in step stays so: at most one
-- WSASend is outstanding, and it has the rest of the message at the front of the queue. Unless bytes
-- were given up, the bytes that completed followed by those that wait in the queue are the messages
-- that were queued, in their order.
pub Reach-IsSound : {c d : Client} → Reach c d → IsSound c → IsSound d
Reach-IsSound (here c) s = s
Reach-IsSound (after r step) s = Step-IsSound step (Reach-IsSound r s)
