-- ===== src/Iocp/Sends.antt =====
-- `PostSend` and `OnSendComplete` of NetworkBasics/iocp/Server: what is posted and what is queued.
use tcp_simple_chat.Base.{
  NonEmpty, NonEmpty-snoc, ℕ, zero, suc, ◌+◌, ◌<◌, ◌≡◌, refl, sym, ap, ap₂, ◌∙◌, ◌⊎◌, inl, inr,
  List, [], ◌∷◌, ◌++◌, subst, Bool, true, false, arith, length, length-append,
}
use tcp_simple_chat.Iocp.{Message, Session, start_send, post_send, complete_send}

-- Either a send is in flight, of the message at the front of the queue, or nothing is queued; and no
-- queued message is empty.
abbrev pub IsInFlight : Session → Type 0
IsInFlight s =
    NonEmpty s.send_queue
    × (((s.send_in_flight ≡ true)
          × ((before : List Message) × (front : Message) × (rest : List Message) × (s.send_queue
                ≡ front ∷ rest)
              × (s.posted ≡ before ++ (front ∷ []))))
        ⊎ ((s.send_in_flight ≡ false) × (s.send_queue ≡ [])))

-- A message is posted, with either result of WSASend, or a send completes and WSASend takes the next.
pub data Step : Session → Session → Type 0 where
  posts : (ok : Bool) (m : Message) (s : Session) → Step s (post_send ok m s).1
  completes : (s : Session) → s.send_in_flight ≡ true → Step s (complete_send true s)

pub data Reach : Session → Session → Type 0 where
  here : (s : Session) → Reach s s
  after : {s t u : Session} → Reach s t → Step t u → Reach s u

queued : (s : Session) {q : List Message} → s.send_queue ≡ q → s ≡ record s { send_queue = q }
queued s e = ap (λ l. record s { send_queue = l }) e

resting :
    (s : Session)
    → s.send_in_flight ≡ false
    → s.send_queue ≡ []
    → s ≡ record s { send_in_flight = false; send_queue = [] }
resting s off e = ap₂ (λ f l. record s { send_in_flight = f; send_queue = l }) off e

pub post_send-IsInFlight :
    (ok : Bool) (m : Message) (s : Session) → IsInFlight s → IsInFlight (post_send ok m s).1
unfolding post_send start_send
post_send-IsInFlight ok [] s v = v
post_send-IsInFlight ok (b ∷ bs) s (full, inl (on, (before, front, rest, q, p))) =
    subst (λ t. IsInFlight (post_send ok (b ∷ bs) t).1)
      (ap (λ f. record s { send_in_flight = f }) (sym on))
      (
        NonEmpty-snoc s.send_queue (b ∷ bs) full (omega arith),
        inl (refl, (before, front, rest ++ ((b ∷ bs) ∷ []), ap (λ l. l ++ ((b ∷ bs) ∷ [])) q, p)),
      )
post_send-IsInFlight true (b ∷ bs) s (full, inr (off, q)) =
    subst (λ t. IsInFlight (post_send true (b ∷ bs) t).1) (sym (resting s off q))
      ((omega arith, tt), inl (refl, (s.posted, b ∷ bs, [], refl, refl)))
post_send-IsInFlight false (b ∷ bs) s (full, inr (off, q)) =
    subst (λ t. IsInFlight (post_send false (b ∷ bs) t).1) (sym (resting s off q))
      (tt, inr (refl, refl))

complete_send-rest :
    (s : Session) (front : Message) (rest : List Message)
    → NonEmpty rest
    → IsInFlight (complete_send true (record s { send_queue = front ∷ rest }))
unfolding complete_send post_send start_send
complete_send-rest s front [] full = (tt, inr (refl, refl))
complete_send-rest s front ([] ∷ ms) full = absurd (omega (arith, full.0))
complete_send-rest s front ((b ∷ bs) ∷ ms) full = (
  NonEmpty-snoc ((b ∷ bs) ∷ ms) (b ∷ bs) full (omega arith),
  inl (refl, (s.posted, b ∷ bs, ms ++ ((b ∷ bs) ∷ []), refl, refl)),
)

pub complete_send-IsInFlight :
    (s : Session) → s.send_in_flight ≡ true → IsInFlight s → IsInFlight (complete_send true s)
complete_send-IsInFlight s on (full, inr (off, q)) = cc
complete_send-IsInFlight s on (full, inl (_, (before, front, rest, q, p))) =
    subst (λ t. IsInFlight (complete_send true t)) (sym (queued s q))
      (complete_send-rest s front rest (subst NonEmpty q full).1)

Step-IsInFlight : {s t : Session} → Step s t → IsInFlight s → IsInFlight t
Step-IsInFlight (posts ok m s) v = post_send-IsInFlight ok m s v
Step-IsInFlight (completes s on) v = complete_send-IsInFlight s on v

-- However posts and successful completions alternate, and even where WSASend refuses a posted
-- message while nothing is in flight: a send is in flight just when a message is queued, and then
-- the last buffer that was posted is the front of the queue.
pub Reach-IsInFlight : {s t : Session} → Reach s t → IsInFlight s → IsInFlight t
Reach-IsInFlight (here s) v = v
Reach-IsInFlight (after r step) v = Step-IsInFlight step (Reach-IsInFlight r v)

-- The session after a number of successful completions.
abbrev pub rounds : ℕ → Session → Session
rounds zero s = s
rounds (suc n) s = rounds n (complete_send true s)

-- At least two messages are queued, none of them empty.
abbrev pub IsLong : List Message → Type 0
IsLong q =
    (a : Message) × (m : Message) × (ms : List Message) × (q ≡ a ∷ m ∷ ms)
    × (0 < length m)
    × NonEmpty ms

IsLong-snoc :
    (m : Message) (ms : List Message) → 0 < length m → NonEmpty ms → IsLong (m ∷ (ms ++ (m ∷ [])))
IsLong-snoc m [] some' full = (m, m, [], refl, some', tt)
IsLong-snoc m (n ∷ ms) some' full =
    (m, n, ms ++ (m ∷ []), refl, full.0, NonEmpty-snoc ms m full.1 some')

complete_send-IsLong :
    (s : Session)
    → IsLong s.send_queue
    → IsLong (complete_send true s).send_queue
      × (length (complete_send true s).send_queue ≡ length s.send_queue)
      × (length (complete_send true s).posted ≡ length s.posted + 1)
unfolding complete_send post_send start_send
complete_send-IsLong s (a, [], ms, q, some', full) = absurd (omega (arith, some'))
complete_send-IsLong s (a, b ∷ bs, ms, q, some', full) =
    subst
      (λ t.
        IsLong (complete_send true t).send_queue
        × (length (complete_send true t).send_queue ≡ length t.send_queue)
        × (length (complete_send true t).posted ≡ length t.posted + 1))
      (sym (queued s q))
      (
        IsLong-snoc (b ∷ bs) ms some' full,
        omega (arith, length-append ms ((b ∷ bs) ∷ [])),
        omega (arith, length-append s.posted ((b ∷ bs) ∷ [])),
      )

-- A queue of two or more messages never empties by sending: every successful completion posts one
-- more buffer and leaves the queue as long as it was.
pub rounds-length :
    (n : ℕ) (s : Session)
    → IsLong s.send_queue
    → (length (rounds n s).send_queue ≡ length s.send_queue)
      × (length (rounds n s).posted ≡ length s.posted + n)
rounds-length zero s long = (refl, omega arith)
rounds-length (suc n) s long =
    let (long', same, more) = complete_send-IsLong s long in
    let (same', more') = rounds-length n (complete_send true s) long' in (same' ∙ same, omega arith)
