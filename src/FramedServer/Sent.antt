-- ===== src/FramedServer/Sent.antt =====
-- What `SendLoop` of a session of Protocols/Framing/Server sends, and whose messages these are.
use tcp_simple_chat.Base.{
  ℕ, ◌≡◌, refl, sym, ap, ap₂, ◌∙◌, arith, inl, inr, List, [], ◌∷◌, ◌++◌, append_assoc, Bool-cases,
  ◌==◌, if◌then◌else◌, Bool,
}
use tcp_simple_chat.FramedSession.{Message}
use tcp_simple_chat.FramedServer.Relay.{Offer, System, Reach}
use tcp_simple_chat.FramedServer.Debts.{from, queued_of, said_to, owed}
use tcp_simple_chat.FramedServer.Relayed.{Reach-IsRelaying}

-- The calls of `SendMsg` up to the one that queued the last of `xs`.
abbrev Split : List Offer → List Message → Type 0
Split os xs = (early late : List Offer) × (os ≡ early ++ late) × (queued_of early ≡ xs)

queued_of-Split : (os : List Offer) (xs ys : List Message) → queued_of os ≡ xs ++ ys → Split os xs
queued_of-Split os [] ys e = ([], os, refl, refl)
queued_of-Split [] (x ∷ xs) ys e = ground arith
queued_of-Split (o ∷ os) (x ∷ xs) ys e = elim (Bool-cases o.queued) [
  | inl t ↦
      let whole : o.message ∷ queued_of os ≡ x ∷ (xs ++ ys) =
        ap (λ (b : Bool). if b then o.message ∷ queued_of os else queued_of os) (sym t) ∙ e in
      let first : o.message ≡ x = ground arith in
      let (early, late, both, sum) = queued_of-Split os xs ys (ground arith) in
      (o ∷ early, late, ap (◌∷◌ o) both, rw t (ap₂ ◌∷◌ first sum))
  | inr t ↦
      let others : queued_of os ≡ x ∷ (xs ++ ys) =
        ap (λ (b : Bool). if b then o.message ∷ queued_of os else queued_of os) (sym t) ∙ e in
      let (early, late, both, sum) = queued_of-Split os (x ∷ xs) ys others in
      (o ∷ early, late, ap (◌∷◌ o) both, rw t sum)
]

from-append : (p : ℕ) (xs ys : List Offer) → from p (xs ++ ys) ≡ from p xs ++ from p ys
from-append p [] ys = refl
from-append p (x ∷ xs) ys = elim (Bool-cases (x.sender == p)) [
  | inl e ↦ rw e (ap (◌∷◌ x.message) (from-append p xs ys))
  | inr e ↦ rw e (from-append p xs ys)
]

-- In every interleaving the messages that `SendLoop` of a session took are those that the first so
-- many calls of its `SendMsg` queued, in their order. Among these calls, those for each other session
-- carry the first so many messages that it broadcast while this session was in the list, each once and
-- in the order of the broadcasts.
pub Reach-SentInOrder :
    {sockets : ℕ → ℕ} {s : System}
    → Reach sockets s
    → (q : ℕ)
    → (early late : List Offer) × (s.offered q ≡ early ++ late)
      × (queued_of early ≡ (s.sessions q).taken)
      × ((p : ℕ) → (later : List Message) × (said_to p q s.said ≡ from p early ++ later))
Reach-SentInOrder {sockets} {s} r q =
    let v = (Reach-IsRelaying r).0 in
    let h = s.sessions q in
    let (early, late, both, sum) =
      queued_of-Split (s.offered q) h.taken (h.dropped ++ h.session.tx_queue)
        (sym (v.accepted q) ∙ (v.valid q).fifo) in
    (
      early,
      late,
      both,
      sum,
      λ p. (
        from p late ++ owed q (s.receivers p),
        sym (v.relayed p q)
            ∙ ap (λ os. from p os ++ owed q (s.receivers p)) both
            ∙ ap (λ ms. ms ++ owed q (s.receivers p)) (from-append p early late)
            ∙ append_assoc (from p early) (from p late) (owed q (s.receivers p)),
      ),
    )
