-- ===== src/FramedServer/Debts.antt =====
-- What the broadcasts of Protocols/Framing/Server have passed on, and what they still owe.
use tcp_simple_chat.Base.{
  not, update, ℕ, ◌≡◌, refl, sym, ap, ap₂, ◌∙◌, subst, inl, inr, List, [], ◌∷◌, ◌++◌, append-nil,
  Bool, true, false, ◌&&◌, arith, ◌==◌, if◌then◌else◌, Bool-cases, contains,
}
use tcp_simple_chat.FramedSession.{Message}
use tcp_simple_chat.FramedServer.Relay.{
  Receiver, unborn, receiving, ended, delivering, Broadcast, Offer,
}

-- The messages of `p` among the calls of `SendMsg`.
abbrev pub from : ℕ → List Offer → List Message
from p [] = []
from p (o ∷ os) = if o.sender == p then o.message ∷ from p os else from p os

abbrev pub queued_of : List Offer → List Message
queued_of [] = []
queued_of (o ∷ os) = if o.queued then o.message ∷ queued_of os else queued_of os

-- `q` is to get a broadcast: it was among the clients, and is not the sender.
abbrev pub is_for : Broadcast → ℕ → Bool
is_for b q = contains b.members q && not (q == b.sender)

-- The messages that `p` broadcast while `q`, another session, was among the clients.
abbrev pub said_to : ℕ → ℕ → List Broadcast → List Message
said_to p q [] = []
said_to p q (b ∷ bs) =
    if b.sender == p && is_for b q then b.message ∷ said_to p q bs else said_to p q bs

-- What the broadcast that a thread is in still has to pass to `q`.
abbrev pub owed : ℕ → Receiver → List Message
owed q unborn = []
owed q receiving = []
owed q ended = []
owed q (delivering m rest) = if contains rest q then m ∷ [] else []

pub from-snoc :
    (p : ℕ) (os : List Offer) (o : Offer)
    → from p (os ++ (o ∷ [])) ≡ from p os ++ (if o.sender == p then o.message ∷ [] else [])
from-snoc p [] o = refl
from-snoc p (x ∷ os) o = elim (Bool-cases (x.sender == p)) [
  | inl e ↦ rw e (ap (◌∷◌ x.message) (from-snoc p os o))
  | inr e ↦ rw e (from-snoc p os o)
]

pub queued_of-snoc :
    (os : List Offer) (o : Offer)
    → queued_of (os ++ (o ∷ [])) ≡ queued_of os ++ (if o.queued then o.message ∷ [] else [])
queued_of-snoc [] o = refl
queued_of-snoc (x ∷ os) o = elim (Bool-cases x.queued) [
  | inl e ↦ rw e (ap (◌∷◌ x.message) (queued_of-snoc os o))
  | inr e ↦ rw e (queued_of-snoc os o)
]

pub said_to-snoc :
    (p q : ℕ) (bs : List Broadcast) (b : Broadcast)
    → said_to p q (bs ++ (b ∷ []))
      ≡ said_to p q bs ++ (if b.sender == p && is_for b q then b.message ∷ [] else [])
said_to-snoc p q [] b = refl
said_to-snoc p q (x ∷ bs) b = elim (Bool-cases (x.sender == p && is_for x q)) [
  | inl e ↦ rw e (ap (◌∷◌ x.message) (said_to-snoc p q bs b))
  | inr e ↦ rw e (said_to-snoc p q bs b)
]

-- A property of all values of a map is kept by an update with a value that has it.
pub update-All :
    {A : Type 0} (P : A → Type 0) (f : ℕ → A) (p : ℕ) (a : A)
    → ((k : ℕ) → P (f k))
    → P a
    → (k : ℕ) → P (update f p a k)
update-All P f p a all' fresh k = elim (Bool-cases (k == p)) [
  | inl e ↦ rw e fresh
  | inr e ↦ rw e (all' k)
]

-- A thread that moves between two states with the same debts.
pub owed-update :
    (f : ℕ → Receiver) (p : ℕ) (r : Receiver)
    → ((q : ℕ) → owed q r ≡ owed q (f p))
    → (k q : ℕ) → owed q (update f p r k) ≡ owed q (f k)
owed-update f p r same k q = elim (Bool-cases (k == p)) [
  | inl e ↦ let e' : k ≡ p = ground arith in rw e (same q ∙ ap (λ i. owed q (f i)) (sym e'))
  | inr e ↦ rw e refl
]

-- A thread takes a snapshot.
pub owed-hears :
    (f : ℕ → Receiver) (p : ℕ) (m : Message) (targets : List ℕ)
    → f p ≡ receiving
    → (k q : ℕ)
    → owed q (update f p (delivering m targets) k)
      ≡ owed q (f k) ++ (if p == k && contains targets q then m ∷ [] else [])
owed-hears f p m targets at k q = elim (Bool-cases (k == p)) [
  | inl e ↦
      let e' : p ≡ k = ground arith in
      let here : f k ≡ receiving = subst (λ i. f i ≡ receiving) e' at in
      let t : (p == k) ≡ true = ground arith in rw (e, here, t) refl
  | inr e ↦ let t : (p == k) ≡ false = ground arith in rw (e, t) (sym (append-nil (owed q (f k))))
]

-- A call of `SendMsg` on `q` pays what the broadcast owed `q`, and nothing else.
pub owed-pass :
    (f : ℕ → Receiver) (p : ℕ) (m : Message) (q : ℕ) (rest : List ℕ)
    → f p ≡ delivering m (q ∷ rest)
    → contains rest q ≡ false
    → (i j : ℕ)
    → (if p == i && j == q then m ∷ [] else []) ++ owed j (update f p (delivering m rest) i)
      ≡ owed j (f i)
owed-pass f p m q rest at out i j = elim (Bool-cases (i == p)) [
  | inl e ↦
      let e' : p ≡ i = ground arith in
      let here : f i ≡ delivering m (q ∷ rest) = subst (λ k. f k ≡ delivering m (q ∷ rest)) e' at in
      let t : (p == i) ≡ true = ground arith in
      elim (Bool-cases (j == q)) [
        | inl same ↦
            let u : contains rest j ≡ false = ground (arith, out) in rw (e, here, t, same, u) refl
        | inr other ↦ rw (e, here, t, other) refl
      ]
  | inr e ↦ let t : (p == i) ≡ false = ground arith in rw (e, t) refl
]

-- The calls of `SendMsg` on `j` after one on `q`.
pub from-pass :
    (g : ℕ → List Offer) (o : Offer) (q i j : ℕ)
    → from i (update g q (g q ++ (o ∷ [])) j)
      ≡ from i (g j) ++ (if o.sender == i && j == q then o.message ∷ [] else [])
from-pass g o q i j = elim (Bool-cases (j == q)) [
  | inl e ↦
      let e' : q ≡ j = ground arith in
      elim (Bool-cases (o.sender == i)) [
        | inl t ↦
            rw (e, t)
              (from-snoc i (g q) o
                ∙ ap₂ (λ k (b : Bool). from i (g k) ++ (if b then o.message ∷ [] else [])) e' t)
        | inr t ↦
            rw (e, t)
              (from-snoc i (g q) o
                ∙ ap₂ (λ k (b : Bool). from i (g k) ++ (if b then o.message ∷ [] else [])) e' t)
      ]
  | inr e ↦ elim (Bool-cases (o.sender == i)) [
    | inl t ↦ rw (e, t) (sym (append-nil (from i (g j))))
    | inr t ↦ rw (e, t) (sym (append-nil (from i (g j))))
  ]
]

-- Nobody is to get its own messages.
pub said_to_self : (q : ℕ) (bs : List Broadcast) → said_to q q bs ≡ []
said_to_self q [] = refl
said_to_self q (b ∷ bs) =
    let out : (b.sender == q && is_for b q) ≡ false = ground arith in rw out (said_to_self q bs)
