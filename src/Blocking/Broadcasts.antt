-- ===== src/Blocking/Broadcasts.antt =====
-- `BroadcastMsg` of NetworkBasics/blocking-multithreaded/Server/ChatServer.cpp on several threads.
use tcp_simple_chat.Base.{
  ℕ, ◌≡◌, refl, sym, ap, ◌∙◌, subst, inl, inr, List, [], ◌∷◌, ◌++◌, append-nil, true, false, not,
  ◌&&◌, arith, ◌==◌, if◌then◌else◌, Bool-cases, contains, Distinct, Distinct-snoc,
}
use tcp_simple_chat.Blocking.{
  Message, Mutex, free, held_by_broadcast, held_by_stop, Stopper, idle, waiting, stopped, closing,
  joining, Broadcast, System, pass, Step, starts, joins, tests, leaves, receives, ends, locks,
  passes, unlocks, stop_begins, stop_locks, stop_closes, stop_joins, stop_ends, Reach, here, after,
}

-- The messages that `q` is meant to get by the broadcasts.
abbrev pub expected : ℕ → List Broadcast → List Message
expected q [] = []
expected q (b ∷ h) =
    if contains b.members q && not (q == b.sender) then b.message ∷ expected q h else expected q h

-- What the broadcast that is under way still owes to `q`.
abbrev pub owed : ℕ → Mutex → List Message
owed q free = []
owed q held_by_stop = []
owed q (held_by_broadcast p m rest) = if contains rest q && not (q == p) then m ∷ [] else []

abbrev pub IsDistinctRest : Mutex → Type 0
IsDistinctRest free = Unit
IsDistinctRest held_by_stop = Unit
IsDistinctRest (held_by_broadcast p m rest) = Distinct rest

-- `Stop` holds the mutex during its loop over the clients.
abbrev pub HoldsInLoop : Stopper → Mutex → Type 0
HoldsInLoop (closing rest) x = x ≡ held_by_stop
HoldsInLoop (joining p rest) x = x ≡ held_by_stop
HoldsInLoop idle x = Unit
HoldsInLoop waiting x = Unit
HoldsInLoop stopped x = Unit

-- Every session has got, once and in the order of the broadcasts, the messages that others sent
-- while it was in the list, but for the one that is under way.
abbrev pub IsDelivering : System → Type 0
IsDelivering s =
    Distinct s.clients
    × IsDistinctRest s.mutex
    × HoldsInLoop s.stopper s.mutex
    × ((q : ℕ) → s.delivered q ++ owed q s.mutex ≡ expected q s.history)

expected-snoc :
    (q : ℕ) (h : List Broadcast) (p : ℕ) (m : Message) (ms : List ℕ)
    → expected q (h ++ (record { sender = p; message = m; members = ms } ∷ []))
      ≡ expected q h ++ owed q (held_by_broadcast p m ms)
expected-snoc q [] p m ms = refl
expected-snoc q (b ∷ h) p m ms = elim (Bool-cases (contains b.members q && not (q == b.sender))) [
  | inl e ↦ rw e (ap (◌∷◌ b.message) (expected-snoc q h p m ms))
  | inr e ↦ rw e (expected-snoc q h p m ms)
]

HoldsInLoop-free : (st : Stopper) (x : Mutex) → HoldsInLoop st free → HoldsInLoop st x
HoldsInLoop-free idle x h = tt
HoldsInLoop-free waiting x h = tt
HoldsInLoop-free stopped x h = tt
HoldsInLoop-free (closing rest) x h = cc
HoldsInLoop-free (joining p rest) x h = cc

HoldsInLoop-broadcast :
    (st : Stopper) (x : Mutex) (p : ℕ) (m : Message) (rest : List ℕ)
    → HoldsInLoop st (held_by_broadcast p m rest)
    → HoldsInLoop st x
HoldsInLoop-broadcast idle x p m rest h = tt
HoldsInLoop-broadcast waiting x p m rest h = tt
HoldsInLoop-broadcast stopped x p m rest h = tt
HoldsInLoop-broadcast (closing ps) x p m rest h = cc
HoldsInLoop-broadcast (joining k ps) x p m rest h = cc

equal_self : (q : ℕ) → (q == q) ≡ true
equal_self q = ground arith

-- The turn at `q'` gives it what the broadcast owes to it.
pass_self :
    (s : System) (p : ℕ) (m : Message) (q : ℕ) (rest : List ℕ)
    → contains rest q ≡ false
    → (pass s p m q rest).delivered q ++ owed q (held_by_broadcast p m rest)
      ≡ s.delivered q ++ owed q (held_by_broadcast p m (q ∷ rest))
pass_self s p m q rest out = elim (Bool-cases (q == p)) [
  | inl own ↦ rw (own, out, equal_self q) refl
  | inr others ↦ rw (others, out, equal_self q) (append-nil _)
]

pass_other :
    (s : System) (p : ℕ) (m : Message) (q' : ℕ) (rest : List ℕ) (q : ℕ)
    → (q == q') ≡ false
    → (pass s p m q' rest).delivered q ++ owed q (held_by_broadcast p m rest)
      ≡ s.delivered q ++ owed q (held_by_broadcast p m (q' ∷ rest))
pass_other s p m q' rest q other = elim (Bool-cases (q' == p)) [
  | inl own ↦ rw own (rw other refl)
  | inr others ↦ rw others (rw other refl)
]

pass-delivered :
    (s : System) (p : ℕ) (m : Message) (q' : ℕ) (rest : List ℕ) (q : ℕ)
    → contains rest q' ≡ false
    → (pass s p m q' rest).delivered q ++ owed q (held_by_broadcast p m rest)
      ≡ s.delivered q ++ owed q (held_by_broadcast p m (q' ∷ rest))
pass-delivered s p m q' rest q out = elim (Bool-cases (q == q')) [
  | inl same ↦
      let e : q' ≡ q = ground arith in
      subst
        (λ k.
          (pass s p m q' rest).delivered k ++ owed k (held_by_broadcast p m rest)
          ≡ s.delivered k ++ owed k (held_by_broadcast p m (q' ∷ rest)))
        e (pass_self s p m q' rest out)
  | inr other ↦ pass_other s p m q' rest q other
]

Step-IsDelivering : {s t : System} → Step s t → IsDelivering s → IsDelivering t
Step-IsDelivering (starts s p on new) v = v
Step-IsDelivering (joins s p on born unlocked out) (d, r, h, get) =
    (Distinct-snoc s.clients p d out, r, h, get)
Step-IsDelivering (tests s p at_test on) v = v
Step-IsDelivering (leaves s p at_test off) v = v
Step-IsDelivering (receives s p m at_recv) v = v
Step-IsDelivering (ends s p at_recv) v = v
Step-IsDelivering (locks s p m w unlocked) (d, r, h, get) = (
  d,
  d,
  HoldsInLoop-free s.stopper _ (subst (HoldsInLoop s.stopper) unlocked h),
  λ q.
      ap (λ l. l ++ owed q (held_by_broadcast p m s.clients))
        (sym (append-nil (s.delivered q))
          ∙ ap (λ x. s.delivered q ++ owed q x) (sym unlocked)
          ∙ get q)
      ∙ sym (expected-snoc q s.history p m s.clients),
)
Step-IsDelivering (passes s p m q' rest e) (d, r, h, get) =
    let (out, r') = subst IsDistinctRest e r in
    (
      d,
      r',
      HoldsInLoop-broadcast s.stopper _ p m (q' ∷ rest) (subst (HoldsInLoop s.stopper) e h),
      λ q. pass-delivered s p m q' rest q out ∙ ap (λ x. s.delivered q ++ owed q x) (sym e) ∙ get q,
    )
Step-IsDelivering (unlocks s p m e) (d, r, h, get) = (
  d,
  tt,
  HoldsInLoop-broadcast s.stopper _ p m [] (subst (HoldsInLoop s.stopper) e h),
  λ q. ap (λ x. s.delivered q ++ owed q x) (sym e) ∙ get q,
)
Step-IsDelivering (stop_begins s e) (d, r, h, get) = (d, r, tt, get)
Step-IsDelivering (stop_locks s e unlocked) (d, r, h, get) =
    (d, tt, refl, λ q. ap (λ x. s.delivered q ++ owed q x) (sym unlocked) ∙ get q)
Step-IsDelivering (stop_closes s p rest e) (d, r, h, get) =
    (d, r, subst (λ x. HoldsInLoop x s.mutex) e h, get)
Step-IsDelivering (stop_joins s p rest e gone) (d, r, h, get) =
    (d, r, subst (λ x. HoldsInLoop x s.mutex) e h, get)
Step-IsDelivering (stop_ends s e) (d, r, h, get) =
    let held : s.mutex ≡ held_by_stop = subst (λ x. HoldsInLoop x s.mutex) e h in
    (tt, tt, tt, λ q. ap (λ x. s.delivered q ++ owed q x) (sym held) ∙ get q)

-- In every interleaving of the threads, also while sessions join and the server stops, this stays
-- so once it holds: the clients in the list are different, `Stop` holds the mutex during its loop,
-- and each session was sent exactly the messages that others broadcast while it was in the list,
-- once each, in the order in which the broadcasts took the mutex, so all sessions see one order;
-- the broadcast that is under way still owes its message to the clients that its loop has before
-- it.
pub Reach-IsDelivering : {s t : System} → Reach s t → IsDelivering s → IsDelivering t
Reach-IsDelivering (here s) v = v
Reach-IsDelivering (after r step) v = Step-IsDelivering step (Reach-IsDelivering r v)
