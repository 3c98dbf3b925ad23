-- ===== src/FramedServer/Relayed.antt =====
-- What the sessions of Protocols/Framing/Server get from one another, in any interleaving.
use tcp_simple_chat.Base.{
  update, ℕ, ◌≡◌, refl, sym, ap, ap₂, ◌∙◌, subst, inl, inr, List, [], ◌∷◌, ◌++◌, append-nil,
  append_assoc, Bool, true, false, ◌&&◌, arith, ◌==◌, if◌then◌else◌, Bool-cases, contains, Distinct,
  Distinct-snoc,
}
use tcp_simple_chat.FramedSession.{Message}
use tcp_simple_chat.FramedSession.Queue
use tcp_simple_chat.FramedSession.Queue.{
  History, begin, IsValid, Step-IsValid, begin-IsValid, producer_returns, sender_takes,
}
use tcp_simple_chat.FramedServer.{snapshot}
use tcp_simple_chat.FramedServer.Broadcast.{contains-snapshot, Distinct-snapshot}
use tcp_simple_chat.FramedServer.Relay.{
  Receiver, unborn, receiving, ended, delivering, Offer, System, set_receiver, set_session,
  take_snapshot, pass, accept, Step, starts, joins, hears, queues, gives_up, finishes, ends, sends,
  deactivates, closes, clears, Reach, begins, later,
}
use tcp_simple_chat.FramedServer.Debts.{
  from, queued_of, said_to, owed, queued_of-snoc, said_to-snoc, said_to_self, update-All,
  owed-update, owed-hears, owed-pass, from-pass,
}

abbrev pub IsDistinctRest : Receiver → Type 0
IsDistinctRest unborn = Unit
IsDistinctRest receiving = Unit
IsDistinctRest ended = Unit
IsDistinctRest (delivering m rest) = Distinct rest

pub record IsRelaying (s : System) : Type 0 where
  pub distinct : Distinct s.clients
  pub rests : (p : ℕ) → IsDistinctRest (s.receivers p)
  -- each queue is first-in first-out, counted and bounded
  pub valid : (q : ℕ) → IsValid (s.sessions q)
  -- what went into a queue is what the calls of `SendMsg` queued, in their order
  pub accepted : (q : ℕ) → (s.sessions q).accepted ≡ queued_of (s.offered q)
  -- the messages of one sender come to a session once, in the order of the broadcasts
  pub relayed : (p q : ℕ) → from p (s.offered q) ++ owed q (s.receivers p) ≡ said_to p q s.said

-- A thread that owes the same.
settle :
    (s : System) (p : ℕ) (r : Receiver)
    → IsRelaying s
    → ((q : ℕ) → owed q r ≡ owed q (s.receivers p))
    → IsDistinctRest r
    → IsRelaying (set_receiver s p r)
settle s p r v same d = record {
  distinct = v.distinct;
  rests = update-All IsDistinctRest s.receivers p r v.rests d;
  valid = v.valid;
  accepted = v.accepted;
  relayed = λ i j.
      ap (◌++◌ (from i (s.offered j))) (owed-update s.receivers p r same i j) ∙ v.relayed i j;
}

-- A session that changes but for what it accepted.
exchange :
    (s : System) (q : ℕ) (h : History)
    → IsRelaying s
    → IsValid h
    → h.accepted ≡ (s.sessions q).accepted
    → IsRelaying (set_session s q h)
exchange s q h v ok same = record {
  distinct = v.distinct;
  rests = v.rests;
  valid = update-All IsValid s.sessions q h v.valid ok;
  accepted = λ k. elim (Bool-cases (k == q)) [
    | inl e ↦
        let e' : q ≡ k = ground arith in
        rw e (same ∙ v.accepted q ∙ ap (λ i. queued_of (s.offered i)) e')
    | inr e ↦ rw e (v.accepted k)
  ];
  relayed = v.relayed;
}

-- The queue of `q` after a call of `SendMsg`.
accepted-pass :
    (s : System) (f : ℕ → History) (q : ℕ) (o : Offer)
    → ((k : ℕ) → (s.sessions k).accepted ≡ queued_of (s.offered k))
    → ((k : ℕ)
        → (f k).accepted
          ≡ (s.sessions k).accepted ++ (if k == q && o.queued then o.message ∷ [] else []))
    → (k : ℕ) → (f k).accepted ≡ queued_of (update s.offered q (s.offered q ++ (o ∷ [])) k)
accepted-pass s f q o v w k = elim (Bool-cases (k == q)) [
  | inl e ↦
      let e' : q ≡ k = ground arith in
      let off : (s.sessions k).accepted ≡ queued_of (s.offered q) =
        v k ∙ ap (λ i. queued_of (s.offered i)) (sym e') in
      rw e (
        w k
        ∙ ap₂ (λ xs (b : Bool). xs ++ (if b && o.queued then o.message ∷ [] else [])) off e
        ∙ sym (queued_of-snoc (s.offered q) o))
  | inr e ↦ rw e (
      w k
      ∙ ap₂ (λ xs (b : Bool). xs ++ (if b && o.queued then o.message ∷ [] else [])) (v k) e
      ∙ append-nil (queued_of (s.offered k)))
]

-- `SendMsg` on `q` returned: the sessions are `f` now.
forward :
    (s : System) (f : ℕ → History) (p : ℕ) (m : Message) (q : ℕ) (rest : List ℕ) (b : Bool)
    → IsRelaying s
    → s.receivers p ≡ delivering m (q ∷ rest)
    → ((k : ℕ) → IsValid (f k))
    → ((k : ℕ) → (f k).accepted ≡ (s.sessions k).accepted ++ (if k == q && b then m ∷ [] else []))
    → IsRelaying (pass (record s { sessions = f }) p m q rest b)
forward s f p m q rest b v at ok w =
    let d : Distinct (q ∷ rest) = subst IsDistinctRest at (v.rests p) in
    record {
      distinct = v.distinct;
      rests = update-All IsDistinctRest s.receivers p (delivering m rest) v.rests d.1;
      valid = ok;
      accepted = accepted-pass s f q (record { sender = p; message = m; queued = b }) v.accepted w;
      relayed = λ i j.
          ap (λ xs. xs ++ owed j (update s.receivers p (delivering m rest) i))
            (from-pass s.offered (record { sender = p; message = m; queued = b }) q i j)
          ∙ append_assoc (from i (s.offered j)) _ _
          ∙ ap (◌++◌ (from i (s.offered j))) (owed-pass s.receivers p m q rest at d.0 i j)
          ∙ v.relayed i j;
    }

-- A broadcast begins.
announce :
    (s : System) (p : ℕ) (m : Message)
    → IsRelaying s
    → s.receivers p ≡ receiving
    → IsRelaying (take_snapshot s p m)
announce s p m v at =
    let targets = snapshot p s.clients in
    record {
      distinct = v.distinct;
      rests =
          update-All IsDistinctRest s.receivers p (delivering m targets) v.rests
            (Distinct-snapshot p s.clients v.distinct);
      valid = v.valid;
      accepted = v.accepted;
      relayed = λ i j.
          ap (◌++◌ (from i (s.offered j))) (owed-hears s.receivers p m targets at i j)
          ∙ sym (append_assoc (from i (s.offered j)) (owed j (s.receivers i)) _)
          ∙ ap (λ xs. xs ++ (if p == i && contains targets j then m ∷ [] else [])) (v.relayed i j)
          ∙ ap (λ (b : Bool). said_to i j s.said ++ (if p == i && b then m ∷ [] else []))
              (contains-snapshot p s.clients j)
          ∙ sym (said_to-snoc i j s.said (record { sender = p; message = m; members = s.clients }));
    }

prefix-nil : (xs ys : List Message) → xs ++ ys ≡ [] → xs ≡ []
prefix-nil [] ys e = refl
prefix-nil (x ∷ xs) ys e = ground arith

Step-IsRelaying : {s t : System} → IsRelaying s → Step s t → IsRelaying t
Step-IsRelaying {s} v (starts p at) = settle s p receiving v (λ q. ap (owed q) (sym at)) tt
Step-IsRelaying {s} v (joins p at out) = record {
  distinct = Distinct-snoc s.clients p v.distinct out;
  rests = v.rests;
  valid = v.valid;
  accepted = v.accepted;
  relayed = v.relayed;
}
Step-IsRelaying {s} v (hears p m at small) = announce s p m v at
Step-IsRelaying {s} v (queues p m q rest session at small on e) =
    forward s (update s.sessions q (accept s q m session)) p m q rest true v at
      (update-All IsValid s.sessions q _ v.valid
        (Step-IsValid (v.valid q) (producer_returns m session small on e)))
      (λ k. elim (Bool-cases (k == q)) [
        | inl same ↦
            let same' : q ≡ k = ground arith in
            rw same (ap (λ i. (s.sessions i).accepted ++ (m ∷ [])) same')
        | inr other ↦ rw other (sym (append-nil (s.sessions k).accepted))
      ])
Step-IsRelaying {s} v (gives_up p m q rest at off) =
    forward s s.sessions p m q rest false v at v.valid (λ k. elim (Bool-cases (k == q)) [
      | inl e ↦ rw e (sym (append-nil (s.sessions k).accepted))
      | inr e ↦ rw e (sym (append-nil (s.sessions k).accepted))
    ])
Step-IsRelaying {s} v (finishes p m at) = settle s p receiving v (λ q. ap (owed q) (sym at)) tt
Step-IsRelaying {s} v (ends p at) =
    settle (set_session s p _) p ended
      (exchange s p _ v (Step-IsValid (v.valid p) Queue.deactivates) refl)
      (λ q. ap (owed q) (sym at)) tt
Step-IsRelaying {s} v (sends q m session on e) =
    exchange s q _ v (Step-IsValid (v.valid q) (sender_takes m session e)) refl
Step-IsRelaying {s} v (deactivates q on) =
    exchange s q _ v (Step-IsValid (v.valid q) Queue.deactivates) refl
Step-IsRelaying {s} v (closes q at off) =
    exchange s q _ v (Step-IsValid (v.valid q) (Queue.closes off)) refl
Step-IsRelaying {s} v clears = record {
  distinct = tt;
  rests = v.rests;
  valid = v.valid;
  accepted = v.accepted;
  relayed = v.relayed;
}

pub Reach-IsInvariant : {sockets : ℕ → ℕ} {s : System} → Reach sockets s → IsRelaying s
Reach-IsInvariant {sockets} begins = record {
  distinct = tt;
  rests = λ p. tt;
  valid = λ q. begin-IsValid (sockets q);
  accepted = λ q. refl;
  relayed = λ i j. refl;
}
Reach-IsInvariant (later r st) = Step-IsRelaying (Reach-IsInvariant r) st

-- In every interleaving of the threads of the sessions, `BroadcastMsg` and `AcceptClients` from the
-- start of the server: no client is in the list twice. The messages that a session broadcast while
-- another was in the list are those it passed to the other's `SendMsg`, once each and in the order of
-- the broadcasts, and then the one that the broadcast in progress still has to pass to it. No session
-- is passed its own messages. What entered a session's queue is what its `SendMsg` queued, in order;
-- the queue is first-in first-out and its bytes are counted and at most 256 KiB.
pub Reach-IsRelaying :
    {sockets : ℕ → ℕ} {s : System}
    → Reach sockets s
    → IsRelaying s × ((q : ℕ) → from q (s.offered q) ≡ [])
Reach-IsRelaying {sockets} {s} r =
    let v = Reach-IsInvariant r in (v, λ q. prefix-nil _ _ (v.relayed q q ∙ said_to_self q s.said))
