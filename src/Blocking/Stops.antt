-- ===== src/Blocking/Stops.antt =====
-- `Stop` of NetworkBasics/blocking-multithreaded/Server/ChatServer.cpp joins threads with the mutex.
use tcp_simple_chat.Base.{update, ℕ, ◌≡◌, sym, ap, ◌∙◌, inl, inr, List, arith, ◌==◌, Bool-cases}
use tcp_simple_chat.Blocking.{
  Message, Receiver, wants_lock, held_by_stop, joining, System, Step, starts, joins, tests, leaves,
  receives, ends, locks, passes, unlocks, stop_begins, stop_locks, stop_closes, stop_joins,
  stop_ends, Reach, here, after,
}

-- `Stop` holds the mutex and joins the thread of `p`, which waits for the mutex.
abbrev pub IsStuck : ℕ → List ℕ → Message → System → Type 0
IsStuck p rest m s =
    (s.stopper ≡ joining p rest) × (s.mutex ≡ held_by_stop) × (s.receivers p ≡ wants_lock m)

update-other :
    (f : ℕ → Receiver) (q p : ℕ) (r a b : Receiver)
    → f q ≡ a
    → f p ≡ b
    → (b ≡ a → ⊥)
    → update f q r p ≡ b
update-other f q p r a b fq fp differ = elim (Bool-cases (p == q)) [
  | inl same ↦ let e : p ≡ q = ground arith in absurd (differ (sym fp ∙ ap f e ∙ fq))
  | inr other ↦ rw other fp
]

Step-IsStuck :
    {s t : System} (p : ℕ) (rest : List ℕ) (m : Message)
    → Step s t
    → IsStuck p rest m s
    → IsStuck p rest m t
Step-IsStuck p rest m (starts s q on new) (stop', held, wants) = cc
Step-IsStuck p rest m (joins s q on born unlocked new) (stop', held, wants) = cc
Step-IsStuck p rest m (tests s q at_test on) (stop', held, wants) =
    (stop', held, update-other s.receivers q p _ _ _ at_test wants (λ e. cc))
Step-IsStuck p rest m (leaves s q at_test off) (stop', held, wants) =
    (stop', held, update-other s.receivers q p _ _ _ at_test wants (λ e. cc))
Step-IsStuck p rest m (receives s q m' at_recv) (stop', held, wants) =
    (stop', held, update-other s.receivers q p _ _ _ at_recv wants (λ e. cc))
Step-IsStuck p rest m (ends s q at_recv) (stop', held, wants) =
    (stop', held, update-other s.receivers q p _ _ _ at_recv wants (λ e. cc))
Step-IsStuck p rest m (locks s q m' w unlocked) (stop', held, wants) = cc
Step-IsStuck p rest m (passes s q m' q' rest' e) (stop', held, wants) = cc
Step-IsStuck p rest m (unlocks s q m' e) (stop', held, wants) = cc
Step-IsStuck p rest m (stop_begins s e) (stop', held, wants) = cc
Step-IsStuck p rest m (stop_locks s e unlocked) (stop', held, wants) = cc
Step-IsStuck p rest m (stop_closes s q rest' e) (stop', held, wants) = cc
Step-IsStuck p rest m (stop_joins s q rest' e done) (stop', held, wants) =
    let same : p ≡ q = cc in cc
Step-IsStuck p rest m (stop_ends s e) (stop', held, wants) = cc

-- Once `Stop` holds the mutex and joins the thread of a session that waits for the mutex in
-- `BroadcastMsg`, this is so for ever, whatever the other threads do: `Stop` does not return.
pub Reach-IsStuck :
    {s t : System} (p : ℕ) (rest : List ℕ) (m : Message)
    → Reach s t
    → IsStuck p rest m s
    → IsStuck p rest m t
Reach-IsStuck p rest m (here s) v = v
Reach-IsStuck p rest m (after r step) v = Step-IsStuck p rest m step (Reach-IsStuck p rest m r v)
