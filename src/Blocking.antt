-- ===== src/Blocking.antt =====
-- NetworkBasics/blocking-multithreaded/Server: a thread for each session that receives and broadcasts
-- (ClientSession.cpp), threads that accept and the thread that calls `Stop` (ChatServer.cpp). Each
-- step is what one thread does between two points where it may be interrupted; the sections under
-- `m_clientsMutex` are told apart by the state of the mutex. Sessions are named by numbers.
pub mod Broadcasts
pub mod Stops
pub mod Lifecycle
use tcp_simple_chat.Base.{
  update, ℕ, ◌≡◌, ◌≢◌, List, [], ◌∷◌, ◌++◌, Bool, true, false, not, ◌&&◌, ◌==◌, if◌then◌else◌,
  contains,
}

abbrev pub Message : Type 0
Message = List ℕ

-- The thread of a session: not started, before the test of `m_active`, in `recv`, in `BroadcastMsg`
-- before the mutex, in its loop with the mutex, or ended.
pub data Receiver : Type 0 where
  unborn testing receiving broadcasting ended : Receiver
  wants_lock : Message → Receiver

-- `m_clientsMutex`: held by `BroadcastMsg` of a session, with the message and the clients that its
-- loop has still before it, or by `Stop`.
pub data Mutex : Type 0 where
  free : Mutex
  held_by_broadcast : ℕ → Message → List ℕ → Mutex
  held_by_stop : Mutex

-- The thread that calls `Stop`: before it, waiting for the mutex, at the given rest of its loop over
-- the clients, joining the thread of a session, or after it.
pub data Stopper : Type 0 where
  idle waiting stopped : Stopper
  closing : List ℕ → Stopper
  joining : ℕ → List ℕ → Stopper

-- A broadcast: the sender, the message, and `m_clients` when the mutex was taken.
pub record Broadcast : Type 0 where
  pub sender : ℕ
  pub message : Message
  pub members : List ℕ

pub record System : Type 0 where
  pub clients : List ℕ
  pub mutex : Mutex
  pub stopper : Stopper
  pub receivers : ℕ → Receiver
  pub active : ℕ → Bool
  -- the messages that `SendMsg` of a session was called with, and all broadcasts, oldest first
  pub delivered : ℕ → List Message
  pub history : List Broadcast

abbrev pub start_session : System → ℕ → System
start_session s p = record s {
  receivers = update s.receivers p testing;
  active = update s.active p true;
}

abbrev pub push_client : System → ℕ → System
push_client s p = record s { clients = s.clients ++ (p ∷ []) }

abbrev pub set_receiver : System → ℕ → Receiver → System
set_receiver s p r = record s { receivers = update s.receivers p r }

abbrev pub lock_for_broadcast : System → ℕ → Message → System
lock_for_broadcast s p m = record (set_receiver s p broadcasting) {
  mutex = held_by_broadcast p m s.clients;
  history = s.history ++ (record { sender = p; message = m; members = s.clients } ∷ []);
}

-- A turn of the loop of `BroadcastMsg`, at the client `q`.
abbrev pub pass : System → ℕ → Message → ℕ → List ℕ → System
pass s p m q rest = record s {
  mutex = held_by_broadcast p m rest;
  delivered = if q == p then s.delivered else update s.delivered q (s.delivered q ++ (m ∷ []));
}

abbrev pub unlock : System → ℕ → System
unlock s p = record (set_receiver s p testing) { mutex = free }

abbrev pub lock_for_stop : System → System
lock_for_stop s = record s { mutex = held_by_stop; stopper = closing s.clients }

-- `ClientSession::Stop` up to the join of the thread.
abbrev pub close_session : System → ℕ → List ℕ → System
close_session s p rest = record s { active = update s.active p false; stopper = joining p rest }

abbrev pub finish_stop : System → System
finish_stop s = record s { clients = []; mutex = free; stopper = stopped }

pub data Step : System → System → Type 0 where
  -- `AcceptClients`
  starts :
      (s : System) (p : ℕ) → s.stopper ≡ idle → s.receivers p ≡ unborn → Step s (start_session s p)
  joins :
      (s : System) (p : ℕ)
      → s.stopper ≡ idle
      → s.receivers p ≢ unborn
      → s.mutex ≡ free
      → contains s.clients p ≡ false
      → Step s (push_client s p)
  -- `ReceiveMsg`
  tests :
      (s : System) (p : ℕ)
      → s.receivers p ≡ testing
      → s.active p ≡ true
      → Step s (set_receiver s p receiving)
  leaves :
      (s : System) (p : ℕ)
      → s.receivers p ≡ testing
      → s.active p ≡ false
      → Step s (set_receiver s p ended)
  receives :
      (s : System) (p : ℕ) (m : Message)
      → s.receivers p ≡ receiving
      → Step s (set_receiver s p (wants_lock m))
  ends : (s : System) (p : ℕ) → s.receivers p ≡ receiving → Step s (set_receiver s p ended)
  -- `BroadcastMsg`
  locks :
      (s : System) (p : ℕ) (m : Message)
      → s.receivers p ≡ wants_lock m
      → s.mutex ≡ free
      → Step s (lock_for_broadcast s p m)
  passes :
      (s : System) (p : ℕ) (m : Message) (q : ℕ) (rest : List ℕ)
      → s.mutex ≡ held_by_broadcast p m (q ∷ rest)
      → Step s (pass s p m q rest)
  unlocks :
      (s : System) (p : ℕ) (m : Message) → s.mutex ≡ held_by_broadcast p m [] → Step s (unlock s p)
  -- `Stop`
  stop_begins : (s : System) → s.stopper ≡ idle → Step s (record s { stopper = waiting })
  stop_locks : (s : System) → s.stopper ≡ waiting → s.mutex ≡ free → Step s (lock_for_stop s)
  stop_closes :
      (s : System) (p : ℕ) (rest : List ℕ)
      → s.stopper ≡ closing (p ∷ rest)
      → Step s (close_session s p rest)
  stop_joins :
      (s : System) (p : ℕ) (rest : List ℕ)
      → s.stopper ≡ joining p rest
      → s.receivers p ≡ ended
      → Step s (record s { stopper = closing rest })
  stop_ends : (s : System) → s.stopper ≡ closing [] → Step s (finish_stop s)

pub data Reach : System → System → Type 0 where
  here : (s : System) → Reach s s
  after : {s t u : System} → Reach s t → Step t u → Reach s u
