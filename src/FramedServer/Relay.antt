-- ===== src/FramedServer/Relay.antt =====
-- The threads of Protocols/Framing/Server in any interleaving: `AcceptClients` and `BroadcastMsg` of
-- ChatServer.cpp, `RecvLoop`, `SendMsg`, `SendLoop` and the end of `Stop` of each session, whose queue
-- is that of FramedSession/Queue. Each step is what one thread does between two points where another
-- may run. Sessions are named by numbers. The sections under `m_clientsMutex` are steps; that the
-- mutex also keeps threads apart while `Stop` runs only leaves interleavings out.
use tcp_simple_chat.Base.{
  update, ℕ, ◌^◌, ◌<◌, ◌≡◌, ◌≢◌, List, [], ◌∷◌, ◌++◌, Bool, true, false, contains, length,
}
use tcp_simple_chat.FramedSession.{
  Message, Session, enqueue, returns, dequeue, takes, deactivate, close,
}
use tcp_simple_chat.FramedSession.Queue.{History, begin}
use tcp_simple_chat.FramedServer.{snapshot}

-- The thread of `RecvLoop`: the session is not started, the thread is outside `BroadcastMsg`, in its
-- second loop before the given rest of the snapshot, or it has ended.
pub data Receiver : Type 0 where
  unborn receiving ended : Receiver
  delivering : Message → List ℕ → Receiver

-- A broadcast, and `m_clients` when it took the mutex.
pub record Broadcast : Type 0 where
  pub sender : ℕ
  pub message : Message
  pub members : List ℕ

-- A call of `SendMsg` on a session that returned, and whether it queued the message.
pub record Offer : Type 0 where
  pub sender : ℕ
  pub message : Message
  pub queued : Bool

pub record System : Type 0 where
  pub clients : List ℕ
  pub sessions : ℕ → History
  pub receivers : ℕ → Receiver
  -- all broadcasts, and the calls of `SendMsg` on each session, oldest first
  pub said : List Broadcast
  pub offered : ℕ → List Offer

-- Before the first client; session `p` will be made for the socket `sockets p`.
abbrev pub empty : (ℕ → ℕ) → System
empty sockets = record {
  clients = [];
  sessions = λ p. begin (sockets p);
  receivers = λ p. unborn;
  said = [];
  offered = λ p. [];
}

abbrev pub set_receiver : System → ℕ → Receiver → System
set_receiver s p r = record s { receivers = update s.receivers p r }

abbrev pub set_session : System → ℕ → History → System
set_session s q h = record s { sessions = update s.sessions q h }

-- The first part of `BroadcastMsg`, under the mutex.
abbrev pub take_snapshot : System → ℕ → Message → System
take_snapshot s p m = record (set_receiver s p (delivering m (snapshot p s.clients))) {
  said = s.said ++ (record { sender = p; message = m; members = s.clients } ∷ []);
}

-- `SendMsg` on `q` returned to the broadcast of `p`, which has the rest of its snapshot before it.
abbrev pub pass : System → ℕ → Message → ℕ → List ℕ → Bool → System
pass s p m q rest queued = record (set_receiver s p (delivering m rest)) {
  offered =
      update s.offered q
        (s.offered q ++ (record { sender = p; message = m; queued = queued } ∷ []));
}

-- The session of `q` after `SendMsg` queued a message in it.
abbrev pub accept : System → ℕ → Message → Session → History
accept s q m session = record (s.sessions q) {
  session = session;
  accepted = (s.sessions q).accepted ++ (m ∷ []);
}

pub data Step (s : System) : System → Type 0 where
  -- `AcceptClients`
  starts : (p : ℕ) → s.receivers p ≡ unborn → Step s (set_receiver s p receiving)
  joins :
      (p : ℕ)
      → s.receivers p ≢ unborn
      → contains s.clients p ≡ false
      → Step s (record s { clients = s.clients ++ (p ∷ []) })
  -- `RecvLoop` and `BroadcastMsg`
  hears :
      (p : ℕ) (m : Message)
      → s.receivers p ≡ receiving
      → length m < 2 ^ 63
      → Step s (take_snapshot s p m)
  queues :
      (p : ℕ) (m : Message) (q : ℕ) (rest : List ℕ) (session : Session)
      → s.receivers p ≡ delivering m (q ∷ rest)
      → length m < 2 ^ 63
      → (s.sessions q).session.active ≡ true
      → enqueue (s.sessions q).session m ≡ returns session
      → Step s (pass (set_session s q (accept s q m session)) p m q rest true)
  gives_up :
      (p : ℕ) (m : Message) (q : ℕ) (rest : List ℕ)
      → s.receivers p ≡ delivering m (q ∷ rest)
      → (s.sessions q).session.active ≡ false
      → Step s (pass s p m q rest false)
  finishes :
      (p : ℕ) (m : Message) → s.receivers p ≡ delivering m [] → Step s (set_receiver s p receiving)
  ends :
      (p : ℕ)
      → s.receivers p ≡ receiving
      → Step s (
          set_receiver
            (set_session s p
              (record (s.sessions p) { session = deactivate (s.sessions p).session }))
            p
            ended)
  -- `SendLoop`, with its failed sends, and the first store of `Stop`
  sends :
      (q : ℕ) (m : Message) (session : Session)
      → s.receivers q ≢ unborn
      → dequeue (s.sessions q).session ≡ takes m session
      → Step s (
          set_session s q
            (record (s.sessions q) { session = session; taken = (s.sessions q).taken ++ (m ∷ []) }))
  deactivates :
      (q : ℕ)
      → s.receivers q ≢ unborn
      → Step s
          (set_session s q (record (s.sessions q) { session = deactivate (s.sessions q).session }))
  -- the end of a session's `Stop`, and of the server's
  closes :
      (q : ℕ)
      → s.receivers q ≡ ended
      → (s.sessions q).session.active ≡ false
      → Step s (
          set_session s q (record (s.sessions q) {
            session = close (s.sessions q).session;
            dropped = (s.sessions q).dropped ++ (s.sessions q).session.tx_queue;
          }))
  clears : Step s (record s { clients = [] })

pub data Reach (sockets : ℕ → ℕ) : System → Type 0 where
  begins : Reach sockets (empty sockets)
  later : {s t : System} → Reach sockets s → Step s t → Reach sockets t
