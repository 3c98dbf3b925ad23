-- ===== src/FramedServer/Lifecycle.antt =====
-- `Start`, `AcceptClients` and `Stop` of Protocols/Framing/Server/ChatServer.cpp.
use tcp_simple_chat.Base.{
  ap, ap₂, ◌∙◌, ◌⊎◌, Bool, ◌&&◌, Option-cases, update, contains, Distinct, Distinct-snoc, ℕ, ◌≡◌,
  ◌≢◌, refl, inl, inr, List, [], ◌∷◌, ◌++◌, true, false, Option, none, some, arith, ◌==◌,
  if◌then◌else◌, Bool-cases,
}
use tcp_simple_chat.Listen.{
  Address, create_listening_socket, first_usable, made_before, create_listening_socket-lem,
}
use tcp_simple_chat.FramedSession
use tcp_simple_chat.FramedSession.{Session}
use tcp_simple_chat.FramedServer.{Server, accept_client, runs, start, stop_all, stop}

stop_twice : (s : Session) → FramedSession.stop (FramedSession.stop s) ≡ FramedSession.stop s
unfolding FramedSession.stop
stop_twice s = refl

stop_all-lem :
    (ps : List ℕ) (h : ℕ → Session) (q : ℕ)
    → stop_all ps h q ≡ (if contains ps q then FramedSession.stop (h q) else h q)
unfolding stop_all
stop_all-lem [] h q = refl
stop_all-lem (p ∷ ps) h q = elim (Bool-cases (q == p)) [
  | inl same ↦
      let e : q ≡ p = ground arith in
      ground (arith, e, stop_all-lem ps (update h p (FramedSession.stop (h p))) q, stop_twice (h p))
  | inr other ↦ ground (arith, stop_all-lem ps (update h p (FramedSession.stop (h p))) q)
]

-- A client that is accepted gets a session of its own: with a fresh pointer, the list of clients
-- stays without repetitions, the new session is active with an empty queue on the accepted socket,
-- and every other session is as it was.
pub accept_client-session :
    (server : Server) (s p q : ℕ)
    → contains server.clients p ≡ false
    → Distinct server.clients
    → Distinct (accept_client server (some s) p).clients
      × ((accept_client server (some s) p).sessions q ≡ (
          if q == p
          then record {
            socket = some s;
            tx_queue = [];
            tx_bytes_queued = 0;
            active = true;
            rx_thread = true;
            tx_thread = true;
          }
          else server.sessions q))
unfolding accept_client FramedSession.start FramedSession.make
accept_client-session server s p q out d = (Distinct-snoc server.clients p d out, ground arith)

-- `Stop` leaves no client and no listener; each session of a client is inactive, has no socket and
-- no thread, and its queue is empty with no bytes counted, also where a session stood twice in the
-- list. Every other session is as it was.
pub stop-sessions :
    (server : Server) (q : ℕ)
    → ((stop server).clients ≡ [])
      × ((stop server).listen_sockets ≡ [])
      × ((stop server).running ≡ false)
      × ((stop server).sessions q ≡ (
          if contains server.clients q
          then record {
            socket = none;
            tx_queue = [];
            tx_bytes_queued = 0;
            active = false;
            rx_thread = false;
            tx_thread = false;
          }
          else server.sessions q))
unfolding stop FramedSession.stop
stop-sessions server q = (refl, refl, refl, stop_all-lem server.clients server.sessions q)

-- No socket, or `bind` or `listen` fails on it.
abbrev pub IsUnusable : Address → Type 0
IsUnusable a = (a.socket ≡ none) ⊎ ((a.binds && a.listens) ≡ false)

abbrev pub AllUnusable : List Address → Type 0
AllUnusable [] = Unit
AllUnusable (a ∷ rest) = IsUnusable a × AllUnusable rest

-- Each configured address resolves to none, or to addresses that are all unusable.
abbrev pub AllFail : List (Bool × List Address) → Type 0
AllFail [] = Unit
AllFail ((resolves, addresses) ∷ ips) = ((resolves ≡ false) ⊎ AllUnusable addresses) × AllFail ips

-- What `CreateListeningSocket` returns for the configured addresses.
abbrev pub created : List (Bool × List Address) → List (Option ℕ)
created [] = []
created ((resolves, addresses) ∷ ips) = (create_listening_socket resolves addresses).0 ∷ created ips

-- One INVALID_SOCKET for each.
abbrev pub invalid_for : List (Bool × List Address) → List (Option ℕ)
invalid_for [] = []
invalid_for (ip ∷ ips) = none ∷ invalid_for ips

first_usable-none :
    (addresses : List Address) → AllUnusable addresses → first_usable addresses ≡ none
first_usable-none [] v = refl
first_usable-none (a ∷ rest) (inl e, v) = rw e (first_usable-none rest v)
first_usable-none (a ∷ rest) (inr e, v) = elim (Option-cases a.socket) [
  | inl e' ↦ rw e' (first_usable-none rest v)
  | inr (s, e') ↦ rw (e', e) (first_usable-none rest v)
]

created-invalid : (ips : List (Bool × List Address)) → AllFail ips → created ips ≡ invalid_for ips
created-invalid [] v = refl
created-invalid ((resolves, addresses) ∷ ips) (fails, v) =
    ap₂ ◌∷◌ (ap (λ r. r.0) (create_listening_socket-lem resolves addresses) ∙ lost resolves fails)
      (created-invalid ips v)
  where
    lost :
        (b : Bool)
        → (b ≡ false) ⊎ AllUnusable addresses
        → (λ (r : Option ℕ × List ℕ). r.0)
            (if b then (first_usable addresses, made_before addresses) else (none, []))
          ≡ none
    lost false x = refl
    lost true (inl e) = absurd (ground arith)
    lost true (inr u) = first_usable-none addresses u

-- A server for at least one address never reports that it has no listening socket: where every
-- configured address fails, since it does not resolve or since on each of its addresses `socket`,
-- `bind` or `listen` fails, `Start` runs. It has an INVALID_SOCKET for each configured address, and
-- a thread of `AcceptClients` for each of these.
pub start-AllFail :
    (server : Server) (ips : List (Bool × List Address))
    → server.listen_sockets ≡ []
    → ips ≢ []
    → AllFail ips
    → start server 0 (created ips)
      ≡ runs (record server {
        running = true;
        listen_sockets = invalid_for ips;
        accept_threads = server.accept_threads ++ invalid_for ips;
      })
unfolding start
start-AllFail server [] fresh some_ip v = absurd (some_ip refl)
start-AllFail server (ip ∷ ips) fresh some_ip v =
    ap₂ (λ a b. start (record server { listen_sockets = a }) 0 b) fresh
      (created-invalid (ip ∷ ips) v)
    ∙ ground arith
