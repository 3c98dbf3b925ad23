-- ===== src/IocpClient/Released.antt =====
-- What the client of NetworkBasics/iocp/Client leaves behind when `Start` returns.
use tcp_simple_chat.Base.{
  ℕ, ◌≡◌, refl, sym, ap, ◌∙◌, inl, inr, List, [], ◌∷◌, ◌++◌, append-nil, append_assoc, Bool, true,
  false, not, ◌||◌, Option, none, some, is_empty, Option-cases, Bool-cases,
}
use tcp_simple_chat.IocpClient.{Message}
use tcp_simple_chat.IocpClient.Connection
use tcp_simple_chat.IocpClient.Connection.{
  Call, starts_up, cleans_up, wakes, opens, shuts_down, closes, receives, prints, tell,
  safe_close_socket, shut_down, clean_up, stop, Address, connect_to_server, try_addresses,
  create_connection, post_recv, give_up, on_recv_complete, on_send_complete, Completion, woken,
  received, sent, run_event_loop, set_up, serve, start,
}

-- What the calls add up to, for what one call adds.
abbrev pub tally : (Call → List ℕ) → List Call → List ℕ
tally f [] = []
tally f (x ∷ xs) = f x ++ tally f xs

pub tally-snoc :
    (f : Call → List ℕ) (xs : List Call) (x : Call) → tally f (xs ++ (x ∷ [])) ≡ tally f xs ++ f x
tally-snoc f [] x = append-nil (f x)
tally-snoc f (y ∷ xs) x =
    ap (◌++◌ (f y)) (tally-snoc f xs x) ∙ sym (append_assoc (f y) (tally f xs) (f x))

abbrev pub opens_of : Call → List ℕ
opens_of (opens s) = s ∷ []
opens_of _ = []

abbrev pub closes_of : Call → List ℕ
closes_of (closes s) = s ∷ []
closes_of _ = []

abbrev pub prints_of : Call → List ℕ
prints_of (prints bytes) = bytes
prints_of _ = []

abbrev pub held : Option ℕ → List ℕ
held none = []
held (some s) = s ∷ []

-- The sockets that were opened are those that were closed, in order, and the one that is held.
abbrev pub IsBalanced : Connection.Connection → Type 0
IsBalanced c = tally opens_of c.calls ≡ tally closes_of c.calls ++ held c.socket

-- A call that opens and closes nothing.
pub tell-IsBalanced :
    (c : Connection.Connection) (x : Call)
    → opens_of x ≡ []
    → closes_of x ≡ []
    → IsBalanced c
    → IsBalanced (tell c x)
tell-IsBalanced c x o l v =
    tally-snoc opens_of c.calls x
    ∙ ap (◌++◌ (tally opens_of c.calls)) o
    ∙ append-nil (tally opens_of c.calls)
    ∙ v
    ∙ ap (λ xs. xs ++ held c.socket)
        (sym (
          tally-snoc closes_of c.calls x
          ∙ ap (◌++◌ (tally closes_of c.calls)) l
          ∙ append-nil (tally closes_of c.calls)))

-- What closes the socket that is held.
closed-IsBalanced :
    (c : Connection.Connection) (s : ℕ)
    → c.socket ≡ some s
    → IsBalanced c
    → IsBalanced (record (tell c (closes s)) { socket = none })
closed-IsBalanced c s e v =
    tally-snoc opens_of c.calls (closes s)
    ∙ append-nil (tally opens_of c.calls)
    ∙ v
    ∙ ap (λ o. tally closes_of c.calls ++ held o) e
    ∙ sym (append-nil (tally closes_of c.calls ++ (s ∷ [])))
    ∙ ap (λ xs. xs ++ []) (sym (tally-snoc closes_of c.calls (closes s)))

safe_close_socket-IsBalanced :
    (c : Connection.Connection) → IsBalanced c → IsBalanced (safe_close_socket c)
unfolding safe_close_socket
safe_close_socket-IsBalanced c v = elim (Option-cases c.socket) [
  | inl e ↦ rw e (v ∙ ap (λ o. tally closes_of c.calls ++ held o) e)
  | inr (s, e) ↦ rw e (closed-IsBalanced c s e v)
]

safe_close_socket-none : (c : Connection.Connection) → (safe_close_socket c).socket ≡ none
unfolding safe_close_socket
safe_close_socket-none c = elim (Option-cases c.socket) [
  | inl e ↦ rw e refl
  | inr (s, e) ↦ rw e refl
]

shut_down-IsBalanced : (c : Connection.Connection) → IsBalanced c → IsBalanced (shut_down c)
unfolding shut_down
shut_down-IsBalanced c v = elim (Option-cases c.socket) [
  | inl e ↦ rw e (v ∙ ap (λ o. tally closes_of c.calls ++ held o) e)
  | inr (s, e) ↦ rw e (
      tell-IsBalanced c (shuts_down s) refl refl v
      ∙ ap (λ o. tally closes_of (tell c (shuts_down s)).calls ++ held o) e)
]

clean_up-IsBalanced : (c : Connection.Connection) → IsBalanced c → IsBalanced (clean_up c)
unfolding clean_up
clean_up-IsBalanced c v = elim (Bool-cases c.is_active) [
  | inl e ↦ rw e (tell-IsBalanced c cleans_up refl refl v)
  | inr e ↦ rw e v
]

clean_up-socket : (c : Connection.Connection) → (clean_up c).socket ≡ c.socket
unfolding clean_up
clean_up-socket c = elim (Bool-cases c.is_active) [ inl e ↦ rw e refl | inr e ↦ rw e refl ]

clean_up-is_active : (c : Connection.Connection) → (clean_up c).is_active ≡ false
unfolding clean_up
clean_up-is_active c = elim (Bool-cases c.is_active) [ inl e ↦ rw e refl | inr e ↦ rw e refl ]

-- Nothing is held, and the sockets that were opened are those that were closed, in order.
pub record IsIdle (c : Connection.Connection) : Type 0 where
  pub no_socket : c.socket ≡ none
  pub inactive : c.is_active ≡ false
  pub joined : c.send_thread ≡ false
  pub released : tally opens_of c.calls ≡ tally closes_of c.calls

pub stop-IsIdle : (c : Connection.Connection) → IsBalanced c → IsIdle (stop c)
unfolding stop
stop-IsIdle c v =
    let d = safe_close_socket (shut_down (record c { run_send = false })) in
    let c' = shut_down (record c { run_send = false }) in
    let w =
      safe_close_socket-IsBalanced c' (shut_down-IsBalanced (record c { run_send = false }) v) in
    let gone : (clean_up d).socket ≡ none = clean_up-socket d ∙ safe_close_socket-none c' in
    record {
      no_socket = gone;
      inactive = clean_up-is_active d;
      joined = refl;
      released =
          clean_up-IsBalanced d w
          ∙ ap (λ o. tally closes_of (clean_up d).calls ++ held o) gone
          ∙ append-nil (tally closes_of (clean_up d).calls);
    }

-- A socket is opened where none is held.
opened-IsBalanced :
    (c : Connection.Connection) (s : ℕ)
    → c.socket ≡ none
    → IsBalanced c
    → IsBalanced (record (tell c (opens s)) { socket = some s })
opened-IsBalanced c s e v =
    tally-snoc opens_of c.calls (opens s)
    ∙ ap (λ xs. xs ++ (s ∷ []))
        (v
          ∙ ap (λ o. tally closes_of c.calls ++ held o) e
          ∙ sym (tally-snoc closes_of c.calls (opens s)))

-- The attempts on the addresses, from a client without a socket.
try_addresses-IsBalanced :
    (addresses : List Address) (c : Connection.Connection)
    → c.socket ≡ none
    → IsBalanced c
    → IsBalanced (try_addresses addresses c).1
unfolding try_addresses connect_to_server
try_addresses-IsBalanced [] c e v = v
try_addresses-IsBalanced (a ∷ addresses) c e v = elim (Option-cases a.socket) [
  | inl invalid ↦ rw invalid (try_addresses-IsBalanced addresses c e v)
  | inr (s, valid) ↦
      let opened = opened-IsBalanced c s e v in
      elim (Bool-cases a.connects) [
        | inl t ↦ rw (valid, t) opened
        | inr t ↦
            rw (valid, t)
              (try_addresses-IsBalanced addresses (tell (tell c (opens s)) (closes s)) e (
                closed-IsBalanced (record (tell c (opens s)) { socket = some s }) s refl opened
                ∙ ap (λ o. tally closes_of (tell (tell c (opens s)) (closes s)).calls ++ held o)
                    (sym e)))
      ]
]

give_up-IsBalanced : (c : Connection.Connection) → IsBalanced c → IsBalanced (give_up c)
unfolding give_up
give_up-IsBalanced c v =
    let w = safe_close_socket-IsBalanced c v in
    elim (Bool-cases (safe_close_socket c).iocp) [
      | inl e ↦ rw e (tell-IsBalanced (safe_close_socket c) wakes refl refl w)
      | inr e ↦ rw e w
    ]

pub on_recv_complete-IsBalanced :
    (ok : Bool) (bytes : Message) (posted : Bool) (c : Connection.Connection)
    → IsBalanced c
    → IsBalanced (on_recv_complete ok bytes posted c)
unfolding on_recv_complete post_recv
on_recv_complete-IsBalanced ok bytes posted c v = elim (Bool-cases (not ok || is_empty bytes)) [
  | inl e ↦ rw e (give_up-IsBalanced c v)
  | inr e ↦ rw e (
      tell-IsBalanced (tell c (prints bytes)) (receives c.socket) refl refl
        (tell-IsBalanced c (prints bytes) refl refl v))
]

pub on_send_complete-IsBalanced :
    (ok : Bool) (c : Connection.Connection) → IsBalanced c → IsBalanced (on_send_complete ok c)
unfolding on_send_complete
on_send_complete-IsBalanced true c v = v
on_send_complete-IsBalanced false c v = give_up-IsBalanced c v

create_connection-IsBalanced :
    (addresses : Option (List Address)) (c : Connection.Connection)
    → c.socket ≡ none
    → IsBalanced c
    → IsBalanced (create_connection addresses c).1
unfolding create_connection
create_connection-IsBalanced none c e v = v
create_connection-IsBalanced (some addresses) c e v = try_addresses-IsBalanced addresses c e v

pub set_up-IsBalanced :
    (made : Bool) (addresses : Option (List Address)) (associated : Bool)
    (c : Connection.Connection)
    → c.socket ≡ none
    → IsBalanced c
    → IsBalanced (set_up made addresses associated c).1
unfolding set_up
set_up-IsBalanced false addresses associated c e v = v
set_up-IsBalanced true addresses associated c e v =
    create_connection-IsBalanced addresses (record c { iocp = true }) e v
