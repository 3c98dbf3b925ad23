-- ===== src/IocpClient/Tallies.antt =====
-- What the steps of `Start` and `Stop` of NetworkBasics/iocp/Client add to a tally of the calls that
-- leaves out those on sockets.
use tcp_simple_chat.Base.{
  ℕ, ◌≡◌, refl, ap, ◌∙◌, inl, inr, List, [], ◌∷◌, ◌++◌, append-nil, Bool, true, false, Option, none,
  some, Option-cases, Bool-cases,
}
use tcp_simple_chat.IocpClient.Connection
use tcp_simple_chat.IocpClient.Connection.{
  Call, starts_up, cleans_up, wakes, opens, shuts_down, closes, receives, prints, tell,
  safe_close_socket, shut_down, clean_up, stop, Address, connect_to_server, try_addresses,
  create_connection, post_recv, give_up, on_recv_complete, on_send_complete, Completion, woken,
  received, sent, run_event_loop, set_up, serve, after_set_up, start,
}
use tcp_simple_chat.IocpClient.Released.{tally, tally-snoc}

-- A call that adds nothing.
pub tell-tally :
    (f : Call → List ℕ) (c : Connection.Connection) (x : Call)
    → f x ≡ []
    → tally f (tell c x).calls ≡ tally f c.calls
tell-tally f c x e =
    tally-snoc f c.calls x ∙ ap (◌++◌ (tally f c.calls)) e ∙ append-nil (tally f c.calls)

pub safe_close_socket-is_active :
    (c : Connection.Connection) → (safe_close_socket c).is_active ≡ c.is_active
unfolding safe_close_socket
safe_close_socket-is_active c = elim (Option-cases c.socket) [
  | inl e ↦ rw e refl
  | inr (s, e) ↦ rw e refl
]

shut_down-is_active : (c : Connection.Connection) → (shut_down c).is_active ≡ c.is_active
unfolding shut_down
shut_down-is_active c = elim (Option-cases c.socket) [ inl e ↦ rw e refl | inr (s, e) ↦ rw e refl ]

try_addresses-is_active :
    (addresses : List Address) (c : Connection.Connection)
    → (try_addresses addresses c).1.is_active ≡ c.is_active
unfolding try_addresses connect_to_server
try_addresses-is_active [] c = refl
try_addresses-is_active (a ∷ addresses) c = elim (Option-cases a.socket) [
  | inl invalid ↦ rw invalid (try_addresses-is_active addresses c)
  | inr (s, valid) ↦ elim (Bool-cases a.connects) [
    | inl t ↦ rw (valid, t) refl
    | inr t ↦ rw (valid, t) (try_addresses-is_active addresses (tell (tell c (opens s)) (closes s)))
  ]
]

pub set_up-is_active :
    (made : Bool) (addresses : Option (List Address)) (associated : Bool)
    (c : Connection.Connection)
    → (set_up made addresses associated c).1.is_active ≡ c.is_active
unfolding set_up create_connection
set_up-is_active false addresses associated c = refl
set_up-is_active true none associated c = refl
set_up-is_active true (some addresses) associated c =
    try_addresses-is_active addresses (record c { iocp = true })

module _ (f : Call → List ℕ) (opened : (s : ℕ) → f (opens s) ≡ [])
    (closed : (s : ℕ) → f (closes s) ≡ []) (shut : (s : ℕ) → f (shuts_down s) ≡ []) where
  pub safe_close_socket-tally :
      (c : Connection.Connection) → tally f (safe_close_socket c).calls ≡ tally f c.calls
  unfolding safe_close_socket
  safe_close_socket-tally c = elim (Option-cases c.socket) [
    | inl e ↦ rw e refl
    | inr (s, e) ↦ rw e (tell-tally f c (closes s) (closed s))
  ]

  pub shut_down-tally : (c : Connection.Connection) → tally f (shut_down c).calls ≡ tally f c.calls
  unfolding shut_down
  shut_down-tally c = elim (Option-cases c.socket) [
    | inl e ↦ rw e refl
    | inr (s, e) ↦ rw e (tell-tally f c (shuts_down s) (shut s))
  ]

  try_addresses-tally :
      (addresses : List Address) (c : Connection.Connection)
      → tally f (try_addresses addresses c).1.calls ≡ tally f c.calls
  unfolding try_addresses connect_to_server
  try_addresses-tally [] c = refl
  try_addresses-tally (a ∷ addresses) c = elim (Option-cases a.socket) [
    | inl invalid ↦ rw invalid (try_addresses-tally addresses c)
    | inr (s, valid) ↦
        let tried = tell c (opens s) in
        elim (Bool-cases a.connects) [
          | inl t ↦ rw (valid, t) (tell-tally f c (opens s) (opened s))
          | inr t ↦
              rw (valid, t)
                (try_addresses-tally addresses (tell tried (closes s))
                  ∙ tell-tally f tried (closes s) (closed s)
                  ∙ tell-tally f c (opens s) (opened s))
        ]
  ]

  pub set_up-tally :
      (made : Bool) (addresses : Option (List Address)) (associated : Bool)
      (c : Connection.Connection)
      → tally f (set_up made addresses associated c).1.calls ≡ tally f c.calls
  unfolding set_up create_connection
  set_up-tally false addresses associated c = refl
  set_up-tally true none associated c = refl
  set_up-tally true (some addresses) associated c =
      try_addresses-tally addresses (record c { iocp = true })

  clean_up-tally :
      (c : Connection.Connection)
      → c.is_active ≡ false
      → tally f (clean_up c).calls ≡ tally f c.calls
  unfolding clean_up
  clean_up-tally c off = rw off refl

  -- `Stop` of a client that is not active.
  pub stop-tally :
      (c : Connection.Connection) → c.is_active ≡ false → tally f (stop c).calls ≡ tally f c.calls
  unfolding stop
  stop-tally c off =
      let quit = record c { run_send = false } in
      let shut' = shut_down quit in
      let still = safe_close_socket-is_active shut' ∙ shut_down-is_active quit ∙ off in
      clean_up-tally (safe_close_socket shut') still
      ∙ safe_close_socket-tally shut'
      ∙ shut_down-tally quit
