-- ===== src/IocpClient/Printed.antt =====
-- What the receives of NetworkBasics/iocp/Client print while the loop runs.
use tcp_simple_chat.Base.{
  ◌≡◌, refl, sym, ap, ◌∙◌, inl, inr, List, [], ◌∷◌, ◌++◌, append-nil, append_assoc, Bool, true,
  false, not, ◌||◌, Option, some, is_empty, if◌then◌else◌, arith, Bool-cases,
}
use tcp_simple_chat.IocpClient.{Message}
use tcp_simple_chat.IocpClient.Connection
use tcp_simple_chat.IocpClient.Connection.{
  Call, starts_up, cleans_up, wakes, opens, shuts_down, closes, receives, prints, tell,
  safe_close_socket, shut_down, clean_up, stop, Address, connect_to_server, try_addresses,
  create_connection, post_recv, give_up, on_recv_complete, on_send_complete, Completion, woken,
  received, sent, run_event_loop, set_up, serve, after_set_up, start,
}
use tcp_simple_chat.IocpClient.Released.{
  tally, tally-snoc, prints_of, IsBalanced, on_recv_complete-IsBalanced,
  on_send_complete-IsBalanced,
}
use tcp_simple_chat.IocpClient.Tallies.{
  tell-tally, safe_close_socket-is_active, safe_close_socket-tally,
}

-- What neither prints nor leaves the loop.
pub record IsQuiet (c d : Connection.Connection) : Type 0 where
  pub same_prints : tally prints_of d.calls ≡ tally prints_of c.calls
  pub same_active : d.is_active ≡ c.is_active

pub safe_close_socket-IsQuiet : (c : Connection.Connection) → IsQuiet c (safe_close_socket c)
safe_close_socket-IsQuiet c = record {
  same_prints = safe_close_socket-tally prints_of (λ s. refl) (λ s. refl) (λ s. refl) c;
  same_active = safe_close_socket-is_active c;
}

pub clean_up-prints :
    (c : Connection.Connection) → tally prints_of (clean_up c).calls ≡ tally prints_of c.calls
unfolding clean_up
clean_up-prints c = elim (Bool-cases c.is_active) [
  | inl e ↦ rw e (tell-tally prints_of c cleans_up refl)
  | inr e ↦ rw e refl
]

give_up-IsQuiet : (c : Connection.Connection) → IsQuiet c (give_up c)
unfolding give_up
give_up-IsQuiet c =
    let v = safe_close_socket-IsQuiet c in
    elim (Bool-cases (safe_close_socket c).iocp) [
      | inl e ↦ record {
        same_prints = rw e (tell-tally prints_of (safe_close_socket c) wakes refl ∙ v.same_prints);
        same_active = rw e v.same_active;
      }
      | inr e ↦ record { same_prints = rw e v.same_prints; same_active = rw e v.same_active }
    ]

-- What a receive prints.
abbrev shown : Bool → Message → Message
shown ok bytes = if not ok || is_empty bytes then [] else bytes

on_recv_complete-shown :
    (ok : Bool) (bytes : Message) (posted : Bool) (c : Connection.Connection)
    → (tally prints_of (on_recv_complete ok bytes posted c).calls
        ≡ tally prints_of c.calls ++ shown ok bytes)
      × ((on_recv_complete ok bytes posted c).is_active ≡ c.is_active)
unfolding on_recv_complete post_recv
on_recv_complete-shown ok bytes posted c = elim (Bool-cases (not ok || is_empty bytes)) [
  | inl e ↦ (
    rw e ((give_up-IsQuiet c).same_prints ∙ sym (append-nil (tally prints_of c.calls))),
    rw e (give_up-IsQuiet c).same_active,
  )
  | inr e ↦ (
    rw e (
        tell-tally prints_of (tell c (prints bytes)) (receives c.socket) refl
        ∙ tally-snoc prints_of c.calls (prints bytes)),
    rw e refl,
  )
]

on_send_complete-IsQuiet :
    (ok : Bool) (c : Connection.Connection) → IsQuiet c (on_send_complete ok c)
unfolding on_send_complete
on_send_complete-IsQuiet true c = record { same_prints = refl; same_active = refl }
on_send_complete-IsQuiet false c = give_up-IsQuiet c

-- What the receives bring until the port gives a completion without OVERLAPPED.
abbrev pub delivered : List Completion → Message
delivered [] = []
delivered (woken ∷ xs) = []
delivered (received ok bytes posted ∷ xs) = shown ok bytes ++ delivered xs
delivered (sent ok ∷ xs) = delivered xs

-- The port gives a completion without OVERLAPPED, such as those that failures post.
abbrev pub wakes_up : List Completion → Bool
wakes_up [] = false
wakes_up (woken ∷ xs) = true
wakes_up (received ok bytes posted ∷ xs) = wakes_up xs
wakes_up (sent ok ∷ xs) = wakes_up xs

goes_on :
    (c next : Connection.Connection) (xs : List Completion)
    → c.is_active ≡ true
    → (elim c.is_active as (λ b. Option Connection.Connection) [
      | false ↦ some c
      | true ↦ run_event_loop xs next
    ])
      ≡ run_event_loop xs next
goes_on c next xs e =
    ap
      (λ (b : Bool). elim b as (λ b. Option Connection.Connection) [
        | false ↦ some c
        | true ↦ run_event_loop xs next
      ])
      e

pub run_event_loop-delivered :
    (xs : List Completion) (c : Connection.Connection)
    → wakes_up xs ≡ true
    → c.is_active ≡ true
    → IsBalanced c
    → (d : Connection.Connection) × (run_event_loop xs c ≡ some d)
      × IsBalanced d
      × (tally prints_of d.calls ≡ tally prints_of c.calls ++ delivered xs)
unfolding run_event_loop
run_event_loop-delivered [] c w on v = ground arith
run_event_loop-delivered (woken ∷ xs) c w on v =
    (c, refl, v, sym (append-nil (tally prints_of c.calls)))
run_event_loop-delivered (received ok bytes posted ∷ xs) c w on v =
    let next = on_recv_complete ok bytes posted c in
    let (out, still) = on_recv_complete-shown ok bytes posted c in
    let (d, r, b, p) =
      run_event_loop-delivered xs next w (still ∙ on)
        (on_recv_complete-IsBalanced ok bytes posted c v) in
    (
      d,
      goes_on c next xs on ∙ r,
      b,
      p
          ∙ ap (λ ys. ys ++ delivered xs) out
          ∙ append_assoc (tally prints_of c.calls) (shown ok bytes) (delivered xs),
    )
run_event_loop-delivered (sent ok ∷ xs) c w on v =
    let next = on_send_complete ok c in
    let quiet = on_send_complete-IsQuiet ok c in
    let (d, r, b, p) =
      run_event_loop-delivered xs next w (quiet.same_active ∙ on)
        (on_send_complete-IsBalanced ok c v) in
    (d, goes_on c next xs on ∙ r, b, p ∙ ap (λ ys. ys ++ delivered xs) quiet.same_prints)
