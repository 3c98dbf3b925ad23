-- ===== src/IocpClient/Served.antt =====
-- Runs of `Start` of NetworkBasics/iocp/Client from the beginning to the end.
use tcp_simple_chat.Base.{
  suc, length-append, ℕ, ◌≡◌, refl, sym, ap, ◌∙◌, List, [], ◌∷◌, ◌++◌, append-nil, Bool, true,
  false, ◌&&◌, Option, some, if◌then◌else◌, arith, length,
}
use tcp_simple_chat.IocpClient.Connection
use tcp_simple_chat.IocpClient.Connection.{
  Call, starts_up, cleans_up, wakes, opens, shuts_down, closes, receives, prints, tell,
  safe_close_socket, shut_down, clean_up, stop, Address, connect_to_server, try_addresses,
  create_connection, post_recv, give_up, on_recv_complete, on_send_complete, Completion, woken,
  received, sent, run_event_loop, set_up, serve, after_set_up, start,
}
use tcp_simple_chat.IocpClient.Released.{
  tally, tally-snoc, closes_of, prints_of, held, IsBalanced, IsIdle, tell-IsBalanced, stop-IsIdle,
  set_up-IsBalanced,
}
use tcp_simple_chat.IocpClient.Tallies.{
  tell-tally, set_up-is_active, stop-tally, shut_down-tally, set_up-tally,
}
use tcp_simple_chat.IocpClient.Printed.{
  safe_close_socket-IsQuiet, clean_up-prints, delivered, wakes_up, run_event_loop-delivered,
}

stop-prints : (c : Connection.Connection) → tally prints_of (stop c).calls ≡ tally prints_of c.calls
unfolding stop
stop-prints c =
    let off = record c { run_send = false } in
    let shut = shut_down off in
    clean_up-prints (safe_close_socket shut)
    ∙ (safe_close_socket-IsQuiet shut).same_prints
    ∙ shut_down-tally prints_of (λ s. refl) (λ s. refl) (λ s. refl) off

serve-IsIdle :
    (posted : Bool) (xs : List Completion) (c : Connection.Connection)
    → wakes_up xs ≡ true
    → IsBalanced c
    → (d : Connection.Connection) × (serve posted xs c ≡ some d)
      × IsIdle d
      × (tally prints_of d.calls ≡ tally prints_of c.calls ++ (if posted then delivered xs else []))
unfolding serve post_recv
serve-IsIdle false xs c w v =
    let c' = tell (record c { is_active = true }) (receives c.socket) in
    (
      stop c',
      refl,
      stop-IsIdle c'
          (tell-IsBalanced (record c { is_active = true }) (receives c.socket) refl refl v),
      stop-prints c'
          ∙ tell-tally prints_of c (receives c.socket) refl
          ∙ sym (append-nil (tally prints_of c.calls)),
    )
serve-IsIdle true xs c w v =
    let c' = record (tell c (receives c.socket)) {
      is_active = true;
      run_send = true;
      send_thread = true;
    } in
    let (d, r, b, p) =
      run_event_loop-delivered xs c' w refl (tell-IsBalanced c (receives c.socket) refl refl v) in
    (
      stop d,
      rw (serve, r) refl,
      stop-IsIdle d b,
      stop-prints d
          ∙ p
          ∙ ap (λ ys. ys ++ delivered xs) (tell-tally prints_of c (receives c.socket) refl),
    )

after_set_up-IsIdle :
    (ready posted : Bool) (xs : List Completion) (c : Connection.Connection)
    → wakes_up xs ≡ true
    → IsBalanced c
    → (d : Connection.Connection) × (after_set_up ready posted xs c ≡ some d)
      × IsIdle d
      × (tally prints_of d.calls
          ≡ tally prints_of c.calls ++ (if ready && posted then delivered xs else []))
unfolding after_set_up
after_set_up-IsIdle false posted xs c w v =
    (stop c, refl, stop-IsIdle c v, stop-prints c ∙ sym (append-nil (tally prints_of c.calls)))
after_set_up-IsIdle true posted xs c w v = serve-IsIdle posted xs c w v

-- Where the port gives a completion without OVERLAPPED, as it does after a failure, `Start` returns.
-- From a client that holds nothing it returns with one that holds nothing: no socket, the worker
-- joined, and every socket it opened closed once, in order, whichever of the calls failed. It printed
-- what the receives brought in order until that completion, and nothing where the set-up or the
-- first receive failed.
pub start-IsIdle :
    (winsock made : Bool) (addresses : Option (List Address)) (associated posted : Bool)
    (xs : List Completion) (c : Connection.Connection)
    → IsIdle c
    → wakes_up xs ≡ true
    → (d : Connection.Connection) × (start winsock made addresses associated posted xs c ≡ some d)
      × IsIdle d
      × (tally prints_of d.calls
          ≡ tally prints_of c.calls
            ++ (if winsock && ((set_up made addresses associated (tell c starts_up)).0 && posted)
                then delivered xs
                else []))
unfolding start
start-IsIdle false made addresses associated posted xs c idle w =
    (c, refl, idle, sym (append-nil (tally prints_of c.calls)))
start-IsIdle true made addresses associated posted xs c idle w =
    let begun = tell c starts_up in
    let v : IsBalanced begun = tell-IsBalanced c starts_up refl refl (
      idle.released
      ∙ sym (append-nil (tally closes_of c.calls))
      ∙ ap (λ o. tally closes_of c.calls ++ held o) (sym idle.no_socket)) in
    let ready = set_up made addresses associated begun in
    let b = set_up-IsBalanced made addresses associated begun idle.no_socket v in
    let silent =
      set_up-tally prints_of (λ s. refl) (λ s. refl) (λ s. refl) made addresses associated begun
      ∙ tell-tally prints_of c starts_up refl in
    let (d, r, idle', p) = after_set_up-IsIdle ready.0 posted xs ready.1 w b in
    (d, r, idle', p ∙ ap (λ ys. ys ++ (if ready.0 && posted then delivered xs else [])) silent)

abbrev pub startups_of : Call → List ℕ
startups_of starts_up = 0 ∷ []
startups_of _ = []

abbrev pub cleanups_of : Call → List ℕ
cleanups_of cleans_up = 0 ∷ []
cleanups_of _ = []

-- Where the completion port, the connection or the association fails, `Start` called WSAStartup once
-- and did not call WSACleanup, though it calls `Stop`, since `m_isActive` is not set yet.
pub start-unclean :
    (made : Bool) (addresses : Option (List Address)) (associated posted : Bool)
    (xs : List Completion) (c : Connection.Connection)
    → c.is_active ≡ false
    → (set_up made addresses associated (tell c starts_up)).0 ≡ false
    → (d : Connection.Connection) × (start true made addresses associated posted xs c ≡ some d)
      × (length (tally startups_of d.calls) ≡ suc (length (tally startups_of c.calls)))
      × (length (tally cleanups_of d.calls) ≡ length (tally cleanups_of c.calls))
unfolding start after_set_up
start-unclean made addresses associated posted xs c off down =
    let begun = tell c starts_up in
    let ready = set_up made addresses associated begun in
    let still = set_up-is_active made addresses associated begun ∙ off in
    (
      stop ready.1,
      ap (λ b. after_set_up b posted xs ready.1) down,
      ap length (
            stop-tally startups_of (λ s. refl) (λ s. refl) (λ s. refl) ready.1 still
            ∙ set_up-tally startups_of (λ s. refl) (λ s. refl) (λ s. refl) made addresses associated
                begun
            ∙ tally-snoc startups_of c.calls starts_up)
          ∙ length-append (tally startups_of c.calls) (0 ∷ [])
          ∙ omega arith,
      ap length (
          stop-tally cleanups_of (λ s. refl) (λ s. refl) (λ s. refl) ready.1 still
          ∙ set_up-tally cleanups_of (λ s. refl) (λ s. refl) (λ s. refl) made addresses associated
              begun
          ∙ tell-tally cleanups_of c starts_up refl),
    )
