-- ===== src/PollClient/Start.antt =====
-- `Start` of NetworkBasics/poll/Client/ChatClient.cpp.
use tcp_simple_chat.Base.{
  NonEmpty, ℕ, ◌<◌, ◌≡◌, arith, refl, sym, subst, List, [], ◌∷◌, Bool, true, false, Option, none,
  some, Option-cases, Bool-cases, inl, inr,
}
use tcp_simple_chat.Net.{Net}
use tcp_simple_chat.Epoll.Runs.{Drains}
use tcp_simple_chat.PollClient.{
  Client, Address, try_connect, create_connection, stop, Turn, run_loop,
}
use tcp_simple_chat.PollClient.Loop.{any_fails, run_loop-Ran}

module _ (net : Net) where
  open net use {World}

  -- `Start` once the loop was left.
  unfoldable pub after_loop : Option (Bool × Client × World) → Option (Bool × Client × World)
  after_loop none = none
  after_loop (some (false, c, w)) = some (false, c, w)
  after_loop (some (true, c, w)) = some (true, stop c, w)

  -- `Start` from the loop on, on the socket of the connection: whether it returned, and the client.
  unfoldable pub serve :
      ℕ → List (Turn net) → Option ℕ → Client → World → Option (Bool × Client × World)
  unfolding after_loop
  serve fuel turns none c w = some (true, stop c, w)
  serve fuel turns (some fd) c w =
      after_loop (run_loop net fuel fd turns (record c { running = true }) w)

  -- After `CreateConnection`, on whether it and `SetNonBlocking` succeed.
  unfoldable pub after_connect :
      ℕ → List (Turn net) → Bool → Bool → Client → World → Option (Bool × Client × World)
  unfolding serve
  after_connect fuel turns false set c w = some (true, stop c, w)
  after_connect fuel turns true false c w = some (true, stop c, w)
  after_connect fuel turns true true c w = serve fuel turns c.socket c w

  unfoldable pub start :
      ℕ
      → Option (List Address)
      → Bool
      → List (Turn net)
      → Client
      → World
      → Option (Bool × Client × World)
  unfolding after_connect
  start fuel addresses set turns c w =
      let (connected, c') = create_connection addresses c in
      after_connect fuel turns connected set c' w

try_connect-send_queue :
    (addresses : List Address) (c : Client) → (try_connect addresses c).send_queue ≡ c.send_queue
unfolding try_connect
try_connect-send_queue [] c = refl
try_connect-send_queue (a ∷ addresses) c = elim (Option-cases a.socket) [
  | inl invalid ↦ rw invalid (try_connect-send_queue addresses c)
  | inr (s, valid) ↦ elim (Bool-cases a.connects) [
    | inl t ↦ rw (valid, t) refl
    | inr t ↦ rw (valid, t) (try_connect-send_queue addresses _)
  ]
]

create_connection-send_queue :
    (addresses : Option (List Address)) (c : Client)
    → (create_connection addresses c).1.send_queue ≡ c.send_queue
unfolding create_connection
create_connection-send_queue none c = refl
create_connection-send_queue (some addresses) c = try_connect-send_queue addresses c

-- The client does not run and has no socket, and no message in its queue is empty.
pub record IsStopped (c : Client) : Type 0 where
  pub not_running : c.running ≡ false
  pub no_socket : c.socket ≡ none
  pub full : NonEmpty c.send_queue

stop-IsStopped : (c : Client) → NonEmpty c.send_queue → IsStopped (stop c)
unfolding stop
stop-IsStopped c v = elim (Option-cases c.socket) [
  | inl e ↦ record { not_running = rw e refl; no_socket = rw e refl; full = rw e v }
  | inr (s, e) ↦ record { not_running = rw e refl; no_socket = rw e refl; full = rw e v }
]

module _ (net : Net) (total : net.World → ℕ) (drains : Drains net total) where
  open net use {World}

  -- `Start` returned, and the client is stopped.
  abbrev pub Stops : Option (Bool × Client × World) → Type 0
  Stops r = (c : Client) × (w : World) × (r ≡ some (true, c, w)) × IsStopped c

  serve-Stops :
      (fuel : ℕ) (turns : List (Turn net)) (o : Option ℕ) (c : Client) (w : World)
      → total w < fuel
      → any_fails net turns ≡ true
      → NonEmpty c.send_queue
      → Stops (serve net fuel turns o c w)
  unfolding serve after_loop
  serve-Stops fuel turns none c w f fatal v = (stop c, w, refl, stop-IsStopped c v)
  serve-Stops fuel turns (some fd) c w f fatal v =
      let (left, c', w', run, le, v', t) =
        run_loop-Ran net total drains fuel fd turns (record c { running = true }) w f v in
      let e : left ≡ true = ground arith in
      rw (run, serve, after_loop)
        (rw (e, serve, after_loop) (stop c', w', refl, stop-IsStopped c' v'))

  after_connect-Stops :
      (fuel : ℕ) (turns : List (Turn net)) (connected set : Bool) (c : Client) (w : World)
      → total w < fuel
      → any_fails net turns ≡ true
      → NonEmpty c.send_queue
      → Stops (after_connect net fuel turns connected set c w)
  unfolding after_connect
  after_connect-Stops fuel turns false set c w f fatal v = (stop c, w, refl, stop-IsStopped c v)
  after_connect-Stops fuel turns true false c w f fatal v = (stop c, w, refl, stop-IsStopped c v)
  after_connect-Stops fuel turns true true c w f fatal v =
      serve-Stops fuel turns c.socket c w f fatal v

  -- Where in some turn `poll` fails with another error than EINTR or reports a failure of the socket,
  -- with more fuel than the bytes that the server will still send and no empty message in the queue:
  -- `Start` returns, whatever else fails, is reported or is sent by the other thread. Then the client
  -- does not run and has no socket, and no message that is left in its queue is empty.
  pub start-Stops :
      (fuel : ℕ) (addresses : Option (List Address)) (set : Bool) (turns : List (Turn net))
      (c : Client) (w : World)
      → total w < fuel
      → any_fails net turns ≡ true
      → NonEmpty c.send_queue
      → Stops (start net fuel addresses set turns c w)
  unfolding start
  start-Stops fuel addresses set turns c w f fatal v =
      let r = create_connection addresses c in
      after_connect-Stops fuel turns r.0 set r.1 w f fatal
        (subst NonEmpty (sym (create_connection-send_queue addresses c)) v)
