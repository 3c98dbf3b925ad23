-- ===== src/BlockingClient/Streams.antt =====
-- What the threads of NetworkBasics/blocking-multithreaded/Client/ChatClient.cpp read and send.
use tcp_simple_chat.Base.{
  ℕ, ◌≤◌, ◌≡◌, refl, sym, ap, ◌∙◌, List, [], ◌∷◌, ◌++◌, append_assoc, append-nil, Bool, true, false,
  some, arith, flatten, NonEmpty,
}
use tcp_simple_chat.Net.{Net, RecvResult, got, recv_failed, ReceivesInOrder}
use tcp_simple_chat.Epoll.Runs.{Drains}
use tcp_simple_chat.FramedClient.Connect.{Attempt, refused, AllFail, try_addresses-refused}
use tcp_simple_chat.SelectServer.Sending.{send_msg-ends}
use tcp_simple_chat.BlockingClient.{
  Message, Client, runs, connect, run, after_recv, receive_messages, send_messages,
}

module _ (net : Net) (s : ℕ) (unread : net.World → List ℕ) (retries : net.World → ℕ)
    (ordered : ReceivesInOrder net s unread retries) where
  open net use {World, recv}

  -- The client printed `out` more, which is what was read.
  abbrev pub Printed : Client → World → Client × World → Type 0
  Printed c w r =
      (out : List Message) × (r.0.printed ≡ c.printed ++ out)
      × (unread w ≡ flatten out ++ unread r.1)
      × NonEmpty out

  after_recv-Printed :
      (again : Client → World → Client × World)
      → ((c : Client) (w : World) → Printed c w (again c w))
      → (c : Client) (w w' : World) (r : RecvResult) (len : ℕ) → recv w s len ≡ (r, w')
      → Printed c w (after_recv net again c r w')
  unfolding after_recv
  after_recv-Printed again ih c w w' (got []) len e =
      ([], sym (append-nil c.printed), (ordered.in_order w w' len [] e).0, tt)
  after_recv-Printed again ih c w w' (got (b ∷ bs)) len e =
      let (out, more, rest, full) = ih (record c { printed = c.printed ++ ((b ∷ bs) ∷ []) }) w' in
      (
        (b ∷ bs) ∷ out,
        more ∙ append_assoc c.printed ((b ∷ bs) ∷ []) out,
        (ordered.in_order w w' len (b ∷ bs) e).0
            ∙ ap (◌++◌ (b ∷ bs)) rest
            ∙ sym (append_assoc (b ∷ bs) (flatten out) _),
        (omega arith, full),
      )
  after_recv-Printed again ih c w w' (recv_failed e') len e =
      ([], sym (append-nil c.printed), (ordered.unchanged w w' len e' e).0, tt)

  -- `ReceiveMessages` prints what the server sent, in order, without loss or repetition, as far as it
  -- read; no empty line is printed.
  pub receive_messages-Printed :
      (tests : List Bool) (c : Client) (w : World) → Printed c w (receive_messages net s tests c w)
  unfolding receive_messages
  receive_messages-Printed [] c w = ([], sym (append-nil c.printed), refl, tt)
  receive_messages-Printed (false ∷ tests) c w = ([], sym (append-nil c.printed), refl, tt)
  receive_messages-Printed (true ∷ tests) c w =
      after_recv-Printed (receive_messages net s tests) (receive_messages-Printed tests) c w _ _
        1023 refl

module _ (net : Net) (total : net.World → ℕ) (drains : Drains net total) where
  open net use {World}

  -- `SendMessages` ends on every input.
  pub send_messages-ends :
      (s : ℕ) (lines : List (Message × Bool)) (w : World)
      → (w' : World) × (send_messages net s lines w ≡ some w') × (total w' ≤ total w)
  unfolding send_messages
  send_messages-ends s [] w = (w, refl, omega arith)
  send_messages-ends s ((msg, false) ∷ lines) w = (w, refl, omega arith)
  send_messages-ends s ((msg, true) ∷ lines) w =
      let (v, run', le) = send_msg-ends net total drains s w msg in
      let (w', run'', le') = send_messages-ends s lines v in
      rw (run', send_messages) (w', run'', omega arith)

-- Where every address fails and `connect` failed on the last one, the client runs on a socket that
-- the set-up has closed.
pub run-closed :
    (c : Client) (attempts : List Attempt) (s : ℕ)
    → AllFail attempts
    → (before : List ℕ) × (run c true true (attempts ++ (refused s ∷ []))
        ≡ runs (record c {
          is_active = true;
          socket = some s;
          closed = c.closed ++ (before ++ (s ∷ []));
        }))
unfolding run
run-closed c attempts s f =
    let (before, e) = try_addresses-refused c.socket [] attempts s f in
    (before, rw (e, connect) refl)
