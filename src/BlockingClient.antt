-- ===== src/BlockingClient.antt =====
-- NetworkBasics/blocking-multithreaded/Client/ChatClient.cpp: a thread receives and prints, and the
-- main thread sends the lines of the input. What each test of `m_isActive` reads is an argument. The
-- loop of a send is that of NetworkBasics/select/Server/ClientSession.cpp, the loop over the
-- addresses that of Protocols/Framing/Client/ChatClient.cpp, and `GracefulShutDown` that of
-- NetworkBasics/epoll/Server/ClientSession.cpp.
pub mod Streams
use tcp_simple_chat.Base.{ℕ, List, [], ◌∷◌, ◌++◌, Bool, true, false, Option, none, some}
use tcp_simple_chat.Net.{Net, RecvResult, got, recv_failed}
use tcp_simple_chat.Epoll
use tcp_simple_chat.SelectServer
use tcp_simple_chat.FramedClient.Connect
use tcp_simple_chat.FramedClient.Connect.{Attempt}

abbrev pub Message : Type 0
Message = List ℕ

-- `printed` has one entry for each line that is printed.
pub record Client : Type 0 where
  pub is_active : Bool
  pub socket : Option ℕ
  pub printed : List Message
  -- sockets that were closed
  pub closed : List ℕ

-- How the set-up in `Run` ends.
pub data Setup : Type 0 where
  no_winsock no_address no_connection : Setup
  runs : Client → Setup

unfoldable pub connect : Client → Option ℕ × List ℕ → Setup
connect c (none, closed) = no_connection
connect c (some s, closed) =
    runs (record c { is_active = true; socket = some s; closed = c.closed ++ closed })

-- On whether `WSAStartup` and `getaddrinfo` succeed, and on the attempts.
unfoldable pub run : Client → Bool → Bool → List Attempt → Setup
unfolding connect
run c false resolves attempts = no_winsock
run c true false attempts = no_address
run c true true attempts = connect c (Connect.try_addresses c.socket [] attempts)

module _ (net : Net) where
  open net use {World, recv}

  unfoldable pub after_recv :
      (Client → World → Client × World) → Client → RecvResult → World → Client × World
  after_recv again c (got []) w = (record c { is_active = false }, w)
  after_recv again c (got (b ∷ bs)) w =
      again (record c { printed = c.printed ++ ((b ∷ bs) ∷ []) }) w
  after_recv again c (recv_failed e) w = (record c { is_active = false }, w)

  -- The size of the buffer less one.
  abbrev pub recv_size : ℕ
  recv_size = 1023

  -- `ReceiveMessages`
  unfoldable pub receive_messages : ℕ → List Bool → Client → World → Client × World
  unfolding after_recv
  receive_messages s [] c w = (c, w)
  receive_messages s (false ∷ tests) c w = (c, w)
  receive_messages s (true ∷ tests) c w =
      let (r, w') = recv w s recv_size in after_recv (receive_messages s tests) c r w'

  -- `SendMessages`, on the lines of the input.
  unfoldable pub send_messages : ℕ → List (Message × Bool) → World → Option World
  send_messages s [] w = some w
  send_messages s ((msg, false) ∷ lines) w = some w
  send_messages s ((msg, true) ∷ lines) w = elim (SelectServer.send_msg net s w msg) [
    | none ↦ none
    | some w' ↦ send_messages s lines w'
  ]

  unfoldable pub disconnect : ℕ → Client → World → Option (Client × World)
  disconnect fuel c w = elim c.socket [
    | none ↦ some (record c { is_active = false }, w)
    | some s ↦ elim (Epoll.drain net fuel s w) [
      | none ↦ none
      | some w' ↦
          some (record c { is_active = false; socket = none; closed = c.closed ++ (s ∷ []) }, w')
    ]
  ]
