-- ===== src/FramedClient/Connect.antt =====
-- The connection set-up in `ChatClient::Run` of Protocols/Framing/Client/ChatClient.cpp. The results
-- of the system's calls are arguments: one attempt for each address of `getaddrinfo`.
use tcp_simple_chat.Base.{
  ℕ, ◌≡◌, refl, List, [], ◌∷◌, ◌++◌, true, Option, none, some, ◌==◌, if◌then◌else◌,
}
use tcp_simple_chat.FramedClient.{Client}

-- `socket` failed; it made a socket and `connect` failed; both succeeded.
pub data Attempt : Type 0 where
  no_socket : Attempt
  refused : ℕ → Attempt
  connected : ℕ → Attempt

-- `m_socket` after the loop over the addresses, and the sockets that the loop closed.
unfoldable pub try_addresses : Option ℕ → List ℕ → List Attempt → Option ℕ × List ℕ
try_addresses socket closed [] = (socket, closed)
try_addresses socket closed (no_socket ∷ rest) = try_addresses none closed rest
try_addresses socket closed (refused s ∷ rest) = try_addresses (some s) (closed ++ (s ∷ [])) rest
try_addresses socket closed (connected s ∷ rest) = (some s, closed)

-- How `Run` goes on: it returned with a message, or it starts its threads.
pub data Setup : Type 0 where
  no_winsock : Setup
  no_address : Setup
  no_connection : Setup
  runs : Client → Setup

unfoldable pub connect : Client → Option ℕ × List ℕ → Setup
connect c (none, closed) = no_connection
connect c (some s, closed) = runs (record c { is_active = true; socket = some s })

-- The results of `WSAStartup` and `getaddrinfo`, 0 for success, and of the attempts.
unfoldable pub run : Client → ℕ → ℕ → List Attempt → Setup
unfolding connect
run c startup resolved attempts =
    if startup == 0
    then if resolved == 0 then connect c (try_addresses c.socket [] attempts) else no_address
    else no_winsock

abbrev pub AllFail : List Attempt → Type 0
AllFail [] = Unit
AllFail (no_socket ∷ rest) = AllFail rest
AllFail (refused s ∷ rest) = AllFail rest
AllFail (connected s ∷ rest) = ⊥

pub try_addresses-refused :
    (socket : Option ℕ) (closed : List ℕ) (attempts : List Attempt) (s : ℕ)
    → AllFail attempts
    → (before : List ℕ) × (try_addresses socket closed (attempts ++ (refused s ∷ []))
        ≡ (some s, before ++ (s ∷ [])))
unfolding try_addresses
try_addresses-refused socket closed [] s f = (closed, refl)
try_addresses-refused socket closed (no_socket ∷ rest) s f =
    try_addresses-refused none closed rest s f
try_addresses-refused socket closed (refused t ∷ rest) s f =
    try_addresses-refused (some t) (closed ++ (t ∷ [])) rest s f
try_addresses-refused socket closed (connected t ∷ rest) s f = elim f [ ]

try_addresses-connected :
    (socket : Option ℕ) (closed : List ℕ) (attempts rest : List Attempt) (s : ℕ)
    → AllFail attempts
    → (closed' : List ℕ) × (try_addresses socket closed (attempts ++ (connected s ∷ rest))
        ≡ (some s, closed'))
unfolding try_addresses
try_addresses-connected socket closed [] rest s f = (closed, refl)
try_addresses-connected socket closed (no_socket ∷ as') rest s f =
    try_addresses-connected none closed as' rest s f
try_addresses-connected socket closed (refused t ∷ as') rest s f =
    try_addresses-connected (some t) (closed ++ (t ∷ [])) as' rest s f
try_addresses-connected socket closed (connected t ∷ as') rest s f = elim f [ ]

-- `Run` goes on with the socket of the first address that accepts the connection, whatever failed
-- before it.
pub run-connected :
    (c : Client) (attempts rest : List Attempt) (s : ℕ)
    → AllFail attempts
    → run c 0 0 (attempts ++ (connected s ∷ rest))
      ≡ runs (record c { is_active = true; socket = some s })
unfolding run
run-connected c attempts rest s f =
    let (closed, e) = try_addresses-connected c.socket [] attempts rest s f in rw (e, connect)

-- Where every address fails and `connect` failed on the last one, `Run` does not report that it
-- could not connect: it makes the client active and goes on with a socket that it has closed.
pub run-refused :
    (c : Client) (attempts : List Attempt) (s : ℕ)
    → AllFail attempts
    → (before : List ℕ) × (try_addresses c.socket [] (attempts ++ (refused s ∷ []))
        ≡ (some s, before ++ (s ∷ [])))
      × (run c 0 0 (attempts ++ (refused s ∷ []))
          ≡ runs (record c { is_active = true; socket = some s }))
unfolding run
run-refused c attempts s f =
    let (before, e) = try_addresses-refused c.socket [] attempts s f in (before, e, rw (e, connect))
