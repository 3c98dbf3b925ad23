-- ===== src/Listen.antt =====
-- `CreateListeningSocket` of the servers: the first address on which a socket can be made, bound
-- and set listening. The results of the system's calls are arguments, one record for each address
-- of `getaddrinfo`. Lines are those of Protocols/Framing/Server/ChatServer.cpp; the other servers
-- have the same loop.
use tcp_simple_chat.Base.{
  ℕ, ◌≡◌, refl, ap, sym, List, [], ◌∷◌, ◌++◌, Bool, true, false, ◌&&◌, Option, none, some, arith,
  append_assoc, if◌then◌else◌, append-nil, Option-cases, inl, inr,
}

pub record Address : Type 0 where
  -- what `socket` returns, and whether `bind` and `listen` succeed
  pub socket : Option ℕ
  pub binds : Bool
  pub listens : Bool

-- The socket that is returned, and the sockets that were closed.
unfoldable pub try_listen : List ℕ → List Address → Option ℕ × List ℕ
try_listen closed [] = (none, closed)
try_listen closed (a ∷ rest) = elim a.socket [
  | none ↦ try_listen closed rest
  | some s ↦ elim a.binds [
    | false ↦ try_listen (closed ++ (s ∷ [])) rest
    | true ↦ elim a.listens [
      | false ↦ try_listen (closed ++ (s ∷ [])) rest
      | true ↦ (some s, closed)
    ]
  ]
]

-- `resolves`: `getaddrinfo` succeeded.
unfoldable pub create_listening_socket : Bool → List Address → Option ℕ × List ℕ
unfolding try_listen
create_listening_socket resolves addresses =
    if resolves then try_listen [] addresses else (none, [])

abbrev usable : Address → Bool
usable a = a.binds && a.listens

-- The socket of the first usable address, and the sockets made before it.
abbrev pub first_usable : List Address → Option ℕ
first_usable [] = none
first_usable (a ∷ rest) = elim a.socket [
  | none ↦ first_usable rest
  | some s ↦ if usable a then some s else first_usable rest
]

abbrev pub made_before : List Address → List ℕ
made_before [] = []
made_before (a ∷ rest) = elim a.socket [
  | none ↦ made_before rest
  | some s ↦ if usable a then [] else s ∷ made_before rest
]

try_listen-lem :
    (closed : List ℕ) (addresses : List Address)
    → try_listen closed addresses ≡ (first_usable addresses, closed ++ made_before addresses)
unfolding try_listen
try_listen-lem closed [] = ap (λ l. (none, l)) (sym (append-nil closed))
try_listen-lem closed (a ∷ rest) = elim (Option-cases a.socket) [
  | inl none_made ↦ rw (none_made, try_listen) (try_listen-lem closed rest)
  | inr (s, made) ↦ ground (
    arith,
    try_listen-lem (closed ++ (s ∷ [])) rest,
    append_assoc closed (s ∷ []) (made_before rest),
    append-nil closed,
  )
]

-- `CreateListeningSocket` returns the socket of the first address on which `socket`, `bind` and
-- `listen` succeed, if there is one, and it closes every socket that it made before and no other.
-- Where `getaddrinfo` fails it returns none and closes nothing.
pub create_listening_socket-lem :
    (resolves : Bool) (addresses : List Address)
    → create_listening_socket resolves addresses
      ≡ (if resolves then (first_usable addresses, made_before addresses) else (none, []))
unfolding create_listening_socket
create_listening_socket-lem true addresses = try_listen-lem [] addresses
create_listening_socket-lem false addresses = refl
