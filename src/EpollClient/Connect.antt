-- ===== src/EpollClient/Connect.antt =====
-- `CreateConnection` and `Stop` of NetworkBasics/epoll/Client/ChatClient.cpp.
use tcp_simple_chat.Base.{
  ℕ, ◌≡◌, refl, ap, sym, ◌∙◌, inl, inr, ◌⊎◌, List, [], ◌∷◌, ◌++◌, append-nil, append_assoc, true,
  false, none, some, Bool-cases, subst, Option-cases,
}
use tcp_simple_chat.EpollClient.{
  Client, Call, closes, Address, tell, is_some, try_connect, create_connection,
}

-- No address of the list connects.
abbrev pub AllFail : List Address → Type 0
AllFail [] = Unit
AllFail (a ∷ addresses) = ((a.socket ≡ none) ⊎ (a.connects ≡ false)) × AllFail addresses

-- The calls that close the sockets that were made for the addresses.
abbrev pub closed : List Address → List Call
closed [] = []
closed (a ∷ addresses) = elim a.socket [
  | none ↦ closed addresses
  | some s ↦ closes s ∷ closed addresses
]

-- The client after a first part of the addresses, none of which connects, was tried: at the end of
-- the list, or before an address that connects.
abbrev pub Tried : Client → List Address → Client → Type 0
Tried c addresses c' =
    (failed : List Address) × AllFail failed
    × (c'.calls ≡ c.calls ++ closed failed)
    × (((addresses ≡ failed) × (c'.socket ≡ c.socket))
        ⊎ ((a : Address) × (rest : List Address) × (s : ℕ) × (addresses ≡ failed ++ (a ∷ rest))
            × (a.socket ≡ some s)
            × (a.connects ≡ true)
            × (c'.socket ≡ some s)))

closed-cons :
    (a : Address) (failed : List Address) → closed (a ∷ failed) ≡ closed (a ∷ []) ++ closed failed
closed-cons a failed = elim (Option-cases a.socket) [
  | inl e ↦ rw (e, closed) refl
  | inr (s, e) ↦ rw (e, closed) refl
]

Tried-cons :
    (a : Address) (addresses : List Address) (c t c' : Client)
    → (a.socket ≡ none) ⊎ (a.connects ≡ false)
    → t.calls ≡ c.calls ++ closed (a ∷ [])
    → t.socket ≡ c.socket
    → Tried t addresses c'
    → Tried c (a ∷ addresses) c'
Tried-cons a addresses c t c' fails told same (failed, all', calls, how) = (
  a ∷ failed,
  (fails, all'),
  calls
      ∙ ap (λ l. l ++ closed failed) told
      ∙ append_assoc c.calls (closed (a ∷ [])) (closed failed)
      ∙ ap (◌++◌ c.calls) (sym (closed-cons a failed)),
  elim how [
    | inl (e, kept) ↦ inl (ap (◌∷◌ a) e, kept ∙ same)
    | inr (b, rest, s, e, made, yes', got) ↦ inr (b, rest, s, ap (◌∷◌ a) e, made, yes', got)
  ],
)

unmade :
    (a : Address) (addresses : List Address) (c : Client)
    → a.socket ≡ none
    → try_connect (a ∷ addresses) c ≡ try_connect addresses c
unfolding try_connect
unmade a addresses c e = rw (e, try_connect) refl

chosen :
    (a : Address) (s : ℕ) (addresses : List Address) (c : Client)
    → a.socket ≡ some s
    → a.connects ≡ true
    → try_connect (a ∷ addresses) c ≡ record c { socket = some s }
unfolding try_connect
chosen a s addresses c made yes' = rw (made, try_connect) (rw (yes', try_connect) refl)

refused :
    (a : Address) (s : ℕ) (addresses : List Address) (c : Client)
    → a.socket ≡ some s
    → a.connects ≡ false
    → try_connect (a ∷ addresses) c ≡ try_connect addresses (tell c (closes s))
unfolding try_connect
refused a s addresses c made no' = rw (made, try_connect) (rw (no', try_connect) refl)

try_connect-Tried :
    (addresses : List Address) (c : Client) → Tried c addresses (try_connect addresses c)
unfolding try_connect
try_connect-Tried [] c = ([], tt, sym (append-nil c.calls), inl (refl, refl))
try_connect-Tried (a ∷ addresses) c = elim (Option-cases a.socket) [
  | inl e ↦
      subst (λ r. Tried c (a ∷ addresses) r) (sym (unmade a addresses c e))
        (Tried-cons a addresses c c (try_connect addresses c) (inl e)
          (rw (e, closed) (sym (append-nil c.calls))) refl (try_connect-Tried addresses c))
  | inr (s, e) ↦ elim (Bool-cases a.connects) [
    | inl yes' ↦
        subst (λ r. Tried c (a ∷ addresses) r) (sym (chosen a s addresses c e yes'))
          ([], tt, sym (append-nil c.calls), inr (a, addresses, s, refl, e, yes', refl))
    | inr no' ↦
        subst (λ r. Tried c (a ∷ addresses) r) (sym (refused a s addresses c e no'))
          (Tried-cons a addresses c (tell c (closes s)) (try_connect addresses (tell c (closes s)))
            (inr no') (rw (e, closed) refl) refl (try_connect-Tried addresses (tell c (closes s))))
  ]
]

-- `CreateConnection` tries the addresses in order. It closes each socket that it made and that does
-- not connect, and nothing else; the client's socket is then that of the first address that
-- connects, and where none does it is as before; it returns whether the client has a socket.
pub create_connection-Tried :
    (addresses : List Address) (c : Client)
    → Tried c addresses (create_connection (some addresses) c).1
      × ((create_connection (some addresses) c).0
          ≡ is_some (create_connection (some addresses) c).1.socket)
unfolding create_connection
create_connection-Tried addresses c = (try_connect-Tried addresses c, refl)
