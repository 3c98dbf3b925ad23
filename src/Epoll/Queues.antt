-- ===== src/Epoll/Queues.antt =====
-- What the broadcasts of `Read` leave in the queues, in NetworkBasics/epoll/Server and
-- NetworkBasics/poll/Server.
use tcp_simple_chat.Base.{
  ℕ, ◌≡◌, refl, ap, ◌∙◌, inl, inr, List, [], ◌∷◌, ◌++◌, append-nil, append_assoc, Option, none,
  some, ◌==◌, if◌then◌else◌, Bool-cases,
}
use mathlib.Core.Option
use tcp_simple_chat.Epoll.{Message, Session, find, post_send}

-- The session of `q` once the chunks that the session of `fd` read are queued for the others.
abbrev pub extended : ℕ → List Message → ℕ → Session → Session
extended fd chunks q s = if q == fd then s else record s { send_queue = s.send_queue ++ chunks }

-- From `m` to `n` the chunks came to the back of each queue but that of `fd`.
abbrev pub AreQueued : ℕ → List Message → List (ℕ × Session) → List (ℕ × Session) → Type 0
AreQueued fd chunks m n = (q : ℕ) → find q n ≡ Option.map (extended fd chunks q) (find q m)

extended-nil : (fd q : ℕ) (o : Option Session) → o ≡ Option.map (extended fd [] q) o
extended-nil fd q none = refl
extended-nil fd q (some s) = elim (Bool-cases (q == fd)) [
  | inl e ↦ rw e refl
  | inr e ↦ rw (e, append-nil s.send_queue) refl
]

pub none-AreQueued : (fd : ℕ) (m : List (ℕ × Session)) → AreQueued fd [] m m
none-AreQueued fd m q = extended-nil fd q (find q m)

extended-cons :
    (fd q b : ℕ) (bs : List ℕ) (chunks : List Message) (o : Option Session)
    → Option.map
        (extended fd chunks q)
        (Option.map (λ s. if q == fd then s else post_send (b ∷ bs) s) o)
      ≡ Option.map (extended fd ((b ∷ bs) ∷ chunks) q) o
unfolding post_send
extended-cons fd q b bs chunks none = refl
extended-cons fd q b bs chunks (some s) = elim (Bool-cases (q == fd)) [
  | inl e ↦ rw e refl
  | inr e ↦ rw (e, append_assoc s.send_queue ((b ∷ bs) ∷ []) chunks) refl
]

-- A broadcast, and then those of the other chunks.
pub cons-AreQueued :
    (fd b : ℕ) (bs : List ℕ) (chunks : List Message) (m n o : List (ℕ × Session))
    → ((q : ℕ)
        → find q n ≡ Option.map (λ s. if q == fd then s else post_send (b ∷ bs) s) (find q m))
    → AreQueued fd chunks n o
    → AreQueued fd ((b ∷ bs) ∷ chunks) m o
cons-AreQueued fd b bs chunks m n o first later q =
    later q
    ∙ ap (Option.map (extended fd chunks q)) (first q)
    ∙ extended-cons fd q b bs chunks (find q m)
