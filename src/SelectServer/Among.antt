-- ===== src/SelectServer/Among.antt =====
-- Lists of sockets among the clients of NetworkBasics/select/Server.
use tcp_simple_chat.Base.{
  ℕ, ◌≡◌, refl, subst, inl, inr, List, [], ◌∷◌, ◌++◌, append_assoc, Bool, true, false, not, ◌&&◌,
  arith, ◌==◌, Bool-cases, contains, Distinct, contains-append,
}
use tcp_simple_chat.SelectServer.{remove}

pub contains-remove :
    (k q : ℕ) (js : List ℕ)
    → Distinct js
    → contains (remove k js) q ≡ (contains js q && not (q == k))
contains-remove k q [] d = refl
contains-remove k q (j ∷ js) d = elim (Bool-cases (j == k)) [
  | inl same ↦ rw same (elim (Bool-cases (q == k)) [
    | inl e ↦
        let e' : j ≡ q = ground arith in
        let out : contains js q ≡ false = subst (λ i. contains js i ≡ false) e' d.0 in
        ground (arith, out)
    | inr e ↦ ground arith
  ])
  | inr other ↦ rw other (ground (arith, contains-remove k q js d.1))
]

pub Distinct-remove : (k : ℕ) (js : List ℕ) → Distinct js → Distinct (remove k js)
Distinct-remove k [] d = tt
Distinct-remove k (j ∷ js) d = elim (Bool-cases (j == k)) [
  | inl same ↦ rw same d.1
  | inr other ↦ rw other (ground (arith, contains-remove k j js d.1, d.0), Distinct-remove k js d.1)
]

-- The sockets are different ones of the clients.
abbrev pub Among : List ℕ → List ℕ → Type 0
Among cs [] = Unit
Among cs (k ∷ ks) = (contains cs k ≡ true) × (contains ks k ≡ false) × Among cs ks

pub Among-remove :
    (k : ℕ) (cs ks : List ℕ)
    → Distinct cs
    → contains ks k ≡ false
    → Among cs ks
    → Among (remove k cs) ks
Among-remove k cs [] d out a = tt
Among-remove k cs (j ∷ js) d out (there, once, rest) =
    (ground (arith, contains-remove k j cs d), once, Among-remove k cs js d (ground arith) rest)

pub Among-skip :
    (cs : List ℕ) (k : ℕ) (ks gone : List ℕ) → Among cs (gone ++ (k ∷ ks)) → Among cs (gone ++ ks)
Among-skip cs k ks [] (there, once, rest) = rest
Among-skip cs k ks (g ∷ gone) (there, once, rest) = (
  there,
  ground (arith, contains-append gone (k ∷ ks) g, contains-append gone ks g),
  Among-skip cs k ks gone rest,
)

pub Among-suffix : (before ks : List ℕ) → Distinct ks → Among (before ++ ks) ks
Among-suffix before [] d = tt
Among-suffix before (k ∷ ks) d = (
  ground (arith, contains-append before (k ∷ ks) k),
  d.0,
  subst (λ cs. Among cs ks) (append_assoc before (k ∷ []) ks)
      (Among-suffix (before ++ (k ∷ [])) ks d.1),
)

abbrev pub AllReady : (ℕ → Bool) → List ℕ → Type 0
AllReady read_set [] = Unit
AllReady read_set (k ∷ ks) = (read_set k ≡ true) × AllReady read_set ks

pub AllReady-snoc :
    (read_set : ℕ → Bool) (ks : List ℕ) (k : ℕ)
    → AllReady read_set ks
    → read_set k ≡ true
    → AllReady read_set (ks ++ (k ∷ []))
AllReady-snoc read_set [] k all' e = (e, tt)
AllReady-snoc read_set (j ∷ ks) k all' e = (all'.0, AllReady-snoc read_set ks k all'.1 e)
