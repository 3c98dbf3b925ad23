-- ===== src/Epoll/Flush.antt =====
-- `ClientSession::Write` of NetworkBasics/epoll/Server/ClientSession.cpp: the bytes of the queue.
use tcp_simple_chat.Base.{
  NonEmpty, ℕ, zero, suc, ◌<◌, ◌≡◌, refl, sym, ap, ◌∙◌, inl, inr, List, [], ◌∷◌, ◌++◌, append_assoc,
  Bool, arith, length, take, drop, flatten, length-drop, take-append-drop, take_all, Bool-cases,
  ltb,
}
use tcp_simple_chat.Net.{
  Net, SendResult, sent, send_failed, would_block, interrupted, fault, SendsInOrder,
}
use tcp_simple_chat.Epoll.{Message, after_write, write}

module _ (net : Net) (s : ℕ) (written : net.World → List ℕ) (retries : net.World → ℕ)
    (ordered : SendsInOrder net s written retries) where
  open net use {World, send}

  -- What was written, followed by what is still queued, is what was written before followed by the
  -- queue; and no message that is still queued is empty.
  abbrev pub Flushed : World → List Message → Bool × List Message × World → Type 0
  Flushed w q r = (written r.2 ++ flatten r.1 ≡ written w ++ flatten q) × NonEmpty r.1

  after_write-Flushed :
      (again : World → Bool × List Message × World) (msg : Message) (rest : List Message)
      → 0 < length msg
      → NonEmpty rest
      → ((v : World) → Flushed v rest (again v))
      → (w w' : World) (r : SendResult) → send w s msg ≡ (r, w')
      → Flushed w (msg ∷ rest) (after_write net again msg rest r w')
  unfolding after_write
  after_write-Flushed again msg rest some' full ih w w' (sent zero) e =
      let (put, small, _) = ordered.appended w w' msg zero e in
      (ap (λ l. l ++ (msg ++ flatten rest)) put ∙ append_assoc (written w) [] _, (some', full))
  after_write-Flushed again msg rest some' full ih w w' (sent (suc n)) e =
      let (put, small, _) = ordered.appended w w' msg (suc n) e in
      elim (Bool-cases (ltb (suc n) (length msg))) [
        | inl part' ↦
            rw (part', after_write)
              (
                ap (λ l. l ++ (drop (suc n) msg ++ flatten rest)) put
                    ∙ append_assoc (written w) (take (suc n) msg) _
                    ∙ ap (◌++◌ (written w)) (
                        sym (append_assoc (take (suc n) msg) (drop (suc n) msg) (flatten rest))
                        ∙ ap (λ l. l ++ flatten rest) (take-append-drop (suc n) msg)),
                (ground (arith, length-drop (suc n) msg), full),
              )
        | inr all' ↦
            let whole : suc n ≡ length msg = ground arith in
            let (kept, left) = ih w' in
            rw (all', after_write)
              (
                kept
                    ∙ ap (λ l. l ++ flatten rest)
                        (put
                          ∙ ap (λ k. written w ++ take k msg) whole
                          ∙ ap (◌++◌ (written w)) (take_all msg))
                    ∙ append_assoc (written w) msg (flatten rest),
                left,
              )
      ]
  after_write-Flushed again msg rest some' full ih w w' (send_failed would_block) e =
      (ap (λ l. l ++ (msg ++ flatten rest)) (ordered.unchanged w w' msg _ e).0, (some', full))
  after_write-Flushed again msg rest some' full ih w w' (send_failed interrupted) e =
      (ap (λ l. l ++ (msg ++ flatten rest)) (ordered.unchanged w w' msg _ e).0, (some', full))
  after_write-Flushed again msg rest some' full ih w w' (send_failed fault) e =
      (ap (λ l. l ++ (msg ++ flatten rest)) (ordered.unchanged w w' msg _ e).0, (some', full))

  -- Whatever `send` returns, `Write` on a queue without empty messages loses, repeats and reorders
  -- nothing: the bytes written so far followed by those still queued are the same before and after,
  -- and no message that is still queued is empty.
  pub write-Flushed : (w : World) (q : List Message) → NonEmpty q → Flushed w q (write net s w q)
  unfolding write
  write-Flushed w [] full = (refl, tt)
  write-Flushed w (msg ∷ rest) full =
      after_write-Flushed (λ v. write net s v rest) msg rest full.0 full.1
        (λ v. write-Flushed v rest full.1) w _ _ refl
