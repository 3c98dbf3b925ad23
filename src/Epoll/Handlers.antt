-- ===== src/Epoll/Handlers.antt =====
-- `Write` of NetworkBasics/epoll/Server/ClientSession.cpp and the bytes that are still to come.
use tcp_simple_chat.Base.{
  ℕ, zero, suc, ◌≤◌, refl, inl, inr, List, [], ◌∷◌, Bool, arith, Bool-cases, length, ltb,
}
use tcp_simple_chat.Net.{Net, SendResult, sent, send_failed, would_block, interrupted, fault}
use tcp_simple_chat.Epoll.{Message, after_write, write}
use tcp_simple_chat.Epoll.Runs.{Drains}

module _ (net : Net) (total : net.World → ℕ) (drains : Drains net total) where
  open net use {World, send}

  after_write-total :
      (again : World → Bool × List Message × World) (msg : Message) (rest : List Message)
      → ((v : World) → total (again v).2 ≤ total v)
      → (w : World) (r : SendResult) → total (after_write net again msg rest r w).2 ≤ total w
  unfolding after_write
  after_write-total again msg rest ih w (sent zero) = omega arith
  after_write-total again msg rest ih w (sent (suc n)) =
      elim (Bool-cases (ltb (suc n) (length msg))) [
        | inl part' ↦ rw (part', after_write) (omega arith)
        | inr all' ↦ rw (all', after_write) (ih w)
      ]
  after_write-total again msg rest ih w (send_failed would_block) = omega arith
  after_write-total again msg rest ih w (send_failed interrupted) = omega arith
  after_write-total again msg rest ih w (send_failed fault) = omega arith

  pub write-total : (fd : ℕ) (w : World) (q : List Message) → total (write net fd w q).2 ≤ total w
  unfolding write
  write-total fd w [] = omega arith
  write-total fd w (msg ∷ rest) =
      let first = drains.send_le w _ fd msg _ refl in
      let later =
        after_write-total (λ v. write net fd v rest) msg rest (λ v. write-total fd v rest)
          (send w fd msg).1 (send w fd msg).0 in
      omega (arith, first, later)
