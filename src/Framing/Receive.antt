-- ===== src/Framing/Receive.antt =====
-- `recv_all` of Protocols/Framing/Shared/Framing.cpp.
use tcp_simple_chat.Base.{
  ℕ, zero, suc, ◌+◌, ◌-◌, ◌≤◌, ◌<◌, ◌≡◌, refl, sym, ap, ◌∙◌, ◌⊎◌, inl, inr, List, [], ◌∷◌, ◌++◌,
  append_assoc, Bool, true, false, Option, some, arith, length, length-append, ltb, ltb→lt,
  Bool-cases,
}
use tcp_simple_chat.Net.{Net, RecvResult, got, recv_failed, is_retryable, ReceivesInOrder, StaysUp}
use tcp_simple_chat.Framing.{after_recv, recv_all}

module _ (net : Net) (s : ℕ) (unread : net.World → List ℕ) (retries : net.World → ℕ)
    (ordered : ReceivesInOrder net s unread retries) where
  open net use {World, recv}

  -- What a run from `buf` and `w` for `len` bytes returns: it ends, its bytes are the next ones of
  -- the stream, and on success there are `len` of them.
  abbrev pub Received : ℕ → List ℕ → World → Option (Bool × List ℕ × World) → Type 0
  Received len buf w r =
      (ok : Bool) × (out : List ℕ) × (w' : World) × (r ≡ some (ok, out, w'))
      × (buf ++ unread w ≡ out ++ unread w')
      × (length out ≤ len)
      × ((ok ≡ false) ⊎ (length out ≡ len))
      × (retries w' ≤ retries w)

  after_recv-Received :
      (again : World → List ℕ → Option (Bool × List ℕ × World)) (fuel len : ℕ) (buf : List ℕ)
      → ((v : World) (b : List ℕ)
          → length b ≤ len
          → (len - length b) + retries v < fuel
          → Received len b v (again v b))
      → (w w' : World) (r : RecvResult) → length buf < len
      → (len - length buf) + retries w < suc fuel
      → recv w s (len - length buf) ≡ (r, w')
      → Received len buf w (after_recv net s again buf r w')
  unfolding after_recv
  after_recv-Received again fuel len buf ih w w' (got []) h f e =
      let (order, small, tries) = ordered.in_order w w' _ [] e in
      (false, buf, w', refl, ap (◌++◌ buf) order, omega arith, inl refl, tries)
  after_recv-Received again fuel len buf ih w w' (got (b ∷ bs)) h f e =
      let (order, small, tries) = ordered.in_order w w' _ (b ∷ bs) e in
      let longer = length-append buf (b ∷ bs) in
      let (ok, out, v, run, kept, bounded, full, fewer) =
        ih w' (buf ++ b ∷ bs) (omega (arith, longer)) (omega (arith, longer)) in
      (
        ok,
        out,
        v,
        run,
        ap (◌++◌ buf) order ∙ sym (append_assoc buf (b ∷ bs) (unread w')) ∙ kept,
        bounded,
        full,
        omega arith,
      )
  after_recv-Received again fuel len buf ih w w' (recv_failed e') h f e =
      let (order, tries) = ordered.unchanged w w' _ e' e in
      elim (Bool-cases (is_retryable e')) [
        | inl yes' ↦
            let fall = ordered.retries_fall w w' _ e' e yes' in
            let (ok, out, v, run, kept, bounded, full, fewer) =
              ih w' buf (omega arith) (omega arith) in
            rw yes' (ok, out, v, run, ap (◌++◌ buf) order ∙ kept, bounded, full, omega arith)
        | inr no' ↦ rw no' (false, buf, w', refl, ap (◌++◌ buf) order, omega arith, inl refl, tries)
      ]

  -- Given fuel for the bytes that are missing and the retries, `recv_all` ends. Its buffer holds
  -- the next bytes of the stream, never more than `len`, and exactly `len` of them on success.
  pub recv_all-Received :
      (fuel : ℕ) (w : World) (buf : List ℕ) (len : ℕ)
      → length buf ≤ len
      → (len - length buf) + retries w < fuel
      → Received len buf w (recv_all net s fuel w buf len)
  unfolding recv_all
  recv_all-Received zero w buf len h f = absurd (omega arith)
  recv_all-Received (suc fuel) w buf len h f = elim (Bool-cases (ltb (length buf) len)) [
    | inl more ↦
        rw (more, recv_all)
          (after_recv-Received (λ v b. recv_all net s fuel v b len) fuel len buf
            (λ v b. recv_all-Received fuel v b len) w _ _ (ltb→lt _ _ more) f refl)
    | inr done ↦ rw (done, recv_all) (true, buf, w, refl, refl, h, inr (ground arith), omega arith)
  ]

  module _ (up : StaysUp net s unread) where
    -- The same where the connection stays up and the bytes come.
    abbrev pub ReceivedAll : ℕ → List ℕ → World → Option (Bool × List ℕ × World) → Type 0
    ReceivedAll len buf w r =
        (out : List ℕ) × (w' : World) × (r ≡ some (true, out, w'))
        × (buf ++ unread w ≡ out ++ unread w')
        × (length out ≡ len)
        × (retries w' ≤ retries w)

    after_recv-ReceivedAll :
        (again : World → List ℕ → Option (Bool × List ℕ × World)) (fuel len : ℕ) (buf : List ℕ)
        → ((v : World) (b : List ℕ)
            → length b ≤ len
            → len ≤ length b + length (unread v)
            → (len - length b) + retries v < fuel
            → ReceivedAll len b v (again v b))
        → (w w' : World) (r : RecvResult) → length buf < len
        → len ≤ length buf + length (unread w)
        → (len - length buf) + retries w < suc fuel
        → recv w s (len - length buf) ≡ (r, w')
        → ReceivedAll len buf w (after_recv net s again buf r w')
    unfolding after_recv
    after_recv-ReceivedAll again fuel len buf ih w w' (got []) h enough f e =
        absurd (omega (arith, ap length (up.no_close w w' _ (omega arith) e)))
    after_recv-ReceivedAll again fuel len buf ih w w' (got (b ∷ bs)) h enough f e =
        let (order, small, tries) = ordered.in_order w w' _ (b ∷ bs) e in
        let longer = length-append buf (b ∷ bs) in
        let left = ap length order ∙ length-append (b ∷ bs) (unread w') in
        let (out, v, run, kept, full, fewer) =
          ih w' (buf ++ b ∷ bs) (omega (arith, longer)) (omega (arith, longer, left))
            (omega (arith, longer)) in
        (
          out,
          v,
          run,
          ap (◌++◌ buf) order ∙ sym (append_assoc buf (b ∷ bs) (unread w')) ∙ kept,
          full,
          omega arith,
        )
    after_recv-ReceivedAll again fuel len buf ih w w' (recv_failed e') h enough f e =
        let (order, tries) = ordered.unchanged w w' _ e' e in
        let retry = up.no_fault w w' _ e' e (λ none_left. omega (arith, ap length none_left)) in
        let fall = ordered.retries_fall w w' _ e' e retry in
        let (out, v, run, kept, full, fewer) =
          ih w' buf (omega arith) (omega (arith, ap length order)) (omega arith) in
        rw retry (out, v, run, ap (◌++◌ buf) order ∙ kept, full, omega arith)

    -- On a connection that stays up and brings `len` bytes in all, `recv_all` succeeds.
    pub recv_all-ReceivedAll :
        (fuel : ℕ) (w : World) (buf : List ℕ) (len : ℕ)
        → length buf ≤ len
        → len ≤ length buf + length (unread w)
        → (len - length buf) + retries w < fuel
        → ReceivedAll len buf w (recv_all net s fuel w buf len)
    unfolding recv_all
    recv_all-ReceivedAll zero w buf len h enough f = absurd (omega arith)
    recv_all-ReceivedAll (suc fuel) w buf len h enough f =
        elim (Bool-cases (ltb (length buf) len)) [
          | inl more ↦
              rw (more, recv_all)
                (after_recv-ReceivedAll (λ v b. recv_all net s fuel v b len) fuel len buf
                  (λ v b. recv_all-ReceivedAll fuel v b len) w _ _ (ltb→lt _ _ more) enough f refl)
          | inr done ↦ rw (done, recv_all) (buf, w, refl, refl, ground arith, omega arith)
        ]
