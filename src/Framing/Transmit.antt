-- ===== src/Framing/Transmit.antt =====
-- `send_all` and `send_frame` of Protocols/Framing/Shared/Framing.cpp.
use tcp_simple_chat.Base.{
  ℕ, zero, suc, ◌+◌, ◌%◌, ◌^◌, ◌≤◌, ◌<◌, ◌≡◌, refl, sym, ap, ◌∙◌, ◌⊎◌, inl, inr, List, [], ◌∷◌,
  ◌++◌, append_assoc, append-nil, Bool, true, false, Option, some, arith, length, take, drop,
  length-drop, take-append-drop, take_all, Bool-cases,
}
use tcp_simple_chat.Net.{Net, SendResult, sent, send_failed, is_retryable, SendsInOrder}
use tcp_simple_chat.Framing.{
  Host, IsNetworkOrder, big_endian, int_length, after_send, send_all, send_payload, send_frame,
}

-- The bytes of a frame on the wire.
abbrev pub frame : List ℕ → List ℕ
frame payload = big_endian (length payload) ++ payload

module _ (net : Net) (s : ℕ) (written : net.World → List ℕ) (retries : net.World → ℕ)
    (ordered : SendsInOrder net s written retries) where
  open net use {World, send}

  -- The run ends; it wrote a first part of `data`, and all of it if it succeeded.
  abbrev pub Sent : List ℕ → World → Option (Bool × World) → Type 0
  Sent bytes w r =
      (ok : Bool) × (w' : World) × (part : List ℕ) × (rest : List ℕ) × (r ≡ some (ok, w'))
      × (written w' ≡ written w ++ part)
      × (bytes ≡ part ++ rest)
      × ((ok ≡ false) ⊎ (rest ≡ []))
      × (retries w' ≤ retries w)

  after_send-Sent :
      (again : World → List ℕ → Option (Bool × World)) (fuel : ℕ) (bytes : List ℕ)
      → ((v : World) (b : List ℕ) → length b + retries v < fuel → Sent b v (again v b))
      → (w w' : World) (r : SendResult) → 0 < length bytes
      → length bytes + retries w < suc fuel
      → send w s bytes ≡ (r, w')
      → Sent bytes w (after_send net s again bytes r w')
  unfolding after_send
  after_send-Sent again fuel bytes ih w w' (sent zero) h f e =
      let (put, small, tries) = ordered.appended w w' bytes zero e in
      (false, w', [], bytes, refl, put, refl, inl refl, tries)
  after_send-Sent again fuel bytes ih w w' (sent (suc n)) h f e =
      let (put, small, tries) = ordered.appended w w' bytes (suc n) e in
      let shorter = length-drop (suc n) bytes in
      let (ok, v, part, rest, run, out, split, full, fewer) =
        ih w' (drop (suc n) bytes) (omega (arith, shorter)) in
      (
        ok,
        v,
        take (suc n) bytes ++ part,
        rest,
        run,
        out ∙ ap (λ l. l ++ part) put ∙ append_assoc (written w) (take (suc n) bytes) part,
        sym (take-append-drop (suc n) bytes)
            ∙ ap (◌++◌ (take (suc n) bytes)) split
            ∙ sym (append_assoc (take (suc n) bytes) part rest),
        full,
        omega arith,
      )
  after_send-Sent again fuel bytes ih w w' (send_failed e') h f e =
      let (same, tries) = ordered.unchanged w w' bytes e' e in
      elim (Bool-cases (is_retryable e')) [
        | inl yes' ↦
            let fall = ordered.retries_fall w w' bytes e' e yes' in
            let (ok, v, part, rest, run, out, split, full, fewer) = ih w' bytes (omega arith) in
            rw yes'
              (ok, v, part, rest, run, out ∙ ap (λ l. l ++ part) same, split, full, omega arith)
        | inr no' ↦
            rw no' (false, w', [], bytes, refl, same ∙ sym (append-nil _), refl, inl refl, tries)
      ]

  -- Given fuel for the bytes and the retries, `send_all` ends, having written a first part of its
  -- bytes in order, and all of them if it returns true.
  pub send_all-Sent :
      (fuel : ℕ) (w : World) (bytes : List ℕ)
      → length bytes + retries w < fuel
      → Sent bytes w (send_all net s fuel w bytes)
  unfolding send_all
  send_all-Sent zero w bytes f = absurd (omega arith)
  send_all-Sent (suc fuel) w [] f =
      (true, w, [], [], refl, sym (append-nil _), refl, inr refl, omega arith)
  send_all-Sent (suc fuel) w (b ∷ bs) f =
      after_send-Sent (send_all net s fuel) fuel (b ∷ bs) (send_all-Sent fuel) w _ _ (omega arith) f
        refl

  module _ (host : Host) (order : IsNetworkOrder host) where
    payload_taken : (p : List ℕ) → length p < 2 ^ 31 → take (int_length (length p)) p ≡ p
    payload_taken p h = let e : int_length (length p) ≡ length p = ground arith in rw e (take_all p)

    send_payload-Sent :
        (fuel : ℕ) (w : World) (p : List ℕ)
        → length p < 2 ^ 31
        → length p + retries w < fuel
        → (r : Option (Bool × World)) → Sent (big_endian (length p)) w r
        → Sent (frame p) w (send_payload net s host fuel p r)
    unfolding send_payload
    send_payload-Sent fuel w p small f r (false, v, part, rest, run, out, split, full, fewer) =
        rw run (
          false,
          v,
          part,
          rest ++ p,
          refl,
          out,
          ap (λ l. l ++ p) split ∙ append_assoc part rest p,
          inl refl,
          fewer,
        )
    send_payload-Sent fuel w p small f r (true, v, part, rest, run, out, split, inl bad, fewer) = cc
    send_payload-Sent fuel w p small f r (true, v, part, rest, run, out, split, inr full, fewer) =
        let header : part ≡ big_endian (length p) =
          sym (append-nil part) ∙ ap (◌++◌ part) (sym full) ∙ sym split in
        let (ok, v', part', rest', run', out', split', full', fewer') =
          send_all-Sent fuel v p (omega arith) in
        rw (run, payload_taken p small)
          (
            ok,
            v',
            big_endian (length p) ++ part',
            rest',
            run',
            out'
                ∙ ap (λ l. l ++ part') (out ∙ ap (◌++◌ (written w)) header)
                ∙ append_assoc (written w) (big_endian (length p)) part',
            ap (◌++◌ (big_endian (length p))) split'
                ∙ sym (append_assoc (big_endian (length p)) part' rest'),
            full',
            omega arith,
          )

    -- Given fuel, sending a payload of 1 to 2 ^ 31 - 1 bytes ends. It wrote a first part of the
    -- frame, four bytes with the length in network order and then the payload, and all of the frame
    -- if `send_frame` returns true.
    pub send_frame-Sent :
        (fuel : ℕ) (w : World) (p : List ℕ)
        → 0 < length p
        → length p < 2 ^ 31
        → length p + 4 + retries w < fuel
        → Sent (frame p) w (send_frame net s host fuel w p)
    unfolding send_frame
    send_frame-Sent fuel w [] some' small f = elim some' [ ]
    send_frame-Sent fuel w (b ∷ bs) some' small f =
        let size = length (b ∷ bs) in
        let header : host.store (host.htonl (size % 2 ^ 32)) ≡ big_endian size =
          let same : size % 2 ^ 32 ≡ size = omega arith in
          rw same (order.store-htonl size (omega arith)) in
        rw header (
          send_payload-Sent fuel w (b ∷ bs) small (omega arith) _
            (send_all-Sent fuel w (big_endian size) (omega arith)))
