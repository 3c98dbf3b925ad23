-- ===== src/SelectServer/Sending.antt =====
-- `SendMsg` of NetworkBasics/select/Server/ClientSession.cpp and the broadcast over it end.
use tcp_simple_chat.Base.{
  ℕ, zero, suc, ◌≤◌, ◌<◌, ◌≡◌, refl, inl, inr, List, [], ◌∷◌, Option, some, arith, ◌==◌, Bool-cases,
  length, drop, length-drop,
}
use tcp_simple_chat.Net.{Net, SendResult, sent, send_failed}
use tcp_simple_chat.Epoll.Runs.{Drains}
use tcp_simple_chat.SelectServer.{Message, after_send, send_loop, send_msg, send_all}

module _ (net : Net) (total : net.World → ℕ) (drains : Drains net total) where
  open net use {World, send}

  after_send-ends :
      (again : World → Message → Option (Message × World)) (fuel s : ℕ) (w w' : World) (b : ℕ)
      (bs : Message) (r : SendResult)
      → length (b ∷ bs) < suc fuel
      → ((v : World) (m : Message)
          → length m < fuel
          → (rest : Message) × (v' : World) × (again v m ≡ some (rest, v')) × (total v' ≤ total v))
      → send w s (b ∷ bs) ≡ (r, w')
      → (rest : Message) × (v' : World) × (after_send net again (b ∷ bs) r w' ≡ some (rest, v'))
        × (total v' ≤ total w)
  unfolding after_send
  after_send-ends again fuel s w w' b bs (sent zero) f ih e =
      (b ∷ bs, w', refl, drains.send_le w w' s _ _ e)
  after_send-ends again fuel s w w' b bs (sent (suc n)) f ih e =
      let le = drains.send_le w w' s _ _ e in
      let (rest, v, run, le') = ih w' (drop n bs) (omega (arith, length-drop n bs)) in
      (rest, v, run, omega arith)
  after_send-ends again fuel s w w' b bs (send_failed e') f ih e =
      (b ∷ bs, w', refl, drains.send_le w w' s _ _ e)

  send_loop-ends :
      (fuel s : ℕ) (w : World) (m : Message)
      → length m < fuel
      → (rest : Message) × (w' : World) × (send_loop net fuel s w m ≡ some (rest, w'))
        × (total w' ≤ total w)
  unfolding send_loop
  send_loop-ends zero s w m f = absurd (omega arith)
  send_loop-ends (suc fuel) s w [] f = ([], w, refl, omega arith)
  send_loop-ends (suc fuel) s w (b ∷ bs) f =
      after_send-ends (send_loop net fuel s) fuel s w _ b bs _ f (send_loop-ends fuel s) refl

  -- `SendMsg` ends, with the fuel that its definition gives it.
  pub send_msg-ends :
      (s : ℕ) (w : World) (m : Message)
      → (w' : World) × (send_msg net s w m ≡ some w') × (total w' ≤ total w)
  unfolding send_msg
  send_msg-ends s w m =
      let (rest, w', run, le) = send_loop-ends (suc (length m)) s w m (omega arith) in
      rw (run, send_msg) (w', refl, le)

  pub send_all-ends :
      (m : Message) (sender : ℕ) (ks : List ℕ) (w : World)
      → (w' : World) × (send_all net m sender ks w ≡ some w') × (total w' ≤ total w)
  unfolding send_all
  send_all-ends m sender [] w = (w, refl, omega arith)
  send_all-ends m sender (k ∷ ks) w = elim (Bool-cases (k == sender)) [
    | inl e ↦ rw (e, send_all) (send_all-ends m sender ks w)
    | inr e ↦
        let (v, run, le) = send_msg-ends k w m in
        let (w', run', le') = send_all-ends m sender ks v in
        rw (e, send_all) (rw (run, send_all) (w', run', omega arith))
  ]
