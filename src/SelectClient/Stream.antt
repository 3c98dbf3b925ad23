-- ===== src/SelectClient/Stream.antt =====
-- `EnqueueSend` and `SendMsg` of NetworkBasics/select/Client/ChatClient.cpp: the stream of lines.
use tcp_simple_chat.Base.{
  subst, ℕ, zero, suc, ◌+◌, ◌<◌, ◌≡◌, refl, sym, ap, ◌∙◌, inl, inr, List, [], ◌∷◌, ◌++◌,
  append_assoc, append-nil, Option, none, some, arith, length, drop, take, length-drop,
  take-append-drop, flatten, flatten-append, ◌==◌, Bool-cases,
}
use tcp_simple_chat.Net.{Net, SendResult, sent, send_failed, is_retryable, SendsInOrder}
use tcp_simple_chat.SelectClient.{
  Client, Pending, last_is_newline, terminated, enqueue_send, Code, error, after_send, send_front,
  send_msg,
}

-- The bytes of the queue that are not sent yet.
abbrev pub waiting : List Pending → List ℕ
waiting [] = []
waiting (p ∷ ps) = drop p.ofs p.line ++ waiting ps

-- Each entry has a byte that is not sent.
abbrev pub AllUnsent : List Pending → Type 0
AllUnsent [] = Unit
AllUnsent (p ∷ ps) = (p.ofs < length p.line) × AllUnsent ps

pub waiting-snoc :
    (ps : List Pending) (p : Pending) → waiting (ps ++ (p ∷ [])) ≡ waiting ps ++ drop p.ofs p.line
waiting-snoc [] p = append-nil _
waiting-snoc (q ∷ ps) p =
    ap (◌++◌ (drop q.ofs q.line)) (waiting-snoc ps p) ∙ sym (append_assoc (drop q.ofs q.line) _ _)

pub AllUnsent-snoc :
    (ps : List Pending) (p : Pending)
    → AllUnsent ps
    → p.ofs < length p.line
    → AllUnsent (ps ++ (p ∷ []))
AllUnsent-snoc [] p all' some' = (some', tt)
AllUnsent-snoc (q ∷ ps) p all' some' = (all'.0, AllUnsent-snoc ps p all'.1 some')

length-terminated : (line : List ℕ) → 0 < length (terminated line)
length-terminated [] = omega arith
length-terminated (b ∷ bs) = elim (Bool-cases (last_is_newline (b ∷ bs))) [
  | inl e ↦ rw e (omega arith)
  | inr e ↦ rw e (omega arith)
]

drop-nil : (n : ℕ) → drop {A = ℕ} n [] ≡ []
drop-nil zero = refl
drop-nil (suc n) = refl

pub drop-drop : (n m : ℕ) (xs : List ℕ) → drop m (drop n xs) ≡ drop (n + m) xs
drop-drop zero m xs = ap (λ k. drop k xs) {x = m} (omega arith)
drop-drop (suc n) m [] = drop-nil m ∙ sym (drop-nil (suc n + m))
drop-drop (suc n) m (x ∷ xs) =
    drop-drop n m xs ∙ ap (λ k. drop k (x ∷ xs)) {x = suc (n + m)} (omega arith)

pub drop-end : (n : ℕ) (xs : List ℕ) → n ≡ length xs → drop n xs ≡ []
drop-end n [] e = ap (λ k. drop k []) e
drop-end zero (x ∷ xs) e = absurd (omega arith)
drop-end (suc n) (x ∷ xs) e = drop-end n xs (omega arith)

enqueue_send-waiting :
    (c : Client) (line : List ℕ)
    → waiting (enqueue_send c line).send_q ≡ waiting c.send_q ++ terminated line
unfolding enqueue_send
enqueue_send-waiting c line = waiting-snoc c.send_q _

module _ (net : Net) (s : ℕ) (written : net.World → List ℕ) (retries : net.World → ℕ)
    (ordered : SendsInOrder net s written retries) where
  open net use {World, send}

  -- The socket stays, the queue is well-formed, and what was written followed by what waits is as before.
  abbrev Keeps : Client → List Pending → World → Client → World → Type 0
  Keeps c q w c' w' =
      AllUnsent c'.send_q
      × (written w' ++ waiting c'.send_q ≡ written w ++ waiting q)
      × (c'.socket ≡ c.socket)

  after_send-Keeps :
      (c : Client) (front : Pending) (rest : List Pending) (w w' : World) (r : SendResult)
      → c.send_q ≡ front ∷ rest
      → AllUnsent (front ∷ rest)
      → send w s (drop front.ofs front.line) ≡ (r, w')
      → Keeps c
          (front ∷ rest)
          w
          (after_send net c front rest r w').1
          (after_send net c front rest r w').2
  unfolding after_send
  after_send-Keeps c front rest w w' (sent zero) q v e =
      let (put, small, _) = ordered.appended w w' _ zero e in
      (
        subst AllUnsent (sym q) v,
        ap (λ l. l ++ waiting c.send_q) (put ∙ append-nil _) ∙ ap (λ l. written w ++ waiting l) q,
        refl,
      )
  after_send-Keeps c front rest w w' (sent (suc n)) q v e =
      let (put, small, _) = ordered.appended w w' (drop front.ofs front.line) (suc n) e in
      let size = length-drop front.ofs front.line in
      let whole = take-append-drop (suc n) (drop front.ofs front.line) in
      let moved : written w' ++ (drop (front.ofs + suc n) front.line ++ waiting rest)
          ≡ written w ++ waiting (front ∷ rest) =
        ap (λ l. l ++ (drop (front.ofs + suc n) front.line ++ waiting rest)) put
        ∙ append_assoc (written w) _ _
        ∙ ap (◌++◌ (written w)) (
            ap (λ l. take (suc n) (drop front.ofs front.line) ++ (l ++ waiting rest))
              (sym (drop-drop front.ofs (suc n) front.line))
            ∙ sym (append_assoc (take (suc n) (drop front.ofs front.line)) _ (waiting rest))
            ∙ ap (λ l. l ++ waiting rest) whole) in
      elim (Bool-cases (front.ofs + suc n == length front.line)) [
        | inl e' ↦
            let at_end : drop (front.ofs + suc n) front.line ≡ [] =
              drop-end (front.ofs + suc n) front.line (ground arith) in
            rw (e', after_send)
              (v.1, ap (λ l. written w' ++ (l ++ waiting rest)) (sym at_end) ∙ moved, refl)
        | inr e' ↦ rw (e', after_send) ((ground (arith, size), v.1), moved, refl)
      ]
  after_send-Keeps c front rest w w' (send_failed err) q v e =
      let same = (ordered.unchanged w w' _ err e).0 in
      let kept = ap (λ l. l ++ waiting c.send_q) same ∙ ap (λ l. written w ++ waiting l) q in
      elim (Bool-cases (is_retryable err)) [
        | inl e' ↦ rw (e', after_send) (subst AllUnsent (sym q) v, kept, refl)
        | inr e' ↦ rw (e', after_send) (subst AllUnsent (sym q) v, kept, refl)
      ]

  send_front-Keeps :
      (c : Client) (w : World)
      → AllUnsent c.send_q
      → (q : List Pending) → c.send_q ≡ q
      → Keeps c q w (send_front net s c q w).1 (send_front net s c q w).2
  unfolding send_front
  send_front-Keeps c w v [] e = (v, ap (λ l. written w ++ waiting l) e, refl)
  send_front-Keeps c w v (front ∷ rest) e =
      after_send-Keeps c front rest w _ _ e (subst AllUnsent e v) refl

  pub send_msg-Keeps :
      (c : Client) (w : World)
      → c.socket ≡ some s
      → AllUnsent c.send_q
      → Keeps c c.send_q w (send_msg net c w).1 (send_msg net c w).2
  unfolding send_msg
  send_msg-Keeps c w wired v =
      let e : send_msg net c w ≡ send_front net s c c.send_q w =
        ap
          (λ (o : Option ℕ). elim o as (λ _. Code × Client × World) [
            | none ↦ (error, c, w)
            | some t ↦ send_front net t c c.send_q w
          ])
          wired in
      subst (λ (r : Code × Client × World). Keeps c c.send_q w r.1 r.2) (sym e)
        (send_front-Keeps c w v c.send_q refl)

  -- The input thread queues a line, or the loop calls `SendMsg`. Each state has the lines so far.
  pub data Step : Client × World × List (List ℕ) → Client × World × List (List ℕ) → Type 0 where
    enqueues :
        (line : List ℕ) (c : Client) (w : World) (lines : List (List ℕ))
        → Step (c, w, lines) (enqueue_send c line, w, lines ++ (terminated line ∷ []))
    sends :
        (c : Client) (w : World) (lines : List (List ℕ))
        → Step (c, w, lines) ((send_msg net c w).1, (send_msg net c w).2, lines)

  pub data Reach : Client × World × List (List ℕ) → Client × World × List (List ℕ) → Type 0 where
    here : (x : Client × World × List (List ℕ)) → Reach x x
    after : {x y z : Client × World × List (List ℕ)} → Reach x y → Step y z → Reach x z

  -- What was written since `before`, followed by what waits, is the lines.
  abbrev pub IsStreamed : List ℕ → Client × World × List (List ℕ) → Type 0
  IsStreamed before x =
      (x.0.socket ≡ some s)
      × AllUnsent x.0.send_q
      × (written x.1 ++ waiting x.0.send_q ≡ before ++ flatten x.2)

  Step-IsStreamed :
      (before : List ℕ) {x y : Client × World × List (List ℕ)}
      → Step x y
      → IsStreamed before x
      → IsStreamed before y
  unfolding enqueue_send
  Step-IsStreamed before (enqueues line c w lines) (wired, v, stream) = (
    wired,
    AllUnsent-snoc c.send_q _ v (length-terminated line),
    ap (◌++◌ (written w)) (waiting-snoc c.send_q _)
        ∙ sym (append_assoc (written w) (waiting c.send_q) (terminated line))
        ∙ ap (λ l. l ++ terminated line) stream
        ∙ append_assoc before (flatten lines) (terminated line)
        ∙ ap (◌++◌ before) (
            sym (
              flatten-append lines (terminated line ∷ [])
              ∙ ap (◌++◌ (flatten lines)) (append-nil _))),
  )
  Step-IsStreamed before (sends c w lines) (wired, v, stream) =
      let (v', kept, same) = send_msg-Keeps c w wired v in (same ∙ wired, v', kept ∙ stream)

  -- However lines are queued and sent in turn, and whatever part of a line each `send` takes or
  -- refuses, this stays so once it holds, as it does for a client with an empty queue: the bytes
  -- written are the lines, each with its newline, in order, without loss or repetition, as far as
  -- they do not wait in the queue; and the offset of each entry stays below the entry's size, so
  -- `remaining` is never 0 and an entry that is sent in full leaves the queue.
  pub Reach-IsStreamed :
      (before : List ℕ) {x y : Client × World × List (List ℕ)}
      → Reach x y
      → IsStreamed before x
      → IsStreamed before y
  Reach-IsStreamed before (here x) v = v
  Reach-IsStreamed before (after r step) v =
      Step-IsStreamed before step (Reach-IsStreamed before r v)
