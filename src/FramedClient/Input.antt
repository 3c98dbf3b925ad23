-- ===== src/FramedClient/Input.antt =====
-- `CinMessages` of Protocols/Framing/Client/ChatClient.cpp, over the lines that are read.
use tcp_simple_chat.Base.{
  is_empty, ◌+◌, ◌≤◌, ◌≡◌, refl, sym, ◌∙◌, List, [], ◌∷◌, ◌++◌, append_assoc, append-nil, Bool,
  true, false, not, arith, length, ltb, if◌then◌else◌, Bool-cases, inl, inr,
}
use tcp_simple_chat.FramedClient.{
  Message, Client, block_producer, tx_hwm, tx_lwm, waits, returns, tx_enqueue,
}
use tcp_simple_chat.FramedClient.TxBounds.{total, total-append, IsValid, with_queue}

-- The end of input, or of the client's interest in it; or blocked at a line.
pub data InputEnd : Type 0 where
  ended : Client → InputEnd
  blocked : Client → List Message → InputEnd

unfoldable pub cin_messages : Client → List Message → InputEnd
cin_messages c [] = ended c
cin_messages c (msg ∷ lines) =
    if not c.is_active
    then ended c
    else if ltb tx_hwm (length msg)
    then ended c
    else elim (tx_enqueue c msg) [
      | waits ↦ blocked c (msg ∷ lines)
      | returns ok c' notified ↦ elim ok [ true ↦ cin_messages c' lines | false ↦ ended c' ]
    ]

-- The lines before the first one of more than 1 MiB.
abbrev pub readable : List Message → List Message
readable [] = []
readable (msg ∷ lines) = if ltb tx_hwm (length msg) then [] else msg ∷ readable lines

appends :
    (c : Client) (msg : Message)
    → IsValid c
    → c.tx_mode ≡ block_producer
    → c.is_active ≡ true
    → total c.tx_queue + length msg ≤ tx_lwm
    → tx_enqueue c msg ≡ returns true (with_queue c c.tx_queue msg) (is_empty c.tx_queue)
unfolding tx_enqueue
appends c msg v mode on room = ground (arith, v.counted, v.bounded)

cin_messages-step :
    (c c' : Client) (msg : Message) (lines : List Message) (n : Bool)
    → c.is_active ≡ true
    → ltb tx_hwm (length msg) ≡ false
    → tx_enqueue c msg ≡ returns true c' n
    → cin_messages c (msg ∷ lines) ≡ cin_messages c' lines
unfolding cin_messages
cin_messages-step c c' msg lines n on light e = ground arith

-- With `BlockProducer`, an active client, and room below 512 KiB for what is queued and read,
-- `CinMessages` does not block. It queues the lines up to the first one of more than 1 MiB, in
-- order, and ends there: that line is not only skipped, nothing after it is read.
pub cin_messages-readable :
    (c : Client) (lines : List Message)
    → IsValid c
    → c.tx_mode ≡ block_producer
    → c.is_active ≡ true
    → total c.tx_queue + total (readable lines) ≤ tx_lwm
    → (c' : Client) × (cin_messages c lines ≡ ended c')
      × (c'.tx_queue ≡ c.tx_queue ++ readable lines)
unfolding cin_messages
cin_messages-readable c [] v mode on room = (c, refl, sym (append-nil _))
cin_messages-readable c (msg ∷ lines) v mode on room = elim (Bool-cases (ltb tx_hwm (length msg))) [
  | inl heavy ↦ (c, ground arith, ground (arith, append-nil c.tx_queue))
  | inr light ↦
      let c₁ = with_queue c c.tx_queue msg in
      let more : total c₁.tx_queue ≡ total c.tx_queue + length msg =
        omega (arith, total-append c.tx_queue (msg ∷ [])) in
      let fits : total c.tx_queue + (length msg + total (readable lines)) ≤ tx_lwm = ground arith in
      let (c', run, queue) =
        cin_messages-readable c₁ lines (record { counted = sym more; bounded = omega arith }) mode
          on (omega arith) in
      (
        c',
        cin_messages-step c c₁ msg lines _ on light (appends c msg v mode on (omega arith)) ∙ run,
        queue ∙ rw light (append_assoc c.tx_queue (msg ∷ []) (readable lines)),
      )
]
