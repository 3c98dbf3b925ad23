-- ===== src/Tests/Pipe.antt =====
-- A concrete network for tests: one connection whose `send` takes at most three bytes and whose
-- calls are interrupted now and then; and hosts of both byte orders.
use tcp_simple_chat.Base.{
  ℕ, zero, suc, ◌+◌, ◌*◌, ◌/◌, ◌%◌, ◌^◌, ◌≤◌, ◌<◌, ◌≡◌, refl, ap, List, [], ◌∷◌, ◌++◌, arith,
  length, take, drop, length-take, take-append-drop,
}
use tcp_simple_chat.Net.{
  Net, RecvResult, got, recv_failed, SendResult, sent, send_failed, Errno, interrupted,
  ReceivesInOrder, StaysUp, SendsInOrder,
}
use tcp_simple_chat.Framing.{Host, IsNetworkOrder, big_endian}

pub record Wire : Type 0 where
  pub unread : List ℕ
  pub written : List ℕ
  pub interruptions : ℕ

abbrev pub receive : Wire → ℕ → ℕ → RecvResult × Wire
receive w len zero = (got (take len w.unread), record w { unread = drop len w.unread })
receive w len (suc n) = (recv_failed interrupted, record w { interruptions = n })

abbrev pub transmit : Wire → List ℕ → ℕ → SendResult × Wire
transmit w bs zero = (sent (length (take 3 bs)), record w { written = w.written ++ take 3 bs })
transmit w bs (suc n) = (send_failed interrupted, record w { interruptions = n })

abbrev pub pipe : Net
pipe = record {
  World = Wire;
  recv = λ w s len. receive w len w.interruptions;
  send = λ w s bs. transmit w bs w.interruptions;
}

receive-in_order :
    (w w' : Wire) (len n : ℕ) (bs : List ℕ)
    → receive w len n ≡ (got bs, w')
    → (w.unread ≡ bs ++ w'.unread) × (length bs ≤ len) × (w'.interruptions ≤ w.interruptions)
receive-in_order w w' len zero bs e =
    ground (arith, take-append-drop len w.unread, length-take len w.unread)
receive-in_order w w' len (suc n) bs e = ground arith

receive-unchanged :
    (w w' : Wire) (len n : ℕ) (e' : Errno)
    → n ≡ w.interruptions
    → receive w len n ≡ (recv_failed e', w')
    → (w.unread ≡ w'.unread) × (w'.interruptions < w.interruptions) × (e' ≡ interrupted)
receive-unchanged w w' len zero e' n e = ground arith
receive-unchanged w w' len (suc n) e' m e = ground arith

transmit-appended :
    (w w' : Wire) (bs : List ℕ) (n k : ℕ)
    → transmit w bs n ≡ (sent k, w')
    → (w'.written ≡ w.written ++ take k bs) × (k ≤ length bs) × (w'.interruptions ≤ w.interruptions)
transmit-appended w w' [] zero k e = ground arith
transmit-appended w w' (a ∷ []) zero k e = ground arith
transmit-appended w w' (a ∷ b ∷ []) zero k e = ground arith
transmit-appended w w' (a ∷ b ∷ c ∷ bs) zero k e = ground arith
transmit-appended w w' bs (suc n) k e = ground arith

transmit-unchanged :
    (w w' : Wire) (bs : List ℕ) (n : ℕ) (e' : Errno)
    → n ≡ w.interruptions
    → transmit w bs n ≡ (send_failed e', w')
    → (w'.written ≡ w.written) × (w'.interruptions < w.interruptions)
transmit-unchanged w w' bs zero e' n e = ground arith
transmit-unchanged w w' bs (suc n) e' m e = ground arith

abbrev pub wire_unread : Wire → List ℕ
wire_unread w = w.unread

abbrev pub wire_written : Wire → List ℕ
wire_written w = w.written

abbrev pub wire_interruptions : Wire → ℕ
wire_interruptions w = w.interruptions

pub pipe-ReceivesInOrder : (s : ℕ) → ReceivesInOrder pipe s wire_unread wire_interruptions
pipe-ReceivesInOrder s = record {
  in_order = λ w w' len bs e. receive-in_order w w' len w.interruptions bs e;
  unchanged = λ w w' len e' e.
      let (same, fewer, _) = receive-unchanged w w' len w.interruptions e' refl e in
      (same, omega arith);
  retries_fall = λ w w' len e' e _. (receive-unchanged w w' len w.interruptions e' refl e).1;
}

pipe-no_close : (w w' : Wire) (len n : ℕ) → 0 < len → receive w len n ≡ (got [], w') → w.unread ≡ []
pipe-no_close w w' len zero h e = first len w.unread h (ground arith)
  where
    first : (k : ℕ) (xs : List ℕ) → 0 < k → take k xs ≡ [] → xs ≡ []
    first zero xs h e = absurd (omega arith)
    first (suc k) [] h e = refl
    first (suc k) (x ∷ xs) h e = cc
pipe-no_close w w' len (suc n) h e = cc

pub pipe-StaysUp : (s : ℕ) → StaysUp pipe s wire_unread
pipe-StaysUp s = record {
  no_fault = λ w w' len e' e _.
      let (_, _, which) = receive-unchanged w w' len w.interruptions e' refl e in rw which refl;
  no_close = λ w w' len h e. pipe-no_close w w' len w.interruptions h e;
}

pub pipe-SendsInOrder : (s : ℕ) → SendsInOrder pipe s wire_written wire_interruptions
pipe-SendsInOrder s = record {
  appended = λ w w' bs n e. transmit-appended w w' bs w.interruptions n e;
  unchanged = λ w w' bs e' e.
      let (same, fewer) = transmit-unchanged w w' bs w.interruptions e' refl e in
      (same, omega arith);
  retries_fall = λ w w' bs e' e _. (transmit-unchanged w w' bs w.interruptions e' refl e).1;
}

abbrev swap32 : ℕ → ℕ
swap32 n = n % 256 * 2 ^ 24 + n / 2 ^ 8 % 256 * 2 ^ 16 + n / 2 ^ 16 % 256 * 2 ^ 8 + n / 2 ^ 24 % 256

abbrev number : List ℕ → ℕ
number (a ∷ b ∷ c ∷ d ∷ []) = a * 2 ^ 24 + b * 2 ^ 16 + c * 2 ^ 8 + d
number _ = 0

abbrev backwards : List ℕ → List ℕ
backwards (a ∷ b ∷ c ∷ d ∷ []) = d ∷ c ∷ b ∷ a ∷ []
backwards bs = bs

abbrev pub big_host : Host
big_host = record { htonl = λ n. n; ntohl = λ n. n; store = big_endian; load = number }

abbrev pub little_host : Host
little_host = record {
  htonl = swap32;
  ntohl = swap32;
  store = λ n. backwards (big_endian n);
  load = λ bs. number (backwards bs);
}

pub big_host-IsNetworkOrder : IsNetworkOrder big_host
big_host-IsNetworkOrder = record { store-htonl = λ n h. refl; ntohl-load = λ n h. omega arith }

pub little_host-IsNetworkOrder : IsNetworkOrder little_host
little_host-IsNetworkOrder = record {
  store-htonl = λ n h. ground arith;
  ntohl-load = λ n h. omega arith;
}

-- A payload of a given length.
pub filler : ℕ → List ℕ
filler zero = []
filler (suc n) = 1 ∷ filler n

pub length-filler : (n : ℕ) → length (filler n) ≡ n
unfolding filler
length-filler zero = refl
length-filler (suc n) = ap suc (length-filler n)
