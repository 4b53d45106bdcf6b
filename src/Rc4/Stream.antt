-- ===== src/Rc4/Stream.antt =====
-- The key stream at its two ends, over one buffer and over a sequence of messages.
use cccam_3_0_1_by_sharillas.Base.{
  length, suc, ℕ, ◌≡◌, refl, ap, ◌∙◌, true, Option, none, some, List, [], ◌∷◌, ◌++◌, arith,
  xor_twice,
}
use cccam_3_0_1_by_sharillas.Rc4.{Rc4, advance, key_byte, stream_loop, rc4_stream}

-- Decrypting with the state that encrypted gives the bytes back and ends in the same state.
pub stream_loop_twice :
    (t : Rc4) (bs : List ℕ) → stream_loop t (stream_loop t bs).1 ≡ ((stream_loop t bs).0, bs)
unfolding stream_loop
stream_loop_twice t [] = refl
stream_loop_twice t (b ∷ bs) =
    let rest = stream_loop_twice (advance t) bs in
    let first = xor_twice b (key_byte (advance t)) in rw (rest, first) refl

-- A message in two parts is the two parts, one after the other: the key stream is not restarted.
pub stream_loop-append :
    (t : Rc4) (xs ys : List ℕ)
    → stream_loop t (xs ++ ys) ≡ (
      (stream_loop (stream_loop t xs).0 ys).0,
      (stream_loop t xs).1 ++ (stream_loop (stream_loop t xs).0 ys).1,
    )
unfolding stream_loop
stream_loop-append t [] ys = refl
stream_loop-append t (b ∷ xs) ys = rw (stream_loop-append (advance t) xs ys) refl

pub length-stream_loop : (t : Rc4) (bs : List ℕ) → length (stream_loop t bs).1 ≡ length bs
unfolding stream_loop
length-stream_loop t [] = refl
length-stream_loop t (b ∷ bs) = ap suc (length-stream_loop (advance t) bs)

-- Messages sent on one state; `none` when a call fails.
unfoldable pub send_messages : Rc4 → List (List ℕ) → Option (Rc4 × List (List ℕ))
send_messages t [] = some (t, [])
send_messages t (m ∷ ms) = elim (rc4_stream t m) [
  | none ↦ none
  | some r ↦ elim (send_messages r.0 ms) [ none ↦ none | some rest ↦ some (rest.0, r.1 ∷ rest.1) ]
]

stream_loop-ready : (t : Rc4) (bs : List ℕ) → (stream_loop t bs).0.ready ≡ t.ready
unfolding stream_loop advance
stream_loop-ready t [] = refl
stream_loop-ready t (b ∷ bs) = stream_loop-ready (advance t) bs

pub rc4_stream_ready :
    (t : Rc4) (bs : List ℕ) → t.ready ≡ true → rc4_stream t bs ≡ some (stream_loop t bs)
unfolding rc4_stream
rc4_stream_ready t bs on = ground arith

send_messages_first :
    (t u w : Rc4) (m c : List ℕ) (ms cs : List (List ℕ))
    → rc4_stream t m ≡ some (u, c)
    → send_messages u ms ≡ some (w, cs)
    → send_messages t (m ∷ ms) ≡ some (w, c ∷ cs)
unfolding send_messages
send_messages_first t u w m c ms cs first rest = rw (first, send_messages, rest) refl

-- A session of any number of messages: the receiver, who starts with the sender's state and
-- reads the messages in order, gets what was sent, and both end in one state.
pub send_messages_twice :
    (t : Rc4) (ms : List (List ℕ))
    → t.ready ≡ true
    → (u : Rc4) × (cs : List (List ℕ)) × (send_messages t ms ≡ some (u, cs))
      × (send_messages t cs ≡ some (u, ms))
unfolding send_messages
send_messages_twice t [] on = (t, [], refl, refl)
send_messages_twice t (m ∷ ms) on =
    let r = stream_loop t m in
    let (u, cs, sent, back) = send_messages_twice r.0 ms (stream_loop-ready t m ∙ on) in
    let again = rc4_stream_ready t r.1 on ∙ ap some (stream_loop_twice t m) in
    (
      u,
      r.1 ∷ cs,
      send_messages_first t r.0 u m r.1 ms cs (rc4_stream_ready t m on) sent,
      send_messages_first t r.0 u r.1 m cs ms again back,
    )
