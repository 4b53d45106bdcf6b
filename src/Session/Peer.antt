-- ===== src/Session/Peer.antt =====
-- The two ends of a session: cccam_protocol_encrypt and cccam_protocol_decrypt.
use cccam_3_0_1_by_sharillas.Base.{
  ℕ, ◌+◌, ◌-◌, ◌%◌, ◌≡◌, refl, subst, ap, ◌∙◌, true, false, ◌||◌, not, Option, none, some, List, [],
  ◌∷◌, ◌++◌, arith, length, length-append, ltb, le→ltb, ◌==◌, Bool-cases, Option-cases, inl, inr,
  if_cases,
}
use cccam_3_0_1_by_sharillas.Rc4.{Rc4, rc4_stream, stream_loop}
use cccam_3_0_1_by_sharillas.Rc4.Stream.{stream_loop_twice, rc4_stream_ready, length-stream_loop}
use cccam_3_0_1_by_sharillas.Session.{
  Suite, Algorithm, CryptMode, clear, rc4, aes, triple_des, aes_gcm, des_ede3, Session, encrypt,
  encrypt_in, decrypt, decrypt_in, rc4_pass, start_stream, aes_cbc, triple_des_cbc, evp_cbc,
  aes_by_key, gcm_tag_len, tag_room, cbc_build_iv, gcm_build_nonce, gcm_build_aad,
}
use cccam_3_0_1_by_sharillas.Session.Rules.{SuiteLaws, take-append, drop-append}

-- The end `b` of a session, as it stands when it has read all that the end `a` sent.
abbrev pub peer : Session → Session → Session
peer a b = record b { mode = a.mode; key = a.key; rx_counter = a.tx_counter; rx = a.tx }

rc4_pass_twice :
    (t u : Rc4) (key bytes out : List ℕ)
    → rc4_pass t key bytes ≡ some (u, out)
    → (rc4_pass t key out ≡ some (u, bytes)) × (length out ≡ length bytes)
unfolding rc4_pass rc4_stream
rc4_pass_twice t u key bytes out h = elim (Option-cases (start_stream t key)) [
  | inl n ↦ absurd (ground (arith, h, n))
  | inr (v, e) ↦ elim (Bool-cases v.ready) [
    | inr off ↦ absurd (ground (arith, h, e))
    | inl on ↦
        let s : stream_loop v bytes ≡ (u, out) = ground (arith, h, e, on) in
        let back : stream_loop v out ≡ (u, bytes) =
          subst (λ (r : Rc4 × List ℕ). stream_loop v r.1 ≡ (r.0, bytes)) s
            (stream_loop_twice v bytes) in
        (
          rw (e, rc4_pass) (rc4_stream_ready v out on ∙ ap some back),
          subst (λ (r : Rc4 × List ℕ). length r.1 ≡ length bytes) s (length-stream_loop v bytes),
        )
  ]
]

-- Some block of a CBC call can be read back.
cbc_back :
    (suite : Suite) (laws : SuiteLaws suite) (cipher : Algorithm) (bytes key iv out : List ℕ)
    (block : ℕ)
    → evp_cbc suite cipher bytes key iv block true ≡ some out
    → (evp_cbc suite cipher out key iv block false ≡ some bytes) × (length out ≡ length bytes)
unfolding evp_cbc
cbc_back suite laws cipher bytes key iv out block h =
    elim (Bool-cases (length bytes == 0 || not (length bytes % block == 0))) [
      | inl refused ↦ absurd (ground (arith, h, refused))
      | inr sized ↦
          let run : suite.cbc cipher true key iv bytes ≡ some out = ground (arith, h, sized) in
          let same = laws.cbc_length cipher key iv bytes out run in
          (rw (same, sized) (laws.cbc_inverse cipher key iv bytes out run), same)
    ]

aes_back :
    (suite : Suite) (laws : SuiteLaws suite) (bytes key iv out : List ℕ)
    → aes_cbc suite bytes key iv true ≡ some out
    → (aes_cbc suite out key iv false ≡ some bytes) × (length out ≡ length bytes)
unfolding aes_cbc
aes_back suite laws bytes key iv out h = elim (Option-cases (aes_by_key (length key))) [
  | inl n ↦ absurd (ground (arith, h, n))
  | inr (cipher, e) ↦
      let run : evp_cbc suite cipher bytes key iv 16 true ≡ some out = ground (arith, h, e) in
      let (back, same) = cbc_back suite laws cipher bytes key iv out 16 run in
      (rw (e, aes_cbc) back, same)
]

-- What the other end reads, in mode `m`, of an encryption that the session `a` made.
abbrev Reads :
    Suite → CryptMode → Session → Session → List ℕ → ℕ → Option (Session × List ℕ) → Type 0
Reads suite m a b bytes msg_id none = Unit
Reads suite m a b bytes msg_id (some r) =
    (decrypt_in suite m (peer a b) r.1 msg_id ≡ some (peer r.0 b, bytes))
    × (length r.1 ≡ length bytes + tag_room m)

module _ (suite : Suite) (laws : SuiteLaws suite) (a b : Session) (bytes : List ℕ)
    (msg_id : ℕ) where
  gcm-Reads :
      (cipher : Algorithm) (out tag : List ℕ)
      → aes_by_key (length a.key) ≡ some cipher
      → suite.gcm_seal cipher a.key
          (gcm_build_nonce msg_id a.tx_counter)
          (gcm_build_aad msg_id)
          bytes
        ≡ some (out, tag)
      → Reads suite aes_gcm a b bytes msg_id
          (some (record a { tx_counter = a.tx_counter + 1 }, out ++ tag))
  unfolding decrypt_in tag_room
  gcm-Reads cipher out tag e run =
      let (same, tag_size) = laws.gcm_length cipher a.key _ _ bytes out tag run in
      let total = length-append out tag in
      let rest : length (out ++ tag) - gcm_tag_len ≡ length out = omega (arith, tag_size, total) in
      let long : ltb (length (out ++ tag)) gcm_tag_len ≡ false =
        le→ltb (length (out ++ tag)) gcm_tag_len (omega (arith, tag_size, total)) in
      (
        rw (long, e, decrypt_in)
            (rw (rest, take-append out tag, drop-append out tag)
              (rw (laws.gcm_inverse cipher a.key _ _ bytes out tag run) refl)),
        omega (arith, same, total, tag_size),
      )

  encrypt_in-Reads :
      (m : CryptMode) (capacity : ℕ)
      → Reads suite m a b bytes msg_id (encrypt_in suite m a bytes capacity msg_id)
  unfolding encrypt_in decrypt_in triple_des_cbc tag_room
  encrypt_in-Reads clear capacity = (refl, omega arith)
  encrypt_in-Reads rc4 capacity = elim (Option-cases (rc4_pass a.tx a.key bytes)) [
    | inl n ↦ rw (n, encrypt_in) tt
    | inr ((u, out), e) ↦
        let (back, same) = rc4_pass_twice a.tx u a.key bytes out e in
        rw (e, encrypt_in) (rw (back, decrypt_in) refl, omega (arith, same))
  ]
  encrypt_in-Reads aes capacity =
      let iv = cbc_build_iv suite msg_id a.tx_counter 16 in
      elim (Option-cases (aes_cbc suite bytes a.key iv true)) [
        | inl n ↦ rw (n, encrypt_in) tt
        | inr (out, e) ↦
            let (back, same) = aes_back suite laws bytes a.key iv out e in
            rw (e, encrypt_in) (rw (back, decrypt_in) refl, omega (arith, same))
      ]
  encrypt_in-Reads triple_des capacity =
      let iv = cbc_build_iv suite msg_id a.tx_counter 8 in
      elim (Option-cases (evp_cbc suite des_ede3 bytes a.key iv 8 true)) [
        | inl n ↦ rw (n, encrypt_in) tt
        | inr (out, e) ↦
            let (back, same) = cbc_back suite laws des_ede3 bytes a.key iv out 8 e in
            rw (e, encrypt_in) (rw (back, decrypt_in) refl, omega (arith, same))
      ]
  encrypt_in-Reads aes_gcm capacity =
      if_cases (Reads suite aes_gcm a b bytes msg_id) (ltb capacity (length bytes + gcm_tag_len)) _
        _ (λ _. tt)
        (λ _. elim (Option-cases (aes_by_key (length a.key))) [
          | inl n ↦ rw (n, encrypt_in) tt
          | inr (cipher, e) ↦
              elim (Option-cases (
                suite.gcm_seal cipher a.key (gcm_build_nonce msg_id a.tx_counter)
                  (gcm_build_aad msg_id) bytes)) [
                    | inl n ↦ rw (e, n, encrypt_in) tt
                    | inr ((out, tag), run) ↦
                        rw (e, run, encrypt_in) (gcm-Reads cipher out tag e run)
                  ]
        ])

  -- What one end encrypts, the other end decrypts, in every mode, with a capacity that lets the
  -- first succeed and the laws of OpenSSL; and then both ends are in step for the next message.
  pub decrypt-encrypt :
      (capacity : ℕ) (sent : Session) (out : List ℕ)
      → encrypt suite a bytes capacity msg_id ≡ some (sent, out)
      → decrypt suite (peer a b) out msg_id ≡ some (peer sent b, bytes)
  unfolding encrypt decrypt
  decrypt-encrypt capacity sent out h = elim (Bool-cases (length bytes == 0)) [
    | inl empty ↦ absurd (ground (arith, h, empty))
    | inr some_bytes ↦
        let run : encrypt_in suite a.mode a bytes capacity msg_id ≡ some (sent, out) =
          ground (arith, h, some_bytes) in
        let (reads, longer) =
          subst (Reads suite a.mode a b bytes msg_id) run (encrypt_in-Reads a.mode capacity) in
        let non_empty : (length out == 0) ≡ false = ground (arith, longer, some_bytes) in
        rw (non_empty, decrypt) reads
  ]

  -- An encryption in GCM is longer by its tag, and in the other modes as long as the message.
  pub length-encrypt :
      (capacity : ℕ) (sent : Session) (out : List ℕ)
      → encrypt suite a bytes capacity msg_id ≡ some (sent, out)
      → length out ≡ length bytes + tag_room a.mode
  unfolding encrypt
  length-encrypt capacity sent out h = elim (Bool-cases (length bytes == 0)) [
    | inl empty ↦ absurd (ground (arith, h, empty))
    | inr some_bytes ↦
        let run : encrypt_in suite a.mode a bytes capacity msg_id ≡ some (sent, out) =
          ground (arith, h, some_bytes) in
        (subst (Reads suite a.mode a b bytes msg_id) run (encrypt_in-Reads a.mode capacity)).1
  ]

-- A conversation in one direction: each message is its type and its bytes, and the output buffer
-- always has `room` bytes more than the message.
unfoldable pub encrypt_all :
    Suite → Session → ℕ → List (ℕ × List ℕ) → Option (Session × List (ℕ × List ℕ))
encrypt_all suite a room [] = some (a, [])
encrypt_all suite a room (m ∷ ms) = elim (encrypt suite a m.1 (length m.1 + room) m.0) [
  | none ↦ none
  | some r ↦ elim (encrypt_all suite r.0 room ms) [
    | none ↦ none
    | some rest ↦ some (rest.0, (m.0, r.1) ∷ rest.1)
  ]
]

unfoldable pub decrypt_all :
    Suite → Session → List (ℕ × List ℕ) → Option (Session × List (ℕ × List ℕ))
decrypt_all suite b [] = some (b, [])
decrypt_all suite b (m ∷ ms) = elim (decrypt suite b m.1 m.0) [
  | none ↦ none
  | some r ↦ elim (decrypt_all suite r.0 ms) [
    | none ↦ none
    | some rest ↦ some (rest.0, (m.0, r.1) ∷ rest.1)
  ]
]

-- What the other end reads of a conversation.
abbrev AllRead :
    Suite → Session → Session → List (ℕ × List ℕ) → Option (Session × List (ℕ × List ℕ)) → Type 0
AllRead suite a b ms none = Unit
AllRead suite a b ms (some r) = decrypt_all suite (peer a b) r.1 ≡ some (peer r.0 b, ms)

encrypt_all-AllRead :
    (suite : Suite) (laws : SuiteLaws suite) (a b : Session) (room : ℕ) (ms : List (ℕ × List ℕ))
    → AllRead suite a b ms (encrypt_all suite a room ms)
unfolding encrypt_all decrypt_all
encrypt_all-AllRead suite laws a b room [] = refl
encrypt_all-AllRead suite laws a b room ((msg_id, bytes) ∷ ms) =
    elim (Option-cases (encrypt suite a bytes (length bytes + room) msg_id)) [
      | inl n ↦ rw (n, encrypt_all) tt
      | inr ((u, out), e) ↦ elim (Option-cases (encrypt_all suite u room ms)) [
        | inl n ↦ rw (e, n, encrypt_all) tt
        | inr ((w, outs), rest) ↦
            let first = decrypt-encrypt suite laws a b bytes msg_id (length bytes + room) u out e in
            let others =
              subst (AllRead suite u b ms) rest (encrypt_all-AllRead suite laws u b room ms) in
            rw (e, rest, encrypt_all) (rw (first, decrypt_all) (rw (others, decrypt_all) refl))
      ]
    ]

-- A whole conversation is read as it was sent: any number of messages of any types, in any mode,
-- decrypted in order by the other end.
pub decrypt_all-encrypt_all :
    (suite : Suite) (laws : SuiteLaws suite) (a b sent : Session) (room : ℕ)
    (ms outs : List (ℕ × List ℕ))
    → encrypt_all suite a room ms ≡ some (sent, outs)
    → decrypt_all suite (peer a b) outs ≡ some (peer sent b, ms)
decrypt_all-encrypt_all suite laws a b sent room ms outs h =
    subst (AllRead suite a b ms) h (encrypt_all-AllRead suite laws a b room ms)
