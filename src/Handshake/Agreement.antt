-- ===== src/Handshake/Agreement.antt =====
-- The handshake as a whole: what the server answers, and what the client makes of the answer.
use cccam_3_0_1_by_sharillas.Base.{
  ℕ, ◌+◌, ◌≡◌, refl, subst, sym, ap, true, false, some, List, [], ◌∷◌, ◌++◌, arith, length,
  length-append, take, drop, ltb, leb, Option-cases, Bool-cases, inl, inr, same_text_refl,
}
use cccam_3_0_1_by_sharillas.Session.{Suite, aes_by_key, aes_256}
use cccam_3_0_1_by_sharillas.Protocol.{LoginMessage}
use cccam_3_0_1_by_sharillas.Protocol.Wire.{append_assoc}
use cccam_3_0_1_by_sharillas.Protocol.Messages.{take_all, take_front}
use cccam_3_0_1_by_sharillas.Handshake.{
  Digests, Random, HandshakeState, handshake_rsa_aes, handshake_legacy, gcm_encrypt, derived_key,
  legacy_key, sealed_seed, rsa_server, rsa_client, legacy_server, legacy_client, negotiate_mode,
  handle_login, handle_login_response, get_response_len, rsa_aes_response_len,
}
use cccam_3_0_1_by_sharillas.Handshake.Codec.{
  HandshakeLaws, drop_front, drop_two, gcm_decrypt-gcm_encrypt,
}

drop_every : (xs : List ℕ) → drop (length xs) xs ≡ []
drop_every [] = refl
drop_every (x ∷ xs) = drop_every xs

drop_whole : (n : ℕ) (xs : List ℕ) → length xs ≡ n → drop n xs ≡ []
drop_whole n xs e = subst (λ k. drop k xs ≡ []) e (drop_every xs)

pub take_whole : (n : ℕ) (xs : List ℕ) → length xs ≡ n → take n xs ≡ xs
take_whole n xs e = subst (λ k. take k xs ≡ xs) e (take_all xs)

-- The pieces of the server's answer.
pieces :
    (a b c d e : List ℕ)
    → length a ≡ 16
    → length b ≡ 12
    → length c ≡ 16
    → length d ≡ 16
    → let x = a ++ (b ++ (c ++ (d ++ e))) in
      (take 16 x ≡ a)
      × (take 12 (drop 16 x) ≡ b)
      × (take 16 (drop 28 x) ≡ c)
      × (take 16 (drop 44 x) ≡ d)
      × (length x ≡ rsa_aes_response_len + length e)
pieces a b c d e p q u v = (
  take_front 16 a (b ++ (c ++ (d ++ e))) p,
  rw (drop_front 16 a (b ++ (c ++ (d ++ e))) p) (take_front 12 b (c ++ (d ++ e)) q),
  rw (drop_two 16 12 a b (c ++ (d ++ e)) p q) (take_front 16 c (d ++ e) u),
  rw
      (
        sym (append_assoc b c (d ++ e)),
        drop_two 16 28 a (b ++ c) (d ++ e) p (omega (arith, length-append b c, q, u)),
      )
      (take_front 16 d e v),
  omega (
    arith,
    length-append a (b ++ (c ++ (d ++ e))),
    length-append b (c ++ (d ++ e)),
    length-append c (d ++ e),
    length-append d e,
    p,
    q,
    u,
    v,
  ),
)

-- The states that the two handshakes lead to.
module _ (digests : Digests) (login : LoginMessage) (r : Random) where
  abbrev pub modern : HandshakeState
  modern = record {
    session_key = derived_key digests login r.seed;
    handshake_mode = handshake_rsa_aes;
  }

  abbrev pub old : HandshakeState
  old = record { session_key = legacy_key digests login r.seed; handshake_mode = handshake_legacy }

module _ (suite : Suite) (digests : Digests) (laws : HandshakeLaws suite digests)
    (login : LoginMessage) (r : Random) (buffer : List ℕ) (seeded : length r.seed ≡ 16)
    (nonce : length r.iv ≡ 12) (room : length buffer ≡ rsa_aes_response_len) where
  -- The seed is always sealed: the key has 32 bytes.
  seals :
      (out : List ℕ) × (tag : List ℕ) × (gcm_encrypt suite
          (derived_key digests login r.seed)
          r.iv
          r.seed
        ≡ some (out, tag))
  unfolding gcm_encrypt aes_by_key derived_key
  seals =
      let long = laws.pbkdf2_length login.password (login.handshake ++ r.seed) 10000 32 in
      elim (Option-cases
        (suite.gcm_seal aes_256 (derived_key digests login r.seed) r.iv [] r.seed)) [
          | inl n ↦ absurd (
              ground (
                arith,
                n,
                laws.gcm_seals aes_256 (derived_key digests login r.seed) r.iv [] r.seed,
              ))
          | inr ((out, tag), e) ↦ (out, tag, rw (nonce, long, gcm_encrypt) e)
        ]

  -- The answer without what the buffer held.
  sealed_twice :
      (out tag : List ℕ)
      → gcm_encrypt suite (derived_key digests login r.seed) r.iv r.seed ≡ some (out, tag)
      → sealed_seed suite (derived_key digests login r.seed) r buffer ≡ out ++ tag
  unfolding sealed_seed
  sealed_twice out tag e = rw (e, sealed_seed) refl

  rsa_client-rsa_server :
      (s t : HandshakeState)
      → (out : List ℕ) × (rsa_server suite digests s login r buffer
          ≡ ((modern digests login r), some out))
        × (length out ≡ rsa_aes_response_len)
        × (rsa_client suite digests t login out ≡ ((modern digests login r), true))
  unfolding rsa_server rsa_client
  rsa_client-rsa_server s t =
      let (out, tag, e) = seals in
      let key = derived_key digests login r.seed in
      let back = gcm_decrypt-gcm_encrypt suite laws.suite_laws key r.iv r.seed out tag e in
      let rest = drop rsa_aes_response_len buffer in
      let part =
        pieces r.seed r.iv out tag rest seeded nonce (omega (arith, back.2, seeded)) back.3 in
      let whole : ltb (length buffer) rsa_aes_response_len ≡ false = ground (arith, room) in
      (
        r.seed ++ (r.iv ++ (out ++ (tag ++ rest))),
        rw (whole, sealed_twice out tag e, append_assoc out tag rest, rsa_server) refl,
        omega (arith, part.4, ap length (drop_whole rsa_aes_response_len buffer room)),
        rw (part.0, part.1, part.2, part.3, back.1, part.0, same_text_refl r.seed, rsa_client) refl,
      )

  legacy_sent :
      (s : HandshakeState)
      → legacy_server digests s login r buffer
        ≡ ((old digests login r), some (r.seed ++ drop 16 buffer))
  unfolding legacy_server
  legacy_sent s = rw (room, legacy_server) refl

  legacy_read : legacy_client digests login r.seed ≡ ((old digests login r), true)
  unfolding legacy_client
  legacy_read = rw (take_whole 16 r.seed seeded, legacy_client) refl

  abbrev pub Agreed : HandshakeState → HandshakeState → HandshakeState → List ℕ → Type 0
  Agreed s t agreed out =
      (handle_login suite digests s login r buffer ≡ (agreed, some out))
      × (handle_login_response suite digests t login (take (get_response_len agreed) out)
          ≡ (agreed, true))

  pub Agreed-modern :
      (s t : HandshakeState)
      → leb 300 login.version ≡ true
      → (out : List ℕ) × (length out ≡ rsa_aes_response_len)
        × Agreed s t (modern digests login r) out
  unfolding handle_login handle_login_response get_response_len negotiate_mode
  Agreed-modern s t new =
      let (out, sent, size, read) =
        rsa_client-rsa_server (record s { handshake_mode = handshake_rsa_aes }) t in
      let uncut : take rsa_aes_response_len out ≡ out = take_whole rsa_aes_response_len out size in
      let agreed : Agreed s t (modern digests login r) out =
        (rw (new, room, handle_login) sent, rw (uncut, size, handle_login_response) read) in
      (out, size, agreed)

  pub Agreed-old :
      (s t : HandshakeState)
      → leb 300 login.version ≡ false
      → Agreed s t (old digests login r) (r.seed ++ drop 16 buffer)
  unfolding handle_login handle_login_response get_response_len negotiate_mode
  Agreed-old s t before = (
    rw (before, room, handle_login) (legacy_sent (record s { handshake_mode = handshake_legacy })),
    rw (take_front 16 r.seed (drop 16 buffer) seeded, seeded, handle_login_response) legacy_read,
  )

  -- For a client of any version, the server's answer leads the client to the server's key and mode.
  pub handle_login_response-handle_login :
      (s t : HandshakeState)
      → (agreed : HandshakeState) × (out : List ℕ) × (handle_login suite digests s login r buffer
          ≡ (agreed, some out))
        × (handle_login_response suite digests t login (take (get_response_len agreed) out)
            ≡ (agreed, true))
  handle_login_response-handle_login s t = elim (Bool-cases (leb 300 login.version)) [
    | inl new ↦ let a = Agreed-modern s t new in ((modern digests login r), a.0, a.2.0, a.2.1)
    | inr before ↦
        let a = Agreed-old s t before in ((old digests login r), r.seed ++ drop 16 buffer, a.0, a.1)
  ]
