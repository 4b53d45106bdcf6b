-- ===== src/Legacy/Messages.antt =====
-- src/network/cccam3_cc_legacy.c: the messages of a CCcam 2.x session, ccl_send_message and
-- ccl_recv_message, over a connection. A connection is what the peer has sent and will send before
-- it closes, what was sent to it, and how many more calls of `send` it lets succeed.
use cccam_3_0_1_by_sharillas.Base.{
  ℕ, ◌+◌, ◌-◌, ◌*◌, ◌/◌, ◌%◌, ◌^◌, Bool, true, false, none, some, List, [], ◌∷◌, ◌++◌, ltb, ◌==◌,
  if◌then◌else◌, length, take, drop,
}
use cccam_3_0_1_by_sharillas.Rc4.{byte_at}
use cccam_3_0_1_by_sharillas.Legacy.{Legacy, cc_crypt}

abbrev pub max_msg : ℕ
max_msg = 4096

-- The fields of `cclegacy_session_t` that the code reads.
pub record LegacySession : Type 0 where
  pub dec : Legacy
  pub enc : Legacy
  pub node_id : ℕ
  pub logged_in : Bool
  pub extended : Bool
  pub username : List ℕ

pub record Connection : Type 0 where
  pub incoming : List ℕ
  pub sent : List ℕ
  pub sends_left : ℕ

-- How a function of the session ends: it goes on (the return value 0), it returns -1, or the
-- cipher reads beyond its table, whose consequences C leaves open.
pub data Result (A : Type 0) : Type 0 where
  on : A → Result A
  ended fault : Result A

infixl 5 ◌>>=◌
abbrev pub ◌>>=◌ : {A B : Type 0} → Result A → (A → Result B) → Result B
on a >>= f = f a
ended >>= f = ended
fault >>= f = fault

abbrev pub crypt : Bool → Legacy → List ℕ → Result (Legacy × List ℕ)
crypt encrypts c bytes = elim (cc_crypt encrypts c bytes) [ none ↦ fault | some r ↦ on r ]

-- `ccl_send_all`
unfoldable pub ccl_send_all : Connection → List ℕ → Result Connection
ccl_send_all k bytes =
    if k.sends_left == 0
    then ended
    else on (record k { sent = k.sent ++ bytes; sends_left = k.sends_left - 1 })

-- `ccl_recv_exact`
unfoldable pub ccl_recv_exact : Connection → ℕ → Result (List ℕ × Connection)
ccl_recv_exact k n =
    if ltb (length k.incoming) n
    then ended
    else on (take n k.incoming, record k { incoming = drop n k.incoming })

-- The four bytes in front of a payload, and the payload.
unfoldable pub plain_message : ℕ → ℕ → List ℕ → List ℕ
plain_message flag cmd payload =
    flag ∷ cmd ∷ length payload / 2 ^ 8 % 2 ^ 8 ∷ length payload % 2 ^ 8 ∷ payload

-- `ccl_send_message`
unfoldable pub send_message :
    LegacySession → Connection → ℕ → ℕ → List ℕ → Result (LegacySession × Connection)
send_message s k flag cmd payload =
    if ltb max_msg (length payload)
    then ended
    else (crypt true s.enc (plain_message flag cmd payload) >>= λ r.
        ccl_send_all k r.1 >>= λ k'. on (record s { enc = r.0 }, k'))

pub record Message : Type 0 where
  pub flag : ℕ
  pub cmd : ℕ
  pub payload : List ℕ

unfoldable pub message_of : List ℕ → List ℕ → Message
message_of header payload = record {
  flag = byte_at header 0;
  cmd = byte_at header 1;
  payload = payload;
}

-- The second half of `ccl_recv_message`: the payload, whose length the header gives.
unfoldable pub recv_payload :
    LegacySession → Connection → List ℕ → Result (LegacySession × Connection × Message)
unfolding message_of
recv_payload s k header =
    let len = byte_at header 2 * 2 ^ 8 + byte_at header 3 in
    let message = message_of header in
    if ltb max_msg len
    then ended
    else (if len == 0
        then on (s, k, message [])
        else (ccl_recv_exact k len >>= λ p.
            crypt false s.dec p.0 >>= λ r. on (record s { dec = r.0 }, p.1, message r.1)))

-- `ccl_recv_message`
unfoldable pub recv_message :
    LegacySession → Connection → Result (LegacySession × Connection × Message)
recv_message s k = ccl_recv_exact k 4 >>= λ p.
    crypt false s.dec p.0 >>= λ r. recv_payload (record s { dec = r.0 }) p.1 r.1
