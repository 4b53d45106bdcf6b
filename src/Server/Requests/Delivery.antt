-- ===== src/Server/Requests/Delivery.antt =====
-- What a client gets for its request.
use cccam_3_0_1_by_sharillas.Base.{
  ℕ, ◌≡◌, refl, ap, ◌∙◌, Bool, if◌then◌else◌, true, not, Option, none, some, List, [],
}
use cccam_3_0_1_by_sharillas.Session.{Suite, Session, aes_gcm}
use cccam_3_0_1_by_sharillas.Protocol.{build_cw, EcmMessage, parse_ecm_payload}
use cccam_3_0_1_by_sharillas.Protocol.Limits.{build-aes_gcm}
use cccam_3_0_1_by_sharillas.Ecm.{EcmState, EcmResponse, answered, process}
use cccam_3_0_1_by_sharillas.Users.{register_ecm}
use cccam_3_0_1_by_sharillas.Legacy.Service.{ServerState, Surroundings}
use cccam_3_0_1_by_sharillas.Server.RateLimit.{ecm_allowed}
use cccam_3_0_1_by_sharillas.Server.Requests.{
  ServedClient, handled, cw_message, ecm_send_cw, client_request, send_response, reply_ecm,
  request_ecm, handle_client_ecm, EcmResult,
}

if_not : {A : Type 0} (b : Bool) (x y : A) → b ≡ true → (if not b then x else y) ≡ y
if_not b x y h = rw h refl

if_so : {A : Type 0} (b : Bool) (x y : A) → b ≡ true → (if b then x else y) ≡ x
if_so b x y h = rw h refl

-- What a request that was answered leaves behind.
abbrev pub answered_result : Suite → ServerState → ServedClient → EcmState → EcmResponse → EcmResult
answered_result suite st d e r = (
  record { ecm = e; users = register_ecm st.users d.username true },
  (send_response suite d r).0,
  handled,
  (send_response suite d r).1,
)

request_answered :
    (suite : Suite) (st : ServerState) (d : ServedClient) (at : Surroundings) (payload : List ℕ)
    (m : EcmMessage) (e : EcmState) (r : EcmResponse)
    → parse_ecm_payload payload ≡ some m
    → process st.ecm (client_request d m) at.now at.io at.allocated ≡ some (e, answered r)
    → r.found ≡ true
    → request_ecm suite st d at payload ≡ some (answered_result suite st d e r)
unfolding request_ecm reply_ecm
request_answered suite st d at payload m e r read done found =
    rw (read, done, request_ecm) (ap (λ x. some x) (if_so {A = EcmResult} r.found _ _ found))

-- The client with its window after the request.
abbrev pub windowed : ℕ → ServedClient → Surroundings → ServedClient
windowed limit c at = record c { window = (ecm_allowed limit c.window at.now).0 }

-- A request that is let through and answered.
answered_request :
    (suite : Suite) (limit : ℕ) (st : ServerState) (c : ServedClient) (at : Surroundings)
    (payload : List ℕ) (m : EcmMessage) (e : EcmState) (r : EcmResponse)
    → c.is_authenticated ≡ true
    → (ecm_allowed limit c.window at.now).1 ≡ true
    → parse_ecm_payload payload ≡ some m
    → process st.ecm (client_request c m) at.now at.io at.allocated ≡ some (e, answered r)
    → r.found ≡ true
    → handle_client_ecm suite limit st c at payload
      ≡ some (answered_result suite st (windowed limit c at) e r)
unfolding handle_client_ecm client_request
answered_request suite limit st c at payload m e r known allowed read done found =
    if_not c.is_authenticated _ _ known
    ∙ if_so (ecm_allowed limit c.window at.now).1 _ _ allowed
    ∙ request_answered suite st (windowed limit c at) at payload m e r read done found

unsent_response :
    (suite : Suite) (d : ServedClient) (r : EcmResponse)
    → r.found ≡ true
    → build_cw suite d.crypto 1024 (cw_message r) ≡ none
    → send_response suite d r ≡ (d, [])
unfolding send_response ecm_send_cw
unsent_response suite d r found failed =
    let sends : ecm_send_cw suite d.crypto r ≡ none =
      if_so {A = Option (Session × List ℕ)} r.found _ _ found ∙ failed in
    rw (sends, send_response) refl

-- In AES-GCM mode the client of an answered request is sent nothing, while the user's counter of
-- served ECMs grows: the request fails for the client only.
pub handle_client_ecm_silent :
    (suite : Suite) (limit : ℕ) (st : ServerState) (c : ServedClient) (at : Surroundings)
    (payload : List ℕ) (m : EcmMessage) (e : EcmState) (r : EcmResponse)
    → c.crypto.mode ≡ aes_gcm
    → c.is_authenticated ≡ true
    → (ecm_allowed limit c.window at.now).1 ≡ true
    → parse_ecm_payload payload ≡ some m
    → process st.ecm (client_request c m) at.now at.io at.allocated ≡ some (e, answered r)
    → r.found ≡ true
    → handle_client_ecm suite limit st c at payload
      ≡ some (
        record { ecm = e; users = register_ecm st.users c.username true },
        windowed limit c at,
        handled,
        [],
      )
unfolding build_cw
handle_client_ecm_silent suite limit st c at payload m e r on known allowed read done found =
    let d = windowed limit c at in
    answered_request suite limit st c at payload m e r known allowed read done found
    ∙ ap
        (λ (x : ServedClient × List ℕ).
          some
            (record { ecm = e; users = register_ecm st.users c.username true }, x.0, handled, x.1))
        (unsent_response suite d r found (build-aes_gcm suite c.crypto 1024 _ _ on))
