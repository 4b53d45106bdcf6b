-- ===== src/Ecm.antt =====
-- src/CCshare/cccam3_ecm.c and cccam3_ecm.h: the way of one ECM request through the cache, the hop
-- control, the card manager and the client pool. The statistics globals and the states of the
-- four components are one record. `now` is the clock, `io` what the chosen reader meets, and
-- `allocated` whether malloc succeeds in cccam_cache_add.
pub mod Invariant
pub mod Service
pub mod Caching
pub mod Example
mod Tests
use cccam_3_0_1_by_sharillas.Base.{
  ℕ, ◌+◌, Bool, true, false, ◌&&◌, ◌||◌, not, Option, none, some, List, [], ◌∷◌, ltb, ◌==◌,
  if◌then◌else◌,
}
use cccam_3_0_1_by_sharillas.Cache.{Cache, Channel, Found, hit, Status}
use cccam_3_0_1_by_sharillas.Cache
use cccam_3_0_1_by_sharillas.HopControl.{HopControl, increment_hop, check}
use cccam_3_0_1_by_sharillas.Readers.{Readers, Io, get_cw}
use cccam_3_0_1_by_sharillas.Clients.{Pool, Client, modify, find_by_id, unref}

abbrev pub ecm_max_size : ℕ
ecm_max_size = 256

-- `cccam_ecm_request_t`; `hop` is the client's own limit, 0 for none.
pub record EcmRequest : Type 0 where
  pub channel : Channel
  pub ecm_len : ℕ
  pub client_id : ℕ
  pub hop : ℕ

-- `cccam_ecm_response_t`
pub record EcmResponse : Type 0 where
  pub cw : List ℕ
  pub hop : ℕ
  pub channel : Channel
  pub generated_at : ℕ
  pub found : Bool

pub record EcmState : Type 0 where
  pub cache : Cache
  pub hops : HopControl
  pub readers : Readers
  pub clients : Pool
  pub total_requests : ℕ
  pub cache_hits : ℕ
  pub cache_misses : ℕ
  pub reader_success : ℕ
  pub reader_fail : ℕ

-- How `cccam_ecm_process` returns: 0 in the first case and -1 in the others. In the last the
-- response is not written.
pub data Outcome : Type 0 where
  answered blocked failed : EcmResponse → Outcome
  invalid : Outcome

unfoldable pub ecm_is_valid : EcmRequest → Bool
ecm_is_valid q =
    not (q.ecm_len == 0 || ltb ecm_max_size q.ecm_len)
    && not (q.channel.caid == 0 && q.channel.sid == 0)

unfoldable pub init : EcmState → EcmState
init s = record s {
  total_requests = 0;
  cache_hits = 0;
  cache_misses = 0;
  reader_success = 0;
  reader_fail = 0;
}

-- `cccam_client_find_by_id`, a write, `cccam_client_unref`; nothing for the id 0.
unfoldable pub with_client : Pool → ℕ → (Client → Client) → Pool
with_client g id f =
    if id == 0
    then g
    else (let r = find_by_id g id in elim r.1 [ none ↦ r.0 | some p ↦ unref (modify r.0 p f) p ])

-- The channel that the client watches, for the panel.
abbrev pub watch : Channel → ℕ → Client → Client
watch ch now c = record c {
  cur_caid = ch.caid;
  cur_sid = ch.sid;
  cur_channel_at = now;
  ecm_total = c.ecm_total + 1;
}

-- `ecm_client_ok`
abbrev pub count_ok : Client → Client
count_ok c = record c { ecm_ok = c.ecm_ok + 1 }

abbrev pub zero_cw : List ℕ
zero_cw = 0 ∷ 0 ∷ 0 ∷ 0 ∷ 0 ∷ 0 ∷ 0 ∷ 0 ∷ 0 ∷ 0 ∷ 0 ∷ 0 ∷ 0 ∷ 0 ∷ 0 ∷ 0 ∷ []

-- The response after the memset and the assignments below it.
unfoldable pub blank_response : EcmRequest → ℕ → EcmResponse
blank_response q now = record {
  cw = zero_cw;
  hop = 0;
  channel = q.channel;
  generated_at = now;
  found = false;
}

-- The test of both hop limits: the hop control's own and the client's.
unfoldable pub hop_refused : Bool → ℕ → ℕ → Bool
hop_refused allowed limit served = not allowed || (not (limit == 0) && ltb limit served)

-- The branch of a cache hit; `cw` and `source` are what the lookup wrote.
unfoldable pub serve_hit : EcmState → EcmRequest → ℕ → List ℕ → ℕ → EcmState × Outcome
unfolding hop_refused
serve_hit s q now cw source =
    let served = increment_hop s.hops source in
    let checked = check s.hops served now in
    let t = record s { hops = checked.0 } in
    let response = record (blank_response q now) { cw = cw } in
    if hop_refused checked.1 q.hop served then (t, blocked response) else (
      record t {
        cache_hits = t.cache_hits + 1;
        clients = with_client t.clients q.client_id count_ok;
      },
      answered (record response { found = true; hop = served }),
    )

-- `cccam_cache_add(..., cw, source_hop, 0)`, whose return value is not read.
unfoldable pub remember_cw : EcmState → EcmRequest → ℕ → List ℕ → ℕ → Bool → Option EcmState
remember_cw s q now cw source allocated =
    elim (Cache.add s.cache q.channel (some cw) source 0 now allocated) [
      | none ↦ none
      | some r ↦ some (record s { cache = r.0 })
    ]

-- The branch of a control word from a reader.
unfoldable pub serve_reader :
    EcmState → EcmRequest → ℕ → List ℕ → ℕ → Bool → Option (EcmState × Outcome)
unfolding hop_refused remember_cw
serve_reader s q now cw source allocated =
    let served = increment_hop s.hops source in
    let checked = check s.hops served now in
    let t = record s { hops = checked.0 } in
    if hop_refused checked.1 q.hop served
    then some (t, blocked (blank_response q now))
    else elim (remember_cw
        (record t {
          reader_success = t.reader_success + 1;
          clients = with_client t.clients q.client_id count_ok;
        })
        q now cw source allocated) [
          | none ↦ none
          | some u ↦
              some (
                u,
                answered (record (blank_response q now) { cw = cw; found = true; hop = served }),
              )
        ]

-- The card manager is asked after a cache miss.
unfoldable pub ask_reader : EcmState → EcmRequest → ℕ → Io → Bool → Option (EcmState × Outcome)
ask_reader s q now io allocated =
    let result = get_cw s.readers q.channel.caid q.channel.provid now io in
    let t = record s { readers = result.0; cache_misses = s.cache_misses + 1 } in
    elim result.1 [
      | none ↦ some (record t { reader_fail = t.reader_fail + 1 }, failed (blank_response q now))
      | some a ↦ serve_reader t q now a.0 a.1 allocated
    ]

-- The request is counted, and the client's channel noted.
unfoldable pub admit : EcmState → EcmRequest → ℕ → EcmState
admit s q now = record s {
  total_requests = s.total_requests + 1;
  clients = with_client s.clients q.client_id (watch q.channel now);
}

abbrev pub lookup : EcmState → EcmRequest → ℕ → Cache × Found
lookup s q now = Cache.find s.cache q.channel true now

-- `cccam_ecm_process`; `none` says that it never returns.
unfoldable pub process : EcmState → EcmRequest → ℕ → Io → Bool → Option (EcmState × Outcome)
unfolding admit
process s q now io allocated =
    if ecm_is_valid q
    then (let t = record (admit s q now) { cache = (lookup s q now).0 } in
        elim (lookup s q now).1 [
          | hit cw source ↦ some (serve_hit t q now cw source)
          | _ ↦ ask_reader t q now io allocated
        ])
    else some (s, invalid)
