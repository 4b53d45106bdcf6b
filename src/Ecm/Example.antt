-- ===== src/Ecm/Example.antt =====
-- A server with one card and a request for a channel, on which instances of theorems are built.
use cccam_3_0_1_by_sharillas.Base.{find_first, ◌≡◌, refl, true, false, none, some, [], ◌∷◌, arith}
use cccam_3_0_1_by_sharillas.Cache.{Cache, Channel, miss, find}
use cccam_3_0_1_by_sharillas.Cache
use cccam_3_0_1_by_sharillas.HopControl
use cccam_3_0_1_by_sharillas.Readers.{
  Reader, Io, local, ok, serve, serve_kind, usable, supports_caid, supports_provid, reader_score,
  select_from, select_reader, get_cw,
}
use cccam_3_0_1_by_sharillas.Clients.{new_client}
use cccam_3_0_1_by_sharillas.Ecm.{EcmRequest, EcmState, ecm_is_valid, lookup}
use cccam_3_0_1_by_sharillas.Ecm.Invariant.{EcmInv}

abbrev pub news : EcmRequest
news = record {
  channel = record { caid = 0x1810; provid = 0; sid = 30 };
  ecm_len = 64;
  client_id = 0;
  hop = 0;
}

abbrev pub card : Reader
card = record {
  id = 1;
  name = [];
  kind = local;
  state = ok;
  caid = 0x1810;
  provid = 0;
  hop = 1;
  priority = 1;
  enabled = true;
  ecm_requests = 0;
  ecm_success = 0;
  ecm_fail = 0;
  last_used = 0;
  last_error = 0;
  consecutive_failures = 0;
  retry_after = 0;
  connected = false;
  logged_in = false;
}

abbrev pub start : EcmState
start = record {
  cache = Cache.initial;
  hops = HopControl.initial;
  readers = record { readers = card ∷ []; count = 1; next_id = 2; initialized = true };
  clients = record { slots = []; count = 0; object = λ p. new_client 0 0 p };
  total_requests = 0;
  cache_hits = 0;
  cache_misses = 0;
  reader_success = 0;
  reader_fail = 0;
}

abbrev pub online : Io
online = record { connects = true; logs_in = true; reply = some (7 ∷ [], 0) }

abbrev pub offline : Io
offline = record { connects = false; logs_in = false; reply = none }

pub start-EcmInv : EcmInv start
unfolding Cache.initial HopControl.initial
start-EcmInv = record {
  cache_kept = record { counted = refl; bounded = omega arith; room = omega arith; distinct = tt };
  hops_kept = record {
    counted = refl;
    distinct = tt;
    checked = omega arith;
    limited = omega arith;
  };
  readers_kept = record {
    counted = refl;
    ordered = (tt, tt);
    tallied = ((omega arith, omega arith), tt);
  };
  looked_up = omega arith;
  answers = omega arith;
}

pub news_valid : ecm_is_valid news ≡ true
unfolding ecm_is_valid
news_valid = refl

pub news_missed : (lookup start news 50).1 ≡ miss
unfolding Cache.initial find_first
news_missed = Cache.Reads.find-answer start.cache news.channel 50 refl

pub news_read : (get_cw start.readers 0x1810 0 50 online).1 ≡ some (7 ∷ [], 1)
unfolding get_cw serve serve_kind select_reader select_from usable supports_caid supports_provid
    reader_score
news_read = refl
