-- ===== src/Readers/Backoff.antt =====
-- What one request does to the reader that serves it.
use cccam_3_0_1_by_sharillas.Base.{ℕ, ◌+◌, ◌≤◌, ◌≡◌, refl, ◌&&◌, none, some, List, arith, leb}
use cccam_3_0_1_by_sharillas.Readers.{
  Reader, ReaderType, Io, serve, serve_kind, usable, supports_caid, supports_provid, local, remote,
  emu, ok, retry_backoff_seconds,
}

-- The transport changes nothing of a reader but its connection and its login.
pub serve_kind_keeps :
    (k : ReaderType) (r : Reader) (io : Io)
    → (serve_kind k r io).0 ≡ record r {
      connected = (serve_kind k r io).0.connected;
      logged_in = (serve_kind k r io).0.logged_in;
    }
unfolding serve_kind
serve_kind_keeps local r io = refl
serve_kind_keeps emu r io = refl
serve_kind_keeps remote r io = ground arith

-- A request that fails as the third in a row, or later, takes the reader out of service for
-- every channel until 30 seconds have passed, and then puts it back as it was configured.
pub serve_backoff :
    (r : Reader) (now later : ℕ) (io : Io) (caid provid : ℕ)
    → (serve r now io).1 ≡ none
    → 2 ≤ r.consecutive_failures
    → usable caid provid later (serve r now io).0 ≡ (
        leb (now + retry_backoff_seconds) later
        && usable caid provid later (record r { state = ok }))
unfolding serve usable supports_caid supports_provid
serve_backoff r now later io caid provid failed often = ground (
  arith,
  serve_kind_keeps r.kind (record r { ecm_requests = r.ecm_requests + 1; last_used = now }) io,
)

-- A request that is answered puts the reader back in service and forgets its failures.
pub serve_recovers :
    (r : Reader) (now later : ℕ) (io : Io) (caid provid : ℕ) (a : List ℕ × ℕ)
    → (serve r now io).1 ≡ some a
    → (usable caid provid later (serve r now io).0
        ≡ usable caid provid later (record r { state = ok }))
      × ((serve r now io).0.consecutive_failures ≡ 0)
unfolding serve usable supports_caid supports_provid
serve_recovers r now later io caid provid a answered = ground (
  arith,
  serve_kind_keeps r.kind (record r { ecm_requests = r.ecm_requests + 1; last_used = now }) io,
)

-- Every request that a reader serves is counted, once, as answered or as failed.
pub serve_counts :
    (r : Reader) (now : ℕ) (io : Io)
    → ((serve r now io).0.ecm_requests ≡ r.ecm_requests + 1)
      × ((serve r now io).0.ecm_success + (serve r now io).0.ecm_fail
          ≡ r.ecm_success + r.ecm_fail + 1)
      × ((serve r now io).0.id ≡ r.id)
unfolding serve
serve_counts r now io = ground (
  arith,
  serve_kind_keeps r.kind (record r { ecm_requests = r.ecm_requests + 1; last_used = now }) io,
)
