-- ===== src/Ecm/Caching.antt =====
-- The same ECM request twice.
use cccam_3_0_1_by_sharillas.Base.{
  ℕ, ◌+◌, ◌≤◌, ◌≡◌, ◌⊎◌, refl, ◌∙◌, ap, Bool, true, false, some, List, arith,
}
use cccam_3_0_1_by_sharillas.Cache.{Cache, hit, miss, find}
use cccam_3_0_1_by_sharillas.Cache.Invariant.{Inv}
use cccam_3_0_1_by_sharillas.Cache.Preserved.{find-Inv}
use cccam_3_0_1_by_sharillas.Cache.Reads.{find_keeps_settings, add_serves}
use cccam_3_0_1_by_sharillas.HopControl.{check, increment_hop}
use cccam_3_0_1_by_sharillas.HopControl.Limit.{check-increment_hop, increment_hop-check}
use cccam_3_0_1_by_sharillas.Readers.{Io, get_cw}
use cccam_3_0_1_by_sharillas.Ecm.{
  EcmRequest, EcmState, answered, ecm_is_valid, blank_response, hop_refused, serve_hit,
  serve_reader, ask_reader, remember_cw, process, admit, lookup,
}
use cccam_3_0_1_by_sharillas.Ecm.Invariant.{EcmInv}
use cccam_3_0_1_by_sharillas.Ecm.Service.{reader_served, served_response}

-- The hop control lets the client have a word of this source.
abbrev pub Served : EcmState → EcmRequest → ℕ → Type 0
Served s q source = (q.hop ≡ 0) ⊎ (increment_hop s.hops source ≤ q.hop)

not_refused :
    (s : EcmState) (q : EcmRequest) (now source : ℕ)
    → Served s q source
    → hop_refused
        (check s.hops (increment_hop s.hops source) now).1
        q.hop
        (increment_hop s.hops source)
      ≡ false
unfolding hop_refused
not_refused s q now source h = ground (arith, (check-increment_hop s.hops source now).0)

lookup_miss :
    (s : EcmState) (q : EcmRequest) (now : ℕ) (io : Io) (cw : List ℕ) (source : ℕ)
    → ecm_is_valid q ≡ true
    → (lookup s q now).1 ≡ miss
    → (get_cw s.readers q.channel.caid q.channel.provid now io).1 ≡ some (cw, source)
    → process s q now io true
      ≡ serve_reader
          (record (admit s q now) {
            cache = (lookup s q now).0;
            readers = (get_cw s.readers q.channel.caid q.channel.provid now io).0;
            cache_misses = s.cache_misses + 1;
          })
          q
          now
          cw
          source
          true
unfolding process ask_reader
lookup_miss s q now io cw source valid missed got =
    rw (valid, missed, got, process, ask_reader) refl

lookup_hit :
    (s : EcmState) (q : EcmRequest) (now : ℕ) (io : Io) (allocated : Bool) (cw : List ℕ)
    (source : ℕ)
    → ecm_is_valid q ≡ true
    → (lookup s q now).1 ≡ hit cw source
    → process s q now io allocated
      ≡ some (serve_hit (record (admit s q now) { cache = (lookup s q now).0 }) q now cw source)
unfolding process
lookup_hit s q now io allocated cw source valid found = rw (valid, found, process) refl

serve_hit-answers :
    (s : EcmState) (q : EcmRequest) (now : ℕ) (cw : List ℕ) (source : ℕ)
    → Served s q source
    → (serve_hit s q now cw source).1 ≡ answered (served_response s q now cw source)
unfolding serve_hit
serve_hit-answers s q now cw source h = rw (not_refused s q now source h, serve_hit) refl

serve_hit-readers :
    (s : EcmState) (q : EcmRequest) (now : ℕ) (cw : List ℕ) (source : ℕ)
    → (serve_hit s q now cw source).0.readers ≡ s.readers
unfolding serve_hit
serve_hit-readers s q now cw source = ground arith

serve_reader-answers :
    (s : EcmState) (q : EcmRequest) (now later : ℕ) (cw : List ℕ) (source : ℕ)
    → Served s q source
    → Inv s.cache
    → s.cache.enabled ≡ true
    → later ≤ now + s.cache.timeout
    → (d : Cache) × (serve_reader s q now cw source true
        ≡ some (
          record (reader_served s q now source) { cache = d },
          answered (served_response s q now cw source),
        ))
      × ((find d q.channel true later).1 ≡ hit cw source)
unfolding serve_reader remember_cw
serve_reader-answers s q now later cw source h v on soon =
    let (d, e, r) = add_serves s.cache q.channel cw source now later v on soon in
    (d, rw (not_refused s q now source h, serve_reader) (rw (e, remember_cw) refl), r)

-- When the cache is enabled and misses, a reader has the control word, malloc does not fail and the
-- client's limit allows the word, the client gets it; and if the very next ECM request is the same one,
-- until the cache's timeout has passed, it gets the same word at the same hop again, without a reader
-- being asked.
pub process_again :
    (s : EcmState) (q : EcmRequest) (now later : ℕ) (io io_later : Io) (allocated : Bool)
    (cw : List ℕ) (source : ℕ)
    → EcmInv s
    → s.cache.enabled ≡ true
    → ecm_is_valid q ≡ true
    → (lookup s q now).1 ≡ miss
    → (get_cw s.readers q.channel.caid q.channel.provid now io).1 ≡ some (cw, source)
    → Served s q source
    → later ≤ now + s.cache.timeout
    → (t u : EcmState) × (process s q now io true
        ≡ some (t, answered (served_response s q now cw source)))
      × (process t q later io_later allocated
          ≡ some (u, answered (served_response s q later cw source)))
      × (u.readers ≡ t.readers)
unfolding admit
process_again s q now later io io_later allocated cw source v on valid missed got h soon =
    let (enabled, timeout) = find_keeps_settings s.cache q.channel now in
    let m = record (admit s q now) {
      cache = (lookup s q now).0;
      readers = (get_cw s.readers q.channel.caid q.channel.provid now io).0;
      cache_misses = s.cache_misses + 1;
    } in
    let (d, first, found) =
      serve_reader-answers m q now later cw source h
        (find-Inv s.cache q.channel true now v.cache_kept) (enabled ∙ on)
        (omega (arith, timeout, soon)) in
    let t = record (reader_served m q now source) { cache = d } in
    let n = record (admit t q later) { cache = (lookup t q later).0 } in
    let same_hop = increment_hop-check s.hops (increment_hop s.hops source) now source in
    let allowed : Served n q source = rw same_hop h in
    let second = serve_hit-answers n q later cw source allowed in
    (
      t,
      (serve_hit n q later cw source).0,
      lookup_miss s q now io cw source valid missed got ∙ first,
      lookup_hit t q later io_later allocated cw source valid found
          ∙ ap (λ o. some ((serve_hit n q later cw source).0, o)) second
          ∙ ap
              (λ k. some (
                (serve_hit n q later cw source).0,
                answered (record (blank_response q later) { cw = cw; found = true; hop = k }),
              ))
              same_hop,
      serve_hit-readers n q later cw source,
    )
