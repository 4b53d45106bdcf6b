-- ===== src/Cache/Reads.antt =====
-- cccam_cache_find and cccam_cache_clean_expired: what a reader sees, and the order of the list.
use cccam_3_0_1_by_sharillas.Base.{
  All-map, ℕ, ◌+◌, ◌<◌, ◌≤◌, ◌≡◌, ◌≢◌, refl, ◌∙◌, ap, Option, none, some, List, [], ◌∷◌, map, arith,
  ltb, if◌then◌else◌, Bool-cases, inl, inr, true, false, Bool, Pairwise, find_first,
  find_first_absent, sweep, update_first, le→ltb,
}
use cccam_3_0_1_by_sharillas.Cache.{
  Cache, Channel, Entry, Found, hit, miss, bad_arguments, done, same_channel, cache_match,
  new_entry, deadline, add, find, find_at, invalidate, expired, clean_expired,
}
use cccam_3_0_1_by_sharillas.Cache.Invariant.{Inv, Apart}
use cccam_3_0_1_by_sharillas.Cache.Contents.{
  same_channel_refl, cached, stored, tail_serves, no_match-of_Apart,
}
use cccam_3_0_1_by_sharillas.Cache.Preserved.{same_entries}
use cccam_3_0_1_by_sharillas.Cache.Stores.{cached-add}

-- What a lookup answers, given the entry that serves the channel.
abbrev pub answer : Option Entry → ℕ → Found
answer none now = miss
answer (some e) now = if ltb e.expires_at now then miss else hit e.cw e.hop

pub find-answer :
    (c : Cache) (ch : Channel) (now : ℕ)
    → c.enabled ≡ true
    → (find c ch true now).1 ≡ answer (cached c ch) now
unfolding find find_at
find-answer c ch now on = ground arith

-- With output pointers a lookup does not fail for its arguments.
pub find-outputs : (c : Cache) (ch : Channel) (now : ℕ) → (find c ch true now).1 ≢ bad_arguments
unfolding find find_at
find-outputs c ch now h = ground (arith, h)

order-update :
    (p : Entry → Bool) (es : List Entry)
    → map (λ e. e.channel) (update_first p invalidate es) ≡ map (λ e. e.channel) es
unfolding update_first invalidate
order-update p [] = refl
order-update p (e ∷ es) = ground (arith, order-update p es)

-- A lookup leaves the list in its order: it does not move the entry that it reads to the head.
pub find_keeps_order :
    (c : Cache) (ch : Channel) (outputs : Bool) (now : ℕ)
    → map (λ e. e.channel) (find c ch outputs now).0.entries ≡ map (λ e. e.channel) c.entries
unfolding find find_at
find_keeps_order c ch false now = refl
find_keeps_order c ch true now = ground (arith, order-update (cache_match ch) c.entries)

-- The sweep takes the entry of a channel exactly when it is out of date.
cached-sweep :
    (ch : Channel) (now : ℕ) (es : List Entry)
    → Pairwise Apart es
    → answer (find_first (cache_match ch) (sweep (expired now) es)) now
      ≡ answer (find_first (cache_match ch) es) now
unfolding find_first sweep expired
cached-sweep ch now [] p = refl
cached-sweep ch now (e ∷ es) p = elim (Bool-cases (cache_match ch e)) [
  | inr n ↦ ground (arith, cached-sweep ch now es p.1)
  | inl t ↦
      let absent = All-map es (λ f. no_match-of_Apart ch e f t) p.0 in
      ground (arith, cached-sweep ch now es p.1, find_first_absent (cache_match ch) es absent)
]

-- In a cache that is enabled, a `cccam_cache_add` of a control word whose malloc does not fail ends
-- and returns 0, and a lookup of any channel right after it, at any time, answers as `stored` says:
-- for the channel of the call the new word until its deadline, and for another channel what the cache
-- held before, or a miss where that entry was the tail and was evicted to make room.
pub find-add :
    (c : Cache) (ch o : Channel) (cw : List ℕ) (hop until now later : ℕ)
    → Inv c
    → c.enabled ≡ true
    → (d : Cache) × (add c ch (some cw) hop until now true ≡ some (d, done))
      × ((find d o true later).1
          ≡ answer (stored c ch (new_entry ch cw hop now (deadline c until now)) o) later)
find-add c ch o cw hop until now later v on =
    let (d, e, m, d_on) = cached-add c ch cw hop until now o v on in
    (d, e, rw (find-answer d o later d_on, m) refl)

-- `cccam_cache_clean_expired` changes no answer: what it frees was out of date, and what it keeps
-- is found as before.
pub find-clean_expired :
    (c : Cache) (ch : Channel) (now : ℕ)
    → Inv c
    → (find (clean_expired c now).0 ch true now).1 ≡ (find c ch true now).1
unfolding find clean_expired find_at
find-clean_expired c ch now v = ground (arith, cached-sweep ch now c.entries v.distinct)

cached-invalidate :
    (ch : Channel) (es : List Entry)
    → Pairwise Apart es
    → find_first (cache_match ch) (update_first (cache_match ch) invalidate es) ≡ none
unfolding find_first update_first
cached-invalidate ch [] p = refl
cached-invalidate ch (e ∷ es) p = elim (Bool-cases (cache_match ch e)) [
  | inr n ↦ rw (n, n) (cached-invalidate ch es p.1)
  | inl t ↦
      let absent = All-map es (λ f. no_match-of_Apart ch e f t) p.0 in
      rw (t, no_match-invalidate ch e) (find_first_absent (cache_match ch) es absent)
]
  where
    no_match-invalidate : (o : Channel) (f : Entry) → cache_match o (invalidate f) ≡ false
    no_match-invalidate o f = unfold cache_match invalidate in refl

find_late :
    (c : Cache) (ch : Channel) (now : ℕ) (e : Entry)
    → c.enabled ≡ true
    → cached c ch ≡ some e
    → e.expires_at < now
    → find c ch true now ≡ (
      record c {
        entries = update_first (cache_match ch) invalidate c.entries;
        misses = c.misses + 1;
      },
      miss,
    )
unfolding find find_at
find_late c ch now e on s late = ground (arith, s)

-- A lookup that misses an entry for its age makes the channel miss for good: no later lookup,
-- whatever the clock reads, brings the entry back.
pub find_expired_stays :
    (c : Cache) (ch : Channel) (now later : ℕ) (e : Entry)
    → Inv c
    → c.enabled ≡ true
    → cached c ch ≡ some e
    → e.expires_at < now
    → (find (find c ch true now).0 ch true later).1 ≡ miss
find_expired_stays c ch now later e v on s late = rw (find_late c ch now e on s late) (
    find-answer _ ch later on
    ∙ ap (λ m. answer m later) (cached-invalidate ch c.entries v.distinct))

pub find_keeps_settings :
    (c : Cache) (ch : Channel) (now : ℕ)
    → ((find c ch true now).0.enabled ≡ c.enabled) × ((find c ch true now).0.timeout ≡ c.timeout)
unfolding find find_at
find_keeps_settings c ch now = ground arith

fresh_answers :
    (c : Cache) (ch : Channel) (cw : List ℕ) (hop now later : ℕ)
    → later ≤ now + c.timeout
    → answer (some (new_entry ch cw hop now (deadline c 0 now))) later ≡ hit cw hop
unfolding new_entry deadline
fresh_answers c ch cw hop now later soon = ground arith

-- What a cache holds that was given the control word at `now`.
pub add_serves :
    (c : Cache) (ch : Channel) (cw : List ℕ) (hop now later : ℕ)
    → Inv c
    → c.enabled ≡ true
    → later ≤ now + c.timeout
    → (d : Cache) × (add c ch (some cw) hop 0 now true ≡ some (d, done))
      × ((find d ch true later).1 ≡ hit cw hop)
add_serves c ch cw hop now later v on soon =
    let (d, e, r) = find-add c ch ch cw hop 0 now later v on in
    (d, e, r ∙ rw (same_channel_refl ch) (fresh_answers c ch cw hop now later soon))

-- A lookup that hits changes the hit counter only.
find_hit :
    (c : Cache) (ch : Channel) (now : ℕ) (w : List ℕ) (h : ℕ)
    → (find c ch true now).1 ≡ hit w h
    → (find c ch true now).0 ≡ record c { hits = c.hits + 1 }
unfolding find find_at
find_hit c ch now w h e = ground arith

stored-tail :
    (c : Cache) (ch t : Channel) (e : Entry)
    → c.count ≡ c.max_entries
    → tail_serves t c.entries ≡ true
    → same_channel ch t ≡ false
    → cached c ch ≡ none
    → stored c ch e t ≡ none
stored-tail c ch t e full tail other absent =
    rw (other, absent, le→ltb c.count c.max_entries (omega arith), tail)

-- The list is ordered by writes, not by use: in a full cache the entry at the tail is evicted by
-- the next new channel even if a lookup has just hit it.
pub hit_tail_evicted :
    (c : Cache) (ch t : Channel) (w cw : List ℕ) (h hop until now later : ℕ)
    → Inv c
    → c.enabled ≡ true
    → c.count ≡ c.max_entries
    → tail_serves t c.entries ≡ true
    → (find c t true now).1 ≡ hit w h
    → same_channel ch t ≡ false
    → cached c ch ≡ none
    → (d : Cache) × (add (find c t true now).0 ch (some cw) hop until now true ≡ some (d, done))
      × ((find d t true later).1 ≡ miss)
hit_tail_evicted c ch t w cw h hop until now later v on full tail hits other absent =
    let d = record c { hits = c.hits + 1 } in
    let d_Inv : Inv d = same_entries c d refl refl refl v in
    rw (find_hit c t now w h hits) (
      let (r, e, answers) = find-add d ch t cw hop until now later d_Inv on in
      (
        r,
        e,
        answers
            ∙ ap (λ m. answer m later)
                (stored-tail d ch t (new_entry ch cw hop now (deadline d until now)) full tail other
                  absent),
      ))
