-- ===== src/Cache/Tests.antt =====
-- Runs of the cache on small inputs, and instances of its theorems.
use cccam_3_0_1_by_sharillas.Base.{◌≡◌, refl, true, some, [], ◌∷◌, arith, find_first}
use cccam_3_0_1_by_sharillas.Cache.{
  Cache, Channel, Entry, miss, done, add, find, same_channel, new_entry, deadline, cache_match,
  find_at,
}
use cccam_3_0_1_by_sharillas.Cache.Step.{step, adds}
use cccam_3_0_1_by_sharillas.Cache.Invariant.{Inv, clash}
use cccam_3_0_1_by_sharillas.Cache.Preserved.{Returns, step-Inv}
use cccam_3_0_1_by_sharillas.Cache.Contents.{stored}
use cccam_3_0_1_by_sharillas.Cache.Reads.{answer, find-add, hit_tail_evicted}

abbrev sport : Channel
sport = record { caid = 0x1810; provid = 0; sid = 30 }

abbrev news : Channel
news = record { caid = 0x1810; provid = 0; sid = 31 }

abbrev film : Channel
film = record { caid = 0x0500; provid = 0x30; sid = 7 }

abbrev sport_entry : Entry
sport_entry = record {
  channel = sport;
  cw = 1 ∷ 2 ∷ [];
  hop = 1;
  timestamp = 100;
  expires_at = 110;
  valid = true;
}

abbrev news_entry : Entry
news_entry = record sport_entry { channel = news; cw = 3 ∷ 4 ∷ []; expires_at = 200 }

-- Room for two, and full.
abbrev two_channels : Cache
two_channels = record {
  entries = news_entry ∷ sport_entry ∷ [];
  count = 2;
  max_entries = 2;
  timeout = 10;
  hits = 0;
  misses = 0;
  enabled = true;
}

two_channels-Inv : Inv two_channels
unfolding clash
two_channels-Inv = record {
  counted = refl;
  bounded = omega arith;
  room = omega arith;
  distinct = ((refl, tt), (tt, tt));
}

step-Inv_example : Returns (step two_channels (adds film (some (9 ∷ [])) 2 0 105 true))
step-Inv_example = step-Inv two_channels (adds film (some (9 ∷ [])) 2 0 105 true) two_channels-Inv

find-add_example :
    (d : Cache) × (add two_channels film (some (9 ∷ [])) 2 0 105 true ≡ some (d, done))
    × ((find d film true 112).1
        ≡ answer
            (stored two_channels film
              (new_entry film (9 ∷ []) 2 105 (deadline two_channels 0 105))
              film)
            112)
find-add_example = find-add two_channels film film (9 ∷ []) 2 0 105 112 two_channels-Inv refl

hit_tail_evicted_example :
    (d : Cache) × (add (find two_channels sport true 105).0 film (some (9 ∷ [])) 2 0 105 true
      ≡ some (d, done))
    × ((find d sport true 106).1 ≡ miss)
unfolding find find_at find_first cache_match same_channel
hit_tail_evicted_example =
    hit_tail_evicted two_channels film sport (1 ∷ 2 ∷ []) (9 ∷ []) 1 2 0 105 106 two_channels-Inv
      refl refl refl refl refl refl
