-- ===== src/Ecm/Tests.antt =====
-- Instances of the theorems of the ECM handler.
use cccam_3_0_1_by_sharillas.Base.{◌≡◌, refl, inl, true, false, some, [], ◌∷◌, arith}
use cccam_3_0_1_by_sharillas.Cache.{Cache, Channel, miss, find}
use cccam_3_0_1_by_sharillas.Cache
use cccam_3_0_1_by_sharillas.Ecm.{EcmState, answered, process}
use cccam_3_0_1_by_sharillas.Ecm.Service.{served_response}
use cccam_3_0_1_by_sharillas.Ecm.Caching.{process_again}
use cccam_3_0_1_by_sharillas.Ecm.Example.{
  news, start, online, offline, start-EcmInv, news_valid, news_missed, news_read,
}

process_again_example :
    (t u : EcmState) × (process start news 50 online true
      ≡ some (t, answered (served_response start news 50 (7 ∷ []) 1)))
    × (process t news 58 offline false
        ≡ some (u, answered (served_response start news 58 (7 ∷ []) 1)))
    × (u.readers ≡ t.readers)
unfolding Cache.initial
process_again_example =
    process_again start news 50 58 online offline false (7 ∷ []) 1 start-EcmInv refl news_valid
      news_missed news_read (inl refl) (omega arith)
