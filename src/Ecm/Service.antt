-- ===== src/Ecm/Service.antt =====
-- What cccam_ecm_process answers, and what it leaves behind.
use cccam_3_0_1_by_sharillas.Base.{
  ℕ, ◌+◌, ◌≤◌, ◌<◌, ◌≡◌, ◌⊎◌, refl, Bool, true, false, Option, none, some, List, arith,
}
use cccam_3_0_1_by_sharillas.Cache.{Cache, Status, hit, miss}
use cccam_3_0_1_by_sharillas.Cache.Step.{state_of}
use cccam_3_0_1_by_sharillas.Cache.Invariant.{Inv}
use cccam_3_0_1_by_sharillas.Cache.Preserved.{add-Inv}
use cccam_3_0_1_by_sharillas.HopControl.{HopControl, check, increment_hop}
use cccam_3_0_1_by_sharillas.Ecm.Invariant.{EcmInv}
use cccam_3_0_1_by_sharillas.Readers.{Io, get_cw}
use cccam_3_0_1_by_sharillas.Ecm.{
  EcmRequest, EcmResponse, EcmState, Outcome, answered, blocked, failed, invalid, ecm_is_valid,
  blank_response, hop_refused, remember_cw, lookup, with_client, count_ok,
}

-- Where a control word and the hop of its source come from: the cache's entry for the channel of the
-- request, or, when the cache has none, a reader that was asked for it.
abbrev pub Comes : EcmState → EcmRequest → ℕ → Io → List ℕ → ℕ → Type 0
Comes s q now io cw source =
    ((lookup s q now).1 ≡ hit cw source)
    ⊎ (((lookup s q now).1 ≡ miss)
        × ((get_cw s.readers q.channel.caid q.channel.provid now io).1 ≡ some (cw, source)))

-- The same as a predicate of a word and a source, for the lemmas on the branches.
abbrev pub Origin : Type 1
Origin = List ℕ → ℕ → Type 0

-- What each way to return says of the request, with the hop control at `hops`.
abbrev pub Meets : HopControl → EcmRequest → ℕ → Origin → Outcome → Type 0
Meets hops q now from (answered a) =
    (a.found ≡ true)
    × ((source : ℕ) × from a.cw source × (a.hop ≡ increment_hop hops source))
    × (a.channel ≡ q.channel)
    × (a.generated_at ≡ now)
    × (a.hop ≤ hops.max_hops)
    × ((q.hop ≡ 0) ⊎ (a.hop ≤ q.hop))
Meets hops q now from (blocked a) = (a.found ≡ false) × (0 < q.hop) × (q.hop < hops.max_hops)
Meets hops q now from (failed a) = a ≡ blank_response q now
Meets hops q now from invalid = ecm_is_valid q ≡ false

-- A request that returns, with what its outcome says and the invariant.
abbrev pub Ends : HopControl → EcmRequest → ℕ → Origin → Option (EcmState × Outcome) → Type 0
Ends hops q now from r =
    (t : EcmState) × (o : Outcome) × (r ≡ some (t, o)) × Meets hops q now from o × EcmInv t

returned :
    (r : Option (Cache × Status)) (d : Cache)
    → state_of r ≡ some d
    → (status : Status) × (r ≡ some (d, status))
returned none d e = ground arith
returned (some r) d e = (r.1, ground arith)

pub remember_cw-returns :
    (s : EcmState) (q : EcmRequest) (now : ℕ) (cw : List ℕ) (source : ℕ) (allocated : Bool)
    → Inv s.cache
    → (d : Cache) × (remember_cw s q now cw source allocated ≡ some (record s { cache = d }))
      × Inv d
unfolding remember_cw
remember_cw-returns s q now cw source allocated v =
    let (d, e, d_Inv) = add-Inv s.cache q.channel (some cw) source 0 now allocated v in
    let (status, r) = returned _ d e in (d, rw (r, remember_cw) refl, d_Inv)

-- What the state holds when the control word of a reader goes to the cache.
abbrev pub reader_served : EcmState → EcmRequest → ℕ → ℕ → EcmState
reader_served s q now source = record s {
  hops = (check s.hops (increment_hop s.hops source) now).0;
  reader_success = s.reader_success + 1;
  clients = with_client s.clients q.client_id count_ok;
}

abbrev pub served_response : EcmState → EcmRequest → ℕ → List ℕ → ℕ → EcmResponse
served_response s q now cw source = record (blank_response q now) {
  cw = cw;
  found = true;
  hop = increment_hop s.hops source;
}

refuses : EcmState → EcmRequest → ℕ → ℕ → Bool
refuses s q now source =
    let served = increment_hop s.hops source in hop_refused (check s.hops served now).1 q.hop served
