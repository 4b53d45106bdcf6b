-- ===== src/Readers/Tests.antt =====
-- Runs of the card manager on small inputs, and instances of its theorems.
use cccam_3_0_1_by_sharillas.Base.{
  List, ◌+◌, ◌≡◌, refl, true, false, ◌&&◌, none, some, [], ◌∷◌, arith, leb, get_elem?,
}
use cccam_3_0_1_by_sharillas.Readers.{
  Reader, Readers, Io, local, remote, ok, error, serve, usable, supports_caid, supports_provid,
  reader_score, select_from, select_reader, retry_backoff_seconds, get_cw,
}
use cccam_3_0_1_by_sharillas.Readers.Step.{
  Call, gets, sends_emm, adds, removes, updates, reloads, step, run, Roomy,
}
use cccam_3_0_1_by_sharillas.Readers.Dedup.{seen_recently, seen_below, matches, emm_hash}
use cccam_3_0_1_by_sharillas.Readers.Emm.{Sender, send_emm}
use cccam_3_0_1_by_sharillas.Readers.Selection.{IsLeast, select_reader-IsLeast}
use cccam_3_0_1_by_sharillas.Readers.Backoff.{serve_backoff}
use cccam_3_0_1_by_sharillas.Readers.Invariant.{ReadersInv}
use cccam_3_0_1_by_sharillas.Readers.History.{run-ReadersInv}

abbrev card : Reader
card = record {
  id = 1;
  name = [];
  kind = local;
  state = ok;
  caid = 0x1810;
  provid = 0;
  hop = 0;
  priority = 1;
  enabled = true;
  ecm_requests = 0;
  ecm_success = 0;
  ecm_fail = 0;
  last_used = 0;
  last_error = 0;
  consecutive_failures = 2;
  retry_after = 0;
  connected = false;
  logged_in = false;
}

abbrev server : Reader
server = record card { id = 2; kind = remote; hop = 1; priority = 0; caid = 0 }

abbrev both : Readers
both = record { readers = server ∷ card ∷ []; count = 2; next_id = 3; initialized = true }

abbrev offline : Io
offline = record { connects = false; logs_in = false; reply = none }

both-ReadersInv : ReadersInv both
both-ReadersInv = record {
  counted = refl;
  ordered = ((omega arith, tt), (tt, tt));
  tallied = ((omega arith, omega arith), ((omega arith, omega arith), tt));
}

both_chosen : select_reader both 0x1810 0 50 ≡ some (1, card)
unfolding select_reader select_from usable supports_caid supports_provid reader_score
both_chosen = refl

select_reader-IsLeast_example :
    (get_elem? both.readers 1 ≡ some card)
    × (usable 0x1810 0 50 card ≡ true)
    × IsLeast 0x1810 0 50 (reader_score card) both.readers
select_reader-IsLeast_example = select_reader-IsLeast 0x1810 0 50 both 1 card both_chosen

serve_backoff_example :
    usable 0x1810 0 60 (serve card 50 offline).0
    ≡ (leb (50 + retry_backoff_seconds) 60 && usable 0x1810 0 60 (record card { state = ok }))
unfolding serve
serve_backoff_example = serve_backoff card 50 60 offline 0x1810 0 refl (omega arith)

abbrev sender : Sender
sender = record { manager = both; ring = record { hash = λ i. 0; time = λ i. 0; slot = 0 } }

abbrev calls : List Call
calls =
    gets 0x1810 0 50 offline
    ∷ sends_emm 0x1810 (1 ∷ []) 50
        (λ r. record { connects = false; logs_in = false; builds = false; sends = false })
    ∷ adds card
    ∷ removes 2
    ∷ updates 1 error
    ∷ reloads (card ∷ server ∷ [])
    ∷ []

calls-Roomy : Roomy sender calls
unfolding step get_cw send_emm seen_recently seen_below matches emm_hash select_reader select_from
    usable supports_caid supports_provid reader_score
calls-Roomy = (tt, (tt, (omega arith, (tt, (tt, (omega arith, tt))))))

run-ReadersInv_example : ReadersInv (run sender calls).manager
run-ReadersInv_example = run-ReadersInv sender calls calls-Roomy both-ReadersInv
