-- ===== src/Server/RateLimit.antt =====
-- src/core/cccam3_server.c, client_ecm_allowed: at most `limit` ECM requests of a client in a second.
-- The limit is g_config.max_ecm_per_sec, where 0 stands for every value that is not positive;
-- `now` is time(NULL), and a window that has not begun has the start 0.
pub mod Bounds
mod Tests
use cccam_3_0_1_by_sharillas.Base.{ℕ, ◌+◌, Bool, true, false, ◌||◌, not, ltb, ◌==◌, if◌then◌else◌}

-- `ecm_window_start` and `ecm_window_count` of `cccam_client_t`
pub record Window : Type 0 where
  pub start : ℕ
  pub count : ℕ

-- `client_ecm_allowed`; `now - start >= 1` in signed numbers is `start < now`.
unfoldable pub ecm_allowed : ℕ → Window → ℕ → Window × Bool
ecm_allowed limit w now =
    if limit == 0
    then (w, true)
    else (if w.start == 0 || ltb w.start now
        then (record { start = now; count = 1 }, true)
        else (record w { count = w.count + 1 }, not (ltb limit (w.count + 1))))
