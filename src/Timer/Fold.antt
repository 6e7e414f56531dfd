-- ===== src/Timer/Fold.antt =====
-- `folded` and `rebased` of bundles/notGT/src/extension/timers.ts.
use not_gt.Base.{ℕ, true, false, none, some, if◌then◌else◌, not}
use not_gt.Timer.{Timer, counted, timer_elapsed, timer_end}

-- The timer, stopped where it is.
unfoldable pub folded : Timer → ℕ → Timer
folded t now = record t {
  running = false;
  started_at = none;
  elapsed_ms = counted (timer_end t) (timer_elapsed t now);
}

-- A running timer with its clock restarted from `now`.
unfoldable pub rebased : Timer → ℕ → Timer
unfolding folded
rebased t now =
    if not t.running then t else record (folded t now) { running = true; started_at = some now }
