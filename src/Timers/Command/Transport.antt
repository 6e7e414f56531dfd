-- ===== src/Timers/Command/Transport.antt =====
-- What start, pause, toggle, set and adjust do to what a timer shows.
use not_gt.Base.{ℕ, ◌+◌, ◌-◌, ◌≡◌, ap, ◌∙◌, false, Option, none, if◌then◌else◌, arith}
use not_gt.Base.Int.{ℤ, pos, ◌+ℤ◌, min_ℤ}
use not_gt.Timer.{Timer, counted, timer_elapsed, timer_end, timer_value, elapsed_for_value, run_ms}
use not_gt.Timer.Fold.{folded, rebased}
use not_gt.Timer.Clock.{timer_value-folded, settable, timer_value-set, over}
use not_gt.Timers.Command.{pause_timer, toggle_timer, set_timer, adjust_timer}

-- A timer that does not run shows the same at all times.
timer_value_still :
    (t : Timer) (now later : ℕ) → t.running ≡ false → timer_value t later ≡ timer_value t now
unfolding timer_value timer_elapsed
timer_value_still t now later h = ground arith

-- Whatever state the timer is in, after a pause it shows for good what it showed at that moment.
pub timer_value-pause_timer :
    (t : Timer) (now later : ℕ) → timer_value (pause_timer now t) later ≡ timer_value t now
unfolding pause_timer
timer_value-pause_timer t now later =
    ground (arith, timer_value-folded t now later, timer_value_still t now later)

-- What rebasing leaves as it is, and that nothing is counted yet.
record IsRebased (t b : Timer) (now : ℕ) : Type 0 where
  mode_kept : b.mode ≡ t.mode
  overtime_kept : b.overtime ≡ t.overtime
  duration_kept : b.duration_ms ≡ t.duration_ms
  fresh : run_ms b.running b.started_at now ≡ 0

rebased-IsRebased : (t : Timer) (now : ℕ) → IsRebased t (rebased t now) now
unfolding rebased
rebased-IsRebased t now = ground arith

set_rebased :
    (t b : Timer) (now : ℕ) (v : ℤ)
    → IsRebased t b now
    → timer_value (record b { elapsed_ms = elapsed_for_value b v }) now
      ≡ settable t.mode t.overtime t.duration_ms v
set_rebased t b now v h = timer_value-set b now v h.fresh ∙ λ i.
    settable (h.mode_kept i) (h.overtime_kept i) (h.duration_kept i) v

-- `set` makes a timer, running or not, show what it is set to at that moment: on a countdown not
-- less than zero or, with overtime, than minus 100 hours, and on a stopwatch not less than zero
-- and not more than its limit, if it has one.
pub timer_value-set_timer :
    (t : Timer) (now : ℕ) (v : ℤ)
    → timer_value (set_timer now v t) now ≡ settable t.mode t.overtime t.duration_ms v
unfolding set_timer
timer_value-set_timer t now v = set_rebased t (rebased t now) now v (rebased-IsRebased t now)

counted_again : (e : Option ℕ) (x : ℤ) → counted e (counted e x +ℤ pos 0) ≡ counted e x
unfolding min_ℤ ◌+ℤ◌
counted_again e x = ground arith

-- Rebasing keeps what is shown at that very moment.
timer_value-rebased_now :
    (t : Timer) (now : ℕ) → timer_value (rebased t now) now ≡ timer_value t now
unfolding timer_value rebased timer_elapsed timer_end
timer_value-rebased_now t now =
    ground
      (arith, counted_again (timer_end t) (t.elapsed_ms +ℤ pos (run_ms t.running t.started_at now)))

rebased_still : (t : Timer) (now : ℕ) → (if t.running then rebased t now else t) ≡ rebased t now
unfolding rebased
rebased_still t now = ground arith

-- `adjust` adds to what the timer shows at that moment: on a countdown not below zero or, with
-- overtime, minus 100 hours, and on a stopwatch not below zero and not above its limit, if it has
-- one.
pub timer_value-adjust_timer :
    (t : Timer) (now : ℕ) (delta : ℤ)
    → timer_value (adjust_timer now delta t) now
      ≡ settable t.mode t.overtime t.duration_ms (timer_value t now +ℤ delta)
unfolding adjust_timer
timer_value-adjust_timer t now delta = rw rebased_still (
    set_rebased t (rebased t now) now _ (rebased-IsRebased t now)
    ∙ ap (λ v. settable t.mode t.overtime t.duration_ms (v +ℤ delta))
        (timer_value-rebased_now t now))

-- From where a stopped timer starts to count: over again if it has run out.
abbrev pub starts_from : Timer → ℤ
starts_from t = if over (timer_end t) t.elapsed_ms then pos 0 else t.elapsed_ms

-- A stopped timer that is toggled on, and toggled off `run` milliseconds later, has counted exactly
-- that much more, up to its end; and it is stopped again.
pub toggle_timer_twice :
    (t : Timer) (now run : ℕ)
    → t.running ≡ false
    → let u = toggle_timer (now + run) (toggle_timer now t) in
      (u.running ≡ false)
      × (u.started_at ≡ none)
      × (u.elapsed_ms ≡ counted (timer_end t) (starts_from t +ℤ pos run))
unfolding toggle_timer folded timer_elapsed timer_end
toggle_timer_twice t now run h = ground (arith, plus now run)
  where
    plus : (a b : ℕ) → a + b - a ≡ b
    plus a b = omega arith
