-- ===== src/Timers/Settle.antt =====
-- `write` and `scheduleSettle` of bundles/notGT/src/extension/timers.ts: the timers that have reached
-- their end are stopped, and one timeout waits for the next one.
pub mod Termination
use not_gt.Base.{
  ℕ, zero, suc, ◌+◌, Bool, true, false, not, ◌&&◌, ◌||◌, Option, none, some, List, [], ◌∷◌, map,
  min, length, leb, if◌then◌else◌,
}
use not_gt.Base.Int.{ℤ, pos, ◌-ℤ◌, leb_ℤ, pos_part}
use not_gt.Timer.{Timer, timer_elapsed, timer_end}
use not_gt.Timer.Fold.{folded}

-- The stored timers, and after how long the pending timeout looks again.
pub record State : Type 0 where
  pub list : List Timer
  pub settle : Option ℕ

-- What is left of a running timer that ends, `end - timerElapsed(timer, now)`.
abbrev left_of : Timer → ℕ → Option ℤ
left_of t now =
    if not t.running
    then none
    else elim (timer_end t) [ none ↦ none | some e ↦ some (pos e -ℤ timer_elapsed t now) ]

-- `due` and `next` of the scan; `none` is infinity.
pub record Scan : Type 0 where
  pub due : Bool
  pub next : Option ℕ

abbrev sooner : Option ℕ → ℕ → Option ℕ
sooner none left = some left
sooner (some n) left = some (min n left)

scan_one : Option ℤ → Scan → Scan
scan_one none s = s
scan_one (some left) s =
    if leb_ℤ left (pos 0)
    then record s { due = true }
    else record s { next = sooner s.next (pos_part left) }

unfoldable pub scan_from : Scan → ℕ → List Timer → Scan
unfolding scan_one
scan_from s now [] = s
scan_from s now (t ∷ ts) = scan_from (scan_one (left_of t now) s) now ts

abbrev pub is_over : Timer → ℕ → Bool
is_over t now = elim (timer_end t) [ none ↦ false | some e ↦ leb_ℤ (pos e) (timer_elapsed t now) ]

abbrev pub is_due : Timer → ℕ → Bool
is_due t now = t.running && is_over t now

abbrev pub stop_due : ℕ → Timer → Timer
stop_due now t = if is_due t now then folded t now else t

-- `Math.min(60_000, next + 5)`.
abbrev timeout : Option ℕ → Option ℕ
timeout none = none
timeout (some next) = some (min 60000 (next + 5))

-- `clock k` is what the k-th look reads from `Date.now()`. Each look that stops a timer writes, and
-- so looks again: the fuel bounds the looks.
unfoldable pub schedule_settle : ℕ → (ℕ → ℕ) → ℕ → List Timer → Option State
unfolding scan_from
schedule_settle zero clock k ts = none
schedule_settle (suc fuel) clock k ts =
    let s = scan_from (record { due = false; next = none }) (clock k) ts in
    let again = schedule_settle fuel clock (k + 1) (map (stop_due (clock k)) ts) in
    if s.due then again else some (record { list = ts; settle = timeout s.next })

-- One look more than there are timers.
unfoldable pub write : (ℕ → ℕ) → List Timer → Option State
unfolding schedule_settle
write clock ts = schedule_settle (suc (length ts)) clock 0 ts
