-- ===== src/Timer/Reading.antt =====
-- The numbers that a timer shows: `timerVars` of bundles/notGT/src/shared/timer.ts.
use not_gt.Base.{
  ℕ, ◌+◌, ◌-◌, ◌*◌, ◌/◌, ◌%◌, ◌≤◌, ◌<◌, ◌≡◌, ◌↔◌, Bool, true, false, arith, if◌then◌else◌, show_nat,
  codes, ap,
}
use not_gt.Base.Int.{
  ℤ, pos, negsuc, sub_ℕ, pos_part, neg_part, abs, ◌<ℤ◌, ◌-ℤ◌, min_ℤ, ltb_ℤ, leb_ℤ,
}
use not_gt.Timer.{
  Timer, TimerMode, has_tenths, is_down, timer_elapsed, timer_end, timer_value, clock_div,
  floor_div, trunc_div, steps, tenths_total, seconds_total, is_negative, abs_seconds, timer_vars,
}

-- `whole` is `value` in steps of `k`, rounded up or down.
abbrev pub IsCeil : ℕ → ℤ → ℤ → Type 0
IsCeil k value whole =
    (pos_part value + k * neg_part whole ≤ k * pos_part whole + neg_part value)
    × (k * pos_part whole + neg_part value < pos_part value + k * neg_part whole + k)

abbrev pub IsFloor : ℕ → ℤ → ℤ → Type 0
IsFloor k value whole =
    (k * pos_part whole + neg_part value ≤ pos_part value + k * neg_part whole)
    × (pos_part value + k * neg_part whole < k * pos_part whole + neg_part value + k)

clock_div-IsCeil_1000 : (v : ℤ) → IsCeil 1000 v (clock_div v 1000)
clock_div-IsCeil_1000 (pos n) = omega arith
clock_div-IsCeil_1000 (negsuc n) = ground arith

clock_div-IsCeil_100 : (v : ℤ) → IsCeil 100 v (clock_div v 100)
clock_div-IsCeil_100 (pos n) = omega arith
clock_div-IsCeil_100 (negsuc n) = ground arith

floor_div-IsFloor_1000 : (v : ℤ) → IsFloor 1000 v (floor_div v 1000)
floor_div-IsFloor_1000 (pos n) = omega arith
floor_div-IsFloor_1000 (negsuc n) = omega arith

floor_div-IsFloor_100 : (v : ℤ) → IsFloor 100 v (floor_div v 100)
floor_div-IsFloor_100 (pos n) = omega arith
floor_div-IsFloor_100 (negsuc n) = omega arith

-- The sign is put back on the absolute number of seconds.
signed-abs : (x : ℤ) → (if ltb_ℤ x (pos 0) then sub_ℕ 0 (abs x) else pos (abs x)) ≡ x
signed-abs (pos n) = ground arith
signed-abs (negsuc n) = ground arith

steps_1000 :
    (t : Timer) (v : ℤ)
    → if is_down t.mode then IsCeil 1000 v (steps t v 1000) else IsFloor 1000 v (steps t v 1000)
unfolding steps
steps_1000 t v = go t.mode
  where
    go :
        (m : TimerMode)
        → let whole = if is_down m then clock_div v 1000 else floor_div v 1000 in
          if is_down m then IsCeil 1000 v whole else IsFloor 1000 v whole
    go TimerMode.down = clock_div-IsCeil_1000 v
    go TimerMode.up = floor_div-IsFloor_1000 v

pub steps_100 :
    (t : Timer) (v : ℤ)
    → if is_down t.mode then IsCeil 100 v (steps t v 100) else IsFloor 100 v (steps t v 100)
unfolding steps
steps_100 t v = go t.mode
  where
    go :
        (m : TimerMode)
        → let whole = if is_down m then clock_div v 100 else floor_div v 100 in
          if is_down m then IsCeil 100 v whole else IsFloor 100 v whole
    go TimerMode.down = clock_div-IsCeil_100 v
    go TimerMode.up = floor_div-IsFloor_100 v

-- The whole seconds are the exact value rounded up on a countdown, so away from zero before its end and
-- towards zero past it, and down on a stopwatch; in every format but the one with tenths.
pub total_seconds_rounding :
    (t : Timer) (now : ℕ)
    → has_tenths t.format ≡ false
    → if is_down t.mode
      then IsCeil 1000 (timer_value t now) (timer_vars t now).total_seconds
      else IsFloor 1000 (timer_value t now) (timer_vars t now).total_seconds
unfolding timer_vars abs_seconds is_negative seconds_total
total_seconds_rounding t now h = rw (h, signed-abs) (steps_1000 t (timer_value t now))

abs-signed : (b : Bool) (n : ℕ) → abs (if b then sub_ℕ 0 n else pos n) ≡ n
abs-signed b n = ground arith

abs-trunc_div : (x : ℤ) → abs (trunc_div x 10) ≡ abs x / 10
abs-trunc_div (pos n) = omega arith
abs-trunc_div (negsuc n) = ground arith

pub abs_seconds-tenths :
    (t : Timer) (now : ℕ)
    → has_tenths t.format ≡ true
    → abs_seconds t now ≡ abs (tenths_total t now) / 10
unfolding abs_seconds seconds_total
abs_seconds-tenths t now h = rw h (abs-trunc_div (tenths_total t now))

pub abs-total_seconds_tenths :
    (t : Timer) (now : ℕ)
    → has_tenths t.format ≡ true
    → abs (timer_vars t now).total_seconds ≡ abs (tenths_total t now) / 10
unfolding timer_vars abs_seconds seconds_total
abs-total_seconds_tenths t now h = rw (abs-signed, h) (abs-trunc_div (tenths_total t now))

tenths_of : (x y : ℕ) → y ≡ x / 10 → x % 10 ≡ x - 10 * y
tenths_of x y h = omega arith

sign_iff : (x : ℤ) → ((if ltb_ℤ x (pos 0) then codes "-" else codes "") ≡ codes "-") ↔ (x <ℤ pos 0)
sign_iff x = ground arith

-- With tenths, the digits shown are those of the exact value in tenths, rounded up on a countdown
-- and down on a stopwatch: the seconds, the tenth and the sign fit together.
pub tenths_reading :
    (t : Timer) (now : ℕ)
    → has_tenths t.format ≡ true
    → ((timer_vars t now).t
        ≡ show_nat (abs (tenths_total t now) - 10 * abs (timer_vars t now).total_seconds))
      × (10 * abs (timer_vars t now).total_seconds ≤ abs (tenths_total t now))
      × (abs (tenths_total t now) < 10 * abs (timer_vars t now).total_seconds + 10)
      × (((timer_vars t now).sign ≡ codes "-") ↔ (tenths_total t now <ℤ pos 0))
      × (if is_down t.mode
          then IsCeil 100 (timer_value t now) (tenths_total t now)
          else IsFloor 100 (timer_value t now) (tenths_total t now))
unfolding timer_vars abs_seconds is_negative seconds_total
tenths_reading t now h =
    let whole = abs-total_seconds_tenths t now h in
    (
      ap show_nat (tenths_of (abs (tenths_total t now)) _ whole),
      omega (arith, whole),
      omega (arith, whole),
      rw h (sign_iff (tenths_total t now)),
      unfold tenths_total in steps_100 t (timer_value t now),
    )

-- In the other formats a countdown's `t` does not go with its seconds, which are rounded up by
-- themselves: while the milliseconds that are left beyond whole seconds are from 1 to 900, the seconds
-- and the tenth read together at least a whole second more than is left.
pub tenths_ahead :
    (t : Timer) (now left : ℕ)
    → has_tenths t.format ≡ false
    → t.mode ≡ TimerMode.down
    → timer_value t now ≡ pos left
    → 0 < left % 1000
    → left % 1000 ≤ 900
    → (seconds : ℕ) × (tenth : ℕ) × ((timer_vars t now).total_seconds ≡ pos seconds)
      × ((timer_vars t now).t ≡ show_nat tenth)
      × (left + 1000 ≤ 1000 * seconds + 100 * tenth)
unfolding timer_vars abs_seconds is_negative seconds_total tenths_total steps
tenths_ahead t now left f m e h k = (
  (left + 999) / 1000,
  (left + 99) / 100 % 10,
  rw (f, e, m) (signed-abs (pos ((left + 999) / 1000))),
  rw (e, m) (ap show_nat (omega arith)),
  omega arith,
)

done_iff_none_left :
    (d : ℕ) (x : ℤ) → (leb_ℤ (pos d) x ≡ true) ↔ (clock_div (pos d -ℤ min_ℤ (pos d) x) 100 ≡ pos 0)
unfolding min_ℤ ◌-ℤ◌
done_iff_none_left d x = ground arith

-- A countdown that has a duration and stops at zero reads zero, in tenths, exactly when it is
-- done, in every format.
pub done_iff_zero :
    (t : Timer) (now : ℕ)
    → t.mode ≡ TimerMode.down
    → t.overtime ≡ false
    → 0 < t.duration_ms
    → ((timer_vars t now).done ≡ true) ↔ (tenths_total t now ≡ pos 0)
unfolding timer_vars tenths_total steps timer_value timer_end
done_iff_zero t now m o d = ground (arith, done_iff_none_left t.duration_ms (timer_elapsed t now))
