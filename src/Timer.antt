-- ===== src/Timer.antt =====
-- bundles/notGT/src/shared/timer.ts: a timer and the value that it shows at a moment.
-- Times are whole milliseconds: `now` and `startedAt` since the epoch, a duration is not negative,
-- and what was counted is an integer, since a countdown may be given more time than it started with.
pub mod Fold
pub mod Clock
pub mod Reading
pub mod Parse
pub mod RoundTrip
use not_gt.Base.{
  ℕ, ◌+◌, ◌-◌, ◌/◌, ◌%◌, min, Text, codes, Bool, true, false, not, ◌&&◌, ◌||◌, Option, none, some,
  List, [], ◌∷◌, ◌++◌, ◌==◌, ltb, if◌then◌else◌, is_some, is_empty, any, includes, Dict, insert,
  lookup, erase, show_nat, pad_start,
}
use not_gt.Base.Int.{ℤ, pos_part, pos, negsuc, abs, sub_ℕ, ◌+ℤ◌, ◌-ℤ◌, leb_ℤ, ltb_ℤ, min_ℤ, max_ℤ}

pub data TimerMode : Type 0 where
  down up : TimerMode

pub data TimerFormat : Type 0 where
  auto hh_mm_ss mm_ss ss mm_ss_t : TimerFormat

pub record Timer : Type 0 where
  pub id : Text
  pub name : Text
  pub key : Text
  pub mode : TimerMode
  pub duration_ms : ℕ
  pub overtime : Bool
  pub format : TimerFormat
  pub running : Bool
  pub started_at : Option ℕ
  pub elapsed_ms : ℤ
  pub groups : List Text
  pub created_at : ℕ
  pub updated_at : ℕ

-- 100 hours.
abbrev pub timer_max_ms : ℕ
timer_max_ms = 360000000

unfoldable pub new_timer_defaults : (id name key : Text) → (now : ℕ) → (groups : List Text) → Timer
new_timer_defaults id name key now groups = record {
  id = id;
  name = name;
  key = key;
  mode = TimerMode.down;
  duration_ms = 300000;
  overtime = false;
  format = TimerFormat.auto;
  running = false;
  started_at = none;
  elapsed_ms = pos 0;
  groups = groups;
  created_at = now;
  updated_at = now;
}

-- `Math.max(0, now - startedAt)`: subtraction of natural numbers stops at 0.
abbrev pub run_ms : Bool → Option ℕ → ℕ → ℕ
run_ms true (some started) now = now - started
run_ms true none now = 0
run_ms false started now = 0

unfoldable pub timer_elapsed : Timer → ℕ → ℤ
timer_elapsed t now = t.elapsed_ms +ℤ pos (run_ms t.running t.started_at now)

abbrev pub is_down : TimerMode → Bool
is_down TimerMode.down = true
is_down TimerMode.up = false

unfoldable pub timer_end : Timer → Option ℕ
timer_end t =
    if t.duration_ms == 0
    then none
    else if is_down t.mode && t.overtime
    then none
    else some t.duration_ms

abbrev pub counted : Option ℕ → ℤ → ℤ
counted none elapsed = elapsed
counted (some e) elapsed = min_ℤ (pos e) elapsed

unfoldable pub timer_value : Timer → ℕ → ℤ
timer_value t now =
    let elapsed = counted (timer_end t) (timer_elapsed t now) in
    if is_down t.mode then pos t.duration_ms -ℤ elapsed else elapsed

unfoldable pub elapsed_for_value : Timer → ℤ → ℤ
elapsed_for_value t value =
    if is_down t.mode
    then pos t.duration_ms -ℤ max_ℤ (if t.overtime then sub_ℕ 0 timer_max_ms else pos 0) value
    else max_ℤ (pos 0) value

-- `Math.floor(v / step)`, and the same rounded up for `v ≥ 0` and away from zero below it.
abbrev floor_div : ℤ → ℕ → ℤ
floor_div (pos n) step = pos (n / step)
floor_div (negsuc n) step = negsuc (n / step)

abbrev clock_div : ℤ → ℕ → ℤ
clock_div (pos n) step = pos ((n + (step - 1)) / step)
clock_div (negsuc n) step = sub_ℕ 0 ((n + 1) / step)

unfoldable pub steps : Timer → ℤ → ℕ → ℤ
steps t value step = if is_down t.mode then clock_div value step else floor_div value step

-- `Math.trunc(v / 10)`.
abbrev trunc_div : ℤ → ℕ → ℤ
trunc_div (pos n) k = pos (n / k)
trunc_div (negsuc n) k = sub_ℕ 0 ((n + 1) / k)

abbrev pub has_tenths : TimerFormat → Bool
has_tenths TimerFormat.mm_ss_t = true
has_tenths _ = false

unfoldable pub tenths_total : Timer → ℕ → ℤ
tenths_total t now = steps t (timer_value t now) 100

unfoldable pub seconds_total : Timer → ℕ → ℤ
seconds_total t now =
    if has_tenths t.format
    then trunc_div (tenths_total t now) 10
    else steps t (timer_value t now) 1000

unfoldable pub is_negative : Timer → ℕ → Bool
is_negative t now =
    if has_tenths t.format
    then ltb_ℤ (tenths_total t now) (pos 0)
    else ltb_ℤ (seconds_total t now) (pos 0)

unfoldable pub abs_seconds : Timer → ℕ → ℕ
abs_seconds t now = abs (seconds_total t now)

unfoldable pub pad : ℕ → Text
unfolding pad_start show_nat
pad value = pad_start 2 (show_nat value)

-- The `switch` on the format: hours, minutes within the hour, all minutes, seconds, tenths.
abbrev pub clock_text : TimerFormat → (abs hours minutes seconds tenths : ℕ) → Text
clock_text TimerFormat.hh_mm_ss abs hours minutes seconds tenths =
    pad hours ++ b':' ∷ (pad minutes ++ b':' ∷ pad seconds)
clock_text TimerFormat.mm_ss abs hours minutes seconds tenths = pad (abs / 60) ++ b':' ∷ pad seconds
clock_text TimerFormat.ss abs hours minutes seconds tenths = show_nat abs
clock_text TimerFormat.mm_ss_t abs hours minutes seconds tenths =
    pad (abs / 60) ++ b':' ∷ (pad seconds ++ b'.' ∷ show_nat tenths)
clock_text TimerFormat.auto abs hours minutes seconds tenths =
    if ltb 0 hours
    then show_nat hours ++ b':' ∷ (pad minutes ++ b':' ∷ pad seconds)
    else pad minutes ++ b':' ∷ pad seconds

pub record TimerVars : Type 0 where
  pub text : Text
  pub hh : Text
  pub mm : Text
  pub ss : Text
  pub t : Text
  pub sign : Text
  pub total_seconds : ℤ
  pub ms : ℤ
  -- A fraction: what was counted, held within the duration, and the duration.
  pub progress : ℕ × ℕ
  pub running : Bool
  pub done : Bool
  pub overtime : Bool
  pub name : Text

abbrev reached : Option ℕ → ℤ → Bool
reached none elapsed = false
reached (some e) elapsed = leb_ℤ (pos e) elapsed

abbrev is_done : Timer → ℤ → Bool
is_done t elapsed =
    if is_some (timer_end t)
    then reached (timer_end t) elapsed
    else is_down t.mode && ltb 0 t.duration_ms && leb_ℤ (pos t.duration_ms) elapsed

unfoldable pub timer_vars : Timer → ℕ → TimerVars
timer_vars t now =
    let total = abs_seconds t now in
    let hours = total / 3600 in
    let minutes = total % 3600 / 60 in
    let seconds = total % 60 in
    let tenths = abs (tenths_total t now) % 10 in
    let sign : Text = if is_negative t now then codes "-" else codes "" in
    let elapsed = timer_elapsed t now in
    record {
      text = sign ++ clock_text t.format total hours minutes seconds tenths;
      hh = pad hours;
      mm = pad minutes;
      ss = pad seconds;
      t = show_nat tenths;
      sign = sign;
      total_seconds = if is_negative t now then sub_ℕ 0 total else pos total;
      ms = timer_value t now;
      progress =
          if ltb 0 t.duration_ms
          then (min t.duration_ms (pos_part elapsed), t.duration_ms)
          else (0, 1);
      running = t.running && not (reached (timer_end t) elapsed);
      done = is_done t elapsed;
      overtime = is_down t.mode && ltb_ℤ (timer_value t now) (pos 0);
      name = t.name;
    }

-- Every timer's variables, by key.
collect_vars : Dict TimerVars → List Timer → ℕ → Dict TimerVars
collect_vars out [] now = out
collect_vars out (t ∷ ts) now = collect_vars (insert t.key (timer_vars t now) out) ts now

unfoldable pub timers_vars : List Timer → ℕ → Dict TimerVars
unfolding collect_vars
timers_vars ts now = collect_vars [] ts now

-- The values of the variable store are `V`, and `group` is a group of variables as one of them.
module _ {ℓ} {V : Type ℓ} where
  unfoldable pub with_timers : (Dict TimerVars → V) → Dict V → List Timer → ℕ → Dict V
  with_timers group vars [] now = vars
  with_timers group vars (t ∷ ts) now =
      insert (codes "timer") (group (timers_vars (t ∷ ts) now)) vars

  unfoldable pub without_timers : Dict V → Dict V
  without_timers vars =
      if is_some (lookup (codes "timer") vars) then erase (codes "timer") vars else vars

unfoldable pub timer_tick_ms : List Timer → ℕ
timer_tick_ms ts = if any (λ t. t.running && has_tenths t.format) ts then 50 else 200

-- Whoever reaches `groups` (none = every group) sees this timer.
unfoldable pub timer_within : Timer → Option (List Text) → Bool
timer_within t none = true
timer_within t (some groups) = is_empty t.groups || any (λ id. includes groups id) t.groups
