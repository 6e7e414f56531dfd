-- ===== src/Tests/Clocks.antt =====
-- The theorems about timers, at one input each.
use not_gt.Base.{
  ℕ, ◌+◌, ◌*◌, ◌≤◌, ◌≡◌, ◌≢◌, refl, codes, false, none, some, [], ◌∷◌, map, keep, arith, includes,
  ◌=t◌, trim, split_on, trim_end, trim_start, lookup, show_nat,
}
use not_gt.Base.Int.{pos, ◌+ℤ◌, abs, ◌-ℤ◌, min_ℤ, ◌≤ℤ◌}
use not_gt.Json.{str}
use not_gt.Timer.{
  Timer, steps, timer_vars, timer_value, timer_max_ms, timer_end, timer_elapsed, timer_within,
  tenths_total,
}
use not_gt.Timer.Fold.{folded}
use not_gt.Timer.Clock.{timer_value_mono}
use not_gt.Timer.Reading.{total_seconds_rounding, tenths_ahead, IsCeil}
use not_gt.Timer.Parse.{parse_timer_text, add_parts, read_decimal, comma_to_dot}
use not_gt.Slug.{slug_of, dashed, to_lower, unique_timer_key}
use not_gt.Slug.Unique.{unique_timer_key-fresh}
use not_gt.Slug.Laws.{IsSlug, slug_of-IsSlug}
use not_gt.Timers.Params.{Result, ok, Params, signed_time, settings, text, duration}
use not_gt.Timers.Params.Laws.{IsEdited, settings-IsEdited}
use not_gt.Timers.Params.Shown.{signed_time-text, shown_ms}
use not_gt.Timers.Settle.{State, write}
use not_gt.Timers.Settle.Termination.{IsSettled, write_settles, write_keeps_values}
use not_gt.Timers.Command.{
  TimerCommand, TimerResult, removed, reference, find_timer, command, edit, Env, timer, command_of,
  next_timer, pause_timer,
}
use not_gt.Timers.Command.Distinct.{ids}
use not_gt.Timers.Command.Keys.{IsValid}
use not_gt.Timers.Command.Edits.{IsEdit, edit-IsEdit}
use not_gt.Timers.Command.Invariant.{Answered, command-Answered}
use not_gt.Timers.Command.Access.{command_keeps_beyond, AreLookedAt, is_beyond}
use not_gt.Tests.{countdown, stopwatch, two_timers, timers_state, env}

two_timers-IsValid : IsValid two_timers
unfolding includes ◌=t◌
two_timers-IsValid = record {
  ids_distinct = (refl, (refl, tt));
  keys_distinct = (refl, (refl, tt));
  timers = (
    record { started = refl; bounded = omega arith },
    (record { started = refl; bounded = omega arith }, tt),
  );
}

abbrev pause_break : Params
pause_break = (codes "timer", str (codes "break")) ∷ []

free_id : includes (ids two_timers) (codes "t3") ≡ false
unfolding includes ◌=t◌
free_id = refl

command-Answered_example :
    (s' : State) × (r : Result TimerResult) × (command env
        (codes "pause")
        pause_break
        none
        timers_state
      ≡ some (s', r))
    × Answered env timers_state s' r
command-Answered_example =
    command-Answered env (codes "pause") pause_break none timers_state free_id two_timers-IsValid

removed_break :
    edit env TimerCommand.remove pause_break (some (codes "red" ∷ [])) two_timers
    ≡ ok (stopwatch ∷ [], removed (codes "t1"))
unfolding edit reference text lookup ◌=t◌ trim find_timer timer_within includes
removed_break = refl

edit-IsEdit_example : IsEdit env (some (codes "red" ∷ [])) two_timers (stopwatch ∷ [])
edit-IsEdit_example =
    edit-IsEdit env TimerCommand.remove pause_break (some (codes "red" ∷ [])) two_timers
      (stopwatch ∷ []) (removed (codes "t1")) two_timers-IsValid removed_break

blue_reach : some (codes "blue" ∷ []) ≢ some []
blue_reach h = cc

-- The countdown has ended when somebody who does not reach it pauses the stopwatch.
abbrev late : Env
late = record { now = 400000; new_id = codes "t3"; has_group = none; clock = λ k. 400000 }

abbrev pause_lap : Params
pause_lap = (codes "timer", str (codes "lap")) ∷ []

abbrev ended_break : Timer
ended_break = record countdown { running = false; started_at = none; elapsed_ms = pos 300000 }

abbrev paused_lap : Timer
paused_lap = record stopwatch { updated_at = 400000 }

abbrev paused_late : State
paused_late = record { list = ended_break ∷ paused_lap ∷ []; settle = none }

paused-command :
    command late (codes "pause") pause_lap (some (codes "blue" ∷ [])) timers_state
    ≡ some (paused_late, ok (timer paused_lap))
unfolding command command_of edit reference text lookup ◌=t◌ trim find_timer timer_within includes
    next_timer pause_timer write timer_end timer_elapsed ◌-ℤ◌ ◌+ℤ◌ folded min_ℤ
paused-command = refl

command_keeps_beyond_example :
    AreLookedAt late.clock
      (keep (is_beyond (some (codes "blue" ∷ []))) two_timers)
      (keep (is_beyond (some (codes "blue" ∷ []))) paused_late.list)
command_keeps_beyond_example =
    command_keeps_beyond (some (codes "blue" ∷ [])) late (codes "pause") pause_lap timers_state
      paused_late (ok (timer paused_lap)) blue_reach two_timers-IsValid paused-command

write_settles_example :
    (s : State) × (last : ℕ) × (write (λ k. 400000 + k) two_timers ≡ some s)
    × IsSettled (400000 + last) s
write_settles_example = write_settles (λ k. 400000 + k) two_timers

-- The countdown is over at 301000.
abbrev stopped : State
stopped = record {
  list =
      record countdown { running = false; started_at = none; elapsed_ms = pos 300000 }
      ∷ stopwatch
      ∷ [];
  settle = none;
}

stopped-write : write (λ k. 400000) two_timers ≡ some stopped
unfolding write timer_end ◌-ℤ◌ timer_elapsed ◌+ℤ◌ folded min_ℤ
stopped-write = refl

write_keeps_values_example :
    map (λ t. timer_value t 500000) stopped.list ≡ map (λ t. timer_value t 500000) two_timers
write_keeps_values_example =
    write_keeps_values (λ k. 400000) 500000 two_timers stopped (λ k. omega arith) stopped-write

shown_bound : abs (shown_ms stopwatch 5) ≤ timer_max_ms
unfolding tenths_total timer_value steps timer_end timer_elapsed ◌+ℤ◌
shown_bound = omega arith

signed_time-text_example : signed_time (timer_vars stopwatch 5).text ≡ some (shown_ms stopwatch 5)
signed_time-text_example = signed_time-text stopwatch 5 shown_bound

timer_value_mono_example : timer_value countdown 99000 ≤ℤ timer_value countdown 61000
timer_value_mono_example = timer_value_mono countdown 61000 99000 (omega arith)

total_seconds_rounding_example :
    IsCeil 1000 (timer_value countdown 61000) (timer_vars countdown 61000).total_seconds
total_seconds_rounding_example = total_seconds_rounding countdown 61000 refl

tenths_ahead_example :
    (seconds : ℕ) × (tenth : ℕ) × ((timer_vars countdown 61500).total_seconds ≡ pos seconds)
    × ((timer_vars countdown 61500).t ≡ show_nat tenth)
    × (239500 + 1000 ≤ 1000 * seconds + 100 * tenth)
unfolding timer_value ◌-ℤ◌ timer_end min_ℤ timer_elapsed ◌+ℤ◌
tenths_ahead_example =
    tenths_ahead countdown 61500 239500 refl refl refl (omega arith) (omega arith)

unique_timer_key-fresh_example :
    includes (codes "break" ∷ []) (unique_timer_key (codes "Break") (codes "break" ∷ [])) ≡ false
unique_timer_key-fresh_example = unique_timer_key-fresh (codes "Break") (codes "break" ∷ [])

x-IsSlug : IsSlug (codes "x")
unfolding slug_of trim_end trim_start dashed trim to_lower
x-IsSlug = slug_of-IsSlug (codes "x")

renamed :
    settings none ((codes "name", str (codes "Rest")) ∷ []) countdown (codes "lap" ∷ [])
    ≡ ok (record countdown { name = codes "Rest" })
unfolding settings lookup ◌=t◌ duration text trim
renamed = refl

settings-IsEdited_example :
    IsEdited (codes "lap" ∷ []) countdown (record countdown { name = codes "Rest" })
settings-IsEdited_example =
    settings-IsEdited none ((codes "name", str (codes "Rest")) ∷ []) countdown (codes "lap" ∷ [])
      (record countdown { name = codes "Rest" }) renamed

parse_tests :
    (parse_timer_text (codes "90") ≡ some 90000)
    × (parse_timer_text (codes " 1:30,5 ") ≡ some 90500)
    × (parse_timer_text (codes "01:30:00") ≡ some 5400000)
    × (parse_timer_text (codes "1:2:3:4") ≡ none)
    × (parse_timer_text (codes "1:") ≡ none)
    × (parse_timer_text (codes "100:00:01") ≡ none)
unfolding parse_timer_text add_parts read_decimal trim split_on comma_to_dot
parse_tests = (refl, refl, refl, refl, refl, refl)
