-- ===== src/Timers/Command.antt =====
-- `command` of bundles/notGT/src/extension/timers.ts: what each command makes of the list of timers,
-- what it refuses, and what it answers.
pub mod Distinct
pub mod Keys
pub mod Edits
pub mod Invariant
pub mod Transport
pub mod Access
use not_gt.Base.{
  unique, ℕ, zero, suc, ◌+◌, Text, codes, Bool, true, false, not, ◌&&◌, ◌||◌, Option, none, some,
  List, [], ◌∷◌, ◌++◌, map, find, keep, length, if◌then◌else◌, is_some, is_empty, get_or, Dict,
  lookup, erase, ◌=t◌, show_nat, any, includes,
}
use not_gt.Base.Int.{ℤ, pos, ◌+ℤ◌, leb_ℤ}
use not_gt.Json.{Value, undef, str}
use not_gt.Slug.{unique_timer_key}
use not_gt.Timer.{
  Timer, TimerMode, new_timer_defaults, timer_elapsed, timer_end, timer_value, elapsed_for_value,
  timer_within,
}
use not_gt.Timer.Fold.{folded, rebased}
use not_gt.Timers.Params.{
  TimerError, Result, ok, err, ◌>>=◌, or_fail, Params, param, is_defined, text, duration, settings,
}
use not_gt.Timers.Settle.{State, is_over, write}

pub data TimerCommand : Type 0 where
  create update remove start pause toggle reset restart set adjust : TimerCommand

-- `isCommand`, and the command that the name is.
unfoldable pub command_of : Text → Option TimerCommand
command_of s =
    if s =t codes "create"
    then some TimerCommand.create
    else if s =t codes "update"
    then some TimerCommand.update
    else if s =t codes "remove"
    then some TimerCommand.remove
    else if s =t codes "start"
    then some TimerCommand.start
    else if s =t codes "pause"
    then some TimerCommand.pause
    else if s =t codes "toggle"
    then some TimerCommand.toggle
    else if s =t codes "reset"
    then some TimerCommand.reset
    else if s =t codes "restart"
    then some TimerCommand.restart
    else if s =t codes "set"
    then some TimerCommand.set
    else if s =t codes "adjust"
    then some TimerCommand.adjust
    else none

-- What a command reads: the time, the id that `newId` gives, the groups that there are, and what
-- the clock reads at each look after the write.
pub record Env : Type 0 where
  pub now : ℕ
  pub new_id : Text
  pub has_group : Option (Text → Bool)
  pub clock : ℕ → ℕ

pub data TimerResult : Type 0 where
  timer : Timer → TimerResult
  removed : Text → TimerResult

abbrev pub keys : List Timer → List Text
keys = map (λ t. t.key)

abbrev pub is_timer : Text → Timer → Bool
is_timer ref t = (t.id =t ref) || (t.key =t ref)

unfoldable pub find_timer : List Timer → Text → Option Timer
find_timer ts ref = find (is_timer ref) ts

abbrev is_up : Value → Bool
is_up (str s) = s =t codes "up"
is_up _ = false

-- The settings of a new timer before its parameters are read.
new_base : Env → Params → Option (List Text) → List Timer → Timer
unfolding new_timer_defaults
new_base env params reach ts =
    let base =
      new_timer_defaults env.new_id (codes "Timer " ++ show_nat (length ts + 1)) [] env.now
        (get_or reach []) in
    if is_up (param params (codes "mode"))
      && not (is_defined (param params (codes "duration")))
      && not (is_defined (param params (codes "durationMs")))
    then record base { duration_ms = 0 }
    else base

with_key : List Timer → Timer → Timer
with_key ts t = if is_empty t.key then record t { key = unique_timer_key t.name (keys ts) } else t

-- Whoever reaches only some groups keeps the timer shared with them.
share : Option (List Text) → Timer → Timer
share none t = t
share (some reach) t =
    if timer_within t (some reach) then t else record t { groups = unique (t.groups ++ reach) }

finish_new : Option (List Text) → List Timer → Timer → Result Timer
unfolding with_key share
finish_new reach ts t = ok (share reach (with_key ts t))

create_timer : Env → Params → Option (List Text) → List Timer → Result Timer
unfolding new_base finish_new
create_timer env params reach ts =
    settings env.has_group params (new_base env params reach ts) (keys ts) >>= finish_new reach ts

-- The text that names the timer.
unfoldable pub reference : Params → Option Text
reference params = elim (text (param params (codes "timer"))) [
  | some r ↦ some r
  | none ↦ elim (text (param params (codes "id"))) [
    | some r ↦ some r
    | none ↦ text (param params (codes "key"))
  ]
]

-- Not the timer itself, by id.
abbrev pub is_other : Timer → Timer → Bool
is_other current t = not (t.id =t current.id)

-- A timer's own key among the parameters names it and is no new key.
update_params : Timer → Params → Params
update_params current params = elim (param params (codes "key")) [
  | str k ↦ if k =t current.key then erase (codes "key") params else params
  | _ ↦ params
]

-- The timer stays shared with whoever asks, and is stopped if its new end is past.
finish_update : Env → Option (List Text) → Timer → Result Timer
finish_update env reach next =
    if not (timer_within next reach)
    then err TimerError.forbidden
    else ok (if next.running && is_over next env.now then folded next env.now else next)

update_timer : Env → Params → Option (List Text) → List Timer → Timer → Result Timer
unfolding update_params finish_update
update_timer env params reach ts current =
    settings env.has_group (update_params current params) (rebased current env.now)
      (keys (keep (is_other current) ts))
    >>= finish_update env reach

unfoldable pub start_timer : ℕ → Timer → Timer
start_timer now t =
    let over : Bool = elim (timer_end t) [ none ↦ false | some e ↦ leb_ℤ (pos e) t.elapsed_ms ] in
    if t.running then t else record t {
      running = true;
      started_at = some now;
      elapsed_ms = if over then pos 0 else t.elapsed_ms;
    }

unfoldable pub pause_timer : ℕ → Timer → Timer
pause_timer now t = if t.running then folded t now else t

unfoldable pub toggle_timer : ℕ → Timer → Timer
unfolding start_timer pause_timer
toggle_timer now t = if t.running then pause_timer now t else start_timer now t

unfoldable pub reset_timer : Timer → Timer
reset_timer t = record t { running = false; started_at = none; elapsed_ms = pos 0 }

unfoldable pub restart_timer : ℕ → Timer → Timer
restart_timer now t = record t { running = true; started_at = some now; elapsed_ms = pos 0 }

unfoldable pub set_timer : ℕ → ℤ → Timer → Timer
set_timer now value t =
    let base = rebased t now in record base { elapsed_ms = elapsed_for_value base value }

unfoldable pub adjust_timer : ℕ → ℤ → Timer → Timer
adjust_timer now delta t =
    let base = if t.running then rebased t now else t in
    record base { elapsed_ms = elapsed_for_value base (timer_value base now +ℤ delta) }

given : Params → Text → Result ℤ
given params name = do value ← duration params name; or_fail value TimerError.bad_request

-- The `switch` on the command: the timer as it is to be stored.
unfoldable pub next_timer :
    Env → TimerCommand → Params → Option (List Text) → List Timer → Timer → Result Timer
unfolding update_timer given
next_timer env TimerCommand.update params reach ts t = update_timer env params reach ts t
next_timer env TimerCommand.start params reach ts t = ok (start_timer env.now t)
next_timer env TimerCommand.pause params reach ts t = ok (pause_timer env.now t)
next_timer env TimerCommand.toggle params reach ts t = ok (toggle_timer env.now t)
next_timer env TimerCommand.reset params reach ts t = ok (reset_timer t)
next_timer env TimerCommand.restart params reach ts t = ok (restart_timer env.now t)
next_timer env TimerCommand.set params reach ts t =
    given params (codes "value") >>= λ value. ok (set_timer env.now value t)
next_timer env TimerCommand.adjust params reach ts t =
    given params (codes "delta") >>= λ delta. ok (adjust_timer env.now delta t)
next_timer env _ params reach ts t = err TimerError.bad_request

abbrev pub put : Timer → Timer → Timer → Timer
put current next t = if t.id =t current.id then next else t

stamped : ℕ → Timer → Timer
stamped now t = record t { updated_at = now }

store_next : Env → List Timer → Timer → Timer → Result (List Timer × TimerResult)
unfolding stamped
store_next env ts t next = ok (map (put t (stamped env.now next)) ts, timer (stamped env.now next))

-- A command on the timer that the parameters name.
on_timer :
    Env
    → TimerCommand
    → Params
    → Option (List Text)
    → List Timer
    → Timer
    → Result (List Timer × TimerResult)
unfolding store_next
on_timer env TimerCommand.remove params reach ts t = ok (keep (is_other t) ts, removed t.id)
on_timer env c params reach ts t = next_timer env c params reach ts t >>= store_next env ts t

guarded :
    Env
    → TimerCommand
    → Params
    → Option (List Text)
    → List Timer
    → Timer
    → Result (List Timer × TimerResult)
unfolding on_timer
guarded env c params reach ts t =
    if timer_within t reach then on_timer env c params reach ts t else err TimerError.forbidden

edit_named :
    Env
    → TimerCommand
    → Params
    → Option (List Text)
    → List Timer
    → Result (List Timer × TimerResult)
unfolding guarded
edit_named env c params reach ts = do
  ref ← or_fail (reference params) TimerError.bad_request
  t ← or_fail (find_timer ts ref) TimerError.not_found
  guarded env c params reach ts t

add_new : List Timer → Timer → Result (List Timer × TimerResult)
add_new ts t = ok (ts ++ t ∷ [], timer t)

-- The list that a command writes, and its answer.
unfoldable pub edit :
    Env
    → TimerCommand
    → Params
    → Option (List Text)
    → List Timer
    → Result (List Timer × TimerResult)
unfolding create_timer edit_named add_new
edit env TimerCommand.create params reach ts = create_timer env params reach ts >>= add_new ts
edit env c params reach ts = edit_named env c params reach ts

-- The write, and the answer.
conclude : Env → State → Result (List Timer × TimerResult) → Option (State × Result TimerResult)
conclude env s (err e) = some (s, err e)
conclude env s (ok (ts, r)) = elim (write env.clock ts) [ none ↦ none | some s' ↦ some (s', ok r) ]

-- `none` on the right: the looks of `scheduleSettle` did not end.
run_command :
    Env
    → Option TimerCommand
    → Params
    → Option (List Text)
    → State
    → Option (State × Result TimerResult)
unfolding conclude
run_command env none params reach s = some (s, err TimerError.bad_request)
run_command env (some c) params reach s = conclude env s (edit env c params reach s.list)

unfoldable pub command :
    Env → Text → Params → Option (List Text) → State → Option (State × Result TimerResult)
unfolding run_command
command env name params reach s = run_command env (command_of name) params reach s
