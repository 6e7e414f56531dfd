-- ===== src/Timers/Command/Keys.antt =====
-- Well-formed timers of bundles/notGT/src/extension/timers.ts: ids and keys are unique, a timer
-- runs exactly when it has a start, and durations stay within 100 hours.
use not_gt.Base.{
  ℕ, ◌≤◌, ◌≡◌, ap, sym, ◌∙◌, ◌⊎◌, Text, true, false, Option, List, arith, includes, is_some, All,
  keep,
}
use not_gt.Base.TextLaws.{Distinct}
use not_gt.Timer.{Timer, timer_max_ms, timer_within}
use not_gt.Timer.Fold.{folded, rebased}
use not_gt.Timers.Params.{ok, Params, settings}
use not_gt.Timers.Params.Laws.{IsEdited, settings-IsEdited, ok-inv}
use not_gt.Timers.Command.Distinct.{ids}
use not_gt.Timers.Command.{
  TimerCommand, Env, keys, is_other, start_timer, pause_timer, toggle_timer, reset_timer,
  restart_timer, set_timer, adjust_timer, update_params, finish_update, update_timer, next_timer,
}

-- One timer: it runs exactly when it has a start, and its duration is within bounds.
pub record IsTimer (t : Timer) : Type 0 where
  pub started : is_some t.started_at ≡ t.running
  pub bounded : t.duration_ms ≤ timer_max_ms

pub record IsValid (ts : List Timer) : Type 0 where
  pub ids_distinct : Distinct (ids ts)
  pub keys_distinct : Distinct (keys ts)
  pub timers : All IsTimer ts

-- What a command makes of a timer: well formed, with the same id, and with its key or a free one.
pub record IsNext (reach : Option (List Text)) (ts : List Timer) (t u : Timer) : Type 0 where
  pub id : u.id ≡ t.id
  pub key : (u.key ≡ t.key) ⊎ (includes (keys (keep (is_other t) ts)) u.key ≡ false)
  pub well_formed : IsTimer u
  pub within : timer_within u reach ≡ true

pub ok_injective {ℓ} : {A : Type ℓ} {a b : A} → ok a ≡ ok b → a ≡ b
ok_injective h = cc

IsTimer-rebased : (t : Timer) (now : ℕ) → IsTimer t → IsTimer (rebased t now)
unfolding rebased
IsTimer-rebased t now h = ground arith

finish_update-IsTimer :
    (env : Env) (reach : Option (List Text)) (t u : Timer)
    → IsTimer t
    → finish_update env reach t ≡ ok u
    → IsTimer u × (u.id ≡ t.id) × (u.key ≡ t.key) × (timer_within u reach ≡ true)
unfolding finish_update folded timer_within
finish_update-IsTimer env reach t u h e = ground arith

rebased-kept : (t : Timer) (now : ℕ) → ((rebased t now).id ≡ t.id) × ((rebased t now).key ≡ t.key)
unfolding rebased
rebased-kept t now = ground arith

pub IsEdited-IsTimer :
    (taken : List Text) (a b : Timer) → IsEdited taken a b → IsTimer a → IsTimer b
IsEdited-IsTimer taken a b e h = record {
  started = ap is_some e.started_at ∙ h.started ∙ sym e.running;
  bounded = e.duration_ms h.bounded;
}

update_timer-IsNext :
    (env : Env) (params : Params) (reach : Option (List Text)) (ts : List Timer) (t u : Timer)
    → IsTimer t
    → update_timer env params reach ts t ≡ ok u
    → IsNext reach ts t u
unfolding update_timer
update_timer-IsNext env params reach ts t u h e =
    let taken = keys (keep (is_other t) ts) in
    let (next, hs, hf) =
      ok-inv (settings env.has_group (update_params t params) (rebased t env.now) taken)
        (finish_update env reach) e in
    let edited =
      settings-IsEdited env.has_group (update_params t params) (rebased t env.now) taken next hs in
    let (fine, same_id, same_key, within) =
      finish_update-IsTimer env reach next u
        (IsEdited-IsTimer taken _ next edited (IsTimer-rebased t env.now h)) hf in
    record {
      id = same_id ∙ edited.id ∙ (rebased-kept t env.now).0;
      key = ground (arith, edited.key, rebased-kept t env.now);
      well_formed = fine;
      within = within;
    }

pub next_timer-IsNext :
    (env : Env) (c : TimerCommand) (params : Params) (reach : Option (List Text)) (ts : List Timer)
    (t u : Timer)
    → IsTimer t
    → timer_within t reach ≡ true
    → next_timer env c params reach ts t ≡ ok u
    → IsNext reach ts t u
unfolding next_timer start_timer pause_timer toggle_timer reset_timer restart_timer set_timer
    adjust_timer rebased folded timer_within
next_timer-IsNext env TimerCommand.update params reach ts t u h w e =
    update_timer-IsNext env params reach ts t u h e
next_timer-IsNext env TimerCommand.start params reach ts t u h w e = ground arith
next_timer-IsNext env TimerCommand.pause params reach ts t u h w e = ground arith
next_timer-IsNext env TimerCommand.toggle params reach ts t u h w e = ground arith
next_timer-IsNext env TimerCommand.reset params reach ts t u h w e = ground arith
next_timer-IsNext env TimerCommand.restart params reach ts t u h w e = ground arith
next_timer-IsNext env TimerCommand.set params reach ts t u h w e = ground arith
next_timer-IsNext env TimerCommand.adjust params reach ts t u h w e = ground arith
next_timer-IsNext env TimerCommand.create params reach ts t u h w e = cc
next_timer-IsNext env TimerCommand.remove params reach ts t u h w e = cc
