-- ===== src/Ws/Commands.antt =====
-- The commands of bundles/notGT/src/extension/ws.ts that put titles and placements on air and take them off:
-- `outs` is what the principal of the client reaches.
pub mod Targets
pub mod Reach
pub mod Titles
pub mod Beyond
pub mod Select
use not_gt.Base.{
  ℕ, zero, suc, Text, codes, Bool, true, false, not, ◌&&◌, ◌||◌, Option, none, some, List, [], ◌∷◌,
  if◌then◌else◌, is_some, is_empty, get_or, ◌=t◌, includes, map,
}
use not_gt.Base.Int.{ℤ, pos}
use not_gt.Json.{Value, bool}
use not_gt.Model.{OutItem, Out, TitleData, ActiveTitleState}
use not_gt.Store.{Store}
use not_gt.Store.Library.{get_template, get_item, upsert_out}
use not_gt.Store.Program.{ShowOptions, show, hide, toggle, reset_active, same_id}
use not_gt.Scheduler.{Scheduler, on_store, each, stop_out, sync}
use not_gt.Scheduler.OneShot.{trigger}
use not_gt.Trigger.{PlayTemplateOptions, PlayTemplateResult, explicit, play_template_once}
use not_gt.Timers.Params.{Params, param}
use not_gt.Ws.{
  CommandError, Reply, accepted, rejected, and_then, pick_string, pick_number, require_string,
  data_of, Outs, within, target_out, reach_of,
}
use not_gt.Ws.View.{is_foreign}

-- The `result` of a reply.
pub data Told : Type 0 where
  title : ActiveTitleState → Told
  played : PlayTemplateResult → Told
  held : (out_id item_id : Text) → Bool → Told
  stopped : Outs → Told

abbrev pub Answer : Type 0
Answer = Reply (Scheduler × Told)

abbrev titled : Scheduler → Answer
titled c = accepted (c, title c.store.active_title)

-- The title as far as the client reaches, `stateFor(client).active`.
abbrev title_for : Outs → ActiveTitleState → Told
title_for none a = title a
title_for (some os) a =
    if is_foreign os a.out_id
    then title (record {
      template_id = none;
      visible = false;
      out_id = none;
      overrides = [];
      label = none;
      updated_at = a.updated_at;
    })
    else title a

abbrev pub options : Params → Option Text → ShowOptions
options params out_id = record {
  out_id = out_id;
  overrides = data_of params;
  label = pick_string (param params (codes "label"));
}

unfoldable pub show_on : ℕ → Text → Params → Scheduler → Option Text → Answer
show_on now id params c out_id =
    if not (is_some (get_template c.store id))
    then rejected CommandError.not_found
    else titled (on_store (show now id (options params out_id)) c)

unfoldable pub show_command : ℕ → Outs → Params → Scheduler → Answer
unfolding require_string target_out show_on
show_command now outs params c =
    and_then (require_string params (codes "templateId" ∷ []))
      (λ id. and_then (target_out params outs) (show_on now id params c))

-- A hide without a template stops the placements too.
unfoldable pub hide_on : ℕ → Option Text → Option Text → Scheduler → Scheduler
hide_on now template_id out_id c =
    let hidden = on_store (hide now out_id template_id) c in
    if is_some template_id then hidden else stop_out out_id hidden

-- `reach` is what the command is about, `outs` what the client sees.
unfoldable pub hide_reach : ℕ → Option Text → Outs → Scheduler → Outs → Answer
unfolding hide_on each
hide_reach now template_id outs c none = titled (hide_on now template_id none c)
hide_reach now template_id outs c (some reach) =
    let hidden = each (λ o. hide_on now template_id (some o)) reach c in
    accepted (hidden, title_for outs hidden.store.active_title)

unfoldable pub hide_command : ℕ → Outs → Params → Scheduler → Answer
unfolding reach_of hide_reach
hide_command now outs params c =
    and_then (reach_of params outs)
      (hide_reach now (pick_string (param params (codes "templateId"))) outs c)

abbrev pub is_shown : Text → Store → Bool
is_shown id s = same_id s.active_title.template_id id && s.active_title.visible

unfoldable pub toggle_on : ℕ → Text → Params → Scheduler → Option Text → Answer
toggle_on now id params c out_id =
    if not (is_shown id c.store) && not (is_some (get_template c.store id))
    then rejected CommandError.not_found
    else titled (on_store (toggle now id (options params out_id)) c)

unfoldable pub toggle_command : ℕ → Outs → Params → Scheduler → Answer
unfolding require_string target_out toggle_on
toggle_command now outs params c =
    and_then (require_string params (codes "templateId" ∷ []))
      (λ id. and_then (target_out params outs) (toggle_on now id params c))

abbrev pub out_names : List Text
out_names = codes "out" ∷ codes "outId" ∷ []

-- `typeof params["held"] === "boolean"`, or the other way round.
abbrev wanted : Value → Bool → Bool
wanted (bool b) h = b
wanted v h = not h

abbrev set_held : Text → Bool → OutItem → OutItem
set_held id b i = if i.id =t id then record i { held = b } else i

abbrev pub hold_out : Text → Bool → Out → Out
hold_out id b o = record o { items = map (set_held id b) o.items }

unfoldable pub hold_item : ℕ → Params → Scheduler → Text → Text → Answer
unfolding upsert_out sync
hold_item now params c out_id item_id = elim (get_item c.store out_id item_id) [
  | none ↦ rejected CommandError.not_found
  | some (o, i) ↦
      let b = wanted (param params (codes "held")) i.held in
      accepted (sync (on_store (upsert_out now (hold_out item_id b o)) c), held out_id item_id b)
]

unfoldable pub hold_command : ℕ → Outs → Params → Scheduler → Answer
unfolding require_string within hold_item
hold_command now outs params c =
    and_then (and_then (require_string params out_names) (within outs))
      (λ o. and_then (require_string params (codes "itemId" ∷ [])) (hold_item now params c o))

abbrev pub stop_each : Scheduler → Outs → Scheduler
stop_each c none = stop_out none c
stop_each c (some os) = each (λ o. stop_out (some o)) os c

unfoldable pub stop_command : Outs → Params → Scheduler → Answer
unfolding reach_of stop_out each
stop_command outs params c =
    and_then (reach_of params outs) (λ reach. accepted (stop_each c reach, stopped reach))

unfoldable pub reset_one : ℕ → Text → Scheduler → Scheduler
unfolding stop_out
reset_one now o c = on_store (hide now (some o) none) (stop_out (some o) c)

unfoldable pub reset_command : ℕ → Outs → Scheduler → Answer
unfolding reset_one stop_out each
reset_command now none c = titled (on_store (reset_active now) (stop_out none c))
reset_command now (some os) c =
    let left = each (reset_one now) os c in
    accepted (left, title_for (some os) left.store.active_title)

pub data TitleCommand : Type 0 where
  show_title hide_title toggle_title trigger_title hold_title stop_title reset_title : TitleCommand

abbrev pub play_options : Params → Option Text → PlayTemplateOptions
play_options params out_id = record {
  out_id = out_id;
  hold_ms = pick_number (param params (codes "holdMs"));
  overrides = data_of params;
  label = pick_string (param params (codes "label"));
}

abbrev pub answered : Scheduler × Option PlayTemplateResult → Answer
answered (c, none) = rejected CommandError.not_found
answered (c, some r) = accepted (c, played r)

module _ (duration_of : Text → Option ℤ) where
  unfoldable pub trigger_item : ℕ → Params → Scheduler → Text → Text → Answer
  unfolding trigger pick_number
  trigger_item now params c item_id out_id =
      let r =
        trigger duration_of now out_id item_id
          (explicit (pick_number (param params (codes "holdMs")))) c in
      if r.1
      then accepted (r.0, played (PlayTemplateResult.items 1))
      else rejected CommandError.not_found

  unfoldable pub trigger_template_on : ℕ → Text → Params → Scheduler → Option Text → Answer
  unfolding play_template_once
  trigger_template_on now id params c out_id =
      answered (play_template_once duration_of now id (play_options params out_id) c)

  -- Of a placement that is named, or of a template.
  unfoldable pub trigger_for : ℕ → Outs → Params → Scheduler → Option Text → Answer
  unfolding require_string within target_out trigger_item trigger_template_on
  trigger_for now outs params c (some item_id) =
      and_then (and_then (require_string params out_names) (within outs))
        (trigger_item now params c item_id)
  trigger_for now outs params c none =
      and_then (require_string params (codes "templateId" ∷ []))
        (λ id. and_then (target_out params outs) (trigger_template_on now id params c))

  unfoldable pub trigger_command : ℕ → Outs → Params → Scheduler → Answer
  unfolding trigger_for
  trigger_command now outs params c =
      trigger_for now outs params c (pick_string (param params (codes "itemId")))

  -- The entries of `commands` that are about titles and placements.
  unfoldable pub title_command : TitleCommand → ℕ → Outs → Params → Scheduler → Answer
  unfolding show_command hide_command toggle_command trigger_command hold_command stop_command
      reset_command
  title_command TitleCommand.show_title now outs params c = show_command now outs params c
  title_command TitleCommand.hide_title now outs params c = hide_command now outs params c
  title_command TitleCommand.toggle_title now outs params c = toggle_command now outs params c
  title_command TitleCommand.trigger_title now outs params c = trigger_command now outs params c
  title_command TitleCommand.hold_title now outs params c = hold_command now outs params c
  title_command TitleCommand.stop_title now outs params c = stop_command outs params c
  title_command TitleCommand.reset_title now outs params c = reset_command now outs c
