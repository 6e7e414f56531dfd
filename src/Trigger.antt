-- ===== src/Trigger.antt =====
-- bundles/notGT/src/extension/trigger.ts: a template played once, on its placements or, when it has none,
-- as a timed title on the program output.
pub mod Laws
use not_gt.Base.{
  ℕ, zero, suc, ◌+◌, max, Text, Bool, true, false, not, ◌&&◌, Option, none, some, if◌then◌else◌,
  is_some, get_or, ◌=t◌, ◌==◌,
}
use not_gt.Base.Int.{ℤ, pos, negsuc}
use not_gt.Model.{TitleData, ActiveTitleState}
use not_gt.Store.{Store}
use not_gt.Store.Library.{get_template}
use not_gt.Store.Program.{ShowOptions, show, hide, same_id}
use not_gt.Scheduler.{Scheduler, on_store}
use not_gt.Scheduler.OneShot.{hold_for_template, trigger_template}

-- `holdMs` is given in whole milliseconds.
pub record PlayTemplateOptions : Type 0 where
  pub out_id : Option Text
  pub hold_ms : Option ℤ
  pub overrides : Option TitleData
  pub label : Option Text

-- `{ mode: "items", triggered }` and `{ mode: "manual", triggered: 0, holdMs }`. The timeout that a manual
-- play sets is due `hold_ms` later, and is `manual_end`.
pub data PlayTemplateResult : Type 0 where
  items : ℕ → PlayTemplateResult
  manual : ℕ → PlayTemplateResult

-- `Math.max(250, options.holdMs ?? …)`.
unfoldable pub manual_hold : Option ℤ → ℕ → ℕ
manual_hold none configured = max 250 configured
manual_hold (some (pos n)) configured = max 250 n
manual_hold (some (negsuc n)) configured = 250

abbrev pub show_options : PlayTemplateOptions → ShowOptions
show_options opts = record { out_id = opts.out_id; overrides = opts.overrides; label = opts.label }

-- `holdMs` as `triggerTemplate` takes it.
abbrev pub explicit : Option ℤ → Option (Option ℤ)
explicit none = none
explicit (some n) = some (some n)

unfoldable pub play_template_once :
    (Text → Option ℤ)
    → ℕ
    → Text
    → PlayTemplateOptions
    → Scheduler
    → Scheduler × Option PlayTemplateResult
unfolding manual_hold
play_template_once duration_of now id opts c =
    if not (is_some (get_template c.store id))
    then (c, none)
    else let r = trigger_template duration_of now id opts.out_id (explicit opts.hold_ms) c in
      if not (r.1 == 0) then (r.0, some (items r.1)) else (
        on_store (show now id (show_options opts)) r.0,
        some (manual (manual_hold opts.hold_ms (hold_for_template duration_of r.0.store id))),
      )

-- The timeout's callback: nothing else may have taken over the output meanwhile.
unfoldable pub manual_end : ℕ → Text → Scheduler → Scheduler
manual_end now id c =
    if same_id c.store.active_title.template_id id then on_store (hide now none (some id)) c else c
