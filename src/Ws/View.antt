-- ===== src/Ws/View.antt =====
-- What a client of bundles/notGT/src/extension/ws.ts is told: `buildPublicState` of
-- bundles/notGT/src/extension/api.ts with nothing hidden, and `stateFor`, the part of it within reach. The
-- address of an out is the parameter `url_of`.
pub mod Laws
use not_gt.Base.{
  ℕ, Text, Bool, true, false, not, ◌&&◌, ◌||◌, Option, none, some, List, [], ◌∷◌, if◌then◌else◌,
  is_empty, includes, keep, any, map, Dict,
}
use not_gt.Model.{
  TemplateKind, PlaybackConfig, PlaybackMode, TitleTemplate, OutItem, Out, VariableSelection,
  ActiveTitleState,
}
use not_gt.Store.{Store, default_active}
use not_gt.Timer.{Timer, TimerMode, TimerFormat}
use not_gt.Ws.{Outs, reaches}

pub record ItemView : Type 0 where
  pub id : Text
  pub template_id : Text
  pub enabled : Bool
  pub held : Bool
  pub mode : PlaybackMode

pub record OutView : Type 0 where
  pub id : Text
  pub name : Text
  pub width : ℕ
  pub height : ℕ
  pub url : Text
  pub items : List ItemView

pub record TemplateView : Type 0 where
  pub id : Text
  pub name : Text
  pub kind : TemplateKind

pub record TimerView : Type 0 where
  pub id : Text
  pub name : Text
  pub key : Text
  pub mode : TimerMode
  pub running : Bool
  pub duration_ms : ℕ
  pub groups : List Text

pub record PublicState : Type 0 where
  pub active : ActiveTitleState
  pub active_template_id : Option Text
  pub active_visible : Bool
  pub active_out_id : Option Text
  pub playing : Dict (List Text)
  pub revision : ℕ
  pub selection : VariableSelection
  pub outs : List OutView
  pub templates : List TemplateView
  pub timers : List TimerView

abbrev mode_of : Option PlaybackConfig → PlaybackMode
mode_of none = PlaybackMode.once
mode_of (some p) = p.mode

abbrev item_view : OutItem → ItemView
item_view i = record {
  id = i.id;
  template_id = i.template_id;
  enabled = i.enabled;
  held = i.held;
  mode = mode_of i.playback;
}

abbrev out_view : (Text → Text) → Out → OutView
out_view url_of o = record {
  id = o.id;
  name = o.name;
  width = o.width;
  height = o.height;
  url = url_of o.id;
  items = map item_view o.items;
}

abbrev template_view : TitleTemplate → TemplateView
template_view t = record { id = t.id; name = t.name; kind = t.kind }

abbrev timer_view : Timer → TimerView
timer_view t = record {
  id = t.id;
  name = t.name;
  key = t.key;
  mode = t.mode;
  running = t.running;
  duration_ms = t.duration_ms;
  groups = t.groups;
}

unfoldable pub public_state : (Text → Text) → Store → List Timer → PublicState
public_state url_of s timers = record {
  active = s.active_title;
  active_template_id = s.active_title.template_id;
  active_visible = s.active_title.visible;
  active_out_id = s.active_title.out_id;
  playing = s.runtime.playing;
  revision = s.runtime.revision;
  selection = s.selection;
  outs = map (out_view url_of) s.outs;
  templates = map template_view s.templates;
  timers = map timer_view timers;
}

-- The groups within reach; `none` is every group.
abbrev pub shares : List Text → TimerView → Bool
shares groups t = is_empty t.groups || any (includes groups) t.groups

abbrev timers_for : Option (List Text) → List TimerView → List TimerView
timers_for none ts = ts
timers_for (some groups) ts = keep (shares groups) ts

abbrev pub is_foreign : List Text → Option Text → Bool
is_foreign os none = false
is_foreign os (some o) = not (includes os o)

-- A title that is shown by hand on an out that is not within reach.
abbrev pub without_title : PublicState → PublicState
without_title full = record full {
  active = default_active full.active.updated_at;
  active_template_id = none;
  active_visible = false;
  active_out_id = none;
}

abbrev pub outs_for : List Text → PublicState → PublicState
outs_for os full = record full {
  playing = keep (λ e. includes os e.0) full.playing;
  outs = keep (λ o. includes os o.id) full.outs;
}

unfoldable pub state_for : Outs → Option (List Text) → PublicState → PublicState
state_for outs groups full =
    let shared = record full { timers = timers_for groups full.timers } in
    elim outs [
      | none ↦ shared
      | some os ↦
          if is_foreign os full.active.out_id
          then outs_for os (without_title shared)
          else outs_for os shared
    ]
