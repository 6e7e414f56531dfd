-- ===== src/Tests.antt =====
-- A small show, on which the theorems are tried: two templates, one of them placed twice on one out, and
-- two timers.
mod Clocks
mod Shows
mod Teams
mod Sockets
mod Files
mod Renders
mod Boots
use not_gt.Base.{ℕ, Text, codes, Bool, true, false, Option, none, some, List, [], ◌∷◌}
use not_gt.Base.Int.{ℤ, pos}
use not_gt.Json.{undef}
use not_gt.Timer.{Timer, TimerMode, TimerFormat}
use not_gt.Timers.Settle.{State}
use not_gt.Timers.Command.{Env}
use not_gt.Model.{
  TitleTemplate, TemplateKind, CodeBlock, OutItem, Out, default_playback, schema_version,
}
use not_gt.Store.{Store, default_active}
use not_gt.Scheduler.{Scheduler}

-- A countdown of five minutes that runs since 1000, and a stopwatch that stands at two seconds.
abbrev pub countdown : Timer
countdown = record {
  id = codes "t1";
  name = codes "Break";
  key = codes "break";
  mode = TimerMode.down;
  duration_ms = 300000;
  overtime = false;
  format = TimerFormat.mm_ss;
  running = true;
  started_at = some 1000;
  elapsed_ms = pos 0;
  groups = codes "red" ∷ [];
  created_at = 0;
  updated_at = 0;
}

abbrev pub stopwatch : Timer
stopwatch = record {
  id = codes "t2";
  name = codes "Lap";
  key = codes "lap";
  mode = TimerMode.up;
  duration_ms = 0;
  overtime = true;
  format = TimerFormat.mm_ss_t;
  running = false;
  started_at = none;
  elapsed_ms = pos 2000;
  groups = codes "blue" ∷ [];
  created_at = 0;
  updated_at = 0;
}

abbrev pub two_timers : List Timer
two_timers = countdown ∷ stopwatch ∷ []

abbrev pub timers_state : State
timers_state = record { list = two_timers; settle = none }

-- At 61000; every look of the clock after a write reads the same.
abbrev pub env : Env
env = record { now = 61000; new_id = codes "t3"; has_group = none; clock = λ k. 61000 }

abbrev pub lower_third : TitleTemplate
lower_third = record {
  id = codes "lower";
  name = codes "Lower third";
  kind = TemplateKind.code;
  width = 1920;
  height = 1080;
  layers = [];
  code = some (record { html = []; css = []; js = []; src = none; exit_ms = some (pos 500) });
  in_transition = undef;
  out_transition = undef;
  playback = some default_playback;
  created_at = 0;
  updated_at = 0;
}

abbrev pub bug : TitleTemplate
bug = record lower_third { id = codes "bug"; name = codes "Bug"; code = none }

abbrev pub placement : Text → Bool → OutItem
placement id held = record {
  id = id;
  template_id = codes "lower";
  placement = undef;
  playback = none;
  enabled = true;
  held = held;
}

abbrev pub main_out : Out
main_out = record {
  id = codes "main";
  name = codes "Main";
  width = 1920;
  height = 1080;
  items = placement (codes "a") false ∷ placement (codes "b") true ∷ [];
  outputs = undef;
  created_at = 0;
  updated_at = 0;
}

abbrev pub store : Store
store = record {
  templates = lower_third ∷ bug ∷ [];
  outs = main_out ∷ [];
  title_data = [];
  active_title = default_active 0;
  runtime = record { playing = []; triggers = []; revision = 0 };
  selection = [];
  meta = record { initialized = true; schema_version = schema_version };
}

abbrev pub scheduler : Scheduler
scheduler = record { store = store; timers = [] }

-- No template has a video.
abbrev pub no_video : Text → Option ℤ
no_video id = none
