-- ===== src/Render.antt =====
-- bundles/notGT/src/extension/render.ts: renders of an animation into a video file, one at a time. The browser
-- and ffmpeg, which draw and encode, are other programs: what they report are events. What is a fraction of a
-- job, its progress and how far a loop misses, is left out; so are the files' names and clearing them away.
pub mod Laws
use not_gt.Base.{
  ℕ, zero, suc, ◌+◌, Text, codes, Bool, true, false, not, ◌&&◌, ◌||◌, Option, none, some, List, [],
  ◌∷◌, ltb, ◌==◌, if◌then◌else◌, is_some, is_empty, get_or, ◌=t◌, includes, trim,
}
use not_gt.Base.Int.{ℤ, pos, negsuc}
use not_gt.Json.{Value, undef, null, bool, num, str, arr, obj, to_text}
use not_gt.Model.{TitleTemplate}
use not_gt.Store.{Store}
use not_gt.Store.Library.{get_template}
use not_gt.Timers.Params.{Params, param}
use not_gt.Ws.{number_text}

-- `inherited`: the name of a property that every object has passes for a format.
pub data RenderFormat : Type 0 where
  webm prores dxv inherited : RenderFormat

pub data RenderMode : Type 0 where
  play loop : RenderMode

pub data RenderState : Type 0 where
  running done failed cancelled : RenderState

pub record RenderJob : Type 0 where
  pub id : Text
  pub template_id : Text
  pub name : Text
  pub format : RenderFormat
  pub fps : ℕ
  pub width : ℕ
  pub height : ℕ
  pub mode : RenderMode
  pub hold_ms : ℕ
  pub cycle_ms : ℕ
  pub state : RenderState
  pub frames : ℕ
  pub file : Option Text
  pub bytes : Option ℕ
  pub error : Option Text
  pub no_loop : Bool
  pub started_at : ℕ
  pub updated_at : ℕ

-- `current` and whether it was cancelled, and `last`.
pub record Renders : Type 0 where
  pub current : Option (RenderJob × Bool)
  pub last : Option RenderJob

-- What a request reads of the server.
pub record RenderEnv : Type 0 where
  pub now : ℕ
  pub new_id : Text
  pub browser : Bool
  pub ffmpeg : Bool

pub data RenderError : Type 0 where
  unknown_template unknown_format unknown_fps hold_out_of_range cycle_out_of_range : RenderError
  busy no_browser no_ffmpeg : RenderError

unfoldable pub render_error_status : RenderError → ℕ
render_error_status RenderError.unknown_template = 404
render_error_status RenderError.unknown_format = 400
render_error_status RenderError.unknown_fps = 400
render_error_status RenderError.hold_out_of_range = 400
render_error_status RenderError.cycle_out_of_range = 400
render_error_status RenderError.busy = 409
render_error_status RenderError.no_browser = 503
render_error_status RenderError.no_ffmpeg = 503

abbrev pub render_max_hold_ms : ℕ
render_max_hold_ms = 600000

-- `Object.prototype`.
abbrev inherited_names : List Text
inherited_names =
    codes "constructor"
    ∷ codes "toString"
    ∷ codes "valueOf"
    ∷ codes "hasOwnProperty"
    ∷ codes "isPrototypeOf"
    ∷ codes "propertyIsEnumerable"
    ∷ codes "toLocaleString"
    ∷ codes "__proto__"
    ∷ codes "__defineGetter__"
    ∷ codes "__defineSetter__"
    ∷ codes "__lookupGetter__"
    ∷ codes "__lookupSetter__"
    ∷ []

-- `format in RENDER_FORMATS`, which takes the format as a text.
unfoldable pub format_of : Value → Option RenderFormat
unfolding to_text includes
format_of v =
    let name = to_text v in
    if name =t codes "webm"
    then some RenderFormat.webm
    else if name =t codes "prores"
    then some RenderFormat.prores
    else if name =t codes "dxv"
    then some RenderFormat.dxv
    else if includes inherited_names name
    then some RenderFormat.inherited
    else none

-- `RENDER_FORMATS[format].ffmpeg`.
abbrev pub needs_ffmpeg : RenderFormat → Bool
needs_ffmpeg RenderFormat.webm = true
needs_ffmpeg RenderFormat.prores = true
needs_ffmpeg RenderFormat.dxv = false
needs_ffmpeg RenderFormat.inherited = false

abbrev number_in : Text → Option ℤ
number_in s = if is_empty (trim s) then some (pos 0) else number_text (trim s)

-- `Number(value)`, in whole numbers that are spelled in digits; one that is not finite is `none`.
unfoldable pub number_of : Value → Option ℤ
unfolding to_text
number_of undef = none
number_of null = some (pos 0)
number_of (bool true) = some (pos 1)
number_of (bool false) = some (pos 0)
number_of (num n) = some n
number_of (obj fs) = none
number_of (str s) = number_in s
number_of (arr vs) = number_in (to_text (arr vs))

-- `RENDER_FPS.includes(fps)`.
abbrev pub fps_in : Option ℤ → Option ℕ
fps_in (some (pos n)) =
    if (n == 25) || ((n == 30) || ((n == 50) || (n == 60))) then some n else none
fps_in n = none

-- A time from 0 to the longest one.
abbrev pub time_in : Option ℤ → Option ℕ
time_in (some (pos n)) = if ltb render_max_hold_ms n then none else some n
time_in n = none

-- `body[name] ?? 0`.
abbrev pub or_zero : Value → Value
or_zero undef = num (pos 0)
or_zero null = num (pos 0)
or_zero v = v

abbrev pub mode_of : Value → RenderMode
mode_of (str s) = if s =t codes "loop" then RenderMode.loop else RenderMode.play
mode_of v = RenderMode.play

abbrev pub template_of : Store → Value → Option TitleTemplate
template_of store (str id) = get_template store id
template_of store v = none

unfoldable pub new_job :
    RenderEnv → TitleTemplate → RenderFormat → ℕ → RenderMode → (hold_ms cycle_ms : ℕ) → RenderJob
new_job env t format fps mode hold_ms cycle_ms = record {
  id = env.new_id;
  template_id = t.id;
  name = t.name;
  format = format;
  fps = fps;
  width = t.width;
  height = t.height;
  mode = mode;
  hold_ms = hold_ms;
  cycle_ms = cycle_ms;
  state = RenderState.running;
  frames = 0;
  file = none;
  bytes = none;
  error = none;
  no_loop = false;
  started_at = env.now;
  updated_at = env.now;
}

pub data Started : Type 0 where
  started : RenderJob → Started
  refused : RenderError → Started

-- The checks that look at the server, after those that look at the request.
unfoldable pub begin_job : RenderEnv → RenderJob → Renders → Renders × Started
begin_job env job r =
    if is_some r.current
    then (r, refused RenderError.busy)
    else if not env.browser
    then (r, refused RenderError.no_browser)
    else if needs_ffmpeg job.format && not env.ffmpeg
    then (r, refused RenderError.no_ffmpeg)
    else (record r { current = some (job, false) }, started job)

-- The checks of a request in their order, on what each of its fields was read as.
unfoldable pub post_checked :
    RenderEnv
    → Value
    → Renders
    → (template : Option TitleTemplate) (format : Option RenderFormat)
      (fps hold_ms cycle_ms : Option ℕ)
    → Renders × Started
unfolding begin_job new_job
post_checked env mode r none format fps hold_ms cycle_ms = (r, refused RenderError.unknown_template)
post_checked env mode r (some t) none fps hold_ms cycle_ms = (r, refused RenderError.unknown_format)
post_checked env mode r (some t) (some format) none hold_ms cycle_ms =
    (r, refused RenderError.unknown_fps)
post_checked env mode r (some t) (some format) (some fps) none cycle_ms =
    (r, refused RenderError.hold_out_of_range)
post_checked env mode r (some t) (some format) (some fps) (some hold_ms) none =
    (r, refused RenderError.cycle_out_of_range)
post_checked env mode r (some t) (some format) (some fps) (some hold_ms) (some cycle_ms) =
    begin_job env (new_job env t format fps (mode_of mode) hold_ms cycle_ms) r

-- `POST /jobs`.
unfoldable pub post_job : Store → RenderEnv → Params → Renders → Renders × Started
unfolding post_checked number_of format_of
post_job store env body r =
    post_checked env (param body (codes "mode")) r
      (template_of store (param body (codes "templateId")))
      (format_of (param body (codes "format"))) (fps_in (number_of (param body (codes "fps"))))
      (time_in (number_of (or_zero (param body (codes "holdMs")))))
      (time_in (number_of (or_zero (param body (codes "cycleMs")))))

-- `GET /jobs/:id`.
unfoldable pub get_job : Text → Renders → Option RenderJob
get_job id r = elim (r.current) [
  | some (job, c) ↦ if job.id =t id then some job else last_job (r.last)
  | none ↦ last_job (r.last)
]
  where
    last_job : Option RenderJob → Option RenderJob
    last_job none = none
    last_job (some job) = if job.id =t id then some job else none

abbrev pub cancel_current : Text → Renders → Option (RenderJob × Bool) → Renders × Bool
cancel_current id r none = (r, false)
cancel_current id r (some (job, c)) =
    if job.id =t id then (record r { current = some (job, true) }, true) else (r, false)

-- `DELETE /jobs/:id`, and whether there is such a render.
unfoldable pub cancel_job : Text → Renders → Renders × Bool
cancel_job id r = cancel_current id r r.current

-- How a render ends: with a file and, of a loop, its length; stopped; or with an error.
pub data End : Type 0 where
  with_file : (frames : ℕ) (file : Text) (bytes : ℕ) (cycle_ms : Option ℕ) → End
  stopped : End
  with_error : Text → Bool → End

abbrev pub cycle_of : Option ℕ → ℕ → ℕ
cycle_of none asked = asked
cycle_of (some found) asked = found

unfoldable pub ended : ℕ → End → RenderJob → RenderJob
ended now (with_file frames file bytes cycle_ms) job = record job {
  cycle_ms = cycle_of cycle_ms job.cycle_ms;
  state = RenderState.done;
  frames = frames;
  file = some file;
  bytes = some bytes;
  updated_at = now;
}
ended now stopped job = record job { state = RenderState.cancelled; updated_at = now }
ended now (with_error message no_loop) job = record job {
  state = RenderState.failed;
  error = some message;
  no_loop = no_loop;
  updated_at = now;
}

abbrev pub capture_current : ℕ → ℕ → Renders → Option (RenderJob × Bool) → Renders
capture_current now frames r none = r
capture_current now frames r (some (job, c)) = record r {
  current = some (record job { frames = frames; updated_at = now }, c);
}

-- Frames that are captured, and the end of `run`.
unfoldable pub capture : ℕ → ℕ → Renders → Renders
capture now frames r = capture_current now frames r r.current

abbrev pub finish_current : ℕ → End → Renders → Option (RenderJob × Bool) → Renders
unfolding ended
finish_current now how r none = r
finish_current now how r (some (job, c)) = record {
  current = none;
  last = some (ended now how job);
}

unfoldable pub finish : ℕ → End → Renders → Renders
finish now how r = finish_current now how r r.current
