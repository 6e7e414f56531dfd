-- ===== src/Timers/Stored.antt =====
-- `normalize` of bundles/notGT/src/extension/timers.ts, which a boot maps over the stored timers, before it makes
-- those of the seed and calls `scheduleSettle`.
pub mod Laws
use not_gt.Base.{
  ℕ, ◌+◌, Text, codes, Bool, true, false, ◌&&◌, Option, none, some, List, [], ◌∷◌, ◌++◌, is_some,
  is_empty, get_or, show_nat, if◌then◌else◌,
}
use not_gt.Base.Int.{ℤ, pos}
use not_gt.Json.{Value, undef, bool, num, str, arr, items}
use not_gt.Timer.{TimerMode, TimerFormat, new_timer_defaults}
use not_gt.Timers.Params.{strings, is_true, mode_of, format_of}

-- An entry of the stored list. A date is `none` where there is none, or a value that is no number. Fields of
-- other names, which the code carries along, are left out.
pub record RawTimer : Type 0 where
  pub id : Value
  pub name : Value
  pub key : Value
  pub mode : Value
  pub duration_ms : Value
  pub overtime : Value
  pub format : Value
  pub running : Value
  pub started_at : Option ℕ
  pub elapsed_ms : Option ℤ
  pub groups : Value
  pub created_at : Option ℕ
  pub updated_at : Option ℕ

-- What `normalize` returns. It is typed as a `Timer`, but `durationMs` and `overtime` are whatever was stored.
pub record NormalTimer : Type 0 where
  pub id : Text
  pub name : Text
  pub key : Text
  pub mode : TimerMode
  pub duration_ms : Value
  pub overtime : Value
  pub format : TimerFormat
  pub running : Bool
  pub started_at : Option ℕ
  pub elapsed_ms : ℤ
  pub groups : List Text
  pub created_at : ℕ
  pub updated_at : ℕ

-- `{ ...defaults, ...raw }` of one field: the default where nothing is stored.
abbrev pub spread : Value → Value → Value
spread other undef = other
spread other v = v

-- A text that is not empty, or another one.
abbrev pub text_or : Value → Text → Text
text_or (str s) other = if is_empty s then other else s
text_or v other = other

abbrev pub raw_groups : Value → List Text
raw_groups (arr vs) = strings (items vs)
raw_groups v = []

abbrev pub raw_running : RawTimer → Bool
raw_running raw = is_true raw.running && is_some raw.started_at

unfoldable pub normalize : (now : ℕ) (new_id : Text) → RawTimer → (index : ℕ) → NormalTimer
unfolding new_timer_defaults
normalize now new_id raw index =
    let defaults = new_timer_defaults new_id (codes "") (codes "") now [] in
    record {
      id = text_or raw.id new_id;
      name = text_or raw.name (codes "Timer " ++ show_nat (index + 1));
      key = text_or raw.key (codes "timer-" ++ show_nat (index + 1));
      mode = get_or (mode_of raw.mode) TimerMode.down;
      duration_ms = spread (num (pos defaults.duration_ms)) raw.duration_ms;
      overtime = spread (bool defaults.overtime) raw.overtime;
      format = get_or (format_of raw.format) TimerFormat.auto;
      running = raw_running raw;
      started_at = if raw_running raw then raw.started_at else none;
      elapsed_ms = get_or raw.elapsed_ms (pos 0);
      groups = raw_groups raw.groups;
      created_at = get_or raw.created_at now;
      updated_at = get_or raw.updated_at now;
    }

-- `normalize` of every entry that is an object, with its index; the clock and the new ids are asked for each.
unfoldable pub normalize_all :
    (now : ℕ → ℕ) (new_id : ℕ → Text) → List RawTimer → (index : ℕ) → List NormalTimer
unfolding normalize
normalize_all now new_id [] index = []
normalize_all now new_id (raw ∷ raws) index =
    normalize (now index) (new_id index) raw index ∷ normalize_all now new_id raws (index + 1)
