-- ===== src/Timers/Params.antt =====
-- The parameters of a timer command: `text`, `duration`, `groupsOf` and `settings` of
-- bundles/notGT/src/extension/timers.ts.
pub mod Laws
pub mod Shown
use not_gt.Base.{
  ℕ, ◌*◌, Text, codes, Bool, true, false, not, ◌&&◌, ◌||◌, Option, none, some, List, [], ◌∷◌, ◌++◌,
  ◌==◌, ltb, min, if◌then◌else◌, is_some, is_empty, get_or, any, find, includes, Dict, lookup, trim,
  ◌=t◌, map, keep, unique, zero, suc,
}
use not_gt.Base.Int.{ℤ, pos, negsuc, pos_part, sub_ℕ, abs, neg_part}
use not_gt.Json.{Value, undef, null, bool, num, str, arr, obj, items, to_text}
use not_gt.Slug.{slugify}
use not_gt.Timer.{Timer, TimerMode, TimerFormat, timer_max_ms}
use not_gt.Timer.Parse.{parse_timer_text}

pub data TimerError : Type 0 where
  bad_request not_found forbidden : TimerError

unfoldable pub timer_error_status : TimerError → ℕ
timer_error_status TimerError.not_found = 404
timer_error_status TimerError.forbidden = 403
timer_error_status TimerError.bad_request = 400

pub data Result {ℓ} (A : Type ℓ) : Type ℓ where
  ok : A → Result A
  err : TimerError → Result A

infixl 5 ◌>>=◌
abbrev pub ◌>>=◌ {ℓ κ} :
    {Given : Type ℓ} {Answer : Type κ} → Result Given → (Given → Result Answer) → Result Answer
err why >>= rest = err why
ok value >>= rest = rest value

abbrev pub or_fail {ℓ} : {A : Type ℓ} → Option A → TimerError → Result A
or_fail none e = err e
or_fail (some a) e = ok a

-- A missing parameter is `undefined`.
abbrev pub Params : Type 0
Params = Dict Value

abbrev pub param : Params → Text → Value
param params name = get_or (lookup name params) undef

abbrev pub is_defined : Value → Bool
is_defined undef = false
is_defined _ = true

unfoldable pub text : Value → Option Text
text (str s) = if is_empty (trim s) then none else some (trim s)
text _ = none

-- `raw.replace(/^[-+]/, "")`.
abbrev unsigned : Text → Text
unsigned [] = []
unsigned (c ∷ s) = if (c == b'-') || (c == b'+') then s else c ∷ s

abbrev starts_with_minus : Text → Bool
starts_with_minus [] = false
starts_with_minus (c ∷ s) = c == b'-'

-- A time as a text, with its sign.
unfoldable pub signed_time : Text → Option ℤ
signed_time raw = elim (parse_timer_text (unsigned raw)) [
  | none ↦ none
  | some ms ↦ some (if starts_with_minus (trim raw) then sub_ℕ 0 ms else pos ms)
]

abbrev times_1000 : ℤ → ℤ
times_1000 (pos n) = pos (1000 * n)
times_1000 n = sub_ℕ 0 (1000 * neg_part n)

abbrev duration_of : (ms raw : Value) → Result (Option ℤ)
duration_of (num n) raw = ok (some n)
duration_of _ (num n) = ok (some (times_1000 n))
duration_of _ (str s) = elim (signed_time s) [
  | none ↦ err TimerError.bad_request
  | some ms ↦ ok (some ms)
]
duration_of _ _ = ok none

-- A duration from `<name>Ms` (a number) or `<name>` (a time, or seconds).
unfoldable pub duration : Params → Text → Result (Option ℤ)
duration params name = duration_of (param params (name ++ codes "Ms")) (param params name)

unfoldable pub clamp_ms : ℤ → ℕ
clamp_ms ms = min timer_max_ms (pos_part ms)

abbrev string_of : Value → List Text
string_of (str s) = s ∷ []
string_of _ = []

unfoldable pub strings : List Value → List Text
strings [] = []
strings (v ∷ vs) = string_of v ++ strings vs

abbrev groups_known : Option (Text → Bool) → List Text → List Text
groups_known none ids = ids
groups_known (some has_group) ids = keep has_group ids

unfoldable pub groups_of : Option (Text → Bool) → Value → Result (List Text)
unfolding strings
groups_of has_group (arr vs) = ok (groups_known has_group (unique (strings (items vs))))
groups_of has_group _ = err TimerError.bad_request

-- `name.slice(0, n)`.
abbrev pub take : ℕ → Text → Text
take zero s = []
take (suc n) [] = []
take (suc n) (c ∷ s) = c ∷ take n s

abbrev pub mode_of : Value → Option TimerMode
mode_of (str s) =
    if s =t codes "down"
    then some TimerMode.down
    else if s =t codes "up"
    then some TimerMode.up
    else none
mode_of _ = none

abbrev pub format_of : Value → Option TimerFormat
format_of (str s) =
    if s =t codes "auto"
    then some TimerFormat.auto
    else if s =t codes "hh:mm:ss"
    then some TimerFormat.hh_mm_ss
    else if s =t codes "mm:ss"
    then some TimerFormat.mm_ss
    else if s =t codes "ss"
    then some TimerFormat.ss
    else if s =t codes "mm:ss.t"
    then some TimerFormat.mm_ss_t
    else none
format_of _ = none

abbrev pub is_true : Value → Bool
is_true (bool b) = b
is_true _ = false

-- One function for each setting; a setting that is not given stays.
set_name : Value → Timer → Timer
set_name v t = elim (text v) [ none ↦ t | some name ↦ record t { name = take 64 name } ]

set_key : List Text → Value → Timer → Result Timer
set_key taken v t =
    let key = slugify (to_text v) [] in
    if not (is_defined v)
    then ok t
    else if is_empty key
    then err TimerError.bad_request
    else if includes taken key
    then err TimerError.bad_request
    else ok (record t { key = key })

set_mode : Value → Timer → Result Timer
set_mode v t =
    if not (is_defined v)
    then ok t
    else do m ← or_fail (mode_of v) TimerError.bad_request; ok (record t { mode = m })

set_duration : Option ℤ → Timer → Timer
set_duration none t = t
set_duration (some ms) t = record t { duration_ms = clamp_ms ms }

set_overtime : Value → Timer → Timer
set_overtime v t = if is_defined v then record t { overtime = is_true v } else t

set_format : Value → Timer → Result Timer
set_format v t =
    if not (is_defined v)
    then ok t
    else do f ← or_fail (format_of v) TimerError.bad_request; ok (record t { format = f })

set_groups : Option (Text → Bool) → Value → Timer → Result Timer
set_groups has_group v t =
    if not (is_defined v)
    then ok t
    else do ids ← groups_of has_group v; ok (record t { groups = ids })

-- The settings that a `create` or an `update` may carry, checked in the order of the source: the
-- name and the key, the mode, the duration, `overtime` and the format, the groups.
set_last : Option (Text → Bool) → Params → Timer → Result Timer
unfolding set_groups
set_last has_group params t = set_groups has_group (param params (codes "groups")) t

set_from_duration : Option (Text → Bool) → Params → Timer → Option ℤ → Result Timer
unfolding set_duration set_overtime set_format set_last
set_from_duration has_group params t ms =
    set_format (param params (codes "format"))
      (set_overtime (param params (codes "overtime")) (set_duration ms t))
    >>= set_last has_group params

set_from_mode : Option (Text → Bool) → Params → Timer → Result Timer
unfolding set_from_duration
set_from_mode has_group params t =
    duration params (codes "duration") >>= set_from_duration has_group params t

set_from_key : Option (Text → Bool) → Params → Timer → Result Timer
unfolding set_mode set_from_mode
set_from_key has_group params t =
    set_mode (param params (codes "mode")) t >>= set_from_mode has_group params

unfoldable pub settings : Option (Text → Bool) → Params → Timer → List Text → Result Timer
unfolding set_name set_key set_from_key clamp_ms
settings has_group params base taken =
    set_key taken (param params (codes "key")) (set_name (param params (codes "name")) base)
    >>= set_from_key has_group params
