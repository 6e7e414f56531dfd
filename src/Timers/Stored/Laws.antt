-- ===== src/Timers/Stored/Laws.antt =====
-- The normalized timers of bundles/notGT/src/extension/timers.ts, and those that were stored.
use not_gt.Base.{
  ℕ, ◌+◌, ◌≡◌, refl, Text, codes, Bool, true, false, Option, none, some, List, [], ◌∷◌, arith, map,
  is_some, is_empty, All, Bool-cases, inl, inr, ap, ◌=t◌, if◌then◌else◌, ◌&&◌, ◌++◌, show_nat,
}
use not_gt.Json.{num, undef, Value, str, bool, arr, items, of_items}
use not_gt.Timer.{Timer, TimerMode, TimerFormat}
use not_gt.Timers.Params.{strings, is_true, mode_of, format_of}
use not_gt.Base.Int.{pos}
use not_gt.Timers.Stored.{NormalTimer, spread, RawTimer, text_or, normalize, normalize_all}

abbrev mode_text : TimerMode → Text
mode_text TimerMode.down = codes "down"
mode_text TimerMode.up = codes "up"

abbrev format_text : TimerFormat → Text
format_text TimerFormat.auto = codes "auto"
format_text TimerFormat.hh_mm_ss = codes "hh:mm:ss"
format_text TimerFormat.mm_ss = codes "mm:ss"
format_text TimerFormat.ss = codes "ss"
format_text TimerFormat.mm_ss_t = codes "mm:ss.t"

-- A normalized timer as it is stored.
unfoldable pub entry_of : NormalTimer → RawTimer
entry_of t = record {
  id = str t.id;
  name = str t.name;
  key = str t.key;
  mode = str (mode_text t.mode);
  duration_ms = t.duration_ms;
  overtime = t.overtime;
  format = str (format_text t.format);
  running = bool t.running;
  started_at = t.started_at;
  elapsed_ms = some t.elapsed_ms;
  groups = arr (of_items (map str t.groups));
  created_at = some t.created_at;
  updated_at = some t.updated_at;
}

-- A timer among the normalized ones.
unfoldable pub normal : Timer → NormalTimer
normal t = record {
  id = t.id;
  name = t.name;
  key = t.key;
  mode = t.mode;
  duration_ms = num (pos t.duration_ms);
  overtime = bool t.overtime;
  format = t.format;
  running = t.running;
  started_at = t.started_at;
  elapsed_ms = t.elapsed_ms;
  groups = t.groups;
  created_at = t.created_at;
  updated_at = t.updated_at;
}

-- A timer as it is stored.
unfoldable pub stored : Timer → RawTimer
unfolding entry_of normal
stored t = entry_of (normal t)

-- What `normalize` sees to: there is an id, a name and a key, a timer runs exactly when it has a start, and it has
-- a duration and an `overtime`, whatever they are.
pub record IsShaped (t : NormalTimer) : Type 0 where
  pub id : is_empty t.id ≡ false
  pub name : is_empty t.name ≡ false
  pub key : is_empty t.key ≡ false
  pub started : is_some t.started_at ≡ t.running
  pub duration : (other : Value) → spread other t.duration_ms ≡ t.duration_ms
  pub overtime : (other : Value) → spread other t.overtime ≡ t.overtime

mode_of-text : (m : TimerMode) → mode_of (str (mode_text m)) ≡ some m
unfolding ◌=t◌
mode_of-text TimerMode.down = refl
mode_of-text TimerMode.up = refl

format_of-text : (f : TimerFormat) → format_of (str (format_text f)) ≡ some f
unfolding ◌=t◌
format_of-text TimerFormat.auto = refl
format_of-text TimerFormat.hh_mm_ss = refl
format_of-text TimerFormat.mm_ss = refl
format_of-text TimerFormat.ss = refl
format_of-text TimerFormat.mm_ss_t = refl

strings-items : (ids : List Text) → strings (items (of_items (map str ids))) ≡ ids
unfolding strings
strings-items [] = refl
strings-items (id ∷ ids) = ap (λ rest. id ∷ rest) (strings-items ids)

start_kept :
    (running : Bool) (started : Option ℕ)
    → is_some started ≡ running
    → (if running && is_some started then started else none) ≡ started
start_kept false none h = refl
start_kept true none h = refl
start_kept true (some n) h = refl
start_kept false (some n) h = absurd (ground (arith, h))

text_or-own : (s other : Text) → is_empty s ≡ false → text_or (str s) other ≡ s
text_or-own s other h = rw h refl

running_kept :
    (running : Bool) (started : Option ℕ)
    → is_some started ≡ running
    → (running && is_some started) ≡ running
running_kept false started h = refl
running_kept true started h = h

normalize-entry_of :
    (now : ℕ) (new_id : Text) (t : NormalTimer) (index : ℕ)
    → IsShaped t
    → normalize now new_id (entry_of t) index ≡ t
unfolding normalize entry_of
normalize-entry_of now new_id t index h =
    rw
      (
        h.id,
        h.name,
        h.key,
        mode_of-text t.mode,
        format_of-text t.format,
        strings-items t.groups,
        start_kept t.running t.started_at h.started,
        running_kept t.running t.started_at h.started,
        h.duration,
        h.overtime,
      )
      refl

normalize_all-entries :
    (now : ℕ → ℕ) (new_id : ℕ → Text) (ts : List NormalTimer) (index : ℕ)
    → All IsShaped ts
    → normalize_all now new_id (map entry_of ts) index ≡ ts
unfolding normalize_all
normalize_all-entries now new_id [] index h = refl
normalize_all-entries now new_id (t ∷ ts) index h =
    rw
      (
        normalize-entry_of (now index) (new_id index) t index h.0,
        normalize_all-entries now new_id ts (index + 1) h.1,
      )
      refl

-- A timer that has an id, a name and a key, and that runs exactly when it has a start.
pub record IsNamed (t : Timer) : Type 0 where
  pub id : is_empty t.id ≡ false
  pub name : is_empty t.name ≡ false
  pub key : is_empty t.key ≡ false
  pub started : is_some t.started_at ≡ t.running

named-IsShaped : (ts : List Timer) → All IsNamed ts → All IsShaped (map normal ts)
unfolding normal
named-IsShaped [] h = tt
named-IsShaped (t ∷ ts) h = (
  record {
    id = h.0.id;
    name = h.0.name;
    key = h.0.key;
    started = h.0.started;
    duration = λ other. refl;
    overtime = λ other. refl;
  },
  named-IsShaped ts h.1,
)

stored-entries : (ts : List Timer) → map stored ts ≡ map entry_of (map normal ts)
unfolding stored
stored-entries [] = refl
stored-entries (t ∷ ts) = ap (λ rest. entry_of (normal t) ∷ rest) (stored-entries ts)

-- Timers that have an id, a name and a key, and that run exactly when they have a start, are normalized, as they
-- were stored, to just what they were, whatever the clock and the new ids.
pub normalize_all-stored :
    (now : ℕ → ℕ) (new_id : ℕ → Text) (ts : List Timer) (index : ℕ)
    → All IsNamed ts
    → normalize_all now new_id (map stored ts) index ≡ map normal ts
normalize_all-stored now new_id ts index h =
    rw (stored-entries ts)
      (normalize_all-entries now new_id (map normal ts) index (named-IsShaped ts h))

-- A default that is a value is not replaced by another one later.
spread_twice :
    (given fallback other : Value)
    → ((x : Value) → spread x fallback ≡ fallback)
    → spread other (spread fallback given) ≡ spread fallback given
spread_twice undef fallback other h = h other
spread_twice v fallback other h = refl

text_or-there :
    (v : Value) (other : Text) → is_empty other ≡ false → is_empty (text_or v other) ≡ false
text_or-there (str s) other h = elim (Bool-cases (is_empty s)) [ inl e ↦ rw e h | inr e ↦ rw e e ]
text_or-there _ other h = h

start_shaped :
    (running : Bool) (started : Option ℕ)
    → is_some (if running && is_some started then started else none) ≡ (running && is_some started)
start_shaped false started = refl
start_shaped true none = refl
start_shaped true (some n) = refl

-- Whatever an entry is, it is normalized to a well-shaped timer; a new id is not empty.
normalize-IsShaped :
    (now : ℕ) (new_id : Text) (raw : RawTimer) (index : ℕ)
    → is_empty new_id ≡ false
    → IsShaped (normalize now new_id raw index)
unfolding normalize
normalize-IsShaped now new_id raw index h = record {
  id = text_or-there raw.id new_id h;
  name = text_or-there raw.name (codes "Timer " ++ show_nat (index + 1)) refl;
  key = text_or-there raw.key (codes "timer-" ++ show_nat (index + 1)) refl;
  started = start_shaped (is_true raw.running) raw.started_at;
  duration = λ other. spread_twice raw.duration_ms (num (pos 300000)) other (λ x. refl);
  overtime = λ other. spread_twice raw.overtime (bool false) other (λ x. refl);
}

normalize_all-IsShaped :
    (now : ℕ → ℕ) (new_id : ℕ → Text) (raws : List RawTimer) (index : ℕ)
    → ((k : ℕ) → is_empty (new_id k) ≡ false)
    → All IsShaped (normalize_all now new_id raws index)
unfolding normalize_all
normalize_all-IsShaped now new_id [] index h = tt
normalize_all-IsShaped now new_id (raw ∷ raws) index h = (
  normalize-IsShaped (now index) (new_id index) raw index (h index),
  normalize_all-IsShaped now new_id raws (index + 1) h,
)

-- Whatever objects are stored, normalizing what came of normalizing them changes nothing, at whatever time and
-- with whatever new ids; the new ids of the first time are not empty.
pub normalize_all_again :
    (now later : ℕ → ℕ) (new_id other_id : ℕ → Text) (raws : List RawTimer) (index again : ℕ)
    → ((k : ℕ) → is_empty (new_id k) ≡ false)
    → normalize_all later other_id (map entry_of (normalize_all now new_id raws index)) again
      ≡ normalize_all now new_id raws index
normalize_all_again now later new_id other_id raws index again h =
    normalize_all-entries later other_id (normalize_all now new_id raws index) again
      (normalize_all-IsShaped now new_id raws index h)
