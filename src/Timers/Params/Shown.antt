-- ===== src/Timers/Params/Shown.antt =====
-- The text that a timer shows, given back to `duration` of bundles/notGT/src/extension/timers.ts.
use not_gt.Base.{
  ℕ, suc, ◌+◌, ◌*◌, ◌/◌, ◌%◌, ◌≤◌, ◌≡◌, refl, ap, ◌∙◌, inl, inr, Text, codes, Bool, true, false,
  some, [], ◌∷◌, ◌++◌, if◌then◌else◌, arith, Bool-cases, All, is_space,
}
use not_gt.Base.Int.{ℤ, pos, negsuc, sub_ℕ, abs, ltb_ℤ}
use not_gt.Base.TextLaws.{trim_id, All-mono}
use not_gt.Timer.{
  Timer, timer_max_ms, has_tenths, tenths_total, seconds_total, is_negative, abs_seconds,
  timer_vars,
}
use not_gt.Timer.Reading.{abs_seconds-tenths}
use not_gt.Timer.Parse.{parse_timer_text}
use not_gt.Timer.RoundTrip.{IsClock, clock_plain, clock_text-IsClock, parse_timer_text-clock_text}
use not_gt.Timers.Params.{signed_time, unsigned, starts_with_minus}

unsigned_clock : (s : Text) → All IsClock s → unsigned s ≡ s
unsigned_clock [] h = refl
unsigned_clock (c ∷ s) h = ground arith

no_minus : (s : Text) → All IsClock s → starts_with_minus s ≡ false
no_minus [] h = refl
no_minus (c ∷ s) h = ground arith

minus_plain : is_space b'-' ≡ false
unfolding is_space
minus_plain = refl

-- A clock with its sign is read with its sign.
signed_time_of :
    (negative : Bool) (s : Text) (ms : ℕ)
    → All IsClock s
    → parse_timer_text s ≡ some ms
    → signed_time ((if negative then codes "-" else codes "") ++ s)
      ≡ some (if negative then sub_ℕ 0 ms else pos ms)
unfolding signed_time
signed_time_of false s ms c h =
    ground (arith, unsigned_clock s c, h, trim_id s (All-mono clock_plain s c), no_minus s c)
signed_time_of true s ms c h =
    ground (arith, h, trim_id (b'-' ∷ s) (minus_plain, All-mono clock_plain s c))

-- What is shown, in milliseconds: whole seconds, or tenths where the format has them.
abbrev pub times : ℕ → ℤ → ℤ
times k (pos n) = pos (k * n)
times k (negsuc n) = sub_ℕ 0 (k * suc n)

abbrev pub shown_ms : Timer → ℕ → ℤ
shown_ms t now =
    if has_tenths t.format then times 100 (tenths_total t now) else times 1000 (seconds_total t now)

abs-times : (k : ℕ) (x : ℤ) → abs (times k x) ≡ k * abs x
abs-times k (pos n) = ground arith
abs-times k (negsuc n) = ground arith

signed-times :
    (k : ℕ) (x : ℤ) → (if ltb_ℤ x (pos 0) then sub_ℕ 0 (k * abs x) else pos (k * abs x)) ≡ times k x
signed-times k (pos n) = ground arith
signed-times k (negsuc n) = ground arith

-- The seconds and the tenth of the text make up what is shown.
total-shown :
    (t : Timer) (now : ℕ)
    → abs_seconds t now * 1000
        + (if has_tenths t.format then 100 * (abs (tenths_total t now) % 10) else 0)
      ≡ abs (shown_ms t now)
total-shown t now = elim (Bool-cases (has_tenths t.format)) [
  | inl e ↦ rw (e, abs-times) (omega (arith, abs_seconds-tenths t now e))
  | inr e ↦ rw (e, abs-times) (unfold abs_seconds in omega arith)
]

signed-shown :
    (t : Timer) (now : ℕ)
    → (if is_negative t now then sub_ℕ 0 (abs (shown_ms t now)) else pos (abs (shown_ms t now)))
      ≡ shown_ms t now
unfolding is_negative
signed-shown t now = elim (Bool-cases (has_tenths t.format)) [
  | inl e ↦ rw (e, abs-times) (signed-times 100 (tenths_total t now))
  | inr e ↦ rw (e, abs-times) (signed-times 1000 (seconds_total t now))
]

-- Whatever it shows, in any format, with or without the minus of overtime, a timer's text is read
-- back as the time that it shows, if that is at most the 100 hours that a timer may have.
pub signed_time-text :
    (t : Timer) (now : ℕ)
    → abs (shown_ms t now) ≤ timer_max_ms
    → signed_time (timer_vars t now).text ≡ some (shown_ms t now)
unfolding timer_vars
signed_time-text t now h =
    signed_time_of (is_negative t now) _ _
      (clock_text-IsClock t.format total (total / 3600) (total % 3600 / 60) (total % 60) tenth)
      (parse_timer_text-clock_text t.format total tenth (omega arith) (rw (total-shown t now) h))
    ∙ ap some (rw (total-shown t now) (signed-shown t now))
  where
    total : ℕ
    total = abs_seconds t now

    tenth : ℕ
    tenth = abs (tenths_total t now) % 10
