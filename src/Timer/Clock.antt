-- ===== src/Timer/Clock.antt =====
-- What a timer shows as time goes on, and when it is paused, rebased or set.
use not_gt.Base.{
  ℕ, zero, suc, ◌-◌, ◌≤◌, ◌≡◌, Bool, true, false, Option, none, some, arith, ap, if◌then◌else◌,
}
use not_gt.Base.Int.{ℤ, pos, leb_ℤ, sub_ℕ, ◌≤ℤ◌, ◌+ℤ◌, ◌-ℤ◌, min_ℤ, max_ℤ, int_laws}
use not_gt.Timer.{
  Timer, TimerMode, timer_max_ms, run_ms, counted, is_down, timer_elapsed, timer_end, timer_value,
  elapsed_for_value,
}
use not_gt.Timer.Fold.{folded, rebased}

run_ms_mono :
    (r : Bool) (s : Option ℕ) (now later : ℕ) → now ≤ later → run_ms r s now ≤ run_ms r s later
run_ms_mono r s now later h = ground arith

-- Time only counts up.
pub timer_elapsed_mono :
    (t : Timer) (now later : ℕ) → now ≤ later → timer_elapsed t now ≤ℤ timer_elapsed t later
unfolding timer_elapsed
timer_elapsed_mono t now later h = omega (int_laws, run_ms_mono t.running t.started_at now later)

-- What is counted stops at the end.
counted_mono : (e : Option ℕ) (a b : ℤ) → a ≤ℤ b → counted e a ≤ℤ counted e b
unfolding min_ℤ
counted_mono none a b h = h
counted_mono (some e) a b h = ground arith

-- A countdown never goes up and a stopwatch never goes down, whatever their settings.
pub timer_value_mono :
    (t : Timer) (now later : ℕ)
    → now ≤ later
    → if is_down t.mode
      then timer_value t later ≤ℤ timer_value t now
      else timer_value t now ≤ℤ timer_value t later
unfolding timer_value
timer_value_mono t now later h = go t.mode
  where
    c : counted (timer_end t) (timer_elapsed t now) ≤ℤ counted (timer_end t) (timer_elapsed t later)
    c = counted_mono (timer_end t) _ _ (timer_elapsed_mono t now later h)

    go :
        (m : TimerMode)
        → let v = λ (x : ℕ).
          let elapsed = counted (timer_end t) (timer_elapsed t x) in
          if is_down m then pos t.duration_ms -ℤ elapsed else elapsed in
          if is_down m then v later ≤ℤ v now else v now ≤ℤ v later
    go TimerMode.down = omega (int_laws, c)
    go TimerMode.up = c

-- A paused timer keeps what it showed, at every later moment.
pub timer_value-folded :
    (t : Timer) (now later : ℕ) → timer_value (folded t now) later ≡ timer_value t now
unfolding timer_value folded timer_elapsed timer_end min_ℤ ◌+ℤ◌ ◌-ℤ◌
timer_value-folded t now later = ground arith

min_restart :
    (e : ℕ) (a : ℤ) (started now later : ℕ)
    → started ≤ now
    → now ≤ later
    → min_ℤ (pos e) (min_ℤ (pos e) (a +ℤ pos (now - started)) +ℤ pos (later - now))
      ≡ min_ℤ (pos e) (a +ℤ pos (later - started))
min_restart e a started now later h k = omega int_laws

counted_restart :
    (e : Option ℕ) (a : ℤ) (started now later : ℕ)
    → started ≤ now
    → now ≤ later
    → counted e (counted e (a +ℤ pos (now - started)) +ℤ pos (later - now))
      ≡ counted e (a +ℤ pos (later - started))
counted_restart none a started now later h k = omega int_laws
counted_restart (some e) a started now later h k = min_restart e a started now later h k

-- Rebasing a running timer, at a time that is not before its start, does not change what it shows
-- from then on.
pub timer_value-rebased :
    (t : Timer) (started now later : ℕ)
    → t.running ≡ true
    → t.started_at ≡ some started
    → started ≤ now
    → now ≤ later
    → timer_value (rebased t now) later ≡ timer_value t later
unfolding timer_value rebased timer_elapsed timer_end
timer_value-rebased t started now later r s h k =
    ground (arith, counted_restart (timer_end t) t.elapsed_ms started now later h k)

-- What a timer may be set to: nothing below zero, but a countdown with overtime may be 100 hours
-- past it; and a stopwatch stops at its limit.
abbrev pub settable : TimerMode → Bool → ℕ → ℤ → ℤ
settable TimerMode.down overtime duration v =
    max_ℤ (if overtime then sub_ℕ 0 timer_max_ms else pos 0) v
settable TimerMode.up overtime zero v = max_ℤ (pos 0) v
settable TimerMode.up overtime (suc d) v = min_ℤ (pos (suc d)) (max_ℤ (pos 0) v)

-- A timer that counts nothing more shows what it is set to, as far as it can be set.
pub timer_value-set :
    (t : Timer) (now : ℕ) (v : ℤ)
    → run_ms t.running t.started_at now ≡ 0
    → timer_value (record t { elapsed_ms = elapsed_for_value t v }) now
      ≡ settable t.mode t.overtime t.duration_ms v
unfolding timer_value elapsed_for_value timer_elapsed timer_end min_ℤ max_ℤ ◌+ℤ◌ ◌-ℤ◌
timer_value-set t now v h = ground arith

-- Whether the end is reached, and so nothing more is counted.
abbrev pub over : Option ℕ → ℤ → Bool
over e x = elim e [ none ↦ false | some d ↦ leb_ℤ (pos d) x ]

counted-over : (e : Option ℕ) (x y : ℤ) → over e x ≡ true → x ≤ℤ y → counted e x ≡ counted e y
unfolding min_ℤ
counted-over none x y h k = cc
counted-over (some d) x y h k = ground arith

-- Past its end a timer shows the same for good.
pub timer_value-over :
    (t : Timer) (now later : ℕ)
    → over (timer_end t) (timer_elapsed t now) ≡ true
    → now ≤ later
    → timer_value t now ≡ timer_value t later
unfolding timer_value
timer_value-over t now later h k =
    ap (λ (c : ℤ). if is_down t.mode then pos t.duration_ms -ℤ c else c)
      (counted-over (timer_end t) _ _ h (timer_elapsed_mono t now later k))
