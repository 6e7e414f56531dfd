-- ===== src/Timers/Settle/Termination.antt =====
-- The looks of `scheduleSettle` of bundles/notGT/src/extension/timers.ts: how many there are, and
-- what they keep.
use not_gt.Base.{
  ℕ, zero, suc, ◌+◌, ◌≤◌, ◌<◌, ◌≡◌, refl, subst, sym, ◌∙◌, ◌⊎◌, inl, inr, Bool, true, false, not,
  ◌&&◌, ◌||◌, Option, none, some, List, [], ◌∷◌, map, length, if◌then◌else◌, arith, All, any,
  Bool-cases, Option-cases,
}
use not_gt.Base.Int.{ℤ, pos, ◌-ℤ◌, leb_ℤ, pos_part}
use not_gt.Timer.{Timer, timer_elapsed, timer_end, timer_value}
use not_gt.Timer.Fold.{folded}
use not_gt.Timer.Clock.{timer_value-folded, timer_value-over}
use not_gt.Timers.Settle.{
  State, Scan, left_of, scan_one, scan_from, is_due, stop_due, timeout, schedule_settle, write,
}

none_left : (e : ℕ) (x : ℤ) → leb_ℤ (pos e -ℤ x) (pos 0) ≡ leb_ℤ (pos e) x
unfolding ◌-ℤ◌
none_left e x = ground arith

due-scan_one :
    (t : Timer) (now : ℕ) (s : Scan) → (scan_one (left_of t now) s).due ≡ (is_due t now || s.due)
unfolding scan_one
due-scan_one t now s = elim (Option-cases (timer_end t)) [
  | inl e ↦ rw e (ground arith)
  | inr (d, e) ↦ rw e (ground (arith, none_left d (timer_elapsed t now)))
]

or_swap : (a b c : Bool) → (a || (b || c)) ≡ ((b || a) || c)
or_swap a b c = ground arith

-- The scan finds out whether any timer is due.
due-scan_from :
    (s : Scan) (now : ℕ) (ts : List Timer)
    → (scan_from s now ts).due ≡ (s.due || any (λ t. is_due t now) ts)
unfolding scan_from
due-scan_from s now [] = ground arith
due-scan_from s now (t ∷ ts) =
    due-scan_from (scan_one (left_of t now) s) now ts
    ∙ rw (due-scan_one t now s) (sym (or_swap s.due (is_due t now) (any (λ u. is_due u now) ts)))

running_count : List Timer → ℕ
running_count [] = 0
running_count (t ∷ ts) = let n = running_count ts in if t.running then suc n else n

running_count-le-length : (ts : List Timer) → running_count ts ≤ length ts
unfolding running_count
running_count-le-length [] = omega arith
running_count-le-length (t ∷ ts) = ground (arith, running_count-le-length ts)

running_count-stop_le :
    (now : ℕ) (ts : List Timer) → running_count (map (stop_due now) ts) ≤ running_count ts
unfolding running_count folded
running_count-stop_le now [] = omega arith
running_count-stop_le now (t ∷ ts) = ground (arith, running_count-stop_le now ts)

-- Each look that finds a due timer leaves fewer running.
running_count-stop :
    (now : ℕ) (ts : List Timer)
    → any (λ t. is_due t now) ts ≡ true
    → running_count (map (stop_due now) ts) < running_count ts
unfolding running_count folded
running_count-stop now [] h = cc
running_count-stop now (t ∷ ts) h =
    ground (arith, running_count-stop_le now ts, running_count-stop now ts)

none_due : (p : Timer → Bool) (ts : List Timer) → any p ts ≡ false → All (λ t. p t ≡ false) ts
none_due p [] h = tt
none_due p (t ∷ ts) h = ground (arith, none_due p ts)

-- The timeout comes, within `m` milliseconds.
abbrev pub AtMost : Option ℕ → ℕ → Type 0
AtMost none m = ⊥
AtMost (some n) m = n ≤ m

-- For a running timer that ends it comes within a minute, and within 5 ms of the end.
abbrev Waits : Option ℤ → Option ℕ → Type 0
Waits none settle = Unit {0}
Waits (some left) settle = AtMost settle 60000 × AtMost settle (pos_part left + 5)

pub record IsSettled (now : ℕ) (s : State) : Type 0 where
  pub none_due : All (λ t. is_due t now ≡ false) s.list
  pub armed : All (λ t. Waits (left_of t now) s.settle) s.list

abbrev Bounds : Option ℤ → Option ℕ → Type 0
Bounds none next = Unit {0}
Bounds (some left) next = (leb_ℤ left (pos 0) ≡ true) ⊎ AtMost next (pos_part left)

scan_one-Bounds : (l k : Option ℤ) (s : Scan) → Bounds l s.next → Bounds l (scan_one k s).next
unfolding scan_one
scan_one-Bounds none k s h = tt
scan_one-Bounds (some left) none s h = h
scan_one-Bounds (some left) (some other) s h = ground arith

scan_one-Bounds_self : (l : Option ℤ) (s : Scan) → Bounds l (scan_one l s).next
unfolding scan_one
scan_one-Bounds_self none s = tt
scan_one-Bounds_self (some left) s = ground arith

scan_from-Bounds_kept :
    (l : Option ℤ) (s : Scan) (now : ℕ) (ts : List Timer)
    → Bounds l s.next
    → Bounds l (scan_from s now ts).next
unfolding scan_from
scan_from-Bounds_kept l s now [] h = h
scan_from-Bounds_kept l s now (t ∷ ts) h =
    scan_from-Bounds_kept l (scan_one (left_of t now) s) now ts
      (scan_one-Bounds l (left_of t now) s h)

scan_from-Bounds :
    (s : Scan) (now : ℕ) (ts : List Timer)
    → All (λ t. Bounds (left_of t now) (scan_from s now ts).next) ts
unfolding scan_from
scan_from-Bounds s now [] = tt
scan_from-Bounds s now (t ∷ ts) = (
  scan_from-Bounds_kept (left_of t now) (scan_one (left_of t now) s) now ts
      (scan_one-Bounds_self (left_of t now) s),
  scan_from-Bounds (scan_one (left_of t now) s) now ts,
)

-- `left_of` and `is_due` over what they read of the timer.
abbrev left : Bool → Option ℕ → ℤ → Option ℤ
left running e x = if not running then none else elim e [ none ↦ none | some d ↦ some (pos d -ℤ x) ]

abbrev over : Option ℕ → ℤ → Bool
over e x = elim e [ none ↦ false | some d ↦ leb_ℤ (pos d) x ]

wait_of :
    (running : Bool) (e : Option ℕ) (x : ℤ) (next : Option ℕ)
    → (running && over e x) ≡ false
    → Bounds (left running e x) next
    → Waits (left running e x) (timeout next)
wait_of false e x next k h = tt
wait_of true none x next k h = tt
wait_of true (some d) x next k (inl h) = cc (none_left d x)
wait_of true (some d) x none k (inr h) = absurd h
wait_of true (some d) x (some n) k (inr h) = omega arith

Waits-of_Bounds :
    (t : Timer) (now : ℕ) (next : Option ℕ)
    → is_due t now ≡ false
    → Bounds (left_of t now) next
    → Waits (left_of t now) (timeout next)
Waits-of_Bounds t now next k h = wait_of t.running (timer_end t) (timer_elapsed t now) next k h

Waits-All :
    (ts : List Timer) (now : ℕ) (next : Option ℕ)
    → All (λ t. is_due t now ≡ false) ts
    → All (λ t. Bounds (left_of t now) next) ts
    → All (λ t. Waits (left_of t now) (timeout next)) ts
Waits-All [] now next h k = tt
Waits-All (t ∷ ts) now next h k =
    (Waits-of_Bounds t now next h.0 k.0, Waits-All ts now next h.1 k.1)

-- A clock that never reads later than `later`.
abbrev pub ReadsUpTo : (ℕ → ℕ) → ℕ → Type 0
ReadsUpTo clock later = (k : ℕ) → clock k ≤ later

schedule_settle-IsSettled :
    (fuel : ℕ) (clock : ℕ → ℕ) (k : ℕ) (ts : List Timer)
    → running_count ts < fuel
    → (s : State) × (last : ℕ) × (schedule_settle fuel clock k ts ≡ some s)
      × IsSettled (clock last) s
unfolding schedule_settle
schedule_settle-IsSettled zero clock k ts h = elim h [ ]
schedule_settle-IsSettled (suc fuel) clock k ts h =
    elim (Bool-cases (any (λ t. is_due t (clock k)) ts)) [
      | inl due ↦
          let (s, last, e, settled) =
            schedule_settle-IsSettled fuel clock (k + 1) (map (stop_due (clock k)) ts)
              (omega (arith, running_count-stop (clock k) ts due)) in
          (s, last, rw (due-scan_from, due) e, settled)
      | inr calm ↦ (
        record {
          list = ts;
          settle = timeout (scan_from (record { due = false; next = none }) (clock k) ts).next;
        },
        k,
        rw (due-scan_from, calm),
        record {
          none_due = none_due (λ t. is_due t (clock k)) ts calm;
          armed =
              Waits-All ts (clock k) _ (none_due (λ t. is_due t (clock k)) ts calm)
                (scan_from-Bounds _ (clock k) ts);
        },
      )
    ]

-- A timer that is stopped at its end shows what it would have shown.
stop_due_value :
    (t : Timer) (now later : ℕ)
    → now ≤ later
    → timer_value (stop_due now t) later ≡ timer_value t later
stop_due_value t now later h = elim (Bool-cases (is_due t now)) [
  | inl due ↦
      rw due (timer_value-folded t now later ∙ timer_value-over t now later (ground arith) h)
  | inr calm ↦ rw calm
]

stop_all_value :
    (ts : List Timer) (now later : ℕ)
    → now ≤ later
    → map (λ t. timer_value t later) (map (stop_due now) ts) ≡ map (λ t. timer_value t later) ts
stop_all_value [] now later h = refl
stop_all_value (t ∷ ts) now later h =
    cc (stop_due_value t now later h, stop_all_value ts now later h)

-- What stopping due timers keeps, at moments that the clock reads, a write keeps.
schedule_settle_inv {ℓ} :
    (P : List Timer → Type ℓ) (clock : ℕ → ℕ)
    → ((k : ℕ) (ts : List Timer) → P ts → P (map (stop_due (clock k)) ts))
    → (fuel k : ℕ) (ts : List Timer) (s : State) → P ts
    → schedule_settle fuel clock k ts ≡ some s
    → P s.list
unfolding schedule_settle
schedule_settle_inv P clock step zero k ts s h e = cc
schedule_settle_inv P clock step (suc fuel) k ts s h e =
    elim (Bool-cases (scan_from (record { due = false; next = none }) (clock k) ts).due) [
      | inl due ↦
          schedule_settle_inv P clock step fuel (k + 1) (map (stop_due (clock k)) ts) s
            (step k ts h) (rw due at e)
      | inr calm ↦ let same : ts ≡ s.list = ground arith in subst P same h
    ]

pub write_inv {ℓ} :
    (P : List Timer → Type ℓ) (clock : ℕ → ℕ)
    → ((k : ℕ) (ts : List Timer) → P ts → P (map (stop_due (clock k)) ts))
    → (ts : List Timer) (s : State) → P ts
    → write clock ts ≡ some s
    → P s.list
unfolding write
write_inv P clock step ts s = schedule_settle_inv P clock step (suc (length ts)) 0 ts s

-- A write always ends, however the clock moves: it stores a list in which no timer is past its end
-- at the last look, and it arms the timeout in time for every end that is still to come.
pub write_settles :
    (clock : ℕ → ℕ) (ts : List Timer)
    → (s : State) × (last : ℕ) × (write clock ts ≡ some s) × IsSettled (clock last) s
unfolding write
write_settles clock ts =
    schedule_settle-IsSettled (suc (length ts)) clock 0 ts
      (omega (arith, running_count-le-length ts))

-- Stopping the timers that are due changes nothing that they show at any time that is not before
-- the looks of the clock.
pub write_keeps_values :
    (clock : ℕ → ℕ) (later : ℕ) (ts : List Timer) (s : State)
    → ReadsUpTo clock later
    → write clock ts ≡ some s
    → map (λ t. timer_value t later) s.list ≡ map (λ t. timer_value t later) ts
write_keeps_values clock later ts s c =
    write_inv (λ us. map (λ t. timer_value t later) us ≡ map (λ t. timer_value t later) ts) clock
      (λ k us h. stop_all_value us (clock k) later (c k) ∙ h) ts s refl
