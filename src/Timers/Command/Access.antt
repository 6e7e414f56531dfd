-- ===== src/Timers/Command/Access.antt =====
-- The reach of whoever gives a command of bundles/notGT/src/extension/timers.ts, and the timers
-- outside it.
use not_gt.Base.{
  ℕ, ◌⊎◌, inl, inr, true, subst, Bool-cases, Option-cases, ◌≡◌, ◌≢◌, refl, Text, Bool, false, not,
  Option, some, List, [], ◌∷◌, ◌++◌, map, arith, keep,
}
use not_gt.Timer.{Timer, timer_within}
use not_gt.Timer.Fold.{folded}
use not_gt.Timers.Settle.{State, is_due, stop_due, write}
use not_gt.Timers.Settle.Termination.{write_inv}
use not_gt.Timers.Params.{Result, ok, err, Params}
use not_gt.Timers.Command.{
  TimerCommand, TimerResult, Env, edit, is_other, put, command, command_of, conclude, run_command,
}
use not_gt.Timers.Command.Distinct.{IsSole}
use not_gt.Timers.Command.Keys.{IsValid}
use not_gt.Timers.Command.Edits.{created, dropped, changed, edit-IsEdit}

-- A timer as looks of the clock leave it: as it was, or stopped at its end, if it was due at one of them.
abbrev pub IsLookedAt : (ℕ → ℕ) → Timer → Timer → Type 0
IsLookedAt clock t u = (u ≡ t) ⊎ ((k : ℕ) × (is_due t (clock k) ≡ true) × (u ≡ folded t (clock k)))

-- The same of every timer of a list, in order.
pub data AreLookedAt (clock : ℕ → ℕ) : List Timer → List Timer → Type 0 where
  none_left : AreLookedAt clock [] []
  one_more :
      {t u : Timer} {ts us : List Timer}
      → IsLookedAt clock t u
      → AreLookedAt clock ts us
      → AreLookedAt clock (t ∷ ts) (u ∷ us)

module _ (clock : ℕ → ℕ) where
  AreLookedAt-refl : (ts : List Timer) → AreLookedAt clock ts ts
  AreLookedAt-refl [] = none_left
  AreLookedAt-refl (t ∷ ts) = one_more (inl refl) (AreLookedAt-refl ts)

  -- A timer that was stopped is not due again.
  look : (k : ℕ) (t u : Timer) → IsLookedAt clock t u → IsLookedAt clock t (stop_due (clock k) u)
  unfolding folded
  look k t u (inl e) = elim (Bool-cases (is_due t (clock k))) [
    | inl d ↦ inr (k, d, rw (e, d) refl)
    | inr d ↦ inl (rw (e, d) refl)
  ]
  look k t u (inr (j, d, e)) = inr (j, d, rw e refl)

  look_all :
      (k : ℕ) {ts us : List Timer}
      → AreLookedAt clock ts us
      → AreLookedAt clock ts (map (stop_due (clock k)) us)
  look_all k none_left = none_left
  look_all k (one_more {t = t} {u = u} h a) = one_more (look k t u h) (look_all k a)

state_of :
    {s s' : State} {r r' : Result TimerResult}
    → ◌≡◌ {A = Option (State × Result TimerResult)} (some (s, r)) (some (s', r'))
    → s ≡ s'
state_of h = ground (arith, h)

module _ (reach : Option (List Text)) where
  abbrev pub is_beyond : Timer → Bool
  is_beyond t = not (timer_within t reach)

  keep-snoc :
      (ts : List Timer) (t : Timer)
      → is_beyond t ≡ false
      → keep is_beyond (ts ++ t ∷ []) ≡ keep is_beyond ts
  keep-snoc [] t h = ground arith
  keep-snoc (x ∷ xs) t h = ground (arith, keep-snoc xs t h)

  keep-drop :
      (ts : List Timer) (t : Timer)
      → IsSole t ts
      → is_beyond t ≡ false
      → keep is_beyond (keep (is_other t) ts) ≡ keep is_beyond ts
  keep-drop [] t s h = refl
  keep-drop (x ∷ xs) t s h = ground (arith, keep-drop xs t s.1 h)

  keep-put :
      (ts : List Timer) (t u : Timer)
      → IsSole t ts
      → is_beyond t ≡ false
      → is_beyond u ≡ false
      → keep is_beyond (map (put t u) ts) ≡ keep is_beyond ts
  keep-put [] t u s h k = refl
  keep-put (x ∷ xs) t u s h k = ground (arith, keep-put xs t u s.1 h k)

  -- What is handed to `write` has the timers out of reach, and their order, as they were.
  edit_keeps_beyond :
      (env : Env) (c : TimerCommand) (params : Params) (ts ts' : List Timer) (r : TimerResult)
      → reach ≢ some []
      → IsValid ts
      → edit env c params reach ts ≡ ok (ts', r)
      → keep is_beyond ts' ≡ keep is_beyond ts
  edit_keeps_beyond env c params ts ts' r some_reach v h =
      elim (edit-IsEdit env c params reach ts ts' r v h) [
        | created t _ _ _ within e ↦ rw e (keep-snoc ts t (ground (arith, within some_reach)))
        | dropped t sole within e ↦ rw e (keep-drop ts t sole (ground arith))
        | changed t u sole within n e ↦
            rw e (keep-put ts t u sole (ground arith) (ground (arith, n.within)))
      ]

  is_beyond-stop : (now : ℕ) (t : Timer) → is_beyond (stop_due now t) ≡ is_beyond t
  unfolding folded timer_within
  is_beyond-stop now t = elim (Bool-cases (is_due t now)) [ inl d ↦ rw d refl | inr d ↦ rw d refl ]

  keep-stop :
      (now : ℕ) (ts : List Timer)
      → keep is_beyond (map (stop_due now) ts) ≡ map (stop_due now) (keep is_beyond ts)
  keep-stop now [] = refl
  keep-stop now (t ∷ ts) = elim (Bool-cases (is_beyond t)) [
    | inl b ↦ rw (is_beyond-stop now t, b, keep-stop now ts) refl
    | inr b ↦ rw (is_beyond-stop now t, b, keep-stop now ts) refl
  ]

  write_keeps_beyond :
      (clock : ℕ → ℕ) (ts us : List Timer) (s : State)
      → keep is_beyond ts ≡ keep is_beyond us
      → write clock ts ≡ some s
      → AreLookedAt clock (keep is_beyond us) (keep is_beyond s.list)
  write_keeps_beyond clock ts us s e =
      write_inv (λ vs. AreLookedAt clock (keep is_beyond us) (keep is_beyond vs)) clock
        (λ k vs a. rw (keep-stop (clock k) vs) (look_all clock k a)) ts s
        (rw e (AreLookedAt-refl clock (keep is_beyond us)))

  conclude_keeps_beyond :
      (env : Env) (s s' : State) (m : Result (List Timer × TimerResult)) (r : Result TimerResult)
      → ((ts : List Timer) (x : TimerResult)
          → m ≡ ok (ts, x)
          → keep is_beyond ts ≡ keep is_beyond s.list)
      → conclude env s m ≡ some (s', r)
      → AreLookedAt env.clock (keep is_beyond s.list) (keep is_beyond s'.list)
  unfolding conclude
  conclude_keeps_beyond env s s' (err e) r k h =
      subst (λ z. AreLookedAt env.clock (keep is_beyond s.list) (keep is_beyond z.list))
        (state_of h) (AreLookedAt-refl env.clock (keep is_beyond s.list))
  conclude_keeps_beyond env s s' (ok (ts, x)) r k h = concluded h
    where
      concluded :
          conclude env s (ok (ts, x)) ≡ some (s', r)
          → AreLookedAt env.clock (keep is_beyond s.list) (keep is_beyond s'.list)
      concluded = elim (Option-cases (write env.clock ts)) [
        | inl e ↦ rw (conclude, e) (λ h. absurd (ground (arith, h)))
        | inr (z, e) ↦
            rw (conclude, e)
              (λ h.
                subst (λ z. AreLookedAt env.clock (keep is_beyond s.list) (keep is_beyond z.list))
                  (state_of h) (write_keeps_beyond env.clock ts s.list z (k ts x refl) e))
      ]

  -- On well-formed timers, whatever command comes from someone who reaches every group, or at least one: each
  -- timer out of reach is left as it was, or, if it was due at a look of the clock, stopped at its end; they stay
  -- in their order, and no timer is added to them or taken away.
  pub command_keeps_beyond :
      (env : Env) (name : Text) (params : Params) (s s' : State) (r : Result TimerResult)
      → reach ≢ some []
      → IsValid s.list
      → command env name params reach s ≡ some (s', r)
      → AreLookedAt env.clock (keep is_beyond s.list) (keep is_beyond s'.list)
  unfolding command run_command
  command_keeps_beyond env name params s s' r some_reach v = elim (Option-cases (command_of name)) [
    | inl e ↦ rw e (λ h.
        subst (λ z. AreLookedAt env.clock (keep is_beyond s.list) (keep is_beyond z.list))
          (state_of h) (AreLookedAt-refl env.clock (keep is_beyond s.list)))
    | inr (c, e) ↦ rw e (
        conclude_keeps_beyond env s s' (edit env c params reach s.list) r
          (λ ts x h. edit_keeps_beyond env c params s.list ts x some_reach v h))
  ]
