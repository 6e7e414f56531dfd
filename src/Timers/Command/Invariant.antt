-- ===== src/Timers/Command/Invariant.antt =====
-- The well-formedness of the timers of bundles/notGT/src/extension/timers.ts under `command`.
use not_gt.Base.{
  ℕ, ◌≡◌, refl, subst, sym, inl, inr, Text, false, Option, none, some, List, [], ◌∷◌, map, arith,
  includes, All, All-append, All-keep,
}
use mathlib.Core.List.{map-append}
use not_gt.Timer.{Timer}
use not_gt.Timer.Fold.{folded}
use not_gt.Timers.Params.{Result, ok, err, TimerError, Params}
use not_gt.Timers.Settle.{State, stop_due, write}
use not_gt.Timers.Settle.Termination.{write_inv, IsSettled, write_settles}
use not_gt.Timers.Command.{
  TimerCommand, TimerResult, Env, command, command_of, conclude, run_command, edit, keys, is_other,
}
use not_gt.Timers.Command.Distinct.{
  ids, Distinct-snoc, Distinct-keep, ids-put, keys-put, Distinct-put, All-put,
}
use not_gt.Timers.Command.Keys.{IsTimer, IsValid}
use not_gt.Timers.Command.Edits.{IsEdit, created, dropped, changed, edit-IsEdit}

IsEdit-IsValid :
    {env : Env} {reach : Option (List Text)} {ts ts' : List Timer}
    → includes (ids ts) env.new_id ≡ false
    → IsValid ts
    → IsEdit env reach ts ts'
    → IsValid ts'
IsEdit-IsValid {ts = ts} fresh v (created t i k fine _ e) = subst IsValid (sym e) (record {
  ids_distinct =
      rw (map-append (λ t. t.id) ts (t ∷ []))
        (Distinct-snoc (ids ts) t.id v.ids_distinct (rw i fresh));
  keys_distinct =
      rw (map-append (λ t. t.key) ts (t ∷ [])) (Distinct-snoc (keys ts) t.key v.keys_distinct k);
  timers = All-append IsTimer ts (t ∷ []) v.timers (fine, tt);
})
IsEdit-IsValid {ts = ts} fresh v (dropped t _ _ e) = subst IsValid (sym e) (record {
  ids_distinct = Distinct-keep (λ t. t.id) (is_other t) ts v.ids_distinct;
  keys_distinct = Distinct-keep (λ t. t.key) (is_other t) ts v.keys_distinct;
  timers = All-keep IsTimer (is_other t) ts v.timers;
})
IsEdit-IsValid {ts = ts} fresh v (changed t u sole _ n e) = subst IsValid (sym e) (record {
  ids_distinct = rw (ids-put t u ts n.id) v.ids_distinct;
  keys_distinct = elim n.key [
    | inl same ↦ rw (keys-put t u ts sole same) v.keys_distinct
    | inr free ↦ Distinct-put t u ts v.ids_distinct v.keys_distinct free
  ];
  timers = All-put IsTimer t u ts n.well_formed v.timers;
})

ids-stop : (now : ℕ) (ts : List Timer) → ids (map (stop_due now) ts) ≡ ids ts
unfolding folded
ids-stop now [] = refl
ids-stop now (t ∷ ts) = ground (arith, ids-stop now ts)

keys-stop : (now : ℕ) (ts : List Timer) → keys (map (stop_due now) ts) ≡ keys ts
unfolding folded
keys-stop now [] = refl
keys-stop now (t ∷ ts) = ground (arith, keys-stop now ts)

stop-IsTimer : (now : ℕ) (t : Timer) → IsTimer t → IsTimer (stop_due now t)
unfolding folded
stop-IsTimer now t h = ground arith

stop-All : (now : ℕ) (ts : List Timer) → All IsTimer ts → All IsTimer (map (stop_due now) ts)
stop-All now [] h = tt
stop-All now (t ∷ ts) h = (stop-IsTimer now t h.0, stop-All now ts h.1)

stop-IsValid : (now : ℕ) (ts : List Timer) → IsValid ts → IsValid (map (stop_due now) ts)
stop-IsValid now ts v = record {
  ids_distinct = rw (ids-stop now ts) v.ids_distinct;
  keys_distinct = rw (keys-stop now ts) v.keys_distinct;
  timers = stop-All now ts v.timers;
}

-- A command is always answered. One that is refused leaves the timers and the timeout as they were;
-- one that is accepted leaves a well-formed list with no timer past its end at the last look.
abbrev pub Answered : Env → State → State → Result TimerResult → Type 0
Answered env s s' (err e) = s' ≡ s
Answered env s s' (ok r) = IsValid s'.list × ((last : ℕ) × IsSettled (env.clock last) s')

write-Answered :
    (env : Env) (s : State) (ts : List Timer) (r : TimerResult)
    → IsValid ts
    → (s' : State) × (write env.clock ts ≡ some s') × Answered env s s' (ok r)
write-Answered env s ts r v =
    let (s', last, e, settled) = write_settles env.clock ts in
    (
      s',
      e,
      (
        write_inv IsValid env.clock (λ k us. stop-IsValid (env.clock k) us) ts s' v e,
        (last, settled),
      ),
    )

edit-Answered :
    (env : Env) (c : TimerCommand) (params : Params) (reach : Option (List Text)) (s : State)
    → includes (ids s.list) env.new_id ≡ false
    → IsValid s.list
    → (m : Result (List Timer × TimerResult)) → edit env c params reach s.list ≡ m
    → (s' : State) × (r : Result TimerResult) × (conclude env s m ≡ some (s', r))
      × Answered env s s' r
unfolding conclude
edit-Answered env c params reach s fresh v (err x) e = (s, err x, refl, refl)
edit-Answered env c params reach s fresh v (ok (ts, r)) e =
    let edited = edit-IsEdit env c params reach s.list ts r v e in
    let (s', written, answered) = write-Answered env s ts r (IsEdit-IsValid fresh v edited) in
    (s', ok r, rw (written, conclude), answered)

run_command-Answered :
    (env : Env) (c : Option TimerCommand) (params : Params) (reach : Option (List Text)) (s : State)
    → includes (ids s.list) env.new_id ≡ false
    → IsValid s.list
    → (s' : State) × (r : Result TimerResult) × (run_command env c params reach s ≡ some (s', r))
      × Answered env s s' r
unfolding run_command
run_command-Answered env none params reach s fresh v = (s, err TimerError.bad_request, refl, refl)
run_command-Answered env (some c) params reach s fresh v =
    edit-Answered env c params reach s fresh v (edit env c params reach s.list) refl

-- Whatever the command, its parameters and whoever asks, on well-formed timers and with an id from
-- `newId` that no timer has, the command is answered: refused, it changes nothing; accepted, it
-- leaves well-formed timers, none of them running past its end at the last look of the clock.
pub command-Answered :
    (env : Env) (name : Text) (params : Params) (reach : Option (List Text)) (s : State)
    → includes (ids s.list) env.new_id ≡ false
    → IsValid s.list
    → (s' : State) × (r : Result TimerResult) × (command env name params reach s ≡ some (s', r))
      × Answered env s s' r
unfolding command
command-Answered env name params reach s fresh v =
    run_command-Answered env (command_of name) params reach s fresh v
