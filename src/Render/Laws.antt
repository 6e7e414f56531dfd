-- ===== src/Render/Laws.antt =====
-- The renders of bundles/notGT/src/extension/render.ts while the server runs.
use not_gt.Base.{
  ℕ, ◌≤◌, ◌≡◌, ◌≢◌, refl, Text, codes, Bool, false, not, ◌&&◌, Option, none, some, arith,
  Bool-cases, inl, inr, is_some, ◌=t◌, =t_refl, subst, ap,
}
use not_gt.Base.Int.{ℤ, pos, negsuc}
use not_gt.Model.{TitleTemplate}
use not_gt.Store.{Store}
use not_gt.Timers.Params.{Params, param}
use not_gt.Json.{Value}
use not_gt.Render.{
  RenderFormat, RenderState, RenderJob, Renders, RenderEnv, render_max_hold_ms, format_of,
  number_of, fps_in, time_in, needs_ffmpeg, or_zero, mode_of, template_of, new_job, Started,
  started, refused, begin_job, get_job, post_checked, post_job, cancel_current, cancel_job, End,
  with_file, stopped, with_error, ended, capture_current, capture, finish_current, finish,
}

-- A job that runs, with times that are not too long.
pub record IsRunning (job : RenderJob) : Type 0 where
  pub state : job.state ≡ RenderState.running
  pub hold : job.hold_ms ≤ render_max_hold_ms
  pub cycle : job.cycle_ms ≤ render_max_hold_ms

abbrev pub IsCurrent : Option (RenderJob × Bool) → Type 0
IsCurrent none = Unit
IsCurrent (some (job, c)) = IsRunning job

abbrev pub IsLast : Option RenderJob → Type 0
IsLast none = Unit
IsLast (some job) = job.state ≢ RenderState.running

pub record IsOrderly (r : Renders) : Type 0 where
  pub current : IsCurrent r.current
  pub last : IsLast r.last

-- The renders of a server as they come to be.
pub data Run : Renders → Type 0 where
  idle : Run (record { current = none; last = none })
  posted :
      {r : Renders} (store : Store) (env : RenderEnv) (body : Params)
      → Run r
      → Run (post_job store env body r).0
  deleted : {r : Renders} (id : Text) → Run r → Run (cancel_job id r).0
  captured : {r : Renders} (now frames : ℕ) → Run r → Run (capture now frames r)
  finished : {r : Renders} (now : ℕ) (how : End) → Run r → Run (finish now how r)

time_in_bounded : (v : Option ℤ) (n : ℕ) → time_in v ≡ some n → n ≤ render_max_hold_ms
time_in_bounded none n h = absurd (ground (arith, h))
time_in_bounded (some (pos m)) n h = ground (arith, h)
time_in_bounded (some (negsuc m)) n h = absurd (ground (arith, h))

begin_job-IsOrderly :
    (env : RenderEnv) (job : RenderJob) (r : Renders)
    → IsRunning job
    → IsOrderly r
    → IsOrderly (begin_job env job r).0
unfolding begin_job
begin_job-IsOrderly env job r j o = elim (Bool-cases (is_some r.current)) [
  | inl b ↦ rw b o
  | inr b ↦ elim (Bool-cases (not env.browser)) [
    | inl c ↦ rw (b, c) o
    | inr c ↦ elim (Bool-cases (needs_ffmpeg job.format && not env.ffmpeg)) [
      | inl d ↦ rw (b, c, d) o
      | inr d ↦ rw (b, c, d) (record { current = j; last = o.last })
    ]
  ]
]

post_checked-IsOrderly :
    (env : RenderEnv) (mode : Value) (r : Renders)
    → (t : Option TitleTemplate) (format : Option RenderFormat) (fps hold_ms cycle_ms : Option ℕ)
    → ((n : ℕ) → hold_ms ≡ some n → n ≤ render_max_hold_ms)
    → ((n : ℕ) → cycle_ms ≡ some n → n ≤ render_max_hold_ms)
    → IsOrderly r
    → IsOrderly (post_checked env mode r t format fps hold_ms cycle_ms).0
unfolding post_checked new_job
post_checked-IsOrderly env mode r none format fps hold_ms cycle_ms bh bc o = o
post_checked-IsOrderly env mode r (some t) none fps hold_ms cycle_ms bh bc o = o
post_checked-IsOrderly env mode r (some t) (some format) none hold_ms cycle_ms bh bc o = o
post_checked-IsOrderly env mode r (some t) (some format) (some fps) none cycle_ms bh bc o = o
post_checked-IsOrderly env mode r (some t) (some format) (some fps) (some hold) none bh bc o = o
post_checked-IsOrderly env mode r (some t) (some format) (some fps) (some hold) (some cycle) bh bc
      o =
    begin_job-IsOrderly env (new_job env t format fps (mode_of mode) hold cycle) r
      (record { state = refl; hold = bh hold refl; cycle = bc cycle refl }) o

post_job-IsOrderly :
    (store : Store) (env : RenderEnv) (body : Params) (r : Renders)
    → IsOrderly r
    → IsOrderly (post_job store env body r).0
unfolding post_job
post_job-IsOrderly store env body r o =
    post_checked-IsOrderly env (param body (codes "mode")) r
      (template_of store (param body (codes "templateId")))
      (format_of (param body (codes "format"))) (fps_in (number_of (param body (codes "fps"))))
      (time_in (number_of (or_zero (param body (codes "holdMs")))))
      (time_in (number_of (or_zero (param body (codes "cycleMs")))))
      (time_in_bounded (number_of (or_zero (param body (codes "holdMs")))))
      (time_in_bounded (number_of (or_zero (param body (codes "cycleMs"))))) o

ended-IsLast : (now : ℕ) (how : End) (job : RenderJob) → IsLast (some (ended now how job))
unfolding ended
ended-IsLast now (with_file frames file bytes cycle_ms) job = λ e. ground (arith, e)
ended-IsLast now stopped job = λ e. ground (arith, e)
ended-IsLast now (with_error message no_loop) job = λ e. ground (arith, e)

cancel_current-IsOrderly :
    (id : Text) (r : Renders) (current : Option (RenderJob × Bool))
    → IsCurrent current
    → IsOrderly r
    → IsOrderly (cancel_current id r current).0
cancel_current-IsOrderly id r none i o = o
cancel_current-IsOrderly id r (some (job, c)) i o = elim (Bool-cases (job.id =t id)) [
  | inl e ↦ rw e (record { current = i; last = o.last })
  | inr e ↦ rw e o
]

cancel_job-IsOrderly : (id : Text) (r : Renders) → IsOrderly r → IsOrderly (cancel_job id r).0
unfolding cancel_job
cancel_job-IsOrderly id r o = cancel_current-IsOrderly id r r.current o.current o

capture_current-IsOrderly :
    (now frames : ℕ) (r : Renders) (current : Option (RenderJob × Bool))
    → IsCurrent current
    → IsOrderly r
    → IsOrderly (capture_current now frames r current)
capture_current-IsOrderly now frames r none i o = o
capture_current-IsOrderly now frames r (some (job, c)) i o = record {
  current = record { state = i.state; hold = i.hold; cycle = i.cycle };
  last = o.last;
}

capture-IsOrderly : (now frames : ℕ) (r : Renders) → IsOrderly r → IsOrderly (capture now frames r)
unfolding capture
capture-IsOrderly now frames r o = capture_current-IsOrderly now frames r r.current o.current o

finish_current-IsOrderly :
    (now : ℕ) (how : End) (r : Renders) (current : Option (RenderJob × Bool))
    → IsOrderly r
    → IsOrderly (finish_current now how r current)
unfolding finish_current
finish_current-IsOrderly now how r none o = o
finish_current-IsOrderly now how r (some (job, c)) o = record {
  current = tt;
  last = ended-IsLast now how job;
}

finish-IsOrderly : (now : ℕ) (how : End) (r : Renders) → IsOrderly r → IsOrderly (finish now how r)
unfolding finish
finish-IsOrderly now how r o = finish_current-IsOrderly now how r r.current o

-- Whatever is asked of the renders of a server, and however they end: the current job runs, for no longer on
-- screen and with no longer a loop than the longest time on screen, and the last job runs no more.
pub Run-IsOrderly : {r : Renders} → Run r → IsOrderly r
Run-IsOrderly idle = record { current = tt; last = tt }
Run-IsOrderly (posted {r = r} store env body q) =
    post_job-IsOrderly store env body r (Run-IsOrderly q)
Run-IsOrderly (deleted {r = r} id q) = cancel_job-IsOrderly id r (Run-IsOrderly q)
Run-IsOrderly (captured {r = r} now frames q) = capture-IsOrderly now frames r (Run-IsOrderly q)
Run-IsOrderly (finished {r = r} now how q) = finish-IsOrderly now how r (Run-IsOrderly q)

abbrev job_of : Started → RenderJob → RenderJob
job_of (started job) other = job
job_of (refused e) other = other

current_found :
    (r : Renders) (job : RenderJob) (c : Bool)
    → get_job job.id (record r { current = some (job, c) }) ≡ some job
unfolding get_job
current_found r job c = rw (=t_refl job.id) refl

begin_job-get_job :
    (env : RenderEnv) (asked job : RenderJob) (r : Renders)
    → (begin_job env asked r).1 ≡ started job
    → get_job job.id (begin_job env asked r).0 ≡ some job
unfolding begin_job
begin_job-get_job env asked job r = elim (Bool-cases (is_some r.current)) [
  | inl b ↦ rw b (λ h. absurd (ground (arith, h)))
  | inr b ↦ elim (Bool-cases (not env.browser)) [
    | inl c ↦ rw (b, c) (λ h. absurd (ground (arith, h)))
    | inr c ↦ elim (Bool-cases (needs_ffmpeg asked.format && not env.ffmpeg)) [
      | inl d ↦ rw (b, c, d) (λ h. absurd (ground (arith, h)))
      | inr d ↦
          rw (b, c, d)
            (λ h.
              subst (λ j. get_job j.id (record r { current = some (asked, false) }) ≡ some j)
                (ap (λ s. job_of s asked) h) (current_found r asked false))
    ]
  ]
]

post_checked-get_job :
    (env : RenderEnv) (mode : Value) (r : Renders) (job : RenderJob)
    → (t : Option TitleTemplate) (format : Option RenderFormat) (fps hold_ms cycle_ms : Option ℕ)
    → (post_checked env mode r t format fps hold_ms cycle_ms).1 ≡ started job
    → get_job job.id (post_checked env mode r t format fps hold_ms cycle_ms).0 ≡ some job
unfolding post_checked
post_checked-get_job env mode r job none format fps hold_ms cycle_ms h = absurd (ground (arith, h))
post_checked-get_job env mode r job (some t) none fps hold_ms cycle_ms h =
    absurd (ground (arith, h))
post_checked-get_job env mode r job (some t) (some format) none hold_ms cycle_ms h =
    absurd (ground (arith, h))
post_checked-get_job env mode r job (some t) (some format) (some fps) none cycle_ms h =
    absurd (ground (arith, h))
post_checked-get_job env mode r job (some t) (some format) (some fps) (some hold) none h =
    absurd (ground (arith, h))
post_checked-get_job env mode r job (some t) (some format) (some fps) (some hold) (some cycle) h =
    begin_job-get_job env (new_job env t format fps (mode_of mode) hold cycle) job r h

-- A render that a request started is the one that is found by its id afterwards.
pub post_job-get_job :
    (store : Store) (env : RenderEnv) (body : Params) (r : Renders) (job : RenderJob)
    → (post_job store env body r).1 ≡ started job
    → get_job job.id (post_job store env body r).0 ≡ some job
unfolding post_job
post_job-get_job store env body r job h =
    post_checked-get_job env (param body (codes "mode")) r job
      (template_of store (param body (codes "templateId")))
      (format_of (param body (codes "format"))) (fps_in (number_of (param body (codes "fps"))))
      (time_in (number_of (or_zero (param body (codes "holdMs")))))
      (time_in (number_of (or_zero (param body (codes "cycleMs"))))) h
