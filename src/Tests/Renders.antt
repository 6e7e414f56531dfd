-- ===== src/Tests/Renders.antt =====
-- The theorem about renders, at one input.
use not_gt.Base.{◌≡◌, refl, codes, lookup, ◌=t◌, true, some, none, [], ◌∷◌}
use not_gt.Base.Int.{pos}
use not_gt.Json.{str, num}
use not_gt.Timers.Params.{Params}
use not_gt.Render.{
  RenderEnv, Renders, RenderJob, get_job, new_job, RenderFormat, RenderMode, post_job, cancel_job,
  capture, finish, stopped,
}
use not_gt.Render.Laws.{
  IsOrderly, idle, posted, deleted, captured, finished, Run-IsOrderly, post_job-get_job,
}
use not_gt.Store.Library.{get_template}
use not_gt.Tests.{store, lower_third}

abbrev machine : RenderEnv
machine = record { now = 5000; new_id = codes "r1"; browser = true; ffmpeg = true }

abbrev request : Params
request =
    (codes "templateId", str (codes "lower"))
    ∷ (codes "format", str (codes "webm"))
    ∷ (codes "fps", num (pos 50))
    ∷ (codes "holdMs", num (pos 2000))
    ∷ []

abbrev no_renders : Renders
no_renders = record { current = none; last = none }

-- A render that is asked for, draws ten frames, and is cancelled, while a second one is refused.
Run-IsOrderly_example : IsOrderly (
    finish 7000 stopped
      (post_job store machine request
        (cancel_job
          (codes "r1")
          (capture 6000 10 (post_job store machine request no_renders).0)).0).0)
Run-IsOrderly_example = Run-IsOrderly (
    finished 7000 stopped (
      posted store machine request
        (deleted (codes "r1") (captured 6000 10 (posted store machine request idle)))))

abbrev webm_job : RenderJob
unfolding new_job
webm_job = new_job machine lower_third RenderFormat.webm 50 RenderMode.play 2000 0

post_job-get_job_example :
    get_job (codes "r1") (post_job store machine request no_renders).0 ≡ some webm_job
unfolding post_job new_job lookup ◌=t◌ get_template
post_job-get_job_example = post_job-get_job store machine request no_renders webm_job refl
