-- ===== src/Trigger/Laws.antt =====
-- What playing a template once does, whichever way it goes.
use not_gt.Base.{
  ℕ, ◌≤◌, ◌≡◌, ◌≢◌, Text, true, false, not, ◌&&◌, Option, none, some, [], length, keep, is_some,
  is_empty, arith, ◌=t◌, =t_iff,
}
use not_gt.Base.Int.{ℤ, pos, negsuc}
use not_gt.Store.Library.{get_template}
use not_gt.Store.Program.{hide, same_id}
use not_gt.Store.Program.Laws.{on_air, on_air-show}
use not_gt.Scheduler.{Scheduler, placements}
use not_gt.Scheduler.OneShot.{is_wanted, hold_for_template, trigger_template}
use not_gt.Scheduler.OneShot.Template.{trigger_template_lem, trigger_template-rest}
use not_gt.Trigger.{
  PlayTemplateOptions, items, manual, manual_hold, show_options, explicit, play_template_once,
  manual_end,
}

-- How many placements are asked for.
abbrev pub asked : (Text → Option ℤ) → Text → PlayTemplateOptions → Scheduler → ℕ
asked duration_of id opts c =
    length (keep (is_wanted duration_of id opts.out_id) (placements c.store.outs))

manual_hold_at_least : (n : Option ℤ) (m : ℕ) → 250 ≤ manual_hold n m
unfolding manual_hold
manual_hold_at_least none m = omega arith
manual_hold_at_least (some (pos n)) m = omega arith
manual_hold_at_least (some (negsuc n)) m = omega arith

same_ids : (t : Option Text) (i j : Text) → same_id t i ≡ true → same_id t j ≡ (j =t i)
same_ids none i j h = cc
same_ids (some t) i j h = ground (arith, =t_iff t i, =t_iff t j, =t_iff j i)

-- A stored template with no enabled placement on the outs asked for goes on air when it is played
-- all the same: it becomes the visible title of the program output, and the answer gives a time of
-- a quarter of a second at least.
pub play_template_once_alone :
    (duration_of : Text → Option ℤ) (now : ℕ) (id : Text) (opts : PlayTemplateOptions)
    (c : Scheduler)
    → is_some (get_template c.store id) ≡ true
    → asked duration_of id opts c ≡ 0
    → (on_air (play_template_once duration_of now id opts c).0.store id ≡ true)
      × ((n : ℕ) × ((250 ≤ n)
            × ((play_template_once duration_of now id opts c).1 ≡ some (manual n))))
unfolding play_template_once get_template
play_template_once_alone duration_of now id opts c h e =
    let count =
      (trigger_template_lem duration_of now id opts.out_id (explicit opts.hold_ms) c [] []).0 in
    let rest = trigger_template-rest duration_of now id opts.out_id (explicit opts.hold_ms) c in
    let after =
      (trigger_template duration_of now id opts.out_id (explicit opts.hold_ms) c).0.store in
    (
      ground (
        arith,
        h,
        e,
        count,
        rest,
        on_air-show now after id (show_options opts) (ground (arith, h, rest)),
      ),
      (
        manual_hold opts.hold_ms (hold_for_template duration_of after id),
        (manual_hold_at_least _ _, ground (arith, h, e, count)),
      ),
    )

-- When a stored template has enabled placements on the outs asked for, the answer counts them, and the
-- title on the program output is left alone.
pub play_template_once_placed :
    (duration_of : Text → Option ℤ) (now : ℕ) (id : Text) (opts : PlayTemplateOptions)
    (c : Scheduler)
    → is_some (get_template c.store id) ≡ true
    → asked duration_of id opts c ≢ 0
    → ((play_template_once duration_of now id opts c).0.store.active_title ≡ c.store.active_title)
      × ((play_template_once duration_of now id opts c).1
          ≡ some (items (asked duration_of id opts c)))
unfolding play_template_once get_template
play_template_once_placed duration_of now id opts c h e =
    let count =
      (trigger_template_lem duration_of now id opts.out_id (explicit opts.hold_ms) c [] []).0 in
    let rest = trigger_template-rest duration_of now id opts.out_id (explicit opts.hold_ms) c in
    (ground (arith, h, e, count, rest), ground (arith, h, e, count))

-- The end of a manual play of a template, whose id is not empty, takes the template off the output
-- when it is still the title there, and leaves any other title that has taken over.
pub manual_end_lem :
    (now : ℕ) (id j : Text) (c : Scheduler)
    → is_empty id ≡ false
    → on_air (manual_end now id c).store j ≡ (on_air c.store j && not (j =t id))
unfolding manual_end hide
manual_end_lem now id j c h =
    ground (arith, =t_iff j id, same_ids c.store.active_title.template_id id j)
