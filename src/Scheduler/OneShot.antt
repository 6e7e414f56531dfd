-- ===== src/Scheduler/OneShot.antt =====
-- bundles/notGT/src/extension/scheduler.ts: a placement put on air for a time. `durationOf`, the length of
-- a template's video in whole milliseconds, is read from a media file: it is the parameter `duration_of`.
pub mod Laws
pub mod Template
use not_gt.Base.{
  ℕ, zero, suc, ◌+◌, ◌-◌, min, Text, Bool, true, false, not, ◌&&◌, ◌||◌, Option, none, some, List,
  [], ◌∷◌, if◌then◌else◌, is_some, leb, get_or, ◌=t◌, ◌>>=◌, lookup, insert, Dict,
}
use not_gt.Base.Int.{ℤ, pos, negsuc}
use not_gt.Model.{
  OutItem, Out, TitleTemplate, PlaybackConfig, HoldMode, CodeBlock, code_exit_max_ms,
}
use not_gt.Store.{Store}
use not_gt.Store.Library.{get_template, get_item}
use not_gt.Store.Playing.{add_playing, remove_playing, mark_trigger}
use not_gt.Scheduler.{Due, Scheduler, clamp_duration, key, on_store, placements, each, skips}

-- `holdMode === "video"`.
abbrev is_video : Option PlaybackConfig → Bool
is_video none = false
is_video (some p) = elim (p.hold_mode) [ HoldMode.fixed ↦ false | HoldMode.video ↦ true ]

abbrev configured_hold : Option PlaybackConfig → Option ℤ
configured_hold none = none
configured_hold (some p) = p.hold_ms

-- The length of the video, where the playback asks for it and it is known, or the configured time.
unfoldable pub playback_hold : Option ℤ → Option PlaybackConfig → ℕ
unfolding clamp_duration
playback_hold duration playback = if is_video playback then of_video duration else configured
  where
    configured : ℕ
    configured = clamp_duration (some (get_or (configured_hold playback) (pos 4000)))

    of_video : Option ℤ → ℕ
    of_video none = configured
    of_video (some (pos zero)) = configured
    of_video (some (pos (suc n))) = clamp_duration (some (pos (suc n)))
    of_video (some (negsuc n)) = configured

abbrev own_playback : Option TitleTemplate → Option PlaybackConfig
own_playback none = none
own_playback (some t) = t.playback

-- `item.playback ?? template?.playback`.
abbrev item_playback : Store → OutItem → Option PlaybackConfig
item_playback s i = elim (i.playback) [
  | none ↦ own_playback (get_template s i.template_id)
  | some p ↦ some p
]

abbrev declared_exit : Option TitleTemplate → Option ℤ
declared_exit t = t >>= (λ u. u.code) >>= (λ code. code.exit_ms)

-- Rounding is the identity on whole milliseconds.
unfoldable pub exit_of : Option ℤ → ℕ
exit_of none = 0
exit_of (some (pos n)) = min code_exit_max_ms n
exit_of (some (negsuc n)) = 0

unfoldable pub exit_for : Store → Text → Text → ℕ
unfolding exit_of
exit_for s out_id item_id = elim (get_item s out_id item_id) [
  | none ↦ 0
  | some (o, i) ↦ exit_of (declared_exit (get_template s i.template_id))
]

abbrev pub item_held : Option (Out × OutItem) → Bool
item_held none = false
item_held (some (o, i)) = i.held

-- `setTimeout(…, visibleMs)`, in place of a timeout that the entry has.
abbrev set_due : ℕ → Text → Text → Scheduler → Scheduler
set_due at out_id item_id c = record c {
  timers =
      insert (key out_id item_id) (some (record { at = at; out_id = out_id; item_id = item_id }))
        c.timers;
}

unfoldable pub play : ℕ → Text → Text → ℕ → Scheduler → Scheduler
unfolding exit_for
play now out_id item_id hold_ms c =
    let on = on_store (add_playing out_id item_id) c in
    if item_held (get_item c.store out_id item_id)
    then on
    else set_due (now + (hold_ms - exit_for c.store out_id item_id)) out_id item_id
        (on_store (mark_trigger out_id item_id) on)

-- The callback of the timeout of the entry, when it is due.
unfoldable pub expire : ℕ → Text → Scheduler → Scheduler
expire now k c = elim (lookup k c.timers) [
  | none ↦ c
  | some none ↦ c
  | some (some due) ↦
      if leb due.at now
      then record c {
        store = remove_playing due.out_id due.item_id c.store;
        timers = insert k none c.timers;
      }
      else c
]

module _ (duration_of : Text → Option ℤ) where
  -- An explicit time is given as the outer `some`.
  unfoldable pub hold_for : Store → Text → Text → Option (Option ℤ) → ℕ
  unfolding playback_hold clamp_duration
  hold_for s out_id item_id (some explicit) = clamp_duration explicit
  hold_for s out_id item_id none = elim (get_item s out_id item_id) [
    | none ↦ 4000
    | some (o, i) ↦ playback_hold (duration_of i.template_id) (item_playback s i)
  ]

  unfoldable pub hold_for_template : Store → Text → ℕ
  unfolding playback_hold
  hold_for_template s id = playback_hold (duration_of id) (own_playback (get_template s id))

  unfoldable pub trigger : ℕ → Text → Text → Option (Option ℤ) → Scheduler → Scheduler × Bool
  unfolding hold_for play
  trigger now out_id item_id hold_ms c =
      if not (is_some (get_item c.store out_id item_id))
      then (c, false)
      else (play now out_id item_id (hold_for c.store out_id item_id hold_ms) c, true)

  -- The placements that `triggerTemplate` plays.
  abbrev pub is_wanted : Text → Option Text → Out × OutItem → Bool
  is_wanted id out_id (o, i) = not (skips out_id o) && (i.template_id =t id) && i.enabled

  unfoldable pub trigger_one :
      ℕ → Text → Option Text → Option (Option ℤ) → Out × OutItem → Scheduler × ℕ → Scheduler × ℕ
  unfolding trigger
  trigger_one now id out_id hold_ms (o, i) (c, count) =
      if is_wanted id out_id (o, i)
      then ((trigger now o.id i.id hold_ms c).0, count + 1)
      else (c, count)

  unfoldable pub trigger_template :
      ℕ → Text → Option Text → Option (Option ℤ) → Scheduler → Scheduler × ℕ
  unfolding each placements trigger_one
  trigger_template now id out_id hold_ms c =
      each (trigger_one now id out_id hold_ms) (placements c.store.outs) (c, 0)
