-- ===== src/Scheduler/OneShot/Laws.antt =====
-- What a trigger of scheduler.ts does, for how long, and what its timeout undoes.
use not_gt.Base.{
  ℕ, zero, suc, ◌+◌, ◌-◌, ◌≤◌, ◌<◌, ◌≡◌, Text, true, false, not, ◌&&◌, ◌||◌, Option, none, some,
  if◌then◌else◌, is_some, get_or, arith, inl, inr, Option-cases, ◌=t◌, =t_iff, =t_refl, lookup,
  lookup-insert,
}
use not_gt.Base.Int.{ℤ, pos, negsuc}
use not_gt.Model.{OutItem, Out, PlaybackConfig}
use not_gt.Store.{Store}
use not_gt.Store.Library.{get_item}
use not_gt.Store.Playing.{is_playing, add_playing, mark_trigger, trigger_key, trigger_count}
use not_gt.Store.Playing.Laws.{
  is_playing-add_playing, is_playing-remove_playing, trigger_count-mark_trigger,
  is_playing-mark_trigger, add_playing-triggers, add_playing-trigger_count,
}
use not_gt.Scheduler.{Scheduler, clamp_duration, key}
use not_gt.Scheduler.OneShot.{
  playback_hold, exit_for, configured_hold, item_playback, play, expire, hold_for, trigger,
}

abbrev pub day : ℕ
day = 86400000

-- A time on air is never more than a day.
clamp_duration_at_most : (n : Option ℤ) → clamp_duration n ≤ day
unfolding clamp_duration
clamp_duration_at_most none = omega arith
clamp_duration_at_most (some (pos n)) = omega arith
clamp_duration_at_most (some (negsuc n)) = omega arith

playback_hold_at_most : (d : Option ℤ) (p : Option PlaybackConfig) → playback_hold d p ≤ day
unfolding playback_hold
playback_hold_at_most none p =
    ground (arith, clamp_duration_at_most (some (get_or (configured_hold p) (pos 4000))))
playback_hold_at_most (some (pos zero)) p =
    ground (arith, clamp_duration_at_most (some (get_or (configured_hold p) (pos 4000))))
playback_hold_at_most (some (pos (suc n))) p = ground (
  arith,
  clamp_duration_at_most (some (get_or (configured_hold p) (pos 4000))),
  clamp_duration_at_most (some (pos (suc n))),
)
playback_hold_at_most (some (negsuc n)) p =
    ground (arith, clamp_duration_at_most (some (get_or (configured_hold p) (pos 4000))))

-- Whatever is asked for or configured, a placement is on air for at most a day.
pub hold_for_at_most :
    (duration_of : Text → Option ℤ) (s : Store) (o i : Text) (explicit : Option (Option ℤ))
    → hold_for duration_of s o i explicit ≤ day
unfolding hold_for
hold_for_at_most duration_of s o i (some e) = clamp_duration_at_most e
hold_for_at_most duration_of s o i none = elim (Option-cases (get_item s o i)) [
  | inl e ↦ ground (arith, e)
  | inr ((p, j), e) ↦
      ground (arith, e, playback_hold_at_most (duration_of j.template_id) (item_playback s j))
]

pub play-is_playing :
    (now h : ℕ) (o i o' i' : Text) (c : Scheduler)
    → is_playing (play now o i h c).store o' i'
      ≡ (is_playing c.store o' i' || ((o =t o') && (i =t i')))
unfolding play
play-is_playing now h o i o' i' c =
    ground
      (arith, is_playing-add_playing c.store o i o' i', mark_trigger-rest (add_playing o i c.store))
  where
    mark_trigger-rest : (s : Store) → is_playing (mark_trigger o i s) o' i' ≡ is_playing s o' i'
    mark_trigger-rest s = is_playing-mark_trigger s o i o' i'

play-lookup :
    (now h : ℕ) (o i k : Text) (c : Scheduler) (p : Out) (j : OutItem)
    → get_item c.store o i ≡ some (p, j)
    → j.held ≡ false
    → lookup k (play now o i h c).timers ≡ (
        if key o i =t k
        then some (some (record { at = now + (h - exit_for c.store o i); out_id = o; item_id = i }))
        else lookup k c.timers)
unfolding play
play-lookup now h o i k c p j e hj = ground (
  arith,
  e,
  hj,
  lookup-insert (key o i) k
      (some (record { at = now + (h - exit_for c.store o i); out_id = o; item_id = i })) c.timers,
)

play-trigger_count :
    (now h : ℕ) (o i : Text) (c : Scheduler) (p : Out) (j : OutItem)
    → get_item c.store o i ≡ some (p, j)
    → j.held ≡ false
    → trigger_count (play now o i h c).store o i ≡ suc (trigger_count c.store o i)
unfolding play
play-trigger_count now h o i c p j e hj = ground (
  arith,
  e,
  hj,
  trigger_count-mark_trigger (add_playing o i c.store) o i o i,
  =t_refl (trigger_key o i),
  add_playing-trigger_count c.store o i,
)

trigger_found :
    (duration_of : Text → Option ℤ) (now : ℕ) (o i : Text) (explicit : Option (Option ℤ))
    (c : Scheduler)
    → is_some (get_item c.store o i) ≡ true
    → (trigger duration_of now o i explicit c).0
      ≡ play now o i (hold_for duration_of c.store o i explicit) c
unfolding trigger
trigger_found duration_of now o i explicit c h = ground (arith, h)

-- When an out holds the placement, and it is not held, a trigger puts exactly it on air, adds one to its
-- counter, and sets the timeout of its key, in place of one that is there, to the time on air less the
-- template's own exit; no other entry changes.
pub trigger_once :
    (duration_of : Text → Option ℤ) (now : ℕ) (o i : Text) (explicit : Option (Option ℤ))
    (c : Scheduler) (p : Out) (j : OutItem)
    → get_item c.store o i ≡ some (p, j)
    → j.held ≡ false
    → ((o' i' : Text)
        → is_playing (trigger duration_of now o i explicit c).0.store o' i'
          ≡ (is_playing c.store o' i' || ((o =t o') && (i =t i'))))
      × ((trigger_count (trigger duration_of now o i explicit c).0.store o i
            ≡ suc (trigger_count c.store o i))
          × ((k : Text)
              → lookup k (trigger duration_of now o i explicit c).0.timers ≡ (
                  if key o i =t k
                  then some (
                      some (record {
                        at =
                            now
                            + (hold_for duration_of c.store o i explicit - exit_for c.store o i);
                        out_id = o;
                        item_id = i;
                      }))
                  else lookup k c.timers)))
trigger_once duration_of now o i explicit c p j h hj =
    let found = trigger_found duration_of now o i explicit c (ground (arith, h)) in
    let time = hold_for duration_of c.store o i explicit in
    (
      (λ o' i'. ground (arith, found, play-is_playing now time o i o' i' c)),
      (
        ground (arith, found, play-trigger_count now time o i c p j h hj),
        (λ k. ground (arith, found, play-lookup now time o i k c p j h hj)),
      ),
    )

-- A trigger of a placement that an out holds and that is held puts it on air, sets no timeout and
-- changes no counter.
pub trigger_held :
    (duration_of : Text → Option ℤ) (now : ℕ) (o i : Text) (explicit : Option (Option ℤ))
    (c : Scheduler) (p : Out) (j : OutItem)
    → get_item c.store o i ≡ some (p, j)
    → j.held ≡ true
    → (is_playing (trigger duration_of now o i explicit c).0.store o i ≡ true)
      × (((trigger duration_of now o i explicit c).0.timers ≡ c.timers)
          × ((trigger duration_of now o i explicit c).0.store.runtime.triggers
              ≡ c.store.runtime.triggers))
unfolding play
trigger_held duration_of now o i explicit c p j h hj =
    let found = trigger_found duration_of now o i explicit c (ground (arith, h)) in
    let time = hold_for duration_of c.store o i explicit in
    (
      ground (arith, found, play-is_playing now time o i o i c, =t_refl o, =t_refl i),
      (
        ground (arith, found, h, hj),
        ground (arith, found, h, hj, add_playing-triggers c.store o i),
      ),
    )

-- A one-shot at its end: a placement that an out holds and that is not held is triggered; when its
-- time on air, less the template's own exit, is over, its timeout takes exactly that placement off
-- air, and leaves its entry with no timeout.
pub expire-trigger :
    (duration_of : Text → Option ℤ) (now later : ℕ) (o i : Text) (explicit : Option (Option ℤ))
    (c : Scheduler) (p : Out) (j : OutItem)
    → get_item c.store o i ≡ some (p, j)
    → j.held ≡ false
    → now + (hold_for duration_of c.store o i explicit - exit_for c.store o i) ≤ later
    → ((o' i' : Text)
        → is_playing (expire later (key o i) (trigger duration_of now o i explicit c).0).store o' i'
          ≡ (is_playing c.store o' i' && not ((o =t o') && (i =t i'))))
      × (lookup (key o i) (expire later (key o i) (trigger duration_of now o i explicit c).0).timers
          ≡ some none)
unfolding expire
expire-trigger duration_of now later o i explicit c p j h hj hl =
    let once = trigger_once duration_of now o i explicit c p j h hj in
    let entry = once.1.1 (key o i) in
    let same = =t_refl (key o i) in
    let soon = hold_for_at_most duration_of c.store o i explicit in
    let t = (trigger duration_of now o i explicit c).0 in
    (
      (λ o' i'. ground (
        arith,
        once.0 o' i',
        entry,
        same,
        soon,
        is_playing-remove_playing t.store o i o' i',
        =t_iff o o',
        =t_iff i i',
      )),
      ground (arith, entry, same, soon, lookup-insert (key o i) (key o i) none t.timers),
    )

-- After the trigger of a placement that an out holds and that is not held, its timeout changes
-- nothing before its time on air, less the template's own exit, is over.
pub expire_early :
    (duration_of : Text → Option ℤ) (now early : ℕ) (o i : Text) (explicit : Option (Option ℤ))
    (c : Scheduler) (p : Out) (j : OutItem)
    → get_item c.store o i ≡ some (p, j)
    → j.held ≡ false
    → early < now + (hold_for duration_of c.store o i explicit - exit_for c.store o i)
    → expire early (key o i) (trigger duration_of now o i explicit c).0
      ≡ (trigger duration_of now o i explicit c).0
unfolding expire
expire_early duration_of now early o i explicit c p j h hj hl =
    ground (
      arith,
      (trigger_once duration_of now o i explicit c p j h hj).1.1 (key o i),
      =t_refl (key o i),
    )
