-- ===== src/Ws/Commands/Beyond.antt =====
-- A client of bundles/notGT/src/extension/ws.ts with a limited reach, and the outs beyond it.
use not_gt.Base.{
  ℕ, ◌≡◌, ◌≢◌, ◌⊎◌, inl, inr, refl, subst, Text, codes, true, false, not, ◌&&◌, Option, none, some,
  List, [], ◌∷◌, is_some, Bool-cases, includes, arith,
}
use not_gt.Base.Int.{ℤ}
use not_gt.Store.Library.{get_template}
use not_gt.Store.Playing.{is_playing}
use not_gt.Scheduler.{Scheduler, stop_out}
use not_gt.Scheduler.OneShot.{trigger}
use not_gt.Trigger.{PlayTemplateResult, explicit, play_template_once}
use not_gt.Timers.Params.{Params, param}
use not_gt.Ws.{
  CommandError, Reply, accepted, rejected, and_then, pick_string, pick_number, require_string, Outs,
  within, target_out, reach_of,
}
use not_gt.Ws.Commands.{
  Told, Answer, options, show_on, show_command, hide_on, hide_reach, hide_command, toggle_on,
  toggle_command, stop_command, reset_one, reset_command, is_shown, stop_each, out_names,
  play_options, answered, trigger_item, trigger_template_on, trigger_for, trigger_command,
  TitleCommand, title_command,
}
use not_gt.Ws.Commands.Targets.{
  apart, within-same, within-includes, target_out-includes, reach_of-includes,
}
use not_gt.Ws.Commands.Titles.{
  IsOwn, show-IsOwn, toggle-IsOwn, stop_out-active, trigger-active, play_once-IsOwn, each-IsOwn,
  hide_on-IsOwn, reset_one-IsOwn,
}
use not_gt.Ws.Commands.Reach.{
  named, show-is_playing, toggle-is_playing, stop_out-is_playing, hide_on-is_playing,
  each-is_playing, reset_one-is_playing, trigger-is_playing, play_once-is_playing,
}

Reply-cases :
    {A : Type 0} (r : Reply A)
    → ((a : A) × (r ≡ accepted a)) ⊎ ((e : CommandError) × (r ≡ rejected e))
Reply-cases (accepted a) = inl (a, refl)
Reply-cases (rejected e) = inr (e, refl)

-- What an answer leaves on air at a placement, and on the program output.
module _ (os : List Text) (o i : Text) (c : Scheduler) where
  abbrev Leaves : Answer → Type 0
  Leaves (rejected e) = Unit
  Leaves (accepted (d, told)) =
      (is_playing d.store o i ≡ is_playing c.store o i)
      × IsOwn os c.store.active_title d.store.active_title

  Leaves-and_then :
      {A : Type 0} (r : Reply A) (f : A → Answer)
      → ((a : A) → r ≡ accepted a → Leaves (f a))
      → Leaves (and_then r f)
  Leaves-and_then (rejected e) f h = tt
  Leaves-and_then (accepted a) f h = h a refl

module _ (os : List Text) (o i : Text) (c : Scheduler) where
  answered-Leaves :
      (r : Scheduler × Option PlayTemplateResult)
      → (is_playing r.0.store o i ≡ is_playing c.store o i)
        × IsOwn os c.store.active_title r.0.store.active_title
      → Leaves os o i c (answered r)
  answered-Leaves (d, none) h = tt
  answered-Leaves (d, some x) h = h

-- Outs that leave out what is not in the list are in the list.
own :
    (os ps : List Text)
    → ((o : Text) → includes os o ≡ false → includes ps o ≡ false)
    → (p : Text) → includes ps p ≡ true
    → includes os p ≡ true
own os ps away p m = elim (Bool-cases (includes os p)) [
  | inl e ↦ e
  | inr e ↦ absurd (ground (arith, m, away p e))
]

module _ (os : List Text) (o i : Text) (beyond : includes os o ≡ false) (c : Scheduler) where
  show-Leaves : (now : ℕ) (params : Params) → Leaves os o i c (show_command now (some os) params c)
  unfolding show_command show_on
  show-Leaves now params =
      Leaves-and_then os o i c (require_string params (codes "templateId" ∷ [])) _ (λ id _.
        Leaves-and_then os o i c (target_out params (some os)) _
          (λ t h. leaves id t (target_out-includes os params t h)))
    where
      leaves :
          (id : Text) (t : Option Text)
          → (p : Text) × (t ≡ some p) × (includes os p ≡ true)
          → Leaves os o i c (show_on now id params c t)
      leaves id t (p, f, m) = elim (Bool-cases (is_some (get_template c.store id))) [
        | inl e ↦ rw e (
          show-is_playing o i now id (options params t) c.store,
          show-IsOwn os p m now id (options params t) c.store f,
        )
        | inr e ↦ rw e tt
      ]

  toggle-Leaves :
      (now : ℕ) (params : Params) → Leaves os o i c (toggle_command now (some os) params c)
  unfolding toggle_command toggle_on
  toggle-Leaves now params =
      Leaves-and_then os o i c (require_string params (codes "templateId" ∷ [])) _ (λ id _.
        Leaves-and_then os o i c (target_out params (some os)) _
          (λ t h. leaves id t (target_out-includes os params t h)))
    where
      leaves :
          (id : Text) (t : Option Text)
          → (p : Text) × (t ≡ some p) × (includes os p ≡ true)
          → Leaves os o i c (toggle_on now id params c t)
      leaves id t (p, f, m) =
          elim (Bool-cases (not (is_shown id c.store) && not (is_some (get_template c.store id)))) [
            | inl e ↦ rw e tt
            | inr e ↦ rw e (
              toggle-is_playing o i now id (options params t) c.store,
              toggle-IsOwn os p m now id (options params t) c.store f,
            )
          ]

  module _ (filled : includes os [] ≡ false) where
    hide-Leaves :
        (now : ℕ) (params : Params) → Leaves os o i c (hide_command now (some os) params c)
    unfolding hide_command hide_reach
    hide-Leaves now params =
        Leaves-and_then os o i c (reach_of params (some os)) _
          (λ r e. leaves r (reach_of-includes os params r e))
      where
        id : Option Text
        id = pick_string (param params (codes "templateId"))

        leaves :
            (r : Outs)
            → (ps : List Text) × (r ≡ some ps)
              × ((o : Text) → includes os o ≡ false → includes ps o ≡ false)
            → Leaves os o i c (hide_reach now id (some os) c r)
        leaves r (ps, e, away) = rw e (
          each-is_playing o i (λ p. hide_on now id (some p))
              (λ p d. hide_on-is_playing o i now id p d) ps c (away [] filled) (away o beyond),
          each-IsOwn os (λ p. hide_on now id (some p)) (λ p d m. hide_on-IsOwn os now p d m id) ps c
              (own os ps away),
        )

    stop-Leaves : (params : Params) → Leaves os o i c (stop_command (some os) params c)
    unfolding stop_command
    stop-Leaves params =
        Leaves-and_then os o i c (reach_of params (some os)) _
          (λ r e. leaves r (reach_of-includes os params r e))
      where
        leaves :
            (r : Outs)
            → (ps : List Text) × (r ≡ some ps)
              × ((o : Text) → includes os o ≡ false → includes ps o ≡ false)
            → Leaves os o i c (accepted (stop_each c r, Told.stopped r))
        leaves r (ps, e, away) = rw e (
          each-is_playing o i (λ p. stop_out (some p)) (λ p d. stop_out-is_playing o i p d) ps c
              (away [] filled) (away o beyond),
          each-IsOwn os (λ p. stop_out (some p)) (λ p d m. inl (stop_out-active (some p) d)) ps c
              (own os ps away),
        )

    reset-Leaves : (now : ℕ) → Leaves os o i c (reset_command now (some os) c)
    unfolding reset_command
    reset-Leaves now = (
      each-is_playing o i (reset_one now) (λ p d. reset_one-is_playing o i now p d) os c filled
          beyond,
      each-IsOwn os (reset_one now) (λ p d m. reset_one-IsOwn os now p d m) os c (λ p m. m),
    )

    module _ (duration_of : Text → Option ℤ) (now : ℕ) (params : Params) where
      trigger_item-Leaves :
          (item_id p : Text)
          → within (some os) p ≡ accepted p
          → Leaves os o i c (trigger_item duration_of now params c item_id p)
      unfolding trigger_item
      trigger_item-Leaves item_id p h =
          let e = explicit (pick_number (param params (codes "holdMs"))) in
          elim (Bool-cases (trigger duration_of now p item_id e c).1) [
            | inl f ↦ rw f (
              trigger-is_playing o i duration_of now p item_id e c
                  (apart os p o (within-includes os p p h) beyond),
              inl (trigger-active duration_of now p item_id e c),
            )
            | inr f ↦ rw f tt
          ]

      played_on-Leaves :
          (id : Text) (t : Option Text)
          → (p : Text) × (t ≡ some p) × (includes os p ≡ true)
          → Leaves os o i c (trigger_template_on duration_of now id params c t)
      unfolding trigger_template_on
      played_on-Leaves id t (p, e, m) = rw e (
          answered-Leaves os o i c
            (play_template_once duration_of now id (play_options params (some p)) c)
            (
              play_once-is_playing o i duration_of now id p (play_options params (some p)) c refl
                  (named p (apart os p [] m filled)) (apart os p o m beyond),
              play_once-IsOwn duration_of now os id p (play_options params (some p)) c refl m,
            ))

      trigger_for-Leaves :
          (item : Option Text)
          → Leaves os o i c (trigger_for duration_of now (some os) params c item)
      unfolding trigger_for
      trigger_for-Leaves (some item_id) =
          Leaves-and_then os o i c (and_then (require_string params out_names) (within (some os))) _
            (λ p h.
              trigger_item-Leaves item_id p (within-same os p (require_string params out_names) h))
      trigger_for-Leaves none =
          Leaves-and_then os o i c (require_string params (codes "templateId" ∷ [])) _ (λ id _.
            Leaves-and_then os o i c (target_out params (some os)) _
              (λ t h. played_on-Leaves id t (target_out-includes os params t h)))

-- A client that reaches some outs, all with names, leaves the placements on air on every other out as they were,
-- whatever command it gives, other than `hold`, if the command is accepted; and the title on the program output is
-- left as it was, or is afterwards one on an out that the client reaches.
pub title_command-reach :
    (duration_of : Text → Option ℤ) (cmd : TitleCommand) (now : ℕ) (os : List Text)
    (params : Params) (c d : Scheduler) (told : Told) (o i : Text)
    → cmd ≢ TitleCommand.hold_title
    → includes os [] ≡ false
    → includes os o ≡ false
    → title_command duration_of cmd now (some os) params c ≡ accepted (d, told)
    → (is_playing d.store o i ≡ is_playing c.store o i)
      × IsOwn os c.store.active_title d.store.active_title
unfolding title_command trigger_command
title_command-reach duration_of cmd now os params c d told o i n filled beyond h =
    subst (Leaves os o i c) h (leaves cmd n)
  where
    leaves :
        (cmd : TitleCommand)
        → cmd ≢ TitleCommand.hold_title
        → Leaves os o i c (title_command duration_of cmd now (some os) params c)
    leaves TitleCommand.show_title m = show-Leaves os o i beyond c now params
    leaves TitleCommand.hide_title m = hide-Leaves os o i beyond c filled now params
    leaves TitleCommand.toggle_title m = toggle-Leaves os o i beyond c now params
    leaves TitleCommand.trigger_title m =
        trigger_for-Leaves os o i beyond c filled duration_of now params
          (pick_string (param params (codes "itemId")))
    leaves TitleCommand.hold_title m = absurd (m refl)
    leaves TitleCommand.stop_title m = stop-Leaves os o i beyond c filled params
    leaves TitleCommand.reset_title m = reset-Leaves os o i beyond c filled now
