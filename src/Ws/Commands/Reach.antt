-- ===== src/Ws/Commands/Reach.antt =====
-- How far the commands of bundles/notGT/src/extension/ws.ts reach: what happens to an out that the client
-- does not reach.
use not_gt.Base.{
  ℕ, ◌≡◌, inl, inr, refl, sym, ◌∙◌, ◌==◌, Text, false, Option, none, some, List, [], ◌∷◌, is_empty,
  is_some, arith, Bool-cases, ◌=t◌, =t_iff, includes,
}
use not_gt.Base.Int.{ℤ}
use not_gt.Model.{OutItem, Out}
use not_gt.Store.{Store}
use not_gt.Store.Library.{get_template}
use not_gt.Store.Playing.{is_playing, playing_for}
use not_gt.Store.Playing.Laws.{is_playing-remove_playing}
use not_gt.Store.Program.{ShowOptions, show, hide, toggle}
use not_gt.Scheduler.{Scheduler, on_store, each, placements, stop_one, stop_out}
use not_gt.Scheduler.OneShot.{trigger, hold_for, trigger_one, trigger_template}
use not_gt.Scheduler.OneShot.Laws.{play-is_playing}
use not_gt.Trigger.{explicit, show_options, PlayTemplateOptions, play_template_once}
use not_gt.Ws.Commands.{hide_on, reset_one}

pub named : (p : Text) → (p =t []) ≡ false → is_empty p ≡ false
unfolding ◌=t◌
named [] e = e
named (d ∷ p) e = refl

module _ (o i : Text) where
  pub show-is_playing :
      (now : ℕ) (id : Text) (opts : ShowOptions) (s : Store)
      → is_playing (show now id opts s) o i ≡ is_playing s o i
  unfolding show is_playing playing_for
  show-is_playing now id opts s = ground arith

  pub hide-is_playing :
      (now : ℕ) (out_id template_id : Option Text) (s : Store)
      → is_playing (hide now out_id template_id s) o i ≡ is_playing s o i
  unfolding hide is_playing playing_for
  hide-is_playing now out_id template_id s = ground arith

  pub toggle-is_playing :
      (now : ℕ) (id : Text) (opts : ShowOptions) (s : Store)
      → is_playing (toggle now id opts s) o i ≡ is_playing s o i
  unfolding toggle
  toggle-is_playing now id opts s =
      ground (arith, show-is_playing now id opts s, hide-is_playing now opts.out_id (some id) s)

  -- Another out, and one that has a name.
  pub stop_one-is_playing :
      (p : Text) (q : Out × OutItem) (s : Store)
      → is_empty p ≡ false
      → (p =t o) ≡ false
      → is_playing (stop_one (some p) q s) o i ≡ is_playing s o i
  unfolding stop_one
  stop_one-is_playing p (x, j) s n h =
      ground (arith, n, is_playing-remove_playing s x.id j.id o i, =t_iff x.id p)

  pub stops-is_playing :
      (p : Text) (qs : List (Out × OutItem)) (s : Store)
      → is_empty p ≡ false
      → (p =t o) ≡ false
      → is_playing (each (stop_one (some p)) qs s) o i ≡ is_playing s o i
  unfolding each
  stops-is_playing p [] s n h = refl
  stops-is_playing p (q ∷ qs) s n h =
      stops-is_playing p qs (stop_one (some p) q s) n h ∙ stop_one-is_playing p q s n h

  pub stop_out-is_playing :
      (p : Text) (c : Scheduler)
      → is_empty p ≡ false
      → (p =t o) ≡ false
      → is_playing (stop_out (some p) c).store o i ≡ is_playing c.store o i
  unfolding stop_out
  stop_out-is_playing p c n h = stops-is_playing p (placements c.store.outs) c.store n h

  pub hide_on-is_playing :
      (now : ℕ) (template_id : Option Text) (p : Text) (c : Scheduler)
      → is_empty p ≡ false
      → (p =t o) ≡ false
      → is_playing (hide_on now template_id (some p) c).store o i ≡ is_playing c.store o i
  unfolding hide_on
  hide_on-is_playing now none p c n h =
      stop_out-is_playing p (on_store (hide now (some p) none) c) n h
      ∙ hide-is_playing now (some p) none c.store
  hide_on-is_playing now (some t) p c n h = hide-is_playing now (some p) (some t) c.store

  -- A loop over outs that have names, none of which is the out.
  module _ (f : Text → Scheduler → Scheduler)
      (step : (p : Text) (c : Scheduler)
        → is_empty p ≡ false
        → (p =t o) ≡ false
        → is_playing (f p c).store o i ≡ is_playing c.store o i) where
    pub each-is_playing :
        (ps : List Text) (c : Scheduler)
        → includes ps [] ≡ false
        → includes ps o ≡ false
        → is_playing (each f ps c).store o i ≡ is_playing c.store o i
    unfolding each includes
    each-is_playing [] c n h = refl
    each-is_playing (p ∷ ps) c n h =
        each-is_playing ps (f p c) (ground (arith, n)) (ground (arith, h))
        ∙ step p c (named p (ground (arith, n))) (ground (arith, h))

  pub reset_one-is_playing :
      (now : ℕ) (p : Text) (c : Scheduler)
      → is_empty p ≡ false
      → (p =t o) ≡ false
      → is_playing (reset_one now p c).store o i ≡ is_playing c.store o i
  unfolding reset_one
  reset_one-is_playing now p c n h =
      hide-is_playing now (some p) none (stop_out (some p) c).store ∙ stop_out-is_playing p c n h

  module _ (duration_of : Text → Option ℤ) (now : ℕ) where
    pub trigger-is_playing :
        (p j : Text) (explicit : Option (Option ℤ)) (c : Scheduler)
        → (p =t o) ≡ false
        → is_playing (trigger duration_of now p j explicit c).0.store o i ≡ is_playing c.store o i
    unfolding trigger
    trigger-is_playing p j explicit c h =
        ground (arith, h, play-is_playing now (hold_for duration_of c.store p j explicit) p j o i c)

    pub trigger_one-is_playing :
        (id p : Text) (explicit : Option (Option ℤ)) (q : Out × OutItem) (a : Scheduler × ℕ)
        → is_empty p ≡ false
        → (p =t o) ≡ false
        → is_playing (trigger_one duration_of now id (some p) explicit q a).0.store o i
          ≡ is_playing a.0.store o i
    unfolding trigger_one
    trigger_one-is_playing id p explicit (x, j) (c, count) n h =
        ground (arith, n, h, trigger-is_playing x.id j.id explicit c, =t_iff x.id p)

    pub triggers-is_playing :
        (id p : Text) (explicit : Option (Option ℤ)) (qs : List (Out × OutItem)) (a : Scheduler × ℕ)
        → is_empty p ≡ false
        → (p =t o) ≡ false
        → is_playing (each (trigger_one duration_of now id (some p) explicit) qs a).0.store o i
          ≡ is_playing a.0.store o i
    unfolding each
    triggers-is_playing id p explicit [] a n h = refl
    triggers-is_playing id p explicit (q ∷ qs) a n h =
        triggers-is_playing id p explicit qs (trigger_one duration_of now id (some p) explicit q a)
          n h
        ∙ trigger_one-is_playing id p explicit q a n h

    pub play_once-is_playing :
        (id p : Text) (opts : PlayTemplateOptions) (c : Scheduler)
        → opts.out_id ≡ some p
        → is_empty p ≡ false
        → (p =t o) ≡ false
        → is_playing (play_template_once duration_of now id opts c).0.store o i
          ≡ is_playing c.store o i
    unfolding play_template_once trigger_template
    play_once-is_playing id p opts c e n h =
        let r = trigger_template duration_of now id opts.out_id (explicit opts.hold_ms) c in
        elim (Bool-cases (is_some (get_template c.store id))) [
          | inr f ↦ rw f refl
          | inl f ↦ elim (Bool-cases (r.1 == 0)) [
            | inr g ↦ rw (f, g) (placed r.0 refl)
            | inl g ↦
                rw (f, g) (show-is_playing now id (show_options opts) r.0.store ∙ placed r.0 refl)
          ]
        ]
      where
        placed :
            (d : Scheduler)
            → (trigger_template duration_of now id opts.out_id (explicit opts.hold_ms) c).0 ≡ d
            → is_playing d.store o i ≡ is_playing c.store o i
        placed d k = rw (sym k) (
            rw e (
              triggers-is_playing id p (explicit opts.hold_ms) (placements c.store.outs) (c, 0) n
                h))
