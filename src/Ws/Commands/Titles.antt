-- ===== src/Ws/Commands/Titles.antt =====
-- The title on the program output under the commands of bundles/notGT/src/extension/ws.ts, for a client with a
-- limited reach.
use not_gt.Base.{
  ℕ, ◌≡◌, ◌⊎◌, inl, inr, refl, sym, ◌∙◌, subst, ◌==◌, Text, true, false, not, ◌&&◌, Option, none,
  some, List, [], ◌∷◌, is_some, arith, Bool-cases, =t_iff, =t_refl, includes,
}
use not_gt.Base.Int.{ℤ}
use not_gt.Model.{ActiveTitleState, OutItem, Out}
use not_gt.Store.{Store}
use not_gt.Store.Library.{get_template}
use not_gt.Store.Program.{ShowOptions, same_id, other_template, other_out, show, hide, toggle}
use not_gt.Store.Playing.{add_playing, remove_playing, mark_trigger}
use not_gt.Scheduler.{Scheduler, on_store, each, placements, stop_one, stop_out}
use not_gt.Scheduler.OneShot.{trigger, play, trigger_one, trigger_template}
use not_gt.Trigger.{explicit, show_options, PlayTemplateOptions, play_template_once}
use not_gt.Ws.Commands.{hide_on, reset_one}

-- A title that is as it was, or one that is on an out in the list.
abbrev pub IsOwn : List Text → ActiveTitleState → ActiveTitleState → Type 0
IsOwn os a b = (b ≡ a) ⊎ ((p : Text) × (b.out_id ≡ some p) × (includes os p ≡ true))

own_out : (p : Text) (current : Option Text) → other_out (some p) current ≡ false → current ≡ some p
own_out p none h = absurd (ground (arith, h))
own_out p (some q) h = ground (arith, h, =t_iff q p)

module _ (os : List Text) where
  IsOwn-trans : (a b c : ActiveTitleState) → IsOwn os a b → IsOwn os b c → IsOwn os a c
  IsOwn-trans a b c h (inl e) = subst (IsOwn os a) (sym e) h
  IsOwn-trans a b c h (inr k) = inr k

  module _ (p : Text) (m : includes os p ≡ true) where
    pub show-IsOwn :
        (now : ℕ) (id : Text) (opts : ShowOptions) (s : Store)
        → opts.out_id ≡ some p
        → IsOwn os s.active_title (show now id opts s).active_title
    unfolding show
    show-IsOwn now id opts s e = elim (Bool-cases (not (is_some (get_template s id)))) [
      | inl b ↦ inl (rw b refl)
      | inr b ↦ inr (p, rw b e, m)
    ]

    pub hide-IsOwn :
        (now : ℕ) (t : Option Text) (s : Store)
        → IsOwn os s.active_title (hide now (some p) t s).active_title
    unfolding hide
    hide-IsOwn now t s = elim (Bool-cases (other_template t s.active_title.template_id)) [
      | inl b ↦ inl (rw b refl)
      | inr b ↦ elim (Bool-cases (other_out (some p) s.active_title.out_id)) [
        | inl c ↦ inl (rw (b, c) refl)
        | inr c ↦ inr (p, rw (b, c) (own_out p s.active_title.out_id c), m)
      ]
    ]

    pub toggle-IsOwn :
        (now : ℕ) (id : Text) (opts : ShowOptions) (s : Store)
        → opts.out_id ≡ some p
        → IsOwn os s.active_title (toggle now id opts s).active_title
    unfolding toggle
    toggle-IsOwn now id opts s e =
        elim (Bool-cases (same_id s.active_title.template_id id && s.active_title.visible)) [
          | inl b ↦ rw (b, e) (hide-IsOwn now (some id) s)
          | inr b ↦ rw b (show-IsOwn now id opts s e)
        ]

stop_one-active :
    (t : Option Text) (q : Out × OutItem) (s : Store)
    → (stop_one t q s).active_title ≡ s.active_title
unfolding stop_one remove_playing
stop_one-active t (x, j) s = ground arith

stops-active :
    (t : Option Text) (qs : List (Out × OutItem)) (s : Store)
    → (each (stop_one t) qs s).active_title ≡ s.active_title
unfolding each
stops-active t [] s = refl
stops-active t (q ∷ qs) s = stops-active t qs (stop_one t q s) ∙ stop_one-active t q s

pub stop_out-active :
    (t : Option Text) (c : Scheduler) → (stop_out t c).store.active_title ≡ c.store.active_title
unfolding stop_out
stop_out-active t c = stops-active t (placements c.store.outs) c.store

module _ (duration_of : Text → Option ℤ) (now : ℕ) where
  pub trigger-active :
      (p j : Text) (x : Option (Option ℤ)) (c : Scheduler)
      → (trigger duration_of now p j x c).0.store.active_title ≡ c.store.active_title
  unfolding trigger play add_playing mark_trigger
  trigger-active p j x c = ground arith

  trigger_one-active :
      (id : Text) (t : Option Text) (x : Option (Option ℤ)) (q : Out × OutItem) (a : Scheduler × ℕ)
      → (trigger_one duration_of now id t x q a).0.store.active_title ≡ a.0.store.active_title
  unfolding trigger_one
  trigger_one-active id t x (o, j) (c, n) = ground (arith, trigger-active o.id j.id x c)

  triggers-active :
      (id : Text) (t : Option Text) (x : Option (Option ℤ)) (qs : List (Out × OutItem))
      (a : Scheduler × ℕ)
      → (each (trigger_one duration_of now id t x) qs a).0.store.active_title
        ≡ a.0.store.active_title
  unfolding each
  triggers-active id t x [] a = refl
  triggers-active id t x (q ∷ qs) a =
      triggers-active id t x qs (trigger_one duration_of now id t x q a)
      ∙ trigger_one-active id t x q a

  trigger_template-active :
      (id : Text) (t : Option Text) (x : Option (Option ℤ)) (c : Scheduler)
      → (trigger_template duration_of now id t x c).0.store.active_title ≡ c.store.active_title
  unfolding trigger_template
  trigger_template-active id t x c = triggers-active id t x (placements c.store.outs) (c, 0)

  pub play_once-IsOwn :
      (os : List Text) (id p : Text) (opts : PlayTemplateOptions) (c : Scheduler)
      → opts.out_id ≡ some p
      → includes os p ≡ true
      → IsOwn os c.store.active_title
          (play_template_once duration_of now id opts c).0.store.active_title
  unfolding play_template_once
  play_once-IsOwn os id p opts c e m =
      let r = trigger_template duration_of now id opts.out_id (explicit opts.hold_ms) c in
      let same = trigger_template-active id opts.out_id (explicit opts.hold_ms) c in
      elim (Bool-cases (is_some (get_template c.store id))) [
        | inr f ↦ rw f (inl refl)
        | inl f ↦ elim (Bool-cases (r.1 == 0)) [
          | inr g ↦ rw (f, g) (inl same)
          | inl g ↦
              rw (f, g)
                (subst (λ a. IsOwn os a (show now id (show_options opts) r.0.store).active_title)
                  same (show-IsOwn os p m now id (show_options opts) r.0.store e))
        ]
      ]

-- A loop over outs in the list.
module _ (os : List Text) (f : Text → Scheduler → Scheduler)
    (step : (p : Text) (c : Scheduler)
      → includes os p ≡ true
      → IsOwn os c.store.active_title (f p c).store.active_title) where
  pub each-IsOwn :
      (ps : List Text) (c : Scheduler)
      → ((p : Text) → includes ps p ≡ true → includes os p ≡ true)
      → IsOwn os c.store.active_title (each f ps c).store.active_title
  unfolding each includes
  each-IsOwn [] c h = inl refl
  each-IsOwn (p ∷ ps) c h =
      IsOwn-trans os c.store.active_title (f p c).store.active_title
        (each f ps (f p c)).store.active_title (step p c (h p (ground (arith, =t_refl p))))
        (each-IsOwn ps (f p c) (λ q k. h q (ground (arith, k))))

module _ (os : List Text) (now : ℕ) (p : Text) (c : Scheduler) (m : includes os p ≡ true) where
  pub hide_on-IsOwn :
      (t : Option Text)
      → IsOwn os c.store.active_title (hide_on now t (some p) c).store.active_title
  unfolding hide_on
  hide_on-IsOwn none =
      rw (stop_out-active (some p) (on_store (hide now (some p) none) c))
        (hide-IsOwn os p m now none c.store)
  hide_on-IsOwn (some t) = hide-IsOwn os p m now (some t) c.store

  pub reset_one-IsOwn : IsOwn os c.store.active_title (reset_one now p c).store.active_title
  unfolding reset_one
  reset_one-IsOwn =
      subst (λ a. IsOwn os a (hide now (some p) none (stop_out (some p) c).store).active_title)
        (stop_out-active (some p) c) (hide-IsOwn os p m now none (stop_out (some p) c).store)
