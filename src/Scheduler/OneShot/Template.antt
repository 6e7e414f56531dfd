-- ===== src/Scheduler/OneShot/Template.antt =====
-- `triggerTemplate` of scheduler.ts: every placement of a template at once.
use not_gt.Base.{
  ℕ, ◌+◌, ◌≡◌, refl, ◌∙◌, Text, Bool, ◌&&◌, ◌||◌, Option, List, [], ◌∷◌, length, keep, any, is_some,
  arith, inl, inr, Bool-cases, ◌=t◌, =t_iff,
}
use not_gt.Base.Int.{ℤ}
use not_gt.Model.{OutItem, Out}
use not_gt.Store.{Store}
use not_gt.Store.Library.{get_item, get_out}
use not_gt.Store.Playing.{
  is_playing, add_playing, mark_trigger, write_triggers, set_playing, write_playing,
}
use not_gt.Store.Playing.Laws.{add_playing-config}
use not_gt.Scheduler.{Scheduler, placements, each}
use not_gt.Scheduler.OneShot.{play, hold_for, trigger, is_wanted, trigger_one, trigger_template}
use not_gt.Scheduler.OneShot.Laws.{play-is_playing}

trigger_one-outs :
    (duration_of : Text → Option ℤ) (now : ℕ) (id : Text) (out_id : Option Text)
    (explicit : Option (Option ℤ)) (p : Out × OutItem) (c : Scheduler) (n : ℕ)
    → (trigger_one duration_of now id out_id explicit p (c, n)).0.store.outs ≡ c.store.outs
unfolding trigger_one trigger play mark_trigger write_triggers
trigger_one-outs duration_of now id out_id explicit (o, j) c n =
    ground (arith, add_playing-config c.store o.id j.id)

each_count :
    (duration_of : Text → Option ℤ) (now : ℕ) (id : Text) (out_id : Option Text)
    (explicit : Option (Option ℤ)) (ps : List (Out × OutItem)) (c : Scheduler) (n : ℕ)
    → (each (trigger_one duration_of now id out_id explicit) ps (c, n)).1
      ≡ n + length (keep (is_wanted duration_of id out_id) ps)
unfolding each trigger_one
each_count duration_of now id out_id explicit [] c n = omega arith
each_count duration_of now id out_id explicit (p ∷ ps) c n =
    elim (Bool-cases (is_wanted duration_of id out_id p)) [
      | inl e ↦ ground (
        arith,
        e,
        each_count duration_of now id out_id explicit ps
            (trigger duration_of now p.0.id p.1.id explicit c).0 (n + 1),
      )
      | inr e ↦ ground (arith, e, each_count duration_of now id out_id explicit ps c n)
    ]

same_item : (s s' : Store) (o i : Text) → s'.outs ≡ s.outs → get_item s' o i ≡ get_item s o i
unfolding get_item get_out
same_item s s' o i h = ground (arith, h)

-- The placement is one of those asked for, and its ids lead to a placement.
abbrev pub is_triggered :
    (Text → Option ℤ) → Store → Text → Option Text → Text → Text → Out × OutItem → Bool
is_triggered duration_of s id out_id o i p =
    is_wanted duration_of id out_id p
    && (is_some (get_item s o i) && ((p.0.id =t o) && (p.1.id =t i)))

trigger_one-is_playing :
    (duration_of : Text → Option ℤ) (now : ℕ) (id : Text) (out_id : Option Text)
    (explicit : Option (Option ℤ)) (p : Out × OutItem) (c : Scheduler) (n : ℕ) (o i : Text)
    → is_playing (trigger_one duration_of now id out_id explicit p (c, n)).0.store o i
      ≡ (is_playing c.store o i || is_triggered duration_of c.store id out_id o i p)
unfolding trigger_one trigger
trigger_one-is_playing duration_of now id out_id explicit (q, j) c n o i = ground (
  arith,
  play-is_playing now (hold_for duration_of c.store q.id j.id explicit) q.id j.id o i c,
  =t_iff q.id o,
  =t_iff j.id i,
)

same_triggered :
    (duration_of : Text → Option ℤ) (s s' : Store) (id : Text) (out_id : Option Text) (o i : Text)
    (ps : List (Out × OutItem))
    → s'.outs ≡ s.outs
    → any (is_triggered duration_of s' id out_id o i) ps
      ≡ any (is_triggered duration_of s id out_id o i) ps
same_triggered duration_of s s' id out_id o i [] h = refl
same_triggered duration_of s s' id out_id o i (p ∷ ps) h =
    ground (arith, same_item s s' o i h, same_triggered duration_of s s' id out_id o i ps h)

each_playing :
    (duration_of : Text → Option ℤ) (now : ℕ) (id : Text) (out_id : Option Text)
    (explicit : Option (Option ℤ)) (ps : List (Out × OutItem)) (c : Scheduler) (n : ℕ) (o i : Text)
    → is_playing (each (trigger_one duration_of now id out_id explicit) ps (c, n)).0.store o i
      ≡ (is_playing c.store o i || any (is_triggered duration_of c.store id out_id o i) ps)
unfolding each
each_playing duration_of now id out_id explicit [] c n o i = ground arith
each_playing duration_of now id out_id explicit (p ∷ ps) c n o i =
    let t = trigger_one duration_of now id out_id explicit p (c, n) in
    ground (
      arith,
      each_playing duration_of now id out_id explicit ps t.0 t.1 o i,
      trigger_one-is_playing duration_of now id out_id explicit p c n o i,
      same_triggered duration_of c.store t.0.store id out_id o i ps
          (trigger_one-outs duration_of now id out_id explicit p c n),
    )

-- `triggerTemplate` answers the number of enabled placements of the template on the outs asked for, and
-- puts exactly those of them on air that their ids lead to; what was on air stays there.
pub trigger_template_lem :
    (duration_of : Text → Option ℤ) (now : ℕ) (id : Text) (out_id : Option Text)
    (explicit : Option (Option ℤ)) (c : Scheduler) (o i : Text)
    → ((trigger_template duration_of now id out_id explicit c).1
        ≡ length (keep (is_wanted duration_of id out_id) (placements c.store.outs)))
      × (is_playing (trigger_template duration_of now id out_id explicit c).0.store o i ≡ (
          is_playing c.store o i
          || any (is_triggered duration_of c.store id out_id o i) (placements c.store.outs)))
unfolding trigger_template
trigger_template_lem duration_of now id out_id explicit c o i =
    let ps = placements c.store.outs in
    (
      each_count duration_of now id out_id explicit ps c 0 ∙ omega arith,
      each_playing duration_of now id out_id explicit ps c 0 o i,
    )

trigger_one-rest :
    (duration_of : Text → Option ℤ) (now : ℕ) (id : Text) (out_id : Option Text)
    (explicit : Option (Option ℤ)) (p : Out × OutItem) (c : Scheduler) (n : ℕ)
    → ((trigger_one duration_of now id out_id explicit p (c, n)).0.store.active_title
        ≡ c.store.active_title)
      × ((trigger_one duration_of now id out_id explicit p (c, n)).0.store.templates
          ≡ c.store.templates)
unfolding trigger_one trigger play mark_trigger write_triggers add_playing set_playing write_playing
trigger_one-rest duration_of now id out_id explicit (o, j) c n = ground arith

each_rest :
    (duration_of : Text → Option ℤ) (now : ℕ) (id : Text) (out_id : Option Text)
    (explicit : Option (Option ℤ)) (ps : List (Out × OutItem)) (c : Scheduler) (n : ℕ)
    → ((each (trigger_one duration_of now id out_id explicit) ps (c, n)).0.store.active_title
        ≡ c.store.active_title)
      × ((each (trigger_one duration_of now id out_id explicit) ps (c, n)).0.store.templates
          ≡ c.store.templates)
unfolding each
each_rest duration_of now id out_id explicit [] c n = (refl, refl)
each_rest duration_of now id out_id explicit (p ∷ ps) c n =
    let t = trigger_one duration_of now id out_id explicit p (c, n) in
    ground (
      arith,
      each_rest duration_of now id out_id explicit ps t.0 t.1,
      trigger_one-rest duration_of now id out_id explicit p c n,
    )

-- `triggerTemplate` leaves the title on the program output and the templates as they are.
pub trigger_template-rest :
    (duration_of : Text → Option ℤ) (now : ℕ) (id : Text) (out_id : Option Text)
    (explicit : Option (Option ℤ)) (c : Scheduler)
    → ((trigger_template duration_of now id out_id explicit c).0.store.active_title
        ≡ c.store.active_title)
      × ((trigger_template duration_of now id out_id explicit c).0.store.templates
          ≡ c.store.templates)
unfolding trigger_template
trigger_template-rest duration_of now id out_id explicit c =
    each_rest duration_of now id out_id explicit (placements c.store.outs) c 0
