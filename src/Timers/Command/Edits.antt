-- ===== src/Timers/Command/Edits.antt =====
-- What a command of bundles/notGT/src/extension/timers.ts does to the list of timers, as an edit.
use not_gt.Base.{
  unique, ℕ, ◌≡◌, ◌≢◌, refl, ap, subst, sym, ◌∙◌, ◌⊎◌, inl, inr, Text, true, false, Option, none,
  some, List, [], ◌∷◌, ◌++◌, map, arith, Bool-cases, includes, is_empty, keep, =t_refl,
}
use not_gt.Base.TextLaws.{any-append, any-unique_from}
use not_gt.Slug.Unique.{unique_timer_key-fresh}
use not_gt.Timer.{Timer, timer_within}
use not_gt.Timers.Params.{ok, TimerError, ◌>>=◌, or_fail, Params, settings}
use not_gt.Timers.Params.Laws.{IsEdited, settings-IsEdited, ok-inv, or_fail-eq-ok}
use not_gt.Timers.Command.Distinct.{IsSole, found-IsSole, found-All}
use not_gt.Timers.Command.{
  TimerCommand, Env, TimerResult, keys, is_other, put, stamped, finish_new, store_next, guarded,
  add_new, new_base, with_key, share, create_timer, next_timer, on_timer, find_timer, edit_named,
  edit, reference,
}
use not_gt.Timers.Command.Keys.{
  IsTimer, IsValid, IsNext, ok_injective, IsEdited-IsTimer, next_timer-IsNext,
}

-- What a command does to the list, seen from outside: it adds one timer under the new id and a free
-- key, takes one away, or changes one. The last two are within the reach of whoever asks, before and
-- after, and so is a new one, unless they reach nothing.
pub data IsEdit (env : Env) (reach : Option (List Text)) (ts ts' : List Timer) : Type 0 where
  created :
      (t : Timer)
      → t.id ≡ env.new_id
      → includes (keys ts) t.key ≡ false
      → IsTimer t
      → (reach ≢ some [] → timer_within t reach ≡ true)
      → ts' ≡ ts ++ t ∷ []
      → IsEdit env reach ts ts'
  dropped :
      (t : Timer)
      → IsSole t ts
      → timer_within t reach ≡ true
      → ts' ≡ keep (is_other t) ts
      → IsEdit env reach ts ts'
  changed :
      (t u : Timer)
      → IsSole t ts
      → timer_within t reach ≡ true
      → IsNext reach ts t u
      → ts' ≡ map (put t u) ts
      → IsEdit env reach ts ts'

new_base-IsTimer :
    (env : Env) (params : Params) (reach : Option (List Text)) (ts : List Timer)
    → IsTimer (new_base env params reach ts)
      × ((new_base env params reach ts).id ≡ env.new_id)
      × (is_empty (new_base env params reach ts).key ≡ true)
unfolding new_base
new_base-IsTimer env params reach ts = ground arith

shared-within :
    (r : Text) (rs gs : List Text) (t : Timer)
    → timer_within (record t { groups = unique (gs ++ r ∷ rs) }) (some (r ∷ rs)) ≡ true
unfolding timer_within unique includes
shared-within r rs gs t = ground (
  arith,
  any-unique_from (includes (r ∷ rs)) [] (gs ++ r ∷ rs) refl,
  any-append (includes (r ∷ rs)) gs (r ∷ rs),
  =t_refl r,
)

share-within :
    (r : Text) (rs : List Text) (t : Timer)
    → timer_within (share (some (r ∷ rs)) t) (some (r ∷ rs)) ≡ true
unfolding share
share-within r rs t = elim (Bool-cases (timer_within t (some (r ∷ rs)))) [
  | inl e ↦ rw e e
  | inr e ↦ rw e (shared-within r rs t.groups t)
]

with_key_free :
    (ts : List Timer) (t : Timer)
    → (is_empty t.key ≡ true) ⊎ (includes (keys ts) t.key ≡ false)
    → includes (keys ts) (with_key ts t).key ≡ false
unfolding with_key
with_key_free ts t h = ground (arith, unique_timer_key-fresh t.name (keys ts))

-- Neither the key nor the sharing of a new timer touches what else it is.
finished :
    (reach : Option (List Text)) (ts : List Timer) (t : Timer)
    → IsTimer t
    → let u = share reach (with_key ts t) in
      IsTimer u × (u.id ≡ t.id) × (u.key ≡ (with_key ts t).key)
unfolding share with_key
finished reach ts t h = ground arith

share-reach :
    (reach : Option (List Text)) (t : Timer)
    → reach ≢ some []
    → timer_within (share reach t) reach ≡ true
share-reach none t h = unfold timer_within in refl
share-reach (some []) t h = absurd (h refl)
share-reach (some (r ∷ rs)) t h = share-within r rs t

finish_new-created :
    (env : Env) (reach : Option (List Text)) (ts : List Timer) (base next t : Timer)
    → IsTimer base
    → base.id ≡ env.new_id
    → is_empty base.key ≡ true
    → IsEdited (keys ts) base next
    → finish_new reach ts next ≡ ok t
    → IsEdit env reach ts (ts ++ t ∷ [])
unfolding finish_new
finish_new-created env reach ts base next t h i k e f =
    subst (λ u. IsEdit env reach ts (ts ++ u ∷ [])) (ok_injective f)
      (created (share reach (with_key ts next)) (same_id ∙ e.id ∙ i)
        (rw same_key (with_key_free ts next free)) fine (share-reach reach (with_key ts next)) refl)
  where
    free : (is_empty next.key ≡ true) ⊎ (includes (keys ts) next.key ≡ false)
    free = elim e.key [ inl same ↦ inl (ap is_empty same ∙ k) | inr own ↦ inr own.0 ]

    facts :
        let u = share reach (with_key ts next) in
        IsTimer u × (u.id ≡ next.id) × (u.key ≡ (with_key ts next).key)
    facts = finished reach ts next (IsEdited-IsTimer (keys ts) base next e h)

    fine : IsTimer (share reach (with_key ts next))
    fine = facts.0

    same_id : (share reach (with_key ts next)).id ≡ next.id
    same_id = facts.1

    same_key : (share reach (with_key ts next)).key ≡ (with_key ts next).key
    same_key = facts.2

create-IsEdit :
    (env : Env) (params : Params) (reach : Option (List Text)) (ts ts' : List Timer)
    (r : TimerResult)
    → (create_timer env params reach ts >>= add_new ts) ≡ ok (ts', r)
    → IsEdit env reach ts ts'
unfolding create_timer add_new
create-IsEdit env params reach ts ts' r h =
    let (t, ht, e) = ok-inv (create_timer env params reach ts) (add_new ts) h in
    let base = new_base env params reach ts in
    let (next, hs, hf) =
      ok-inv (settings env.has_group params base (keys ts)) (finish_new reach ts) ht in
    let (fine, id, key) = new_base-IsTimer env params reach ts in
    subst (IsEdit env reach ts) (ap (λ (p : List Timer × TimerResult). p.0) (ok_injective e)) (
      finish_new-created env reach ts base next t fine id key
        (settings-IsEdited env.has_group params base (keys ts) next hs) hf)

stamped-IsNext :
    (reach : Option (List Text)) (ts : List Timer) (t u : Timer) (now : ℕ)
    → IsNext reach ts t u
    → IsNext reach ts t (stamped now u)
unfolding stamped timer_within
stamped-IsNext reach ts t u now n = ground arith

on_timer-IsEdit :
    (env : Env) (c : TimerCommand) (params : Params) (reach : Option (List Text))
    (ts ts' : List Timer) (t : Timer) (r : TimerResult)
    → IsSole t ts
    → IsTimer t
    → timer_within t reach ≡ true
    → on_timer env c params reach ts t ≡ ok (ts', r)
    → IsEdit env reach ts ts'
unfolding on_timer store_next
on_timer-IsEdit env TimerCommand.remove params reach ts ts' t r sole fine w h =
    dropped t sole w (sym (ap (λ (p : List Timer × TimerResult). p.0) (ok_injective h)))
on_timer-IsEdit env c params reach ts ts' t r sole fine w h =
    let (next, hn, e) = ok-inv (next_timer env c params reach ts t) (store_next env ts t) h in
    changed t (stamped env.now next) sole w
      (stamped-IsNext reach ts t next env.now
        (next_timer-IsNext env c params reach ts t next fine w hn))
      (sym (ap (λ (p : List Timer × TimerResult). p.0) (ok_injective e)))

edit_named-IsEdit :
    (env : Env) (c : TimerCommand) (params : Params) (reach : Option (List Text))
    (ts ts' : List Timer) (r : TimerResult)
    → IsValid ts
    → edit_named env c params reach ts ≡ ok (ts', r)
    → IsEdit env reach ts ts'
unfolding edit_named guarded
edit_named-IsEdit env c params reach ts ts' r v h =
    let (ref, hr, h1) =
      ok-inv (or_fail (reference params) TimerError.bad_request)
        (λ ref. or_fail (find_timer ts ref) TimerError.not_found >>= guarded env c params reach ts)
        h in
    let (t, ht, h2) =
      ok-inv (or_fail (find_timer ts ref) TimerError.not_found) (guarded env c params reach ts)
        h1 in
    let found = or_fail-eq-ok (find_timer ts ref) TimerError.not_found ht in
    elim (Bool-cases (timer_within t reach)) [
      | inl w ↦
          on_timer-IsEdit env c params reach ts ts' t r (found-IsSole ref ts t v.ids_distinct found)
            (found-All IsTimer ref ts t v.timers found) w (rw w at h2)
      | inr w ↦ absurd (refused t w h2)
    ]
  where
    refused :
        (t : Timer)
        → timer_within t reach ≡ false
        → guarded env c params reach ts t ≡ ok (ts', r)
        → ⊥
    refused t w e = cc

-- On well-formed timers, every command that is accepted is one of three edits: it adds a well-
-- formed timer under the new id and a free key, takes one away, or changes one into a well-formed
-- timer with the same id and its own key or a free one; the timers taken or changed are within the
-- reach of whoever asks, and so is a new one unless they reach nothing.
pub edit-IsEdit :
    (env : Env) (c : TimerCommand) (params : Params) (reach : Option (List Text))
    (ts ts' : List Timer) (r : TimerResult)
    → IsValid ts
    → edit env c params reach ts ≡ ok (ts', r)
    → IsEdit env reach ts ts'
unfolding edit
edit-IsEdit env TimerCommand.create params reach ts ts' r v h =
    create-IsEdit env params reach ts ts' r h
edit-IsEdit env c params reach ts ts' r v h = edit_named-IsEdit env c params reach ts ts' r v h
