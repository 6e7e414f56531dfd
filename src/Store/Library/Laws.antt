-- ===== src/Store/Library/Laws.antt =====
-- The templates and the outs of bundles/notGT/src/extension/store.ts under upserts, patches and
-- removals.
use not_gt.Base.{
  ℕ, ◌≡◌, refl, Text, true, false, not, ◌&&◌, none, some, List, [], ◌∷◌, map, find, keep, any,
  if◌then◌else◌, is_some, arith, All, Option-cases, inl, inr, ◌=t◌, =t_iff, includes, lookup-erase,
}
use not_gt.Model.{TitleTemplate, OutItem, Out}
use not_gt.Store.{Store}
use not_gt.Store.Playing.{write_playing, playing_for, is_playing}
use not_gt.Store.Library.{
  has_id, get_template, put_template, upsert_template, TemplatePatch, patched_template,
  patch_template, without_items, is_template, remove_template, is_out, get_out, put_out, upsert_out,
  remove_out,
}

find-put_template :
    (next : TitleTemplate) (ts : List TitleTemplate) (id : Text)
    → find (has_id id) (put_template next ts)
      ≡ (if next.id =t id then some next else find (has_id id) ts)
unfolding put_template
find-put_template next [] id = refl
find-put_template next (t ∷ ts) id =
    ground
      (arith, =t_iff t.id next.id, =t_iff t.id id, =t_iff next.id id, find-put_template next ts id)

-- An upsert stores the template, with its time, and no other is changed.
pub get_template-upsert_template :
    (now : ℕ) (t : TitleTemplate) (s : Store) (id : Text)
    → get_template (upsert_template now t s) id
      ≡ (if t.id =t id then some (record t { updated_at = now }) else get_template s id)
unfolding get_template upsert_template
get_template-upsert_template now t s id =
    find-put_template (record t { updated_at = now }) s.templates id

found_template :
    (ts : List TitleTemplate) (id : Text) (t : TitleTemplate)
    → find (has_id id) ts ≡ some t
    → t.id ≡ id
found_template [] id t h = cc
found_template (u ∷ ts) id t h = ground (arith, =t_iff u.id id, found_template ts id t)

-- A patch of a stored template keeps its id and gives its fields; other templates are as they were.
pub get_template-patch_template :
    (now : ℕ) (id : Text) (p : TemplatePatch) (s s' : Store) (j : Text)
    → patch_template now id p s ≡ some s'
    → ((t : TitleTemplate) × (get_template s id ≡ some t)
        × (get_template s' j
            ≡ (if id =t j then some (patched_template now p t) else get_template s j)))
unfolding get_template patch_template patched_template upsert_template
get_template-patch_template now id p s s' j h = elim (Option-cases (get_template s id)) [
  | inl e ↦ ground (arith, e)
  | inr (t, e) ↦ (
    t,
    e,
    ground (arith, e, found t e, get_template-upsert_template now (patched_template now p t) s j),
  )
]
  where
    found : (t : TitleTemplate) → find (has_id id) s.templates ≡ some t → t.id ≡ id
    found t e = found_template s.templates id t e

find-put_out :
    (next : Out) (os : List Out) (id : Text)
    → find (is_out id) (put_out next os)
      ≡ (if next.id =t id then some next else find (is_out id) os)
unfolding put_out
find-put_out next [] id = refl
find-put_out next (o ∷ os) id =
    ground (arith, =t_iff o.id next.id, =t_iff o.id id, =t_iff next.id id, find-put_out next os id)

pub get_out-upsert_out :
    (now : ℕ) (o : Out) (s : Store) (id : Text)
    → get_out (upsert_out now o s) id
      ≡ (if o.id =t id then some (record o { updated_at = now }) else get_out s id)
unfolding get_out upsert_out
get_out-upsert_out now o s id = find-put_out (record o { updated_at = now }) s.outs id

find-keep_template :
    (ts : List TitleTemplate) (id j : Text)
    → find (has_id j) (keep (λ t. not (has_id id t)) ts)
      ≡ (if id =t j then none else find (has_id j) ts)
find-keep_template [] id j = ground arith
find-keep_template (t ∷ ts) id j =
    ground (arith, =t_iff t.id id, =t_iff t.id j, =t_iff id j, find-keep_template ts id j)

-- No placement and no title refers to the template.
abbrev pub IsUnused : Text → Store → Type 0
IsUnused id s =
    All (λ o. All (λ i. (i.template_id =t id) ≡ false) o.items) s.outs
    × (is_template s.active_title.template_id id ≡ false)

IsFree : Text → Out → Type 0
IsFree id o = All (λ i. (i.template_id =t id) ≡ false) o.items

free_items :
    (id : Text) (items : List OutItem)
    → All (λ i. (i.template_id =t id) ≡ false) (keep (λ i. not (i.template_id =t id)) items)
free_items id [] = tt
free_items id (i ∷ items) = ground (arith, free_items id items)

IsFree-outs : (id : Text) (os : List Out) → All (IsFree id) (map (without_items id) os)
unfolding IsFree
IsFree-outs id [] = tt
IsFree-outs id (o ∷ os) = (free_items id o.items, IsFree-outs id os)

-- When the template is there, `removeTemplate` takes it, leaves no placement on any out that refers to it
-- and no title on the program output that does, keeps every other template, and answers true.
pub remove_template-IsUnused :
    (now : ℕ) (id : Text) (s : Store)
    → any (has_id id) s.templates ≡ true
    → IsUnused id (remove_template now id s).0
      × (((j : Text)
            → get_template (remove_template now id s).0 j
              ≡ (if id =t j then none else get_template s j))
          × ((remove_template now id s).1 ≡ true))
unfolding remove_template get_template IsFree
remove_template-IsUnused now id s h = (
  ground (arith, IsFree-outs id s.outs),
  ((λ j. ground (arith, find-keep_template s.templates id j)), ground arith),
)

find-keep_out :
    (os : List Out) (id j : Text)
    → find (is_out j) (keep (λ o. not (is_out id o)) os)
      ≡ (if id =t j then none else find (is_out j) os)
find-keep_out [] id j = ground arith
find-keep_out (o ∷ os) id j =
    ground (arith, =t_iff o.id id, =t_iff o.id j, =t_iff id j, find-keep_out os id j)

-- When the out is there, `removeOut` takes it and everything that was on air on it, and leaves the other
-- outs and what is on air on them.
pub remove_out_lem :
    (id : Text) (s : Store) (j i : Text)
    → is_some (get_out s id) ≡ true
    → (get_out (remove_out id s).0 j ≡ (if id =t j then none else get_out s j))
      × (is_playing (remove_out id s).0 j i ≡ (not (id =t j) && is_playing s j i))
unfolding remove_out get_out write_playing is_playing playing_for includes
remove_out_lem id s j i h =
    (ground (arith, find-keep_out s.outs id j), ground (arith, lookup-erase id j s.runtime.playing))
