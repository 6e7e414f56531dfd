-- ===== src/Store/Library.antt =====
-- The templates and the outs of bundles/notGT/src/extension/store.ts.
pub mod Laws
use not_gt.Base.{
  ℕ, Text, Bool, true, false, not, Option, none, some, List, [], ◌∷◌, ◌++◌, map, find, keep, any,
  if◌then◌else◌, is_some, get_or, ◌=t◌, erase, Dict, ◌+◌,
}
use not_gt.Json.{Value}
use not_gt.Model.{
  Layer, TemplateKind, CodeBlock, PlaybackConfig, TitleTemplate, OutItem, Out, RuntimeState,
  ActiveTitleState,
}
use not_gt.Store.{Store, default_active}
use not_gt.Store.Playing.{write_playing}

abbrev pub has_id : Text → TitleTemplate → Bool
has_id id t = t.id =t id

unfoldable pub get_template : Store → Text → Option TitleTemplate
get_template s id = find (has_id id) s.templates

-- `list[idx] = next` at the first one with the id, or `list.push(next)`.
unfoldable pub put_template : TitleTemplate → List TitleTemplate → List TitleTemplate
put_template next [] = next ∷ []
put_template next (t ∷ ts) = if t.id =t next.id then next ∷ ts else t ∷ put_template next ts

unfoldable pub upsert_template : ℕ → TitleTemplate → Store → Store
unfolding put_template
upsert_template now t s = record s {
  templates = put_template (record t { updated_at = now }) s.templates;
}

-- `Partial<TitleTemplate>`: the fields that are given.
pub record TemplatePatch : Type 0 where
  pub name : Option Text
  pub kind : Option TemplateKind
  pub width : Option ℕ
  pub height : Option ℕ
  pub layers : Option (List Layer)
  pub code : Option (Option CodeBlock)
  pub in_transition : Option Value
  pub out_transition : Option Value
  pub playback : Option (Option PlaybackConfig)
  pub created_at : Option ℕ

-- `{ ...existing, ...patch, id, updatedAt }`.
unfoldable pub patched_template : ℕ → TemplatePatch → TitleTemplate → TitleTemplate
patched_template now p t = record t {
  name = get_or p.name t.name;
  kind = get_or p.kind t.kind;
  width = get_or p.width t.width;
  height = get_or p.height t.height;
  layers = get_or p.layers t.layers;
  code = get_or p.code t.code;
  in_transition = get_or p.in_transition t.in_transition;
  out_transition = get_or p.out_transition t.out_transition;
  playback = get_or p.playback t.playback;
  created_at = get_or p.created_at t.created_at;
  updated_at = now;
}

unfoldable pub patch_template : ℕ → Text → TemplatePatch → Store → Option Store
unfolding patched_template get_template upsert_template
patch_template now id p s = elim (get_template s id) [
  | none ↦ none
  | some t ↦ some (upsert_template now (patched_template now p t) s)
]

-- The placements of the template go with it.
abbrev without_items : Text → Out → Out
without_items id o = record o { items = keep (λ i. not (i.template_id =t id)) o.items }

abbrev is_template : Option Text → Text → Bool
is_template none id = false
is_template (some t) id = t =t id

unfoldable pub remove_template : ℕ → Text → Store → Store × Bool
remove_template now id s = if not (any (has_id id) s.templates) then (s, false) else (
  record s {
    templates = keep (λ t. not (has_id id t)) s.templates;
    outs = map (without_items id) s.outs;
    active_title =
        if is_template s.active_title.template_id id then default_active now else s.active_title;
  },
  true,
)

abbrev pub is_out : Text → Out → Bool
is_out id o = o.id =t id

unfoldable pub get_out : Store → Text → Option Out
get_out s id = find (is_out id) s.outs

unfoldable pub put_out : Out → List Out → List Out
put_out next [] = next ∷ []
put_out next (o ∷ os) = if o.id =t next.id then next ∷ os else o ∷ put_out next os

unfoldable pub upsert_out : ℕ → Out → Store → Store
unfolding put_out
upsert_out now o s = record s { outs = put_out (record o { updated_at = now }) s.outs }

-- `Partial<Out>`: the fields that are given.
pub record OutPatch : Type 0 where
  pub name : Option Text
  pub width : Option ℕ
  pub height : Option ℕ
  pub items : Option (List OutItem)
  pub outputs : Option Value
  pub created_at : Option ℕ

unfoldable pub patched_out : OutPatch → Out → Out
patched_out p o = record o {
  name = get_or p.name o.name;
  width = get_or p.width o.width;
  height = get_or p.height o.height;
  items = get_or p.items o.items;
  outputs = get_or p.outputs o.outputs;
  created_at = get_or p.created_at o.created_at;
}

unfoldable pub patch_out : ℕ → Text → OutPatch → Store → Option Store
unfolding patched_out get_out upsert_out
patch_out now id p s = elim (get_out s id) [
  | none ↦ none
  | some o ↦ some (upsert_out now (patched_out p o) s)
]

unfoldable pub remove_out : Text → Store → Store × Bool
unfolding write_playing
remove_out id s = if not (is_some (get_out s id)) then (s, false) else (
  write_playing (erase id s.runtime.playing)
      (record s { outs = keep (λ o. not (is_out id o)) s.outs }),
  true,
)

-- The placement and its out.
unfoldable pub get_item : Store → Text → Text → Option (Out × OutItem)
unfolding get_out
get_item s out_id item_id = elim (get_out s out_id) [
  | none ↦ none
  | some o ↦ elim (find (λ i. i.id =t item_id) o.items) [ none ↦ none | some i ↦ some (o, i) ]
]
