-- ===== src/Store/Program.antt =====
-- The title on the program output: `show`, `hide`, `resetActive` and `toggle` of
-- bundles/notGT/src/extension/store.ts.
pub mod Laws
use not_gt.Base.{
  ℕ, Text, Bool, true, false, not, ◌&&◌, Option, none, some, List, [], if◌then◌else◌, get_or,
  is_some, is_empty, ◌=t◌,
}
use not_gt.Model.{TitleData, ActiveTitleState}
use not_gt.Store.{Store, default_active}
use not_gt.Store.Library.{get_template}

-- `{ outId, data, label }`; an `outId` of `undefined` or `null` is `none`.
pub record ShowOptions : Type 0 where
  pub out_id : Option Text
  pub overrides : Option TitleData
  pub label : Option Text

-- `a !== b` of an id that may be missing and one that is given.
abbrev pub same_id : Option Text → Text → Bool
same_id none id = false
same_id (some t) id = t =t id

shown : ℕ → Text → ShowOptions → ActiveTitleState
shown now id opts = record {
  template_id = some id;
  visible = true;
  out_id = opts.out_id;
  overrides = get_or opts.overrides [];
  label = opts.label;
  updated_at = now;
}

unfoldable pub show : ℕ → Text → ShowOptions → Store → Store
unfolding shown
show now id opts s =
    if not (is_some (get_template s id)) then s else record s { active_title = shown now id opts }

-- `opts.templateId && current.templateId !== opts.templateId`.
abbrev pub other_template : Option Text → Option Text → Bool
other_template none current = false
other_template (some id) current = not (is_empty id) && not (same_id current id)

-- `opts.outId` given and not the current one.
abbrev pub other_out : Option Text → Option Text → Bool
other_out none current = false
other_out (some id) current = not (same_id current id)

unfoldable pub hide : ℕ → Option Text → Option Text → Store → Store
hide now out_id template_id s =
    if other_template template_id s.active_title.template_id
    then s
    else if other_out out_id s.active_title.out_id
    then s
    else record s { active_title = record (s.active_title) { visible = false; updated_at = now } }

unfoldable pub reset_active : ℕ → Store → Store
reset_active now s = record s { active_title = default_active now }

unfoldable pub toggle : ℕ → Text → ShowOptions → Store → Store
toggle now id opts s =
    if same_id s.active_title.template_id id && s.active_title.visible
    then hide now opts.out_id (some id) s
    else show now id opts s
