-- ===== src/Store/Program/Laws.antt =====
-- What `show`, `hide` and `toggle` do to the title on the program output.
use not_gt.Base.{
  ℕ, ◌≡◌, Text, Bool, true, false, not, ◌&&◌, none, some, is_some, is_empty, arith, =t_refl,
}
use not_gt.Store.{Store}
use not_gt.Store.Library.{get_template}
use not_gt.Store.Program.{ShowOptions, same_id, shown, show, hide, toggle}

-- The title is on air: this template, visible.
abbrev pub on_air : Store → Text → Bool
on_air s id = same_id s.active_title.template_id id && s.active_title.visible

-- When a template with this id is stored and the options name no out, `toggle` flips whether it is the
-- visible title, whatever was on the output before.
pub on_air-toggle :
    (now : ℕ) (s : Store) (id : Text) (opts : ShowOptions)
    → is_some (get_template s id) ≡ true
    → opts.out_id ≡ none
    → on_air (toggle now id opts s) id ≡ not (on_air s id)
unfolding toggle hide show shown
on_air-toggle now s id opts hs ho = ground (arith, ho, =t_refl id)

-- `hide` for one template, whose id is not empty, and one out: a template is the visible title
-- afterwards exactly when it was before and the output's template and out are not both the given
-- ones.
pub hide-guards :
    (now : ℕ) (s : Store) (o id j : Text)
    → is_empty id ≡ false
    → on_air (hide now (some o) (some id) s) j ≡ (
        on_air s j
        && not (same_id s.active_title.template_id id && same_id s.active_title.out_id o))
unfolding hide
hide-guards now s o id j h = ground arith

-- A stored template that is shown is the visible title.
pub on_air-show :
    (now : ℕ) (s : Store) (id : Text) (opts : ShowOptions)
    → is_some (get_template s id) ≡ true
    → on_air (show now id opts s) id ≡ true
unfolding show shown
on_air-show now s id opts h = ground (arith, h, =t_refl id)
