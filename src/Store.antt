-- ===== src/Store.antt =====
-- bundles/notGT/src/extension/store.ts: the state that the extension keeps in Replicants, and every
-- operation on it. A Replicant is a field; `clone` copies a value and so leaves no trace; `Date.now()`
-- is the argument `now`. Seeding and migrations, at the end of `createStore`, are left out.
pub mod Library
pub mod Playing
pub mod Program
pub mod Variables
pub mod Data
use not_gt.Base.{ℕ, Text, Bool, Option, none, List, [], false}
use not_gt.Model.{
  MetaState, TitleTemplate, Out, TitleData, VariableSelection, ActiveTitleState, RuntimeState,
}

pub record Store : Type 0 where
  pub templates : List TitleTemplate
  pub outs : List Out
  pub title_data : TitleData
  pub active_title : ActiveTitleState
  pub runtime : RuntimeState
  pub selection : VariableSelection
  pub meta : MetaState

-- `{ ...DEFAULT_ACTIVE, updatedAt }`.
abbrev pub default_active : ℕ → ActiveTitleState
default_active now = record {
  template_id = none;
  visible = false;
  out_id = none;
  overrides = [];
  label = none;
  updated_at = now;
}
