-- ===== src/Model.antt =====
-- bundles/notGT/src/shared/types.ts: the domain model. What only the pages read of a layer or of a
-- placement (geometry, style, transitions) is carried whole, as one value.
use not_gt.Base.{ℕ, Text, Bool, false, Option, some, List, Dict}
use not_gt.Base.Int.{ℤ, pos}
use not_gt.Json.{Value}

abbrev pub schema_version : ℕ
schema_version = 9

pub record MetaState : Type 0 where
  pub initialized : Bool
  pub schema_version : ℕ

-- The texts of a layer that may hold bindings; `appearance` is the rest.
pub record Layer : Type 0 where
  pub id : Text
  pub text : Option Text
  pub binding : Option Text
  pub src : Option Text
  pub appearance : Value

pub data PlaybackMode : Type 0 where
  once loop : PlaybackMode

pub data HoldMode : Type 0 where
  fixed video : HoldMode

-- A number that is missing or not finite is `none`.
pub record PlaybackConfig : Type 0 where
  pub mode : PlaybackMode
  pub interval_ms : Option ℤ
  pub hold_ms : Option ℤ
  pub auto_start : Bool
  pub hold_mode : HoldMode

pub record CodeBlock : Type 0 where
  pub html : Text
  pub css : Text
  pub js : Text
  pub src : Option Text
  pub exit_ms : Option ℤ

abbrev pub code_exit_max_ms : ℕ
code_exit_max_ms = 10000

pub data TemplateKind : Type 0 where
  layers code : TemplateKind

pub record TitleTemplate : Type 0 where
  pub id : Text
  pub name : Text
  pub kind : TemplateKind
  pub width : ℕ
  pub height : ℕ
  pub layers : List Layer
  pub code : Option CodeBlock
  pub in_transition : Value
  pub out_transition : Value
  pub playback : Option PlaybackConfig
  pub created_at : ℕ
  pub updated_at : ℕ

-- `placement`: `x`, `y`, `scale`, `crop`, `bounds`, `corners` and `order`.
pub record OutItem : Type 0 where
  pub id : Text
  pub template_id : Text
  pub placement : Value
  pub playback : Option PlaybackConfig
  pub enabled : Bool
  pub held : Bool

-- `outputs`: `ndi` and `spout`.
pub record Out : Type 0 where
  pub id : Text
  pub name : Text
  pub width : ℕ
  pub height : ℕ
  pub items : List OutItem
  pub outputs : Value
  pub created_at : ℕ
  pub updated_at : ℕ

abbrev pub TitleData : Type 0
TitleData = Dict Value

abbrev pub VariableSelection : Type 0
VariableSelection = Dict ℕ

pub record ActiveTitleState : Type 0 where
  pub template_id : Option Text
  pub visible : Bool
  pub out_id : Option Text
  pub overrides : TitleData
  pub label : Option Text
  pub updated_at : ℕ

pub record RuntimeState : Type 0 where
  pub playing : Dict (List Text)
  pub triggers : Dict ℕ
  pub revision : ℕ

abbrev pub default_playback : PlaybackConfig
default_playback = record {
  mode = PlaybackMode.once;
  interval_ms = some (pos 10000);
  hold_ms = some (pos 6000);
  auto_start = false;
  hold_mode = HoldMode.fixed;
}
