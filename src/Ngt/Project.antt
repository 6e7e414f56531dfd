-- ===== src/Ngt/Project.antt =====
-- What a `.ngt` file holds, the media aside: `projectOf` of bundles/notGT/src/extension/ngt.ts checks the
-- shape that the rest relies on.
use not_gt.Base.{
  Text, codes, Bool, true, false, not, ◌&&◌, ◌||◌, Option, none, some, List, [], ◌∷◌, map, any,
  if◌then◌else◌, is_empty, get_or, ◌=t◌, includes, Dict, lookup,
}
use not_gt.Base.Int.{pos}
use not_gt.Json.{Value, undef, num, str, arr, obj, items, Fields, end, field, fields, of_fields}
use not_gt.Model.{VariableSelection}

pub data NgtProblem : Type 0 where
  not_ngt newer damaged truncated : NgtProblem

pub data Read {ℓ} (A : Type ℓ) : Type ℓ where
  fine : A → Read A
  problem : NgtProblem → Read A

pub record NgtProject : Type 0 where
  pub info : Option Value
  pub titles : Value
  pub outs : Value
  pub variables : Fields
  pub selection : VariableSelection

abbrev member : Text → Value → Value
member k (obj fs) = get_or (lookup k (fields fs)) undef
member k v = undef

abbrev pub is_record : Value → Bool
is_record (obj fs) = true
is_record v = false

abbrev filled_text : Value → Bool
filled_text (str s) = not (is_empty s)
filled_text v = false

abbrev is_text : Value → Bool
is_text (str s) = true
is_text v = false

abbrev is_array : Value → Bool
is_array (arr vs) = true
is_array v = false

abbrev is_kind : Value → Bool
is_kind (str s) = (s =t codes "layers") || (s =t codes "code")
is_kind v = false

unfoldable pub has_id : Value → Bool
unfolding lookup
has_id v = is_record v && filled_text (member (codes "id") v)

abbrev id_of : Value → Text
id_of v = text_of (member (codes "id") v)
  where
    text_of : Value → Text
    text_of (str s) = s
    text_of w = []

unfoldable pub all_unique : List Text → Bool
unfolding includes
all_unique [] = true
all_unique (s ∷ ss) = not (includes ss s) && all_unique ss

unfoldable pub is_title : Value → Bool
unfolding has_id lookup
is_title v =
    has_id v
    && (is_text (member (codes "name") v)
        && (is_kind (member (codes "kind") v) && is_array (member (codes "layers") v)))

unfoldable pub is_item : Value → Bool
unfolding has_id lookup
is_item v = has_id v && is_text (member (codes "templateId") v)

abbrev every : (Value → Bool) → Value → Bool
every p (arr vs) = not (any (λ v. not (p v)) (items vs))
every p v = false

unfoldable pub is_out : Value → Bool
unfolding has_id is_item lookup
is_out v = has_id v && every is_item (member (codes "items") v)

abbrev ids_unique : Value → Bool
ids_unique (arr vs) = all_unique (map id_of (items vs))
ids_unique v = false

abbrev pub are_titles : Value → Bool
are_titles v = every is_title v && ids_unique v

abbrev pub are_outs : Value → Bool
are_outs v = every is_out v && ids_unique v

-- The choices that are whole numbers and not negative.
abbrev pub choices : Dict Value → VariableSelection
choices [] = []
choices ((path, num (pos n)) ∷ m) = (path, n) ∷ choices m
choices ((path, v) ∷ m) = choices m

abbrev pub choice_fields : VariableSelection → Dict Value
choice_fields [] = []
choice_fields ((path, n) ∷ m) = (path, num (pos n)) ∷ choice_fields m

-- `{ data, selection }`.
abbrev pub variables_value : NgtProject → Value
variables_value p = obj (
    field (codes "data") (obj p.variables)
      (field (codes "selection") (obj (of_fields (choice_fields p.selection))) end))

abbrev selection_of : Value → VariableSelection
selection_of (obj fs) = choices (fields fs)
selection_of v = []

abbrev pub info_of : Option Value → Option Value
info_of none = none
info_of (some v) = if is_record v then some v else none

abbrev with_variables : Option Value → Value → Value → Value → Value → Read NgtProject
with_variables info titles outs (obj fs) selection = fine (record {
  info = info_of info;
  titles = titles;
  outs = outs;
  variables = fs;
  selection = selection_of selection;
})
with_variables info titles outs v selection = problem NgtProblem.damaged

unfoldable pub project_from : Option Value → Value → Value → Value → Read NgtProject
unfolding is_title is_out all_unique lookup
project_from info titles outs vars =
    if not (are_titles titles)
    then problem NgtProblem.damaged
    else if not (are_outs outs)
    then problem NgtProblem.damaged
    else with_variables info titles outs (member (codes "data") vars)
        (member (codes "selection") vars)

-- A chunk that is missing is damage.
unfoldable pub project_of : Dict Value → Read NgtProject
unfolding project_from lookup
project_of json = elim (lookup (codes "TITL") json) [
  | none ↦ problem NgtProblem.damaged
  | some titles ↦ elim (lookup (codes "OUTS") json) [
    | none ↦ problem NgtProblem.damaged
    | some outs ↦ elim (lookup (codes "VARS") json) [
      | none ↦ problem NgtProblem.damaged
      | some vars ↦ project_from (lookup (codes "INFO") json) titles outs vars
    ]
  ]
]
