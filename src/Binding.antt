-- ===== src/Binding.antt =====
-- bundles/notGT/src/shared/binding.ts: variables read by path. Arrays are collections of which a selection
-- picks one element. A field is one that the object has of its own; a
-- function that it inherits stands as `undefined`, and reading `__proto__` is left out.
pub mod Laws
pub mod Edit
use not_gt.Base.{
  ℕ, zero, suc, Text, codes, Bool, true, false, not, ◌&&◌, ◌||◌, Option, none, some, List, [], ◌∷◌,
  ◌++◌, ◌==◌, if◌then◌else◌, is_empty, get_or, is_digit, digits_from, ◌=t◌, show_nat, Dict, lookup,
}
use not_gt.Json.{Value, undef, null, bool, num, str, arr, obj, Items, nil, cons, Fields, end, field}
use not_gt.Model.{VariableSelection}

pub data Segment : Type 0 where
  name : Text → Segment
  index : ℕ → Segment

-- A name that was read so far is a segment when it is not empty.
abbrev flush : Text → List Segment
flush [] = []
flush (c ∷ s) = name (c ∷ s) ∷ []

-- `[` ends a name and may start an index; `.` and `]` end a name.
plain_step : ℕ → Text → List Segment × Bool × Text
plain_step c word =
    if c == b'['
    then (flush word, true, [])
    else if (c == b'.') || (c == b']')
    then (flush word, false, [])
    else ([], false, word ++ c ∷ [])

-- Digits closed by `]` are an index; otherwise they are read as a name.
digit_step : ℕ → Text → List Segment × Bool × Text
unfolding plain_step
digit_step c word =
    if is_digit c
    then ([], true, word ++ c ∷ [])
    else if (c == b']') && not (is_empty word)
    then (index (get_or (digits_from 0 word) 0) ∷ [], false, [])
    else plain_step c word

-- One pass over the matches of `/[^.[\]]+|\[(\d+)\]/g`. `word` is the name that is being read or, after a
-- `[`, the digits.
unfoldable pub scan : Bool → Text → Text → List Segment
unfolding plain_step digit_step
scan inside word [] = flush word
scan inside word (c ∷ s) =
    let (found, next, rest) = if inside then digit_step c word else plain_step c word in
    found ++ scan next rest s

unfoldable pub parse_path : Text → List Segment
unfolding scan
parse_path path = scan false [] path

-- `${key}[${index}]`, and `key ? `${key}.${seg}` : seg`.
abbrev pub index_key : Text → ℕ → Text
index_key key i = key ++ b'[' ∷ (show_nat i ++ b']' ∷ [])

abbrev pub field_key : Text → Text → Text
field_key key seg = if is_empty key then seg else key ++ b'.' ∷ seg

-- `selection[key] ?? 0`.
abbrev pub selected : VariableSelection → Text → ℕ
selected selection key = get_or (lookup key selection) 0

unfoldable mutual
  -- The walk of `getByPath` from a value: an array takes an explicit index, or picks one itself and
  -- leaves the segment.
  pub walk : VariableSelection → Text → List Segment → Value → Value
  walk sel key (index i ∷ segs) (arr vs) = walk_at sel (index_key key i) segs i vs
  walk sel key (name s ∷ segs) (arr vs) =
      walk_at sel (index_key key (selected sel key)) (name s ∷ segs) (selected sel key) vs
  walk sel key [] (arr vs) = walk_at sel (index_key key (selected sel key)) [] (selected sel key) vs
  walk sel key (name s ∷ segs) (obj fs) = walk_field sel (field_key key s) segs s fs
  walk sel key [] v = v
  walk sel key (s ∷ segs) v = undef

  -- The element; `undefined` when there is none, and so is what follows.
  pub walk_at : VariableSelection → Text → List Segment → ℕ → Items → Value
  walk_at sel key segs i nil = undef
  walk_at sel key segs zero (cons v vs) = walk sel key segs v
  walk_at sel key segs (suc i) (cons v vs) = walk_at sel key segs i vs

  pub walk_field : VariableSelection → Text → List Segment → Text → Fields → Value
  walk_field sel key segs s end = undef
  walk_field sel key segs s (field k v fs) =
      let rest = walk_field sel key segs s fs in if k =t s then walk sel key segs v else rest

unfoldable pub get_by_path : Value → Text → VariableSelection → Value
unfolding walk parse_path
get_by_path value path selection = walk selection [] (parse_path path) value

unfoldable mutual
  pub materialize_selection : VariableSelection → Text → Value → Value
  materialize_selection sel prefix (arr vs) =
      materialize_at sel (index_key prefix (selected sel prefix)) (selected sel prefix) vs
  materialize_selection sel prefix (obj fs) = obj (materialize_fields sel prefix fs)
  materialize_selection sel prefix v = v

  pub materialize_at : VariableSelection → Text → ℕ → Items → Value
  materialize_at sel prefix i nil = undef
  materialize_at sel prefix zero (cons v vs) = materialize_selection sel prefix v
  materialize_at sel prefix (suc i) (cons v vs) = materialize_at sel prefix i vs

  pub materialize_fields : VariableSelection → Text → Fields → Fields
  materialize_fields sel prefix end = end
  materialize_fields sel prefix (field k v fs) =
      field k (materialize_selection sel (field_key prefix k) v) (materialize_fields sel prefix fs)
