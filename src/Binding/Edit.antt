-- ===== src/Binding/Edit.antt =====
-- Variables changed by path, and read as they are stored: `setByPath`, `deleteByPath`, `getByPathRaw` and
-- `flattenEntries` of bundles/notGT/src/shared/binding.ts. A property of an array that is no index is not
-- kept in the store: writing or deleting one leaves the array as it is. Writing the length of an array,
-- which cuts or refuses, is not modelled.
-- A value is what JSON can hold: a function, such as those that every object inherits by names like `toString`,
-- stands as `undefined`, as `JSON.stringify` leaves it out. What objects and arrays inherit by the name `__proto__`
-- is their prototype, read as an empty object or array. A write through it goes to what all objects share, or gives
-- an object another prototype: that leaves its own fields, which are modelled, as they were, and what is inherited
-- after it is not modelled.
pub mod Laws
use not_gt.Base.{
  ℕ, zero, suc, Text, codes, Bool, true, false, not, ◌&&◌, ◌||◌, Option, none, some, List, [], ◌∷◌,
  ◌++◌, length, if◌then◌else◌, is_empty, digits_from, ◌=t◌, show_nat, Dict,
}
use not_gt.Base.Int.{pos}
use not_gt.Json.{
  Value, undef, null, bool, num, str, arr, obj, Items, nil, cons, items, Fields, end, field, fields,
  of_fields,
}
use not_gt.Binding.{Segment, name, index, parse_path}

-- A segment as the name of a property.
abbrev pub seg_key : Segment → Text
seg_key (name s) = s
seg_key (index i) = show_nat i

-- A name that is written as an index is one.
abbrev name_index : Text → Option ℕ → Option ℕ
name_index s none = none
name_index s (some n) = if show_nat n =t s then some n else none

unfoldable pub seg_index : Segment → Option ℕ
seg_index (index i) = some i
seg_index (name s) = name_index s (digits_from 0 s)

abbrev pub item_at : ℕ → Items → Value
item_at i nil = undef
item_at zero (cons v vs) = v
item_at (suc i) (cons v vs) = item_at i vs

abbrev pub field_at : Text → Fields → Value
field_at k end = undef
field_at k (field j v fs) = if j =t k then v else field_at k fs

-- `cur[seg]`. An array has its length besides its elements.
unfoldable pub property : Segment → Value → Value
unfolding seg_index
property s (obj fs) = field_at (seg_key s) fs
property s (arr vs) = elim (seg_index s) [
  | some i ↦ item_at i vs
  | none ↦ if seg_key s =t codes "length" then num (pos (length (items vs))) else undef
]
property s v = undef

abbrev pub proto_name : Text
proto_name = codes "__proto__"

abbrev pub is_proto : Segment → Bool
is_proto s = seg_key s =t proto_name

abbrev pub has_field : Text → Fields → Bool
has_field k end = false
has_field k (field j v fs) = (j =t k) || has_field k fs

-- A read that goes on at the prototype: the name is not one of the object's own.
abbrev pub to_prototype : Segment → Value → Bool
to_prototype s (obj fs) = is_proto s && not (has_field (seg_key s) fs)
to_prototype s (arr vs) = is_proto s
to_prototype s v = false

abbrev pub from_null : List Segment → Value
from_null [] = null
from_null segs = undef

-- From the prototype of objects, whose own one is `null`, and from that of arrays, which is an empty array.
unfoldable pub from_object_prototype : List Segment → Value
from_object_prototype [] = obj end
from_object_prototype (s ∷ segs) = if is_proto s then from_null segs else undef

abbrev pub from_property : Value → List Segment → Value
from_property v [] = v
from_property v segs = undef

unfoldable pub from_array_prototype : List Segment → Value
unfolding property from_object_prototype
from_array_prototype [] = arr nil
from_array_prototype (s ∷ segs) =
    if is_proto s then from_object_prototype segs else from_property (property s (arr nil)) segs

unfoldable pub from_prototype : Value → List Segment → Value
unfolding from_object_prototype from_array_prototype
from_prototype (arr vs) segs = from_array_prototype segs
from_prototype v segs = from_object_prototype segs

unfoldable pub walk_raw : List Segment → Value → Value
unfolding property from_prototype
walk_raw [] v = v
walk_raw (s ∷ segs) v =
    let rest = walk_raw segs (property s v) in
    if to_prototype s v then from_prototype v segs else rest

unfoldable pub get_by_path_raw : Value → Text → Value
unfolding walk_raw
get_by_path_raw v path = walk_raw (parse_path path) v

-- The elements before the index that there are not are holes.
abbrev pub padded : ℕ → Value → Items
padded zero v = cons v nil
padded (suc i) v = cons undef (padded i v)

-- A value and the containers that are made for the path to it.
unfoldable pub built : List Segment → Value → Value
built [] v = v
built (index i ∷ segs) v = arr (padded i (built segs v))
built (name s ∷ segs) v =
    let inner = built segs v in if s =t proto_name then obj end else obj (field s inner end)

unfoldable mutual
  unfolding built seg_index

  -- `setByPath`, from the value that the path starts at.
  pub put_in : List Segment → Value → Value → Value
  put_in [] v cur = v
  put_in (s ∷ segs) v (obj fs) = obj (put_field (seg_key s) segs v fs)
  put_in (s ∷ segs) v (arr vs) = arr (put_items (seg_index s) segs v vs)
  put_in (s ∷ segs) v cur = built (s ∷ segs) v

  pub put_field : Text → List Segment → Value → Fields → Fields
  put_field k segs v end = if k =t proto_name then end else field k (built segs v) end
  put_field k segs v (field j w fs) =
      let rest = put_field k segs v fs in
      let changed = put_in segs v w in if j =t k then field j changed fs else field j w rest

  pub put_items : Option ℕ → List Segment → Value → Items → Items
  put_items none segs v vs = vs
  put_items (some i) segs v nil = padded i (built segs v)
  put_items (some zero) segs v (cons w ws) = cons (put_in segs v w) ws
  put_items (some (suc i)) segs v (cons w ws) = cons w (put_items (some i) segs v ws)

-- A path without a segment changes nothing.
unfoldable pub set_by_path : Value → Text → Value → Value
unfolding put_in
set_by_path target path v = elim (parse_path path) [
  | [] ↦ target
  | s ∷ segs ↦ put_in (s ∷ segs) v target
]

unfoldable pub drop_field : Text → Fields → Fields
drop_field k end = end
drop_field k (field j v fs) = let rest = drop_field k fs in if j =t k then rest else field j v rest

-- A deleted element leaves a hole.
abbrev pub clear_item : ℕ → Items → Items
clear_item i nil = nil
clear_item zero (cons v vs) = cons undef vs
clear_item (suc i) (cons v vs) = cons v (clear_item i vs)

abbrev clear_items : Option ℕ → Items → Items
clear_items none vs = vs
clear_items (some i) vs = clear_item i vs

unfoldable mutual
  unfolding seg_index drop_field

  -- `deleteByPath`, from the value that the path starts at.
  pub delete_in : List Segment → Value → Value
  delete_in [] cur = cur
  delete_in (s ∷ []) (obj fs) = obj (drop_field (seg_key s) fs)
  delete_in (s ∷ []) (arr vs) = arr (clear_items (seg_index s) vs)
  delete_in (s ∷ r ∷ segs) (obj fs) = obj (delete_field (seg_key s) (r ∷ segs) fs)
  delete_in (s ∷ r ∷ segs) (arr vs) = arr (delete_items (seg_index s) (r ∷ segs) vs)
  delete_in (s ∷ segs) cur = cur

  pub delete_field : Text → List Segment → Fields → Fields
  delete_field k segs end = end
  delete_field k segs (field j w fs) =
      let rest = delete_field k segs fs in
      let changed = delete_in segs w in if j =t k then field j changed fs else field j w rest

  pub delete_items : Option ℕ → List Segment → Items → Items
  delete_items none segs vs = vs
  delete_items (some i) segs nil = nil
  delete_items (some zero) segs (cons w ws) = cons (delete_in segs w) ws
  delete_items (some (suc i)) segs (cons w ws) = cons w (delete_items (some i) segs ws)

unfoldable pub delete_by_path : Value → Text → Value
unfolding delete_in
delete_by_path target path = delete_in (parse_path path) target
