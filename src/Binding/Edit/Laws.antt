-- ===== src/Binding/Edit/Laws.antt =====
-- What is read by a path after a variable is written or deleted, in bundles/notGT/src/shared/binding.ts.
use not_gt.Base.{
  ℕ, zero, suc, ◌⊎◌, ◌≡◌, refl, sym, ◌∙◌, Text, Bool, true, false, not, ◌=t◌, ◌&&◌, some, List, [],
  ◌∷◌, is_some, is_empty, arith, Option-cases, inl, inr, =t_refl,
}
use not_gt.Json.{Value, undef, arr, obj, Items, nil, cons, Fields, end, field}
use not_gt.Binding.{Segment, name, index, parse_path}
use not_gt.Binding.Edit.{
  seg_key, seg_index, item_at, field_at, property, proto_name, is_proto, walk_raw, get_by_path_raw,
  padded, built, put_in, put_field, put_items, set_by_path, drop_field, delete_in, delete_field,
  delete_items, clear_item, delete_by_path,
}

-- The walk meets an array only at segments that are indexes, and no segment is `__proto__`.
unfoldable pub fits : List Segment → Value → Bool
unfolding property seg_index
fits [] v = true
fits (s ∷ segs) (arr vs) =
    not (is_proto s) && (is_some (seg_index s) && fits segs (property s (arr vs)))
fits (s ∷ segs) v = not (is_proto s) && fits segs (property s v)

item_at-padded : (i : ℕ) (v : Value) → item_at i (padded i v) ≡ v
item_at-padded zero v = refl
item_at-padded (suc i) v = item_at-padded i v

walk_raw-plain :
    (s : Segment) (segs : List Segment) (v : Value)
    → is_proto s ≡ false
    → walk_raw (s ∷ segs) v ≡ walk_raw segs (property s v)
unfolding walk_raw
walk_raw-plain s segs (obj fs) h = rw h refl
walk_raw-plain s segs (arr vs) h = rw h refl
walk_raw-plain s segs v h = refl

walk_raw-built :
    (segs : List Segment) (v : Value) → fits segs undef ≡ true → walk_raw segs (built segs v) ≡ v
unfolding walk_raw built property seg_index fits
walk_raw-built [] v h = refl
walk_raw-built (index i ∷ segs) v h =
    ground (arith, h, item_at-padded i (built segs v), walk_raw-built segs v)
walk_raw-built (name s ∷ segs) v h = ground (arith, h, =t_refl s, walk_raw-built segs v)

put_in_missing : (segs : List Segment) (v : Value) → put_in segs v undef ≡ built segs v
unfolding put_in
put_in_missing [] v = refl
put_in_missing (s ∷ segs) v = refl

field_at-put_field :
    (k : Text) (segs : List Segment) (v : Value) (fs : Fields)
    → (k =t proto_name) ≡ false
    → field_at k (put_field k segs v fs) ≡ put_in segs v (field_at k fs)
unfolding put_in
field_at-put_field k segs v end p = ground (arith, p, =t_refl k, put_in_missing segs v)
field_at-put_field k segs v (field j w fs) p = ground (arith, field_at-put_field k segs v fs p)

item_at-put_items :
    (i : ℕ) (segs : List Segment) (v : Value) (vs : Items)
    → item_at i (put_items (some i) segs v vs) ≡ put_in segs v (item_at i vs)
unfolding put_in
item_at-put_items zero segs v nil = sym (put_in_missing segs v)
item_at-put_items (suc i) segs v nil = item_at-padded i (built segs v) ∙ sym (put_in_missing segs v)
item_at-put_items zero segs v (cons w ws) = refl
item_at-put_items (suc i) segs v (cons w ws) = item_at-put_items i segs v ws

fits-plain :
    (s : Segment) (segs : List Segment) (v : Value) → fits (s ∷ segs) v ≡ true → is_proto s ≡ false
unfolding fits
fits-plain s segs (arr vs) h = ground (arith, h)
fits-plain s segs v h = ground (arith, h)

walk_raw-put_in :
    (segs : List Segment) (v cur : Value)
    → fits segs cur ≡ true
    → walk_raw segs (put_in segs v cur) ≡ v
unfolding put_in fits property
walk_raw-put_in [] v cur h = unfold walk_raw in refl
walk_raw-put_in (s ∷ segs) v (obj fs) h =
    let plain = fits-plain s segs (obj fs) h in
    walk_raw-plain s segs (obj (put_field (seg_key s) segs v fs)) plain
    ∙ rw (field_at-put_field (seg_key s) segs v fs plain)
        (walk_raw-put_in segs v (field_at (seg_key s) fs) (ground (arith, h)))
walk_raw-put_in (s ∷ segs) v (arr vs) h =
    walk_raw-plain s segs (arr (put_items (seg_index s) segs v vs)) (fits-plain s segs (arr vs) h)
    ∙ elim (Option-cases (seg_index s)) [
      | inl e ↦ absurd (ground (arith, h, e))
      | inr (i, e) ↦
          ground (arith, h, e, item_at-put_items i segs v vs, walk_raw-put_in segs v (item_at i vs))
    ]
walk_raw-put_in (s ∷ segs) v cur h = walk_raw-built (s ∷ segs) v h

walk_raw-undef : (segs : List Segment) → walk_raw segs undef ≡ undef
unfolding walk_raw property
walk_raw-undef [] = refl
walk_raw-undef (s ∷ segs) = walk_raw-undef segs

field_at-drop_field : (k : Text) (fs : Fields) → field_at k (drop_field k fs) ≡ undef
unfolding drop_field
field_at-drop_field k end = refl
field_at-drop_field k (field j w fs) = ground (arith, field_at-drop_field k fs)

delete_in-undef : (segs : List Segment) → delete_in segs undef ≡ undef
unfolding delete_in
delete_in-undef [] = refl
delete_in-undef (s ∷ []) = refl
delete_in-undef (s ∷ r ∷ segs) = refl

field_at-delete_field :
    (k : Text) (segs : List Segment) (fs : Fields)
    → field_at k (delete_field k segs fs) ≡ delete_in segs (field_at k fs)
unfolding delete_in
field_at-delete_field k segs end = sym (delete_in-undef segs)
field_at-delete_field k segs (field j w fs) = ground (arith, field_at-delete_field k segs fs)

item_at-delete_items :
    (i : ℕ) (segs : List Segment) (vs : Items)
    → item_at i (delete_items (some i) segs vs) ≡ delete_in segs (item_at i vs)
unfolding delete_in
item_at-delete_items zero segs nil = sym (delete_in-undef segs)
item_at-delete_items (suc i) segs nil = sym (delete_in-undef segs)
item_at-delete_items zero segs (cons w ws) = refl
item_at-delete_items (suc i) segs (cons w ws) = item_at-delete_items i segs ws

item_at-clear_item : (i : ℕ) (vs : Items) → item_at i (clear_item i vs) ≡ undef
item_at-clear_item zero nil = refl
item_at-clear_item (suc i) nil = refl
item_at-clear_item zero (cons w ws) = refl
item_at-clear_item (suc i) (cons w ws) = item_at-clear_item i ws

-- From a container on, at least one segment.
walk_raw-delete_in :
    (s : Segment) (segs : List Segment) (cur : Value)
    → fits (s ∷ segs) cur ≡ true
    → walk_raw (s ∷ segs) (delete_in (s ∷ segs) cur) ≡ undef
unfolding delete_in fits property
walk_raw-delete_in s [] (obj fs) h =
    walk_raw-plain s [] (obj (drop_field (seg_key s) fs)) (fits-plain s [] (obj fs) h)
    ∙ (unfold walk_raw in field_at-drop_field (seg_key s) fs)
walk_raw-delete_in s [] (arr vs) h =
    walk_raw-plain s [] (delete_in (s ∷ []) (arr vs)) (fits-plain s [] (arr vs) h)
    ∙ elim (Option-cases (seg_index s)) [
      | inl e ↦ absurd (ground (arith, h, e))
      | inr (i, e) ↦ unfold walk_raw in ground (arith, e, item_at-clear_item i vs)
    ]
walk_raw-delete_in s (r ∷ segs) (obj fs) h =
    walk_raw-plain s (r ∷ segs) (obj (delete_field (seg_key s) (r ∷ segs) fs))
      (fits-plain s (r ∷ segs) (obj fs) h)
    ∙ rw (field_at-delete_field (seg_key s) (r ∷ segs) fs)
        (walk_raw-delete_in r segs (field_at (seg_key s) fs) (ground (arith, h)))
walk_raw-delete_in s (r ∷ segs) (arr vs) h =
    walk_raw-plain s (r ∷ segs) (delete_in (s ∷ r ∷ segs) (arr vs))
      (fits-plain s (r ∷ segs) (arr vs) h)
    ∙ elim (Option-cases (seg_index s)) [
      | inl e ↦ absurd (ground (arith, h, e))
      | inr (i, e) ↦ ground (
        arith,
        h,
        e,
        item_at-delete_items i (r ∷ segs) vs,
        walk_raw-delete_in r segs (item_at i vs),
      )
    ]
walk_raw-delete_in s [] cur h = unfold walk_raw in refl
walk_raw-delete_in s (r ∷ segs) cur h =
    walk_raw-plain s (r ∷ segs) cur (fits-plain s (r ∷ segs) cur h) ∙ walk_raw-undef (r ∷ segs)

segs_cases :
    (l : List Segment) → (l ≡ []) ⊎ ((s : Segment) × (segs : List Segment) × (l ≡ s ∷ segs))
segs_cases [] = inl refl
segs_cases (s ∷ segs) = inr (s, segs, refl)

-- At a path that names something, in which no segment is `__proto__`, and that leads to no property of an array but
-- an index: what is written there is what is read there as it is stored, and after it is deleted no value of JSON
-- is read there, at most a function that every object inherits.
pub get_by_path_raw-set_by_path :
    (target : Value) (path : Text) (v : Value)
    → is_empty (parse_path path) ≡ false
    → fits (parse_path path) target ≡ true
    → (get_by_path_raw (set_by_path target path v) path ≡ v)
      × (get_by_path_raw (delete_by_path target path) path ≡ undef)
unfolding get_by_path_raw set_by_path delete_by_path
get_by_path_raw-set_by_path target path v n h = elim (segs_cases (parse_path path)) [
  | inl e ↦ absurd (ground (arith, n, e))
  | inr (s, segs, e) ↦ (
    ground (arith, e, h, walk_raw-put_in (s ∷ segs) v target),
    ground (arith, e, h, walk_raw-delete_in s segs target),
  )
]
