-- ===== src/Binding/Laws.antt =====
-- The variables as a layer reads them by path, and as a code animation is given them: `getByPath`
-- and `materializeSelection` of bundles/notGT/src/shared/binding.ts.
use not_gt.Base.{
  ℕ, zero, suc, ◌≡◌, refl, ap, Text, true, false, List, [], ◌∷◌, Bool-cases, inl, inr,
  if◌then◌else◌, arith, ◌=t◌, =t_iff,
}
use not_gt.Json.{Value, undef, null, bool, num, str, arr, obj, Items, nil, cons, Fields, end, field}
use not_gt.Model.{VariableSelection}
use not_gt.Binding.{
  Segment, name, index, parse_path, index_key, field_key, selected, walk, walk_at, walk_field,
  get_by_path, materialize_selection, materialize_at, materialize_fields,
}

-- No explicit index.
abbrev pub HasNames : List Segment → Type 0
HasNames [] = Unit {0}
HasNames (name s ∷ segs) = HasNames segs
HasNames (index i ∷ segs) = false ≡ true

-- A value that the materialised walk may give for one of the plain walk: the same, materialised.
abbrev pub IsMaterialized : VariableSelection → Value → Value → Type 0
IsMaterialized sel v w = (key : Text) × (w ≡ materialize_selection sel key v)

-- One field or the others: the name that is asked for is the field's.
either :
    (sel : VariableSelection) (k s : Text) (found : Text → Value) (missed found' missed' : Value)
    → IsMaterialized sel (found k) found'
    → IsMaterialized sel missed missed'
    → IsMaterialized sel (if k =t s then found s else missed) (if k =t s then found' else missed')
either sel k s found missed found' missed' (i, p) (j, q) = elim (Bool-cases (k =t s)) [
  | inl e ↦ (i, ground (arith, e, p, ap found (=t-eq k s e)))
  | inr e ↦ (j, ground (arith, e, q))
]
  where
    =t-eq : (a b : Text) → (a =t b) ≡ true → a ≡ b
    =t-eq a b h = ground (arith, h, =t_iff a b)

mutual
  unfolding walk materialize_selection

  walk-materialize :
      (sel other : VariableSelection) (key key' : Text) (segs : List Segment) (v : Value)
      → HasNames segs
      → IsMaterialized sel
          (walk sel key segs v)
          (walk other key' segs (materialize_selection sel key v))
  walk-materialize sel other key key' [] (arr vs) h =
      at-materialize sel other (index_key key (selected sel key)) key' [] (selected sel key) vs h
  walk-materialize sel other key key' (name s ∷ segs) (arr vs) h =
      at-materialize sel other (index_key key (selected sel key)) key' (name s ∷ segs)
        (selected sel key) vs h
  walk-materialize sel other key key' (index i ∷ segs) (arr vs) h = cc
  walk-materialize sel other key key' (name s ∷ segs) (obj fs) h =
      field-materialize sel other key (field_key key' s) segs s fs h
  walk-materialize sel other key key' (index i ∷ segs) (obj fs) h = cc
  walk-materialize sel other key key' [] (obj fs) h = (key, refl)
  walk-materialize sel other key key' [] undef h = (key, refl)
  walk-materialize sel other key key' [] null h = (key, refl)
  walk-materialize sel other key key' [] (bool b) h = (key, refl)
  walk-materialize sel other key key' [] (num n) h = (key, refl)
  walk-materialize sel other key key' [] (str t) h = (key, refl)
  walk-materialize sel other key key' (name s ∷ segs) undef h = (key, refl)
  walk-materialize sel other key key' (name s ∷ segs) null h = (key, refl)
  walk-materialize sel other key key' (name s ∷ segs) (bool b) h = (key, refl)
  walk-materialize sel other key key' (name s ∷ segs) (num n) h = (key, refl)
  walk-materialize sel other key key' (name s ∷ segs) (str t) h = (key, refl)
  walk-materialize sel other key key' (index i ∷ segs) v h = cc

  at-materialize :
      (sel other : VariableSelection) (key key' : Text) (segs : List Segment) (i : ℕ) (vs : Items)
      → HasNames segs
      → IsMaterialized sel
          (walk_at sel key segs i vs)
          (walk other key' segs (materialize_at sel key i vs))
  at-materialize sel other key key' [] i nil h = (key, refl)
  at-materialize sel other key key' (name s ∷ segs) i nil h = (key, refl)
  at-materialize sel other key key' (index j ∷ segs) i nil h = cc
  at-materialize sel other key key' segs zero (cons v vs) h =
      walk-materialize sel other key key' segs v h
  at-materialize sel other key key' segs (suc i) (cons v vs) h =
      at-materialize sel other key key' segs i vs h

  field-materialize :
      (sel other : VariableSelection) (key key' : Text) (segs : List Segment) (s : Text)
      (fs : Fields)
      → HasNames segs
      → IsMaterialized sel
          (walk_field sel (field_key key s) segs s fs)
          (walk_field other key' segs s (materialize_fields sel key fs))
  field-materialize sel other key key' segs s end h = (key, refl)
  field-materialize sel other key key' segs s (field k v fs) h =
      either sel k s (λ j. walk sel (field_key key j) segs v)
        (walk_field sel (field_key key s) segs s fs)
        (walk other key' segs (materialize_selection sel (field_key key k) v))
        (walk_field other key' segs s (materialize_fields sel key fs))
        (walk-materialize sel other (field_key key k) key' segs v h)
        (field-materialize sel other key key' segs s fs h)

-- A path without explicit indexes leads, in the materialised variables, to what it leads to with the
-- selection, materialised: whatever selection is used then, since no array is left to pick from.
pub get_by_path-materialize_selection :
    (v : Value) (path : Text) (sel other : VariableSelection)
    → HasNames (parse_path path)
    → (key : Text) × (get_by_path (materialize_selection sel [] v) path other
        ≡ materialize_selection sel key (get_by_path v path sel))
unfolding get_by_path
get_by_path-materialize_selection v path sel other h =
    walk-materialize sel other [] [] (parse_path path) v h
