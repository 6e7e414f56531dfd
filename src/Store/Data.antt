-- ===== src/Store/Data.antt =====
-- The variables of bundles/notGT/src/extension/store.ts: written, deleted, and merged with those of the title
-- that is shown.
use not_gt.Base.{Text, Bool, [], ◌∷◌, ◌++◌, if◌then◌else◌, Dict}
use not_gt.Json.{Value, obj, Fields, end, field, fields, of_fields}
use not_gt.Model.{TitleData}
use not_gt.Binding.{field_key}
use not_gt.Binding.Edit.{set_by_path, delete_by_path}
use not_gt.Store.{Store}

-- `flattenEntries`. An object without fields leaves no entry.
unfoldable mutual
  pub flatten_entries : Text → Fields → Dict Value
  flatten_entries prefix end = []
  flatten_entries prefix (field k v fs) =
      flatten_entry (field_key prefix k) v ++ flatten_entries prefix fs

  flatten_entry : Text → Value → Dict Value
  flatten_entry path (obj fs) = flatten_entries path fs
  flatten_entry path v = (path, v) ∷ []

unfoldable pub set_all : Dict Value → Value → Value
set_all [] next = next
set_all ((path, v) ∷ entries) next = set_all entries (set_by_path next path v)

-- One entry of a patch: an object is written leaf by leaf.
unfoldable pub set_entry : Text → Value → Value → Value
unfolding flatten_entries set_all set_by_path
set_entry path (obj fs) next = set_all (flatten_entries path fs) next
set_entry path v next = set_by_path next path v

unfoldable pub merge_data : Dict Value → Value → Value
unfolding set_entry
merge_data [] next = next
merge_data ((path, v) ∷ patch) next = merge_data patch (set_entry path v next)

-- The variables as an object, and an object as the variables.
abbrev pub as_object : TitleData → Value
as_object m = obj (of_fields m)

abbrev pub as_data : Value → TitleData
as_data (obj fs) = fields fs
as_data v = []

unfoldable pub set_data : Bool → TitleData → Store → Store
unfolding merge_data
set_data replace patch s =
    if replace
    then record s { title_data = patch }
    else record s { title_data = as_data (merge_data patch (as_object s.title_data)) }

unfoldable pub delete_data : Text → Store → Store
unfolding delete_by_path
delete_data path s = record s {
  title_data = as_data (delete_by_path (as_object s.title_data) path);
}

unfoldable pub effective_data : Store → TitleData
unfolding flatten_entries set_all
effective_data s =
    as_data
      (set_all (flatten_entries [] (of_fields s.active_title.overrides)) (as_object s.title_data))
