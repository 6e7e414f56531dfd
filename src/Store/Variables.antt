-- ===== src/Store/Variables.antt =====
-- The variables of bundles/notGT/src/extension/store.ts: read by path, and the selection of an element of
-- each array.
pub mod Laws
use not_gt.Base.{ℕ, Text, Bool, true, false, List, [], ◌∷◌, lookup, insert, erase, Dict}
use not_gt.Base.Int.{ℤ, pos, negsuc}
use not_gt.Json.{Value, obj, of_fields}
use not_gt.Model.{VariableSelection}
use not_gt.Binding.{get_by_path}
use not_gt.Store.{Store}

-- The loop of `setSelection`. Whole numbers: a negative one is skipped.
unfoldable pub choose : Dict ℤ → VariableSelection → VariableSelection
choose [] next = next
choose ((path, pos n) ∷ patch) next = choose patch (insert path n next)
choose ((path, negsuc n) ∷ patch) next = choose patch next

unfoldable pub set_selection : Dict ℤ → Store → Store
unfolding choose
set_selection patch s = record s { selection = choose patch s.selection }

unfoldable pub clear_selection : Text → Store → Store
clear_selection path s = record s { selection = erase path s.selection }

unfoldable pub read_path : Store → Text → Value
read_path s path = get_by_path (obj (of_fields s.title_data)) path s.selection
