-- ===== src/Store/Variables/Laws.antt =====
-- What a change of the selection selects.
use not_gt.Base.{
  ℕ, ◌≡◌, refl, Text, false, Option, none, some, List, [], ◌∷◌, map, if◌then◌else◌, arith, ◌=t◌,
  =t_iff, includes, lookup, insert, Dict, lookup-insert, lookup-erase,
}
use not_gt.Base.Int.{ℤ, pos, negsuc}
use not_gt.Base.TextLaws.{Distinct}
use not_gt.Model.{VariableSelection}
use not_gt.Store.{Store}
use not_gt.Store.Variables.{choose, set_selection, clear_selection}

-- The index that a patch gives, if it is one, or the one that there was.
abbrev pub chosen : Option ℤ → Option ℕ → Option ℕ
chosen none before = before
chosen (some (pos n)) before = some n
chosen (some (negsuc n)) before = before

abbrev pub patch_keys : Dict ℤ → List Text
patch_keys patch = map (λ e. e.0) patch

not_given :
    (path : Text) (patch : Dict ℤ)
    → includes (patch_keys patch) path ≡ false
    → lookup path patch ≡ none
unfolding lookup includes
not_given path [] h = refl
not_given path ((k, v) ∷ patch) h = ground (arith, not_given path patch)

lookup-choose :
    (patch : Dict ℤ) (next : VariableSelection) (path : Text)
    → Distinct (patch_keys patch)
    → lookup path (choose patch next) ≡ chosen (lookup path patch) (lookup path next)
unfolding lookup choose
lookup-choose [] next path d = refl
lookup-choose ((k, pos n) ∷ patch) next path d = ground (
  arith,
  lookup-choose patch (insert k n next) path d.1,
  lookup-insert k path n next,
  not_given k patch d.0,
  =t_iff k path,
)
lookup-choose ((k, negsuc n) ∷ patch) next path d =
    ground (arith, lookup-choose patch next path d.1, not_given k patch d.0, =t_iff k path)

-- After `setSelection` an array's index is the one that the patch gives for it, when that is not
-- negative, and otherwise the one that it had; a patch has each path once, as an object does.
pub lookup-set_selection :
    (patch : Dict ℤ) (s : Store) (path : Text)
    → Distinct (patch_keys patch)
    → lookup path (set_selection patch s).selection
      ≡ chosen (lookup path patch) (lookup path s.selection)
unfolding set_selection
lookup-set_selection patch s path d = lookup-choose patch s.selection path d

-- `clearSelection` takes back the index of one array and leaves the others.
pub lookup-clear_selection :
    (s : Store) (path other : Text)
    → lookup other (clear_selection path s).selection
      ≡ (if path =t other then none else lookup other s.selection)
unfolding clear_selection
lookup-clear_selection s path other = lookup-erase path other s.selection
