-- ===== src/Ws/Commands/Select.antt =====
-- `select` of bundles/notGT/src/extension/ws.ts: the element of a list variable that is chosen.
pub mod Laws
use not_gt.Base.{
  ℕ, zero, suc, ◌+◌, ◌-◌, ◌%◌, min, Text, codes, Bool, true, false, Option, none, some, List, [],
  ◌∷◌, length, if◌then◌else◌, get_or, lookup,
}
use not_gt.Base.Int.{ℤ, pos, negsuc, pos_part, sub_ℕ, ◌+ℤ◌}
use not_gt.Json.{Value, bool, arr, items}
use not_gt.Store.{Store}
use not_gt.Store.Data.{as_object}
use not_gt.Store.Variables.{set_selection}
use not_gt.Binding.Edit.{get_by_path_raw}
use not_gt.Timers.Params.{Params, param}
use not_gt.Ws.{CommandError, Reply, accepted, rejected, and_then, pick_number, require_string}

abbrev pub list_length : Value → ℕ
list_length (arr vs) = length (items vs)
list_length v = 0

-- `index % length`, which has the sign of the index.
abbrev pub remainder : ℤ → ℕ → ℤ
remainder (pos n) len = pos (n % len)
remainder (negsuc n) len = sub_ℕ 0 (suc n % len)

-- `((index % length) + length) % length`.
unfoldable pub wrapped : ℤ → ℕ → ℕ
wrapped i len = pos_part (remainder i len +ℤ pos len) % len

-- `Math.min(length - 1, Math.max(0, index))`.
unfoldable pub clamped : ℤ → ℕ → ℕ
clamped i len = min (len - 1) (pos_part i)

-- `params["wrap"] === false`.
abbrev pub stays : Value → Bool
stays (bool false) = true
stays v = false

-- Where a step ends; a list that is empty, or is none, has no end.
unfoldable pub step_to : Value → ℕ → ℤ → ℤ
unfolding wrapped clamped
step_to wrap zero i = i
step_to wrap (suc m) i = pos (if stays wrap then clamped i (suc m) else wrapped i (suc m))

unfoldable pub index_for : Params → Text → Store → Reply ℤ
unfolding step_to get_by_path_raw pick_number
index_for params path s = elim (pick_number (param params (codes "index"))) [
  | some i ↦ accepted i
  | none ↦ elim (pick_number (param params (codes "delta"))) [
    | none ↦ rejected CommandError.bad_request
    | some delta ↦ accepted (
        step_to (param params (codes "wrap"))
          (list_length (get_by_path_raw (as_object s.title_data) path))
          (pos (get_or (lookup path s.selection) 0) +ℤ delta))
  ]
]

unfoldable pub choose_index : Store → Text → ℤ → Reply (Store × Text × ℕ)
unfolding set_selection
choose_index s path (negsuc n) = rejected CommandError.bad_request
choose_index s path (pos n) = accepted (set_selection ((path, pos n) ∷ []) s, path, n)

unfoldable pub select_command : Params → Store → Reply (Store × Text × ℕ)
unfolding require_string index_for choose_index
select_command params s =
    and_then (require_string params (codes "path" ∷ []))
      (λ path. and_then (index_for params path s) (choose_index s path))
