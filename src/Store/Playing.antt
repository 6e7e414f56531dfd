-- ===== src/Store/Playing.antt =====
-- What is on air: the `runtime` Replicant of bundles/notGT/src/extension/store.ts.
pub mod Laws
use not_gt.Base.{
  ℕ, suc, ◌+◌, Text, Bool, true, false, not, Option, none, some, List, [], ◌∷◌, ◌++◌, keep,
  if◌then◌else◌, get_or, is_empty, ◌=t◌, includes, unique, lookup, insert, erase, Dict,
}
use not_gt.Model.{RuntimeState}
use not_gt.Store.{Store}

-- `writeRuntime({ playing })` and `writeRuntime({ triggers })`.
unfoldable pub write_playing : Dict (List Text) → Store → Store
write_playing playing s = record s {
  runtime = record (s.runtime) { playing = playing; revision = s.runtime.revision + 1 };
}

unfoldable pub write_triggers : Dict ℕ → Store → Store
write_triggers triggers s = record s {
  runtime = record (s.runtime) { triggers = triggers; revision = s.runtime.revision + 1 };
}

unfoldable pub set_playing : Text → List Text → Store → Store
unfolding write_playing
set_playing out_id item_ids s =
    write_playing
      (if is_empty (unique item_ids)
        then erase out_id s.runtime.playing
        else insert out_id (unique item_ids) s.runtime.playing)
      s

-- `${outId}:${itemId}`.
abbrev pub trigger_key : Text → Text → Text
trigger_key out_id item_id = out_id ++ b':' ∷ item_id

unfoldable pub trigger_count : Store → Text → Text → ℕ
trigger_count s out_id item_id = get_or (lookup (trigger_key out_id item_id) s.runtime.triggers) 0

unfoldable pub mark_trigger : Text → Text → Store → Store
unfolding write_triggers trigger_count
mark_trigger out_id item_id s =
    write_triggers
      (insert (trigger_key out_id item_id) (trigger_count s out_id item_id + 1) s.runtime.triggers)
      s

unfoldable pub playing_for : Store → Text → List Text
playing_for s out_id = get_or (lookup out_id s.runtime.playing) []

unfoldable pub is_playing : Store → Text → Text → Bool
unfolding playing_for
is_playing s out_id item_id = includes (playing_for s out_id) item_id

unfoldable pub add_playing : Text → Text → Store → Store
unfolding set_playing playing_for
add_playing out_id item_id s =
    if includes (playing_for s out_id) item_id
    then s
    else set_playing out_id (playing_for s out_id ++ item_id ∷ []) s

unfoldable pub remove_playing : Text → Text → Store → Store
unfolding set_playing playing_for
remove_playing out_id item_id s =
    if not (includes (playing_for s out_id) item_id)
    then s
    else set_playing out_id (keep (λ id. not (id =t item_id)) (playing_for s out_id)) s
