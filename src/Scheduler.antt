-- ===== src/Scheduler.antt =====
-- bundles/notGT/src/extension/scheduler.ts: which placements are on air, and until when. A timeout that
-- is set is the time at which it is due; `expire` is its callback. The `change` events of the outs and
-- the templates call `sync`, which is an operation of its own here.
pub mod Keys
pub mod Sync
pub mod OneShot
use not_gt.Base.{
  ℕ, ◌+◌, ◌-◌, min, max, Text, codes, Bool, true, false, not, ◌&&◌, Option, none, some, List, [],
  ◌∷◌, ◌++◌, map, if◌then◌else◌, is_empty, get_or, ◌==◌, leb, ◌=t◌, includes, Dict, lookup, insert,
  erase,
}
use not_gt.Base.Int.{ℤ, pos, negsuc}
use not_gt.Model.{
  OutItem, Out, TitleTemplate, PlaybackConfig, HoldMode, CodeBlock, code_exit_max_ms,
}
use not_gt.Store.{Store}
use not_gt.Store.Library.{get_template, get_item}
use not_gt.Store.Playing.{is_playing, add_playing, remove_playing, mark_trigger}

-- The timeout of a one-shot: when it is due and what it takes off air.
pub record Due : Type 0 where
  pub at : ℕ
  pub out_id : Text
  pub item_id : Text

-- `timers`: an entry is there from the first time its placement is put on air, its `hold` only while a
-- one-shot is in flight.
pub record Scheduler : Type 0 where
  pub store : Store
  pub timers : Dict (Option Due)

-- Milliseconds; a number that is not finite is `none`.
unfoldable pub clamp_duration : Option ℤ → ℕ
clamp_duration none = 4000
clamp_duration (some (pos n)) = min n 86400000
clamp_duration (some (negsuc n)) = 4000

-- `${outId}::${itemId}`.
abbrev pub key : Text → Text → Text
key out_id item_id = out_id ++ b':' ∷ b':' ∷ item_id

-- The text before the first `::`, and what follows it.
unfoldable pub before_mark : Text → Text × Option Text
before_mark [] = ([], none)
before_mark (c ∷ []) = (c ∷ [], none)
before_mark (c ∷ d ∷ t) =
    let rest = before_mark (d ∷ t) in
    if (c == b':') && (d == b':') then ([], some t) else (c ∷ rest.0, rest.1)

-- `const [outId, itemId] = key.split("::")`; a part that is missing is empty.
unfoldable pub split_key : Text → Text × Text
unfolding before_mark
split_key k = ((before_mark k).0, (before_mark (get_or (before_mark k).1 [])).0)

abbrev pub on_store : (Store → Store) → Scheduler → Scheduler
on_store f c = record c { store = f c.store }

unfoldable pub stop : Text → Scheduler → Scheduler
unfolding split_key
stop k c =
    let cleared = record c { timers = erase k c.timers } in
    if not (is_empty (split_key k).0) && not (is_empty (split_key k).1)
    then on_store (remove_playing (split_key k).0 (split_key k).1) cleared
    else cleared

unfoldable pub hold : Text → Text → Scheduler → Scheduler
hold out_id item_id c =
    let kept = record c { timers = insert (key out_id item_id) none c.timers } in
    if is_playing c.store out_id item_id
    then kept
    else on_store (λ s. mark_trigger out_id item_id (add_playing out_id item_id s)) kept

-- Every placement, out by out.
unfoldable pub placements : List Out → List (Out × OutItem)
placements [] = []
placements (o ∷ os) = map (λ i. (o, i)) o.items ++ placements os

-- A `for` loop: its body run on the elements in order.
unfoldable pub each {ℓ κ} : {A : Type ℓ} {S : Type κ} → (A → S → S) → List A → S → S
each f [] s = s
each f (x ∷ xs) s = each f xs (f x s)

abbrev pub is_held : Store → OutItem → Bool
is_held s i = elim (get_template s i.template_id) [ none ↦ false | some t ↦ i.held ]

-- The first loop of `sync`: the keys that are to be on air, and the scheduler.
unfoldable pub visit : Out × OutItem → List Text × Scheduler → List Text × Scheduler
unfolding hold
visit (o, i) (desired, c) =
    if is_held c.store i then (key o.id i.id ∷ desired, hold o.id i.id c) else (desired, c)

-- The second loop. An entry is an object, so its `hold` is the one of now.
unfoldable pub sweep : List Text → Text → Scheduler → Scheduler
unfolding stop
sweep desired k c = elim (lookup k c.timers) [
  | none ↦ c
  | some (some due) ↦ c
  | some none ↦ if not (includes desired k) then stop k c else c
]

abbrev pub keys {ℓ} : {V : Type ℓ} → Dict V → List Text
keys m = map (λ e. e.0) m

unfoldable pub sync : Scheduler → Scheduler
unfolding placements each visit sweep
sync c =
    let first = each visit (placements c.store.outs) ([], c) in
    each (sweep first.0) (keys first.1.timers) first.1

-- `outId && out.id !== outId`: an out that is not asked for.
abbrev pub skips : Option Text → Out → Bool
skips none o = false
skips (some id) o = not (is_empty id) && not (o.id =t id)

unfoldable pub stop_one : Option Text → Out × OutItem → Store → Store
stop_one out_id (o, i) s = if skips out_id o then s else remove_playing o.id i.id s

unfoldable pub stop_out : Option Text → Scheduler → Scheduler
unfolding each placements stop_one
stop_out out_id c = on_store (each (stop_one out_id) (placements c.store.outs)) c

unfoldable pub dispose : Scheduler → Scheduler
unfolding each
dispose c = each stop (keys c.timers) c
