-- ===== src/Tests/Shows.antt =====
-- The theorems about what is on air, at one input each.
use not_gt.Base.{
  ℕ, suc, ◌+◌, ◌-◌, ◌≤◌, ◌<◌, ◌≡◌, ◌≢◌, refl, Text, codes, true, false, not, ◌&&◌, ◌||◌, none, some,
  [], ◌∷◌, length, keep, any, is_some, arith, if◌then◌else◌, ◌=t◌, lookup,
}
use not_gt.Store.{Store}
use not_gt.Store.Library.{
  has_id, get_template, TemplatePatch, patch_template, remove_template, get_out, get_item,
}
use not_gt.Store.Library.Laws.{IsUnused, remove_template-IsUnused}
use not_gt.Store.Playing.{is_playing, trigger_count}
use not_gt.Store.Program.{ShowOptions, toggle}
use not_gt.Store.Program.Laws.{on_air, on_air-toggle}
use not_gt.Scheduler.{Scheduler, key, placements, sync}
use not_gt.Scheduler.Sync.{HasIds, wanted, idle, is_playing-sync, lookup-sync}
use not_gt.Scheduler.OneShot.{hold_for, exit_for, trigger, expire, is_wanted, trigger_template}
use not_gt.Scheduler.OneShot.Laws.{trigger_once, expire-trigger}
use not_gt.Scheduler.OneShot.Template.{is_triggered, trigger_template_lem}
use not_gt.Trigger.{PlayTemplateOptions, manual, play_template_once}
use not_gt.Trigger.Laws.{asked, play_template_once_alone}
use not_gt.Json.{Value, str, arr, obj, cons, nil, field, end}
use not_gt.Base.{Dict}
use not_gt.Base.Int.{ℤ, pos}
use not_gt.Binding.{parse_path, get_by_path, materialize_selection}
use not_gt.Binding.Laws.{HasNames, get_by_path-materialize_selection}
use not_gt.Tests.{store, scheduler, main_out, placement, lower_third, bug, no_video}

abbrev rename : TemplatePatch
rename = record {
  name = some (codes "Strap");
  kind = none;
  width = none;
  height = none;
  layers = none;
  code = none;
  in_transition = none;
  out_transition = none;
  playback = none;
  created_at = none;
}

abbrev renamed_store : Store
renamed_store = record store {
  templates = lower_third ∷ record bug { name = codes "Strap"; updated_at = 9 } ∷ [];
}

patched_bug : patch_template 9 (codes "bug") rename store ≡ some renamed_store
unfolding patch_template ◌=t◌
patched_bug = refl

has_lower : any (has_id (codes "lower")) store.templates ≡ true
unfolding ◌=t◌
has_lower = refl

remove_template-IsUnused_example :
    IsUnused (codes "lower") (remove_template 9 (codes "lower") store).0
    × (((j : Text)
          → get_template (remove_template 9 (codes "lower") store).0 j
            ≡ (if codes "lower" =t j then none else get_template store j))
        × ((remove_template 9 (codes "lower") store).1 ≡ true))
remove_template-IsUnused_example = remove_template-IsUnused 9 (codes "lower") store has_lower

has_main : is_some (get_out store (codes "main")) ≡ true
unfolding get_out ◌=t◌
has_main = refl

abbrev anywhere : ShowOptions
anywhere = record { out_id = none; overrides = none; label = none }

has_template : is_some (get_template store (codes "bug")) ≡ true
unfolding get_template ◌=t◌
has_template = refl

anywhere_out : anywhere.out_id ≡ none
anywhere_out = refl

on_air-toggle_example :
    on_air (toggle 5 (codes "bug") anywhere store) (codes "bug") ≡ not (on_air store (codes "bug"))
on_air-toggle_example = on_air-toggle 5 store (codes "bug") anywhere has_template anywhere_out

store_ids : HasIds (placements store.outs)
unfolding placements
store_ids = (((refl, refl), (refl, refl)), (((refl, refl), (refl, refl)), tt))

is_playing-sync_example : is_playing (sync scheduler).store (codes "main") (codes "b") ≡ (
    wanted store (placements store.outs) (key (codes "main") (codes "b"))
    || (is_playing store (codes "main") (codes "b")
        && not (idle (lookup (key (codes "main") (codes "b")) []))))
is_playing-sync_example =
    is_playing-sync scheduler (codes "main") (codes "b") tt store_ids (refl, refl) (refl, refl)

lookup-sync_example : lookup (key (codes "main") (codes "b")) (sync scheduler).timers ≡ (
    if wanted store (placements store.outs) (key (codes "main") (codes "b"))
    then some none
    else if idle (lookup (key (codes "main") (codes "b")) scheduler.timers)
    then none
    else lookup (key (codes "main") (codes "b")) scheduler.timers)
lookup-sync_example = lookup-sync scheduler (key (codes "main") (codes "b"))

item_a : get_item store (codes "main") (codes "a") ≡ some (main_out, placement (codes "a") false)
unfolding get_item ◌=t◌
item_a = refl

item_b : get_item store (codes "main") (codes "b") ≡ some (main_out, placement (codes "b") true)
unfolding get_item ◌=t◌
item_b = refl

abbrev played : Scheduler
played = (trigger no_video 1000 (codes "main") (codes "a") none scheduler).0

trigger_once_example :
    ((o' i' : Text)
      → is_playing played.store o' i'
        ≡ (is_playing store o' i' || ((codes "main" =t o') && (codes "a" =t i'))))
    × ((trigger_count played.store (codes "main") (codes "a")
          ≡ suc (trigger_count store (codes "main") (codes "a")))
        × ((k : Text)
            → lookup k played.timers ≡ (
                if key (codes "main") (codes "a") =t k
                then some (
                    some (record {
                      at =
                          1000
                          + (hold_for no_video store (codes "main") (codes "a") none
                              - exit_for store (codes "main") (codes "a"));
                      out_id = codes "main";
                      item_id = codes "a";
                    }))
                else lookup k scheduler.timers)))
trigger_once_example =
    trigger_once no_video 1000 (codes "main") (codes "a") none scheduler main_out
      (placement (codes "a") false) item_a refl

over_by_then :
    1000
      + (hold_for no_video store (codes "main") (codes "a") none
          - exit_for store (codes "main") (codes "a"))
    ≤ 9000
unfolding hold_for exit_for get_template get_item ◌=t◌
over_by_then = omega arith

expire-trigger_example :
    ((o' i' : Text)
      → is_playing (expire 9000 (key (codes "main") (codes "a")) played).store o' i'
        ≡ (is_playing store o' i' && not ((codes "main" =t o') && (codes "a" =t i'))))
    × (lookup
          (key (codes "main") (codes "a"))
          (expire 9000 (key (codes "main") (codes "a")) played).timers
        ≡ some none)
expire-trigger_example =
    expire-trigger no_video 1000 9000 (codes "main") (codes "a") none scheduler main_out
      (placement (codes "a") false) item_a refl over_by_then

not_yet :
    5000
    < 1000
      + (hold_for no_video store (codes "main") (codes "a") none
          - exit_for store (codes "main") (codes "a"))
unfolding hold_for exit_for get_template get_item ◌=t◌
not_yet = omega arith

trigger_template_lem_example :
    ((trigger_template no_video 1000 (codes "lower") none none scheduler).1
      ≡ length (keep (is_wanted no_video (codes "lower") none) (placements store.outs)))
    × (is_playing
          (trigger_template no_video 1000 (codes "lower") none none scheduler).0.store
          (codes "main")
          (codes "a")
        ≡ (is_playing store (codes "main") (codes "a")
            || any
                (is_triggered no_video store (codes "lower") none (codes "main") (codes "a"))
                (placements store.outs)))
trigger_template_lem_example =
    trigger_template_lem no_video 1000 (codes "lower") none none scheduler (codes "main")
      (codes "a")

abbrev plain : PlayTemplateOptions
plain = record { out_id = none; hold_ms = none; overrides = none; label = none }

no_bug : asked no_video (codes "bug") plain scheduler ≡ 0
unfolding placements ◌=t◌
no_bug = refl

two_lower : asked no_video (codes "lower") plain scheduler ≢ 0
unfolding placements ◌=t◌
two_lower h = omega (arith, h)

has_lower_template : is_some (get_template store (codes "lower")) ≡ true
unfolding get_template ◌=t◌
has_lower_template = refl

play_template_once_alone_example :
    (on_air (play_template_once no_video 1000 (codes "bug") plain scheduler).0.store (codes "bug")
      ≡ true)
    × ((n : ℕ) × ((250 ≤ n)
          × ((play_template_once no_video 1000 (codes "bug") plain scheduler).1 ≡ some (manual n))))
play_template_once_alone_example =
    play_template_once_alone no_video 1000 (codes "bug") plain scheduler has_template no_bug

abbrev pick_second : Dict ℤ
pick_second = (codes "speakers", pos 1) ∷ []

-- Two speakers.
abbrev panel : Value
panel = obj (
    field (codes "speakers")
      (arr (
        cons (obj (field (codes "name") (str (codes "A")) end))
          (cons (obj (field (codes "name") (str (codes "B")) end)) nil)))
      end)

second_speaker :
    get_by_path panel (codes "speakers.name") ((codes "speakers", 1) ∷ []) ≡ str (codes "B")
unfolding get_by_path parse_path ◌=t◌ lookup
second_speaker = refl

named_path : HasNames (parse_path (codes "speakers.name"))
unfolding parse_path
named_path = tt

get_by_path-materialize_selection_example :
    (key : Text) × (get_by_path
        (materialize_selection ((codes "speakers", 1) ∷ []) [] panel)
        (codes "speakers.name")
        []
      ≡ materialize_selection
          ((codes "speakers", 1) ∷ [])
          key
          (get_by_path panel (codes "speakers.name") ((codes "speakers", 1) ∷ [])))
get_by_path-materialize_selection_example =
    get_by_path-materialize_selection panel (codes "speakers.name") ((codes "speakers", 1) ∷ []) []
      named_path
