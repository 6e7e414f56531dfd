-- ===== src/Team/Groups.antt =====
-- The groups of bundles/notGT/src/extension/team.ts and the keys of the WebSocket API that they hold.
pub mod Laws
use not_gt.Base.{
  ℕ, ◌+◌, Text, codes, Bool, true, false, not, ◌&&◌, ◌||◌, Option, none, some, List, [], ◌∷◌, ◌++◌,
  length, find, keep, any, map, if◌then◌else◌, is_some, is_empty, get_or, ◌=t◌, show_nat, Dict,
}
use not_gt.Json.{Value, undef}
use not_gt.Timers.Params.{Params, param, is_defined, take}
use not_gt.Store.{Store}
use not_gt.Team.{
  StoredUser, StoredGroup, TeamGroupKey, Team, TeamError, Outcome, done, refused, TeamEnv,
  out_exists, save, text, id_list, has_group_id, valid_name,
}

-- `TeamGroupInfo`.
pub record TeamGroupInfo : Type 0 where
  pub id : Text
  pub name : Text
  pub outs : List Text
  pub keys : List TeamGroupKey

unfoldable pub public_group : Store → StoredGroup → TeamGroupInfo
public_group store g = record {
  id = g.id;
  name = g.name;
  outs = keep (out_exists store) g.outs;
  keys = g.keys;
}

abbrev known_outs : Store → Value → List Text
known_outs store v = keep (out_exists store) (id_list v)

unfoldable pub create_group : Store → TeamEnv → Params → Team → Team × Outcome TeamGroupInfo
unfolding save public_group
create_group store env input t = elim (valid_name (param input (codes "name"))) [
  | none ↦ (t, refused TeamError.bad_request)
  | some name ↦
      let g : StoredGroup = record {
        id = env.new_id;
        name = name;
        outs = known_outs store (param input (codes "outs"));
        keys = [];
        created_at = env.now;
      } in
      save env (record t { groups = t.groups ++ g ∷ [] }) (public_group store g)
]

-- A change of the first group with the id, in place.
unfoldable pub change_group :
    Text → (StoredGroup → StoredGroup) → List StoredGroup → List StoredGroup
change_group id f [] = []
change_group id f (g ∷ gs) = if g.id =t id then f g ∷ gs else g ∷ change_group id f gs

unfoldable pub on_group :
    Store
    → TeamEnv
    → Text
    → (StoredGroup → StoredGroup)
    → StoredGroup
    → Team
    → Team × Outcome TeamGroupInfo
unfolding save change_group public_group
on_group store env id f g t =
    save env (record t { groups = change_group id f t.groups }) (public_group store (f g))

abbrev with_outs : Store → Value → StoredGroup → StoredGroup
with_outs store v g = if is_defined v then record g { outs = known_outs store v } else g

unfoldable pub update_group : Store → TeamEnv → Text → Params → Team → Team × Outcome TeamGroupInfo
unfolding on_group
update_group store env id patch t = elim (find (has_group_id id) t.groups) [
  | none ↦ (t, refused TeamError.not_found)
  | some g ↦
      if is_defined (param patch (codes "name"))
      then elim (valid_name (param patch (codes "name"))) [
        | none ↦ (t, refused TeamError.bad_request)
        | some name ↦
            on_group store env id
              (λ h. with_outs store (param patch (codes "outs")) (record h { name = name })) g t
      ]
      else on_group store env id (with_outs store (param patch (codes "outs"))) g t
]

abbrev pub leave_group : Text → StoredUser → StoredUser
leave_group id u = record u { groups = keep (λ g. not (g =t id)) u.groups }

unfoldable pub delete_group : TeamEnv → Text → Team → Team × Outcome (Unit {0})
unfolding save
delete_group env id t = elim (find (has_group_id id) t.groups) [
  | none ↦ (t, refused TeamError.not_found)
  | some g ↦
      save env
        (record t {
          groups = keep (λ h. not (has_group_id id h)) t.groups;
          users = map (leave_group id) t.users;
        })
        tt
]

-- `text(label).slice(0, 64) || …`.
unfoldable pub label_of : Value → ℕ → Text
label_of v n =
    if is_empty (take 64 (text v)) then codes "Key " ++ show_nat (n + 1) else take 64 (text v)

abbrev with_key : TeamEnv → Value → StoredGroup → StoredGroup
with_key env label g = record g {
  keys =
      g.keys
      ++ record {
        id = env.new_id;
        label = label_of label (length g.keys);
        key = env.new_key;
        created_at = env.now;
      }
        ∷ [];
}

unfoldable pub add_group_key : Store → TeamEnv → Text → Value → Team → Team × Outcome TeamGroupInfo
unfolding on_group label_of
add_group_key store env id label t = elim (find (has_group_id id) t.groups) [
  | none ↦ (t, refused TeamError.not_found)
  | some g ↦ on_group store env id (with_key env label) g t
]

abbrev pub has_key_id : Text → TeamGroupKey → Bool
has_key_id id k = k.id =t id

abbrev pub without_key : Text → StoredGroup → StoredGroup
without_key key_id g = record g { keys = keep (λ k. not (has_key_id key_id k)) g.keys }

unfoldable pub remove_group_key :
    Store → TeamEnv → Text → Text → Team → Team × Outcome TeamGroupInfo
unfolding on_group
remove_group_key store env id key_id t = elim (find (has_group_id id) t.groups) [
  | none ↦ (t, refused TeamError.not_found)
  | some g ↦
      if not (any (has_key_id key_id) g.keys)
      then (t, refused TeamError.not_found)
      else on_group store env id (without_key key_id) g t
]
