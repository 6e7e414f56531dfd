-- ===== src/Team/Reach.antt =====
-- What whoever signs in works with: `outsOf`, `groupsOf`, `findGroup` and `groupOuts` of
-- bundles/notGT/src/extension/team.ts.
pub mod Laws
use not_gt.Base.{
  Text, Bool, true, false, not, ◌&&◌, ◌||◌, Option, none, some, List, [], ◌∷◌, ◌++◌, find, keep,
  any, unique, if◌then◌else◌, is_empty, ◌=t◌, includes, Dict, ltb, length,
}
use not_gt.Store.{Store}
use not_gt.Team.{
  TeamRole, StoredUser, StoredGroup, TeamGroupKey, Team, Login, is_admin, out_exists, has_username,
  has_group_id, find_user, known_groups, role_of,
}

-- `user`, when the name is given and not empty.
unfoldable pub user_of : Team → Option Text → Option StoredUser
unfolding find_user
user_of t none = none
user_of t (some name) = if is_empty name then none else find_user t name

unfoldable pub is_admin_role : Option TeamRole → Bool
is_admin_role none = false
is_admin_role (some r) = is_admin r

-- The outs of the groups that the list names, in the groups' order.
unfoldable pub group_outs_of : List Text → List StoredGroup → List Text
group_outs_of ids [] = []
group_outs_of ids (g ∷ gs) =
    let rest = group_outs_of ids gs in if includes ids g.id then g.outs ++ rest else rest

-- `"all"` is `none`.
unfoldable pub outs_of : Login → Team → Store → Option Text → Option (List Text)
unfolding group_outs_of user_of is_admin_role
outs_of login t store name =
    if is_admin_role (role_of login t name) then none else elim (user_of t name) [
      | none ↦ some []
      | some u ↦ some (keep (out_exists store) (unique (group_outs_of u.groups t.groups)))
    ]

-- `null` is `none`.
unfoldable pub groups_of : Login → Team → Option Text → Option (List Text)
unfolding user_of is_admin_role
groups_of login t name =
    if is_admin_role (role_of login t name)
    then none
    else elim (user_of t name) [ none ↦ some [] | some u ↦ some (known_groups t u.groups) ]

abbrev pub opens : Text → StoredGroup → Bool
opens key g = any (λ k. k.key =t key) g.keys

unfoldable pub find_group : Team → Text → Option StoredGroup
find_group t key = find (opens key) t.groups

unfoldable pub group_outs : Team → Store → Text → Option (List Text)
group_outs t store id = elim (find (has_group_id id) t.groups) [
  | none ↦ none
  | some g ↦ some (keep (out_exists store) g.outs)
]

unfoldable pub has_group_keys : Team → Bool
has_group_keys t = any (λ g. ltb 0 (length g.keys)) t.groups

-- The first out that has the key, if it is there.
unfoldable pub find_out_in : Store → Dict Text → Text → Option Text
find_out_in store [] key = none
find_out_in store ((out_id, value) ∷ rest) key =
    let later = find_out_in store rest key in
    if value =t key then (if out_exists store out_id then some out_id else none) else later

unfoldable pub find_out : Team → Store → Text → Option Text
unfolding find_out_in
find_out t store key = find_out_in store t.out_keys key
