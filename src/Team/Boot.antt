-- ===== src/Team/Boot.antt =====
-- The team at the start of the server, in bundles/notGT/src/extension/team.ts: the default administrator.
pub mod Laws
use not_gt.Base.{
  ℕ, ◌+◌, Text, codes, Bool, true, false, not, ◌&&◌, Option, none, some, List, [], ◌∷◌, ◌++◌, find,
  keep, any, if◌then◌else◌, is_some, is_empty, ◌=t◌,
}
use not_gt.Team.{
  TeamRole, StoredUser, Team, Login, Outcome, TeamEnv, is_admin, save, has_username, hash_password,
}

-- `DEFAULT_ADMIN`.
abbrev pub default_admin : Text
default_admin = codes "admin"

unfoldable pub default_user : TeamEnv → StoredUser
default_user env = record {
  id = env.new_id;
  username = default_admin;
  password = hash_password env default_admin;
  role = TeamRole.admin;
  groups = [];
  created_at = env.now;
  default_password = true;
}

-- `data.users.filter((user) => user !== untouched)`: the first user with a default password goes.
unfoldable pub drop_default : List StoredUser → List StoredUser
drop_default [] = []
drop_default (u ∷ us) = if u.default_password then us else u ∷ drop_default us

abbrev saved : TeamEnv → Team → Team
saved env t = let nothing : Unit {0} = tt in (save env t nothing).0

unfoldable pub boot : Login → TeamEnv → Team → Team
unfolding drop_default default_user save
boot login env t =
    if not login.enabled
    then t
    else if not (is_empty login.builtin)
    then (if any (λ u. u.default_password) t.users
        then saved env (record t { users = drop_default t.users })
        else t)
    else if any (λ u. is_admin u.role) t.users
    then t
    else saved env (record t {
      users = keep (λ u. not (has_username default_admin u)) t.users ++ default_user env ∷ [];
    })

-- `defaultSignIn`: whether the default name and password are given out.
unfoldable pub default_sign_in : Login → Team → Bool
default_sign_in login t = login.enabled && any (λ u. u.default_password) t.users
