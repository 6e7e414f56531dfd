-- ===== src/Team/Users.antt =====
-- The users of bundles/notGT/src/extension/team.ts: signing in, and making, changing and deleting one.
pub mod Admins
pub mod Names
pub mod Updates
pub mod SignIn
pub mod Held
use not_gt.Base.{
  ℕ, ◌+◌, Text, codes, Bool, true, false, not, ◌&&◌, ◌||◌, Option, none, some, List, [], ◌∷◌, ◌++◌,
  find, keep, any, map, if◌then◌else◌, is_some, is_empty, get_or, ◌=t◌, includes, split_on, Dict,
  lookup,
}
use not_gt.Json.{Value, undef, str}
use not_gt.Timers.Params.{Params, param, is_defined}
use not_gt.Team.{
  TeamRole, StoredUser, StoredGroup, Team, Login, TeamError, Outcome, done, refused, Crypto,
  TeamEnv, is_admin, save, text, id_list, has_user_id, has_username, has_group, find_user,
  known_groups, valid_name, valid_password, valid_role, hash_password,
}

-- `const [scheme, salt, hash] = stored.split(":")`.
unfoldable pub password_matches : Crypto → Text → Text → Bool
password_matches crypto password stored = matches (split_on b':' stored)
  where
    matches : List Text → Bool
    matches (scheme ∷ salt ∷ hash ∷ rest) =
        (scheme =t codes "scrypt")
        && (not (is_empty salt) && (not (is_empty hash) && crypto.derives password salt hash))
    matches _ = false

unfoldable pub verify_user : Crypto → Team → Text → Text → Bool
unfolding password_matches
verify_user crypto t username password = elim (find_user t username) [
  | none ↦ false
  | some u ↦ password_matches crypto password u.password
]

-- `TeamUserInfo`.
pub record TeamUserInfo : Type 0 where
  pub id : Text
  pub username : Text
  pub role : TeamRole
  pub groups : List Text
  pub builtin : Bool
  pub default_password : Bool

unfoldable pub public_user : Team → StoredUser → TeamUserInfo
public_user t u = record {
  id = u.id;
  username = u.username;
  role = u.role;
  groups = keep (has_group t) u.groups;
  builtin = false;
  default_password = u.default_password;
}

-- `keepAnAdministrator`: whether it lets the user go.
unfoldable pub may_leave : Login → Team → StoredUser → Bool
may_leave login t leaving =
    not (is_admin leaving.role)
    || (not (is_empty login.builtin)
        || any (λ u. is_admin u.role && not (u.id =t leaving.id)) t.users)

unfoldable pub new_user : TeamEnv → Team → Text → Text → Params → StoredUser
new_user env t username password input = record {
  id = env.new_id;
  username = username;
  password = hash_password env password;
  role = valid_role (param input (codes "role"));
  groups = known_groups t (id_list (param input (codes "groups")));
  created_at = env.now;
  default_password = false;
}

abbrev pub is_taken : Login → Team → Text → Bool
is_taken login t name = is_some (find_user t name) || includes login.builtin name

unfoldable pub add_user : TeamEnv → StoredUser → Team → Team × Outcome TeamUserInfo
unfolding save public_user
add_user env u t =
    let added = record t { users = t.users ++ u ∷ [] } in save env added (public_user added u)

unfoldable pub create_user : Login → TeamEnv → Params → Team → Team × Outcome TeamUserInfo
unfolding add_user new_user
create_user login env input t = elim (valid_name (param input (codes "username"))) [
  | none ↦ (t, refused TeamError.bad_request)
  | some name ↦
      if is_taken login t name
      then (t, refused TeamError.conflict)
      else elim (valid_password (param input (codes "password"))) [
        | none ↦ (t, refused TeamError.bad_request)
        | some password ↦ add_user env (new_user env t name password input) t
      ]
]

-- A change of the first user with the id, in place.
unfoldable pub change_user : Text → (StoredUser → StoredUser) → List StoredUser → List StoredUser
change_user id f [] = []
change_user id f (u ∷ us) = if u.id =t id then f u ∷ us else u ∷ change_user id f us

abbrev pub on_user : Text → (StoredUser → StoredUser) → Team → Team
on_user id f t = record t { users = change_user id f t.users }

-- `patch["password"] !== undefined && patch["password"] !== ""`.
abbrev pub asks_password : Value → Bool
asks_password undef = false
asks_password (str s) = not (is_empty s)
asks_password _ = true

abbrev pub with_password : TeamEnv → Text → StoredUser → StoredUser
with_password env password u = record u {
  password = hash_password env password;
  default_password = false;
}

-- The password of an update, changed in place before anything else is looked at.
unfoldable pub set_password : TeamEnv → Text → Value → Team → Option Team
unfolding change_user
set_password env id v t = if not (asks_password v) then some t else elim (valid_password v) [
  | none ↦ none
  | some password ↦ some (on_user id (with_password env password) t)
]

-- Whether `keepAnAdministrator` is asked, and refuses.
abbrev pub is_held_back : Login → Team → StoredUser → Value → Bool
is_held_back login t u v =
    is_defined v && (not (is_admin (valid_role v)) && not (may_leave login t u))

abbrev set_role : Text → Value → Team → Team
set_role id v t = if is_defined v then on_user id (λ u. record u { role = valid_role v }) t else t

abbrev set_groups : Text → Value → Team → Team
set_groups id v t =
    if is_defined v then on_user id (λ u. record u { groups = known_groups t (id_list v) }) t else t

abbrev answer_user : TeamEnv → Text → StoredUser → Team → Team × Outcome TeamUserInfo
answer_user env id u t = save env t (public_user t (get_or (find (has_user_id id) t.users) u))

-- What follows the password; `u` is the user as it was, whose role is still the stored one.
unfoldable pub finish_update :
    Login → TeamEnv → Text → Params → StoredUser → Team → Team × Outcome TeamUserInfo
unfolding change_user may_leave
finish_update login env id patch u t =
    if is_held_back login t u (param patch (codes "role"))
    then (t, refused TeamError.conflict)
    else answer_user env id u
        (set_groups id (param patch (codes "groups")) (set_role id (param patch (codes "role")) t))

unfoldable pub update_user : Login → TeamEnv → Text → Params → Team → Team × Outcome TeamUserInfo
unfolding set_password finish_update
update_user login env id patch t = elim (find (has_user_id id) t.users) [
  | none ↦ (t, refused TeamError.not_found)
  | some u ↦ elim (set_password env id (param patch (codes "password")) t) [
    | none ↦ (t, refused TeamError.bad_request)
    | some changed ↦ finish_update login env id patch u changed
  ]
]

unfoldable pub delete_user : Login → TeamEnv → Text → Team → Team × Outcome (Unit {0})
unfolding may_leave save
delete_user login env id t = elim (find (has_user_id id) t.users) [
  | none ↦ (t, refused TeamError.not_found)
  | some u ↦
      if not (may_leave login t u)
      then (t, refused TeamError.conflict)
      else save env (record t { users = keep (λ v. not (has_user_id id v)) t.users }) tt
]
