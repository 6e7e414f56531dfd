-- ===== src/Team.antt =====
-- bundles/notGT/src/extension/team.ts: who signs in, what they reach, and the keys that are nobody's own.
-- The file on disk is the state itself: `save` succeeds when the disk can be written. Passwords are hashed
-- by a library, whose functions are the parameter `Crypto`; an id or a key that is made is a parameter too.
pub mod Reach
pub mod Users
pub mod Groups
pub mod Keys
pub mod Boot
pub mod Requests
use not_gt.Base.{
  ℕ, suc, ◌+◌, Text, codes, Bool, true, false, not, ◌&&◌, ◌||◌, Option, none, some, List, [], ◌∷◌,
  ◌++◌, length, ltb, find, keep, any, map, unique, if◌then◌else◌, is_some, is_empty, get_or, ◌=t◌,
  includes, trim, Dict, lookup,
}
use not_gt.Json.{Value, undef, str, arr, items}
use not_gt.Timers.Params.{strings}
use not_gt.Store.{Store}
use not_gt.Store.Library.{get_out}

pub data TeamRole : Type 0 where
  admin member : TeamRole

pub record StoredUser : Type 0 where
  pub id : Text
  pub username : Text
  pub password : Text
  pub role : TeamRole
  pub groups : List Text
  pub created_at : ℕ
  pub default_password : Bool

pub record TeamGroupKey : Type 0 where
  pub id : Text
  pub label : Text
  pub key : Text
  pub created_at : ℕ

pub record StoredGroup : Type 0 where
  pub id : Text
  pub name : Text
  pub outs : List Text
  pub keys : List TeamGroupKey
  pub created_at : ℕ

-- `TeamFile`, and the Replicant `revision`.
pub record Team : Type 0 where
  pub users : List StoredUser
  pub groups : List StoredGroup
  pub out_keys : Dict Text
  pub ndi_key : Option Text
  pub revision : ℕ

-- The server's own config: the sign-in is on, and the administrators that it names.
pub record Login : Type 0 where
  pub enabled : Bool
  pub builtin : List Text

-- The status and the code of a request that is refused.
pub data TeamError : Type 0 where
  bad_request not_found conflict not_saved : TeamError

unfoldable pub team_error_status : TeamError → ℕ
team_error_status TeamError.bad_request = 400
team_error_status TeamError.not_found = 404
team_error_status TeamError.conflict = 409
team_error_status TeamError.not_saved = 500

pub data Outcome {ℓ} (A : Type ℓ) : Type ℓ where
  done : A → Outcome A
  refused : TeamError → Outcome A

-- `hash p` is `hashPassword(p)` with the salt of this call; `derives p salt hash` says that scrypt makes
-- the bytes that `hash` writes from the password and the bytes that `salt` writes.
pub record Crypto : Type 0 where
  pub derives : Text → Text → Text → Bool

-- What a request reads: the time, the id and the key that this call makes, the salt and the hash that
-- scrypt makes with it, and whether the disk can be written.
pub record TeamEnv : Type 0 where
  pub now : ℕ
  pub new_id : Text
  pub new_key : Text
  pub salt : Text
  pub derive : Text → Text
  pub disk : Bool

abbrev pub is_admin : TeamRole → Bool
is_admin TeamRole.admin = true
is_admin TeamRole.member = false

-- `Boolean(store.getOut(outId))`.
abbrev pub out_exists : Store → Text → Bool
out_exists store id = is_some (get_out store id)

-- `save`: what was changed in memory stays changed when the disk cannot be written.
unfoldable pub save {ℓ} : {A : Type ℓ} → TeamEnv → Team → A → Team × Outcome A
save env t a =
    if env.disk
    then (record t { revision = t.revision + 1 }, done a)
    else (t, refused TeamError.not_saved)

abbrev pub text : Value → Text
text (str s) = trim s
text _ = []

abbrev pub id_list : Value → List Text
id_list (arr vs) = unique (strings (items vs))
id_list _ = []

abbrev pub has_user_id : Text → StoredUser → Bool
has_user_id id u = u.id =t id

abbrev pub has_username : Text → StoredUser → Bool
has_username name u = u.username =t name

abbrev pub has_group_id : Text → StoredGroup → Bool
has_group_id id g = g.id =t id

unfoldable pub find_user : Team → Text → Option StoredUser
find_user t name = find (has_username name) t.users

unfoldable pub has_group : Team → Text → Bool
has_group t id = any (has_group_id id) t.groups

unfoldable pub known_groups : Team → List Text → List Text
unfolding has_group
known_groups t ids = keep (has_group t) ids

-- `!name` and a length of at most 64.
unfoldable pub valid_name : Value → Option Text
valid_name v = if is_empty (text v) || ltb 64 (length (text v)) then none else some (text v)

unfoldable pub valid_password : Value → Option Text
valid_password (str s) = if ltb (length s) 6 then none else some s
valid_password _ = none

unfoldable pub valid_role : Value → TeamRole
valid_role (str s) = if s =t codes "admin" then TeamRole.admin else TeamRole.member
valid_role _ = TeamRole.member

-- `scrypt:<salt>:<hash>`.
unfoldable pub hash_password : TeamEnv → Text → Text
hash_password env password = codes "scrypt:" ++ (env.salt ++ b':' ∷ env.derive password)

-- A name may be `null`, which is `none` and like an empty one.
unfoldable pub role_of : Login → Team → Option Text → Option TeamRole
unfolding find_user
role_of login t none = if not login.enabled then some TeamRole.admin else none
role_of login t (some name) =
    if not login.enabled
    then some TeamRole.admin
    else if is_empty name
    then none
    else if includes login.builtin name
    then some TeamRole.admin
    else elim (find_user t name) [ none ↦ none | some u ↦ some u.role ]
