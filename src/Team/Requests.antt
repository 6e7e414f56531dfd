-- ===== src/Team/Requests.antt =====
-- The requests to bundles/notGT/src/extension/team.ts, one after another, from the start of the server.
pub mod Managed
use not_gt.Base.{◌≡◌, Text, false, List, map, includes}
use not_gt.Json.{Value}
use not_gt.Store.{Store}
use not_gt.Timers.Params.{Params}
use not_gt.Team.{StoredUser, Team, Login, TeamEnv}
use not_gt.Team.Users.{create_user, update_user, delete_user}
use not_gt.Team.Groups.{create_group, update_group, delete_group, add_group_key, remove_group_key}
use not_gt.Team.Keys.{out_key, ndi_key, regenerate_out_key, regenerate_ndi_key}
use not_gt.Team.Boot.{boot}

-- No user has the id that the request makes.
abbrev pub IsFresh : TeamEnv → Team → Type 0
IsFresh env t = includes (map (λ u. u.id) t.users) env.new_id ≡ false

-- One request, refused or not, with whatever disk and store there are at that time.
pub data Request (login : Login) (t : Team) : Team → Type 0 where
  create_user_request :
      (env : TeamEnv) (input : Params)
      → IsFresh env t
      → Request login t (create_user login env input t).0
  update_user_request :
      (env : TeamEnv) (id : Text) (patch : Params)
      → Request login t (update_user login env id patch t).0
  delete_user_request : (env : TeamEnv) (id : Text) → Request login t (delete_user login env id t).0
  create_group_request :
      (store : Store) (env : TeamEnv) (input : Params)
      → Request login t (create_group store env input t).0
  update_group_request :
      (store : Store) (env : TeamEnv) (id : Text) (patch : Params)
      → Request login t (update_group store env id patch t).0
  delete_group_request : (env : TeamEnv) (id : Text) → Request login t (delete_group env id t).0
  add_key_request :
      (store : Store) (env : TeamEnv) (id : Text) (label : Value)
      → Request login t (add_group_key store env id label t).0
  remove_key_request :
      (store : Store) (env : TeamEnv) (id key_id : Text)
      → Request login t (remove_group_key store env id key_id t).0
  out_key_request :
      (store : Store) (env : TeamEnv) (out_id : Text)
      → Request login t (out_key login store env out_id t).0
  ndi_key_request : (env : TeamEnv) → Request login t (ndi_key login env t).0
  new_out_key_request :
      (store : Store) (env : TeamEnv) (out_id : Text)
      → Request login t (regenerate_out_key login store env out_id t).0
  new_ndi_key_request : (env : TeamEnv) → Request login t (regenerate_ndi_key login env t).0

-- The teams of a server that was started with the team of the file.
pub data Run (login : Login) (file : Team) : Team → Type 0 where
  start : (env : TeamEnv) → IsFresh env file → Run login file (boot login env file)
  next : {t u : Team} → Run login file t → Request login t u → Run login file u
