-- ===== src/Tests/Teams.antt =====
-- The theorems about who signs in and how far they reach, at one input each.
use not_gt.Base.{
  ◌≡◌, ◌↔◌, refl, Text, codes, true, false, not, ◌&&◌, ◌||◌, Option, none, some, [], ◌∷◌, keep, any,
  ◌=t◌, includes, lookup,
}
use not_gt.Json.{str}
use not_gt.Timers.Params.{Params}
use not_gt.Base.{unique, trim}
use not_gt.Team.{
  valid_name, valid_password, valid_role, TeamRole, StoredUser, StoredGroup, TeamGroupKey, Team,
  Login, TeamError, refused, Crypto, TeamEnv, out_exists, find_user, role_of,
}
use not_gt.Team.Reach.{user_of, is_admin_role, group_outs_of, outs_of, find_group}
use not_gt.Team.Reach.Laws.{gives, outs_of_member}
use not_gt.Team.Users.{
  may_leave, verify_user, create_user, update_user, delete_user, with_password, on_user,
}
use not_gt.Team.Users.Admins.{IsManaged}
use not_gt.Team.Users.SignIn.{IsHex, verify_user-create_user}
use not_gt.Team.Users.Held.{update_user_refused}
use not_gt.Team.Groups.{remove_group_key}
use not_gt.Team.Groups.Laws.{IsOnly}
use not_gt.Team.Boot.{boot}
use not_gt.Team.Requests.{Run, start, next, create_user_request}
use not_gt.Team.Requests.Managed.{Run-IsManaged}
use not_gt.Auth.{
  matches, ws_token, token, allowed_users, LoginConfig, Config, Hashing, key_holder, operator,
  principal_outs, is_valid, sign_in_key, team_login,
}
use not_gt.Auth.SignIn.{sign_in_key-reach, remove_group_key-is_valid, delete_user-is_valid}
use not_gt.Auth.Guard.{
  header, single, ApiRequest, is_cross_site, let_through, is_open, has_token, is_health,
  is_ndi_path, guard,
}
use not_gt.Auth.Guard.Laws.{has_ndi_key, guard-let_through, guard-cross_site}
use not_gt.Tests.{store}

abbrev pub red_key : TeamGroupKey
red_key = record { id = codes "e1"; label = codes "Deck"; key = codes "ws_red"; created_at = 0 }

abbrev pub red : StoredGroup
red = record {
  id = codes "red";
  name = codes "Red";
  outs = codes "main" ∷ codes "gone" ∷ [];
  keys = red_key ∷ [];
  created_at = 0;
}

abbrev pub boss : StoredUser
boss = record {
  id = codes "u1";
  username = codes "boss";
  password = codes "scrypt:ab:cd";
  role = TeamRole.admin;
  groups = [];
  created_at = 0;
  default_password = false;
}

abbrev pub vj : StoredUser
vj = record boss {
  id = codes "u2";
  username = codes "vj";
  role = TeamRole.member;
  groups = codes "red" ∷ [];
}

abbrev pub team : Team
team = record {
  users = boss ∷ vj ∷ [];
  groups = red ∷ [];
  out_keys = [];
  ndi_key = none;
  revision = 0;
}

abbrev pub team_env : TeamEnv
team_env = record {
  now = 5;
  new_id = codes "u3";
  new_key = codes "key";
  salt = codes "ab";
  derive = λ p. codes "cd";
  disk = true;
}

abbrev pub crypto : Crypto
crypto = record {
  derives = λ p s h. (p =t codes "secret") && ((s =t codes "ab") && (h =t codes "cd"));
}

abbrev pub hashing : Hashing
hashing = record { is_hash = λ a. a =t codes "sha256"; hmac = λ a s p. codes "00" }

abbrev pub login_config : LoginConfig
login_config = record {
  enabled = true;
  session_secret = codes "salt";
  local_enabled = false;
  allowed_users = [];
}

abbrev pub config : Config
config = record { api_token = some (codes "token"); ws_token = none; login = login_config }

abbrev pub login : Login
login = team_login login_config

abbrev newcomer : Params
newcomer = (codes "username", str (codes "ann")) ∷ (codes "password", str (codes "secret")) ∷ []

requested : Run login team (create_user login team_env newcomer (boot login team_env team)).0
unfolding includes ◌=t◌ boot team_login
requested = next (start team_env refl) (create_user_request team_env newcomer refl)

Run-IsManaged_example :
    IsManaged login (create_user login team_env newcomer (boot login team_env team)).0
unfolding includes ◌=t◌ team_login
Run-IsManaged_example =
    Run-IsManaged login refl (record { ids = (refl, (refl, tt)); names = (refl, (refl, tt)) })
      requested

salt-IsHex : IsHex (codes "ab")
salt-IsHex = record { filled = refl; plain = (refl, (refl, tt)) }

hash-IsHex : IsHex (codes "cd")
hash-IsHex = record { filled = refl; plain = (refl, (refl, tt)) }

verify_user-create_user_example :
    verify_user crypto (create_user login team_env newcomer team).0 (codes "ann") (codes "secret")
    ≡ crypto.derives (codes "secret") (codes "ab") (codes "cd")
unfolding valid_name valid_password lookup trim find_user includes ◌=t◌ team_login
verify_user-create_user_example =
    verify_user-create_user crypto login team_env newcomer team (codes "ann") (codes "secret")
      (codes "secret") refl refl refl salt-IsHex hash-IsHex

outs_of_member_example :
    (outs_of login team store (some (codes "vj"))
      ≡ some (keep (out_exists store) (unique (group_outs_of vj.groups team.groups))))
    × (includes
          (keep (out_exists store) (unique (group_outs_of vj.groups team.groups)))
          (codes "main")
        ≡ (out_exists store (codes "main") && any (gives vj.groups (codes "main")) team.groups))
unfolding role_of team_login find_user user_of is_admin_role includes ◌=t◌
outs_of_member_example = outs_of_member login team store (codes "vj") vj (codes "main") refl refl

abbrev demotion : Params
demotion = (codes "role", str (codes "member")) ∷ (codes "password", str (codes "secret")) ∷ []

update_user_refused_example : update_user login team_env (codes "u1") demotion team ≡ (
  on_user (codes "u1") (with_password team_env (codes "secret")) team,
  refused TeamError.conflict,
)
unfolding ◌=t◌ may_leave valid_role valid_password lookup team_login
update_user_refused_example =
    update_user_refused login team_env (codes "u1") demotion team boss (codes "secret") refl refl
      refl refl refl refl

red-IsOnly : IsOnly (codes "ws_red") (codes "red") (codes "e1") team.groups
red-IsOnly = (((λ h. (refl, refl)), tt), tt)

remove_group_key-is_valid_example :
    is_valid login_config
      (remove_group_key store team_env (codes "red") (codes "e1") team).0
      (key_holder (codes "ws_red") (codes "red") (codes "Red"))
    ≡ false
unfolding includes
remove_group_key-is_valid_example =
    remove_group_key-is_valid login_config store team_env team (codes "ws_red") (codes "red")
      (codes "e1") (codes "Red") (refl, tt) red-IsOnly

delete_user-is_valid_example :
    is_valid login_config
      (delete_user (team_login login_config) team_env (codes "u2") team).0
      (operator (codes "vj"))
    ≡ false
unfolding includes ◌=t◌ may_leave team_login allowed_users
delete_user-is_valid_example =
    delete_user-is_valid login_config team_env team (codes "u2") vj refl (refl, (refl, tt)) refl
      refl refl

sign_in_key-reach_example :
    (g : StoredGroup) × (find_group team (trim (codes "ws_red")) ≡ some g)
    × (principal_outs login_config team store
          (key_holder (codes "ws_red") (codes "red") (codes "Red"))
        ≡ some (keep (out_exists store) g.outs))
unfolding matches ws_token token trim ◌=t◌ includes sign_in_key find_group
sign_in_key-reach_example =
    sign_in_key-reach hashing crypto config team store (codes "ws_red")
      (key_holder (codes "ws_red") (codes "red") (codes "Red")) refl (refl, tt) refl

-- A page of another site.
abbrev request : ApiRequest
request = record {
  method = codes "GET";
  path = codes "/state";
  headers = (codes "sec-fetch-site", single (codes "cross-site")) ∷ [];
  query = (codes "token", str (codes "token")) ∷ [];
}

abbrev no_host : Text → Option Text
no_host origin = none

guard-let_through_example : ((guard config team_env no_host true request team).1 ≡ let_through) ↔ (
    (not (request.method =t codes "OPTIONS")
      && (is_open config
          || (is_health request
              || (has_token config request
                  || ((is_ndi_path request && has_ndi_key config team_env no_host request team)
                      || (config.login.enabled
                          && (not (is_cross_site no_host request) && true)))))))
    ≡ true)
guard-let_through_example = guard-let_through config team_env no_host true request team

guard-cross_site_example :
    guard config team_env no_host true request team
    ≡ guard config team_env no_host false request team
unfolding is_cross_site header lookup ◌=t◌
guard-cross_site_example = guard-cross_site config team_env no_host true request team refl
