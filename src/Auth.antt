-- ===== src/Auth.antt =====
-- bundles/notGT/src/extension/auth.ts: who may drive the show from outside the dashboard. The methods of
-- `Access` are functions of the configuration and of the team. The hash functions of Node are the
-- parameter `Hashing`.
pub mod SignIn
pub mod Guard
use not_gt.Base.{
  ℕ, zero, suc, Text, codes, Bool, true, false, not, ◌&&◌, ◌||◌, Option, none, some, List, [], ◌∷◌,
  ◌==◌, if◌then◌else◌, is_empty, get_or, ◌=t◌, find, map, trim, any,
}
use not_gt.Json.{Value, undef, str}
use not_gt.Store.{Store}
use not_gt.Team.{
  TeamRole, StoredGroup, Team, Login, Outcome, done, refused, Crypto, TeamEnv, role_of,
}
use not_gt.Team.Reach.{outs_of, groups_of, find_group, group_outs, has_group_keys}
use not_gt.Team.Users.{verify_user}
use not_gt.Team.Keys.{ndi_key}

pub record AllowedUser : Type 0 where
  pub username : Text
  pub password : Text

-- `login` in `cfg/nodecg.json`; a setting that is missing is empty.
pub record LoginConfig : Type 0 where
  pub enabled : Bool
  pub session_secret : Text
  pub local_enabled : Bool
  pub allowed_users : List AllowedUser

-- `apiToken` and `wsToken` of the bundle's config, and the login.
pub record Config : Type 0 where
  pub api_token : Option Text
  pub ws_token : Option Text
  pub login : LoginConfig

-- `getHashes`, and `createHmac(algorithm, secret).update(password, "utf8").digest("hex")`.
pub record Hashing : Type 0 where
  pub is_hash : Text → Bool
  pub hmac : Text → Text → Text → Text

unfoldable pub allowed_users : LoginConfig → List AllowedUser
allowed_users login = if login.enabled && login.local_enabled then login.allowed_users else []

-- The login as the team knows it.
unfoldable pub team_login : LoginConfig → Login
unfolding allowed_users
team_login login = record {
  enabled = login.enabled;
  builtin = map (λ u. u.username) (allowed_users login);
}

unfoldable pub token : Config → Text
token config = trim (get_or config.api_token [])

unfoldable pub ws_token : Config → Text
unfolding token
ws_token config =
    if is_empty (trim (get_or config.ws_token []))
    then token config
    else trim (get_or config.ws_token [])

unfoldable pub matches : Value → Text → Bool
matches (str s) secret = not (is_empty secret) && (trim s =t secret)
matches _ secret = false

-- The characters that `.` does not stand for.
abbrev is_line_end : ℕ → Bool
is_line_end c = (c == 10) || ((c == 13) || ((c == 0x2028) || (c == 0x2029)))

abbrev cons_first : ℕ → Option (Text × Text) → Option (Text × Text)
cons_first c none = none
cons_first c (some (a, b)) = some (c ∷ a, b)

-- The texts before and after the first `:`.
unfoldable at_colon : Text → Option (Text × Text)
at_colon [] = none
at_colon (c ∷ s) = let rest = at_colon s in if c == b':' then some ([], s) else cons_first c rest

-- `/^([^:]+):(.+)$/`.
unfoldable pub hashed_parts : Text → Option (Text × Text)
unfolding at_colon
hashed_parts s = elim (at_colon s) [
  | none ↦ none
  | some (a, b) ↦ if is_empty a || (is_empty b || any is_line_end b) then none else some (a, b)
]

unfoldable pub password_is : Hashing → Text → Text → Text → Bool
unfolding hashed_parts
password_is hashing secret password stored = elim (hashed_parts stored) [
  | none ↦ password =t stored
  | some (algorithm, hash) ↦
      if hashing.is_hash algorithm
      then hashing.hmac algorithm secret password =t hash
      else password =t stored
]

-- A username and a password that are both texts.
unfoldable pub check_password : Hashing → LoginConfig → Text → Text → Bool
unfolding allowed_users password_is
check_password hashing login username password =
    elim (find (λ u. u.username =t username) (allowed_users login)) [
      | none ↦ false
      | some u ↦ password_is hashing login.session_secret password u.password
    ]

abbrev is_filled : Value → Bool
is_filled (str s) = not (is_empty s)
is_filled _ = false

-- `team.ndiKey()` may make the key; a key that cannot be saved is nobody's.
unfoldable pub check_ndi_key : Config → TeamEnv → Value → Team → Team × Bool
unfolding team_login ndi_key matches
check_ndi_key config env provided t =
    let asked = ndi_key (team_login config.login) env t in
    if is_filled provided then (asked.0, answer asked.1) else (t, false)
  where
    answer : Outcome (Option Text) → Bool
    answer (refused e) = false
    answer (done none) = false
    answer (done (some key)) = matches provided key

unfoldable pub ws_has_token : Config → Team → Bool
unfolding ws_token has_group_keys
ws_has_token config t = not (is_empty (ws_token config)) || has_group_keys t

unfoldable pub ws_open : Config → Team → Bool
unfolding ws_token has_group_keys
ws_open config t =
    is_empty (ws_token config) && (not config.login.enabled && not (has_group_keys t))

-- `EVERYTHING`, the holder of the key of a group, and an operator.
pub data Principal : Type 0 where
  everything : Principal
  key_holder : (key group_id name : Text) → Principal
  operator : Text → Principal

-- How far a principal reaches, in the team of now; `null` is `none`.
unfoldable pub principal_outs : LoginConfig → Team → Store → Principal → Option (List Text)
unfolding group_outs outs_of team_login
principal_outs login t store everything = none
principal_outs login t store (key_holder key id name) = some (get_or (group_outs t store id) [])
principal_outs login t store (operator name) = outs_of (team_login login) t store (some name)

unfoldable pub principal_groups : LoginConfig → Team → Principal → Option (List Text)
unfolding groups_of team_login
principal_groups login t everything = none
principal_groups login t (key_holder key id name) = some (id ∷ [])
principal_groups login t (operator name) = groups_of (team_login login) t (some name)

unfoldable pub is_valid : LoginConfig → Team → Principal → Bool
unfolding find_group role_of team_login
is_valid login t everything = true
is_valid login t (key_holder key id name) = elim (find_group t key) [
  | none ↦ false
  | some g ↦ g.id =t id
]
is_valid login t (operator name) = elim (role_of (team_login login) t (some name)) [
  | none ↦ false
  | some r ↦ true
]

pub record Credentials : Type 0 where
  pub token : Value
  pub username : Value
  pub password : Value

abbrev presented_key : Value → Text
presented_key (str s) = trim s
presented_key _ = []

unfoldable pub sign_in_key : Config → Team → Value → Option Principal
unfolding ws_token matches find_group
sign_in_key config t presented =
    if matches presented (ws_token config)
    then some everything
    else if is_empty (presented_key presented)
    then none
    else elim (find_group t (presented_key presented)) [
      | none ↦ none
      | some g ↦ some (key_holder (presented_key presented) g.id g.name)
    ]

unfoldable pub sign_in_user : Hashing → Crypto → Config → Team → Value → Value → Option Principal
unfolding check_password verify_user
sign_in_user hashing crypto config t (str username) (str password) =
    if config.login.enabled
      && (check_password hashing config.login username password
          || verify_user crypto t username password)
    then some (operator username)
    else none
sign_in_user hashing crypto config t _ _ = none

unfoldable pub sign_in : Hashing → Crypto → Config → Team → Credentials → Option Principal
unfolding sign_in_key sign_in_user
sign_in hashing crypto config t c = presented (c.token)
  where
    presented : Value → Option Principal
    presented undef = sign_in_user hashing crypto config t c.username c.password
    presented v = sign_in_key config t v
