-- ===== src/Auth/SignIn.antt =====
-- What signing in gives, and how long it lasts, in bundles/notGT/src/extension/auth.ts.
use not_gt.Base.{
  ◌≡◌, ◌≢◌, refl, Text, Bool, true, false, not, none, some, List, [], ◌∷◌, find, keep, map,
  is_empty, arith, Bool-cases, Option-cases, inl, inr, ◌=t◌, =t_iff, =t_refl, includes, trim,
}
use not_gt.Base.TextLaws.{Distinct}
use not_gt.Json.{Value, undef, str}
use not_gt.Store.{Store}
use not_gt.Team.{
  StoredUser, StoredGroup, Team, Crypto, TeamEnv, save, out_exists, has_user_id, has_username,
  has_group_id, find_user, role_of,
}
use not_gt.Team.Reach.{opens, find_group, group_outs}
use not_gt.Team.Users.{verify_user, may_leave, delete_user}
use not_gt.Team.Groups.{remove_group_key}
use not_gt.Team.Groups.Laws.{IsOnly, find_group-remove_group_key}
use not_gt.Auth.{
  AllowedUser, LoginConfig, Config, Hashing, allowed_users, team_login, ws_token, matches,
  check_password, Principal, key_holder, operator, principal_outs, is_valid, Credentials,
  sign_in_key, sign_in_user, sign_in,
}

filled_name : (name : Text) → str name ≢ str [] → is_empty name ≡ false
filled_name [] n = absurd (n refl)
filled_name (c ∷ s) n = refl

allowed_is_builtin :
    (us : List AllowedUser) (u : AllowedUser) (name : Text)
    → find (λ u. u.username =t name) us ≡ some u
    → includes (map (λ u. u.username) us) name ≡ true
unfolding includes
allowed_is_builtin [] u name h = cc
allowed_is_builtin (v ∷ us) u name h = ground (arith, allowed_is_builtin us u name)

module _ (hashing : Hashing) (crypto : Crypto) (config : Config) where
  known_builtin :
      (t : Team) (name password : Text)
      → config.login.enabled ≡ true
      → is_empty name ≡ false
      → check_password hashing config.login name password ≡ true
      → is_valid config.login t (operator name) ≡ true
  unfolding check_password is_valid role_of team_login
  known_builtin t name password on filled h =
      elim (Option-cases (find (λ u. u.username =t name) (allowed_users config.login))) [
        | inl e ↦ ground (arith, e, h)
        | inr (u, e) ↦
            ground (arith, on, filled, allowed_is_builtin (allowed_users config.login) u name e)
      ]

  known_user :
      (t : Team) (name password : Text)
      → config.login.enabled ≡ true
      → is_empty name ≡ false
      → verify_user crypto t name password ≡ true
      → is_valid config.login t (operator name) ≡ true
  unfolding verify_user is_valid role_of team_login
  known_user t name password on filled h = elim (Option-cases (find_user t name)) [
    | inl e ↦ ground (arith, e, h)
    | inr (u, e) ↦ ground (arith, on, filled, e)
  ]

  found_opens :
      (key : Text) (gs : List StoredGroup) (g : StoredGroup)
      → find (opens key) gs ≡ some g
      → includes (map (λ g. g.id) gs) g.id ≡ true
  unfolding includes
  found_opens key [] g h = cc
  found_opens key (x ∷ gs) g h = ground (arith, found_opens key gs g, =t_refl g.id)

  found_group :
      (key : Text) (gs : List StoredGroup) (g : StoredGroup)
      → Distinct (map (λ g. g.id) gs)
      → find (opens key) gs ≡ some g
      → find (has_group_id g.id) gs ≡ some g
  found_group key [] g d h = cc
  found_group key (x ∷ gs) g d h = elim (Bool-cases (opens key x)) [
    | inl o ↦ ground (arith, o, h, =t_refl x.id)
    | inr o ↦
        ground (arith, o, h, d.0, found_group key gs g d.1, found_opens key gs g, =t_iff x.id g.id)
  ]

  key_valid :
      (t : Team) (presented : Value) (p : Principal)
      → sign_in_key config t presented ≡ some p
      → is_valid config.login t p ≡ true
  unfolding sign_in_key is_valid
  key_valid t (str s) p h = elim (Option-cases (find_group t (trim s))) [
    | inl e ↦ ground (arith, h, e)
    | inr (g, e) ↦ ground (arith, h, e, =t_refl g.id)
  ]
  key_valid t _ p h = ground (arith, h)

  user_valid :
      (t : Team) (username password : Value) (p : Principal)
      → p ≢ operator []
      → sign_in_user hashing crypto config t username password ≡ some p
      → is_valid config.login t p ≡ true
  unfolding sign_in_user
  user_valid t (str name) (str password) p n h = elim (Bool-cases (config.login.enabled)) [
    | inr off ↦ ground (arith, off, h)
    | inl on ↦
        let same : p ≡ operator name = ground (arith, on, h) in
        let named : str name ≢ str [] = λ e. n (ground (arith, same, e)) in
        ground (
          arith,
          on,
          h,
          known_builtin t name password on (filled_name name named),
          known_user t name password on (filled_name name named),
        )
  ]
  user_valid t _ _ p n h = ground (arith, h)

  -- Whoever a key, or the name of a user with a password, lets in is still let in when that is asked of the
  -- same team, but for a user whose name is empty.
  pub sign_in-is_valid :
      (t : Team) (c : Credentials) (p : Principal)
      → p ≢ operator []
      → sign_in hashing crypto config t c ≡ some p
      → is_valid config.login t p ≡ true
  unfolding sign_in
  sign_in-is_valid t c p n h = by_token (c.token) h
    where
      by_token :
          (v : Value)
          → sign_in hashing crypto config t (record c { token = v }) ≡ some p
          → is_valid config.login t p ≡ true
      by_token undef g = user_valid t c.username c.password p n g
      by_token v g = key_valid t v p g

  -- A key that is not the global one lets its holder reach the outs of the group that it opens, those that
  -- exist, and no others, if ids of groups are unique.
  pub sign_in_key-reach :
      (t : Team) (store : Store) (s : Text) (p : Principal)
      → matches (str s) (ws_token config) ≡ false
      → Distinct (map (λ g. g.id) t.groups)
      → sign_in_key config t (str s) ≡ some p
      → (g : StoredGroup) × (find_group t (trim s) ≡ some g)
        × (principal_outs config.login t store p ≡ some (keep (out_exists store) g.outs))
  unfolding sign_in_key principal_outs find_group group_outs
  sign_in_key-reach t store s p m d h = elim (Option-cases (find_group t (trim s))) [
    | inl e ↦ absurd (ground (arith, m, h, e))
    | inr (g, e) ↦ (g, e, ground (arith, m, h, e, found_group (trim s) t.groups g d e))
  ]

-- Once the key of a client is taken from its group the client is let in no more, if ids of groups are unique
-- and the entry that is taken is the only one that holds the key.
pub remove_group_key-is_valid :
    (login : LoginConfig) (store : Store) (env : TeamEnv) (t : Team) (key id key_id name : Text)
    → Distinct (map (λ g. g.id) t.groups)
    → IsOnly key id key_id t.groups
    → is_valid login (remove_group_key store env id key_id t).0 (key_holder key id name) ≡ false
unfolding is_valid
remove_group_key-is_valid login store env t key id key_id name d o =
    ground (arith, find_group-remove_group_key key id key_id store env t d o)

name_gone :
    (name : Text) (p : StoredUser → Bool) (us : List StoredUser)
    → includes (map (λ u. u.username) us) name ≡ false
    → find (has_username name) (keep p us) ≡ none
unfolding includes
name_gone name p [] h = refl
name_gone name p (u ∷ us) h = ground (arith, name_gone name p us)

found_name :
    (id : Text) (us : List StoredUser) (u : StoredUser)
    → find (has_user_id id) us ≡ some u
    → includes (map (λ u. u.username) us) u.username ≡ true
unfolding includes
found_name id [] u h = cc
found_name id (v ∷ us) u h = ground (arith, found_name id us u, =t_refl u.username)

user_gone :
    (id : Text) (us : List StoredUser) (u : StoredUser)
    → find (has_user_id id) us ≡ some u
    → Distinct (map (λ u. u.username) us)
    → find (has_username u.username) (keep (λ v. not (has_user_id id v)) us) ≡ none
user_gone id [] u e d = cc
user_gone id (v ∷ us) u e d = elim (Bool-cases (v.id =t id)) [
  | inl s ↦ ground (arith, s, e, name_gone u.username (λ v. not (has_user_id id v)) us, d.0)
  | inr s ↦
      ground (
        arith,
        s,
        e,
        user_gone id us u _ d.1,
        found_name id us u,
        d.0,
        =t_iff v.username u.username,
      )
]

-- Once an operator is deleted from the team the operator is let in no more, if the sign-in is on, the names
-- of users are unique, the server's own config does not name the operator, and the deletion is not refused
-- for the sake of the last administrator; the disk need not be writable.
pub delete_user-is_valid :
    (login : LoginConfig) (env : TeamEnv) (t : Team) (id : Text) (u : StoredUser)
    → login.enabled ≡ true
    → Distinct (map (λ u. u.username) t.users)
    → find (has_user_id id) t.users ≡ some u
    → includes (map (λ a. a.username) (allowed_users login)) u.username ≡ false
    → may_leave (team_login login) t u ≡ true
    → is_valid login (delete_user (team_login login) env id t).0 (operator u.username) ≡ false
unfolding is_valid role_of team_login delete_user save find_user
delete_user-is_valid login env t id u on d e b m =
    ground (arith, on, b, e, m, user_gone id t.users u e d)
