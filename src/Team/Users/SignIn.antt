-- ===== src/Team/Users/SignIn.antt =====
-- Signing in with the password that a user was given, in bundles/notGT/src/extension/team.ts.
use not_gt.Base.{
  ◌≡◌, refl, Text, codes, false, none, some, List, [], ◌∷◌, ◌++◌, find, is_empty, arith, All, ◌=t◌,
  =t_refl, split_on, ◌==◌,
}
use not_gt.Base.TextLaws.{split_on_one, split_on-append}
use not_gt.Timers.Params.{Params, param}
use not_gt.Team.{
  StoredUser, Team, Login, Crypto, TeamEnv, save, has_username, find_user, valid_name,
  valid_password, hash_password,
}
use not_gt.Team.Users.{password_matches, verify_user, new_user, is_taken, add_user, create_user}

-- Hexadecimal: some digits, and no `:`.
pub record IsHex (s : Text) : Type 0 where
  pub filled : is_empty s ≡ false
  pub plain : All (λ d. (d == b':') ≡ false) s

-- What `hashPassword` writes is checked by the salt and the hash in it.
password_matches-hash_password :
    (crypto : Crypto) (env : TeamEnv) (given stored : Text)
    → IsHex env.salt
    → IsHex (env.derive stored)
    → password_matches crypto given (hash_password env stored)
      ≡ crypto.derives given env.salt (env.derive stored)
unfolding password_matches hash_password split_on ◌=t◌
password_matches-hash_password crypto env given stored s h =
    rw
      (
        split_on-append b':' env.salt (env.derive stored) s.plain,
        split_on_one b':' (env.derive stored) h.plain,
        s.filled,
        h.filled,
      )
      refl

find-snoc :
    (name : Text) (us : List StoredUser) (u : StoredUser)
    → find (has_username name) us ≡ none
    → u.username ≡ name
    → find (has_username name) (us ++ u ∷ []) ≡ some u
find-snoc name [] u h e = ground (arith, e, =t_refl name)
find-snoc name (v ∷ us) u h e = ground (arith, find-snoc name us u)

-- A user that is made with a valid name, which is not taken, and a valid password signs in with a password
-- exactly when scrypt makes the stored hash from it and from the stored salt, both hexadecimal.
pub verify_user-create_user :
    (crypto : Crypto) (login : Login) (env : TeamEnv) (input : Params) (t : Team)
    (name password given : Text)
    → valid_name (param input (codes "username")) ≡ some name
    → valid_password (param input (codes "password")) ≡ some password
    → is_taken login t name ≡ false
    → IsHex env.salt
    → IsHex (env.derive password)
    → verify_user crypto (create_user login env input t).0 name given
      ≡ crypto.derives given env.salt (env.derive password)
unfolding verify_user create_user add_user save find_user new_user
verify_user-create_user crypto login env input t name password given n p free s h = ground (
  arith,
  n,
  p,
  free,
  find-snoc name t.users (new_user env t name password input),
  password_matches-hash_password crypto env given password s h,
)
