-- ===== src/Team/Users/Held.antt =====
-- What an update leaves behind when bundles/notGT/src/extension/team.ts refuses it.
use not_gt.Base.{
  ◌≡◌, refl, Text, codes, true, false, not, ◌&&◌, some, List, [], ◌∷◌, find, any, arith, ◌=t◌,
}
use not_gt.Timers.Params.{Params, param, is_defined}
use not_gt.Team.{
  StoredUser, Team, Login, TeamError, refused, TeamEnv, is_admin, has_user_id, valid_role,
  valid_password,
}
use not_gt.Team.Users.{
  may_leave, change_user, asks_password, with_password, on_user, set_password, finish_update,
  update_user,
}

others-with_password :
    (env : TeamEnv) (password id other : Text) (us : List StoredUser)
    → any
        (λ v. is_admin v.role && not (v.id =t other))
        (change_user id (with_password env password) us)
      ≡ any (λ v. is_admin v.role && not (v.id =t other)) us
unfolding change_user
others-with_password env password id other [] = refl
others-with_password env password id other (u ∷ us) =
    ground (arith, others-with_password env password id other us)

-- An update that would make the only administrator a member is refused as a conflict, and yet the password
-- that it brings, if it is valid, is the user's password from then on.
pub update_user_refused :
    (login : Login) (env : TeamEnv) (id : Text) (patch : Params) (t : Team) (u : StoredUser)
    (password : Text)
    → find (has_user_id id) t.users ≡ some u
    → may_leave login t u ≡ false
    → is_defined (param patch (codes "role")) ≡ true
    → is_admin (valid_role (param patch (codes "role"))) ≡ false
    → asks_password (param patch (codes "password")) ≡ true
    → valid_password (param patch (codes "password")) ≡ some password
    → update_user login env id patch t
      ≡ (on_user id (with_password env password) t, refused TeamError.conflict)
unfolding update_user set_password finish_update may_leave
update_user_refused login env id patch t u password e m r a p v =
    ground (arith, e, m, r, a, p, v, others-with_password env password id u.id t.users)
