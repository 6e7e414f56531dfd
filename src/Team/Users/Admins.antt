-- ===== src/Team/Users/Admins.antt =====
-- The users of bundles/notGT/src/extension/team.ts as a whole: ids, names, and who can manage the team.
use not_gt.Base.{
  ◌≡◌, refl, Text, Bool, true, false, not, ◌&&◌, ◌||◌, some, List, [], ◌∷◌, find, keep, any, map,
  is_empty, arith, ◌=t◌, =t_iff, includes,
}
use not_gt.Base.TextLaws.{Distinct}
use not_gt.Team.{StoredUser, Team, Login, is_admin, has_user_id}
use not_gt.Team.Users.{change_user}

abbrev pub has_admin : List StoredUser → Bool
has_admin us = any (λ u. is_admin u.role) us

-- Ids and names are unique, and somebody can manage the team: an administrator of the server's own config,
-- or a user.
pub record IsManaged (login : Login) (t : Team) : Type 0 where
  pub ids : Distinct (map (λ u. u.id) t.users)
  pub names : Distinct (map (λ u. u.username) t.users)
  pub admin : (not (is_empty login.builtin) || has_admin t.users) ≡ true

abbrev other_admin : Text → List StoredUser → Bool
other_admin id us = any (λ u. is_admin u.role && not (u.id =t id)) us

module _ (f : StoredUser → Text) (id : Text) (g : StoredUser → StoredUser)
    (same : (u : StoredUser) → f (g u) ≡ f u) where
  pub map-change_user : (us : List StoredUser) → map f (change_user id g us) ≡ map f us
  unfolding change_user
  map-change_user [] = refl
  map-change_user (u ∷ us) = ground (arith, same u, map-change_user us)

module _ (id : Text) (g : StoredUser → StoredUser) where
  pub admin-change_same :
      ((u : StoredUser) → (g u).role ≡ u.role)
      → (us : List StoredUser) → has_admin (change_user id g us) ≡ has_admin us
  unfolding change_user
  admin-change_same same [] = refl
  admin-change_same same (u ∷ us) = ground (arith, same u, admin-change_same same us)

  pub admin-change_admin :
      ((u : StoredUser) → is_admin (g u).role ≡ true)
      → (us : List StoredUser) → has_admin us ≡ true
      → has_admin (change_user id g us) ≡ true
  unfolding change_user
  admin-change_admin fine [] h = h
  admin-change_admin fine (u ∷ us) h = ground (arith, fine u, admin-change_admin fine us)

  pub admin-change_other :
      (us : List StoredUser) → other_admin id us ≡ true → has_admin (change_user id g us) ≡ true
  unfolding change_user
  admin-change_other [] h = cc
  admin-change_other (u ∷ us) h = ground (arith, admin-change_other us, other-has us)
    where
      other-has : (us : List StoredUser) → other_admin id us ≡ true → has_admin us ≡ true
      other-has [] h = cc
      other-has (u ∷ us) h = ground (arith, other-has us)

pub admin-keep_other :
    (id : Text) (us : List StoredUser)
    → other_admin id us ≡ true
    → has_admin (keep (λ v. not (has_user_id id v)) us) ≡ true
admin-keep_other id [] h = cc
admin-keep_other id (u ∷ us) h = ground (arith, admin-keep_other id us)

-- A change of somebody who is no administrator, when the new role is none either.
pub admin-change_member :
    (id : Text) (g : StoredUser → StoredUser) (us : List StoredUser) (u : StoredUser)
    → find (has_user_id id) us ≡ some u
    → is_admin u.role ≡ false
    → has_admin us ≡ true
    → has_admin (change_user id g us) ≡ true
unfolding change_user
admin-change_member id g [] u e m h = cc
admin-change_member id g (v ∷ us) u e m h = ground (arith, admin-change_member id g us u)

absent-keep :
    (id : Text) (us : List StoredUser)
    → includes (map (λ u. u.id) us) id ≡ false
    → has_admin (keep (λ v. not (has_user_id id v)) us) ≡ has_admin us
unfolding includes
absent-keep id [] h = refl
absent-keep id (u ∷ us) h = ground (arith, absent-keep id us)

pub admin-keep_member :
    (id : Text) (us : List StoredUser) (u : StoredUser)
    → Distinct (map (λ u. u.id) us)
    → find (has_user_id id) us ≡ some u
    → is_admin u.role ≡ false
    → has_admin us ≡ true
    → has_admin (keep (λ v. not (has_user_id id v)) us) ≡ true
admin-keep_member id [] u d e m h = cc
admin-keep_member id (v ∷ us) u d e m h =
    ground (arith, admin-keep_member id us u d.1, absent-keep id us, =t_iff v.id id)
