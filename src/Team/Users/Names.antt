-- ===== src/Team/Users/Names.antt =====
-- The users of bundles/notGT/src/extension/team.ts after one is made, changed or deleted.
use not_gt.Base.{
  ◌≡◌, refl, inl, inr, Text, codes, false, not, ◌||◌, none, some, List, [], ◌∷◌, ◌++◌, find, keep,
  map, arith, Bool-cases, Option-cases, =t_iff, includes,
}
use mathlib.Core.List.{map-append}
use not_gt.Base.DistinctLaws.{Distinct-snoc, Distinct-keep}
use not_gt.Timers.Params.{Params, param}
use not_gt.Team.{
  StoredUser, Team, Login, TeamEnv, save, has_user_id, has_username, find_user, valid_name,
  valid_password,
}
use not_gt.Team.Users.{may_leave, new_user, is_taken, add_user, create_user, delete_user}
use not_gt.Team.Users.Admins.{IsManaged, has_admin, admin-keep_other, admin-keep_member}

pub save-users {ℓ} :
    {A : Type ℓ} (env : TeamEnv) (t : Team) (a : A) → (save env t a).0.users ≡ t.users
unfolding save
save-users env t a = ground arith

pub same-IsManaged :
    (login : Login) (t t' : Team) → t'.users ≡ t.users → IsManaged login t → IsManaged login t'
same-IsManaged login t t' e m = record {
  ids = rw e m.ids;
  names = rw e m.names;
  admin = rw e m.admin;
}

not_found-includes :
    (name : Text) (us : List StoredUser)
    → find (has_username name) us ≡ none
    → includes (map (λ u. u.username) us) name ≡ false
unfolding includes
not_found-includes name [] h = refl
not_found-includes name (u ∷ us) h = ground (arith, not_found-includes name us)

pub has_admin-append :
    (us vs : List StoredUser) → has_admin (us ++ vs) ≡ (has_admin us || has_admin vs)
has_admin-append [] vs = refl
has_admin-append (u ∷ us) vs = ground (arith, has_admin-append us vs)

snoc-IsManaged :
    (login : Login) (t : Team) (u : StoredUser)
    → includes (map (λ u. u.id) t.users) u.id ≡ false
    → includes (map (λ u. u.username) t.users) u.username ≡ false
    → IsManaged login t
    → IsManaged login (record t { users = t.users ++ u ∷ [] })
snoc-IsManaged login t u hi hn m = record {
  ids = rw (map-append (λ u. u.id) t.users (u ∷ [])) (Distinct-snoc _ u.id m.ids hi);
  names =
      rw (map-append (λ u. u.username) t.users (u ∷ [])) (Distinct-snoc _ u.username m.names hn);
  admin = ground (arith, m.admin, has_admin-append t.users (u ∷ []));
}

pub found_id :
    (id : Text) (us : List StoredUser) (u : StoredUser)
    → find (has_user_id id) us ≡ some u
    → u.id ≡ id
found_id id [] u h = cc
found_id id (v ∷ us) u h = ground (arith, found_id id us u, =t_iff v.id id)

module _ (login : Login) (env : TeamEnv) where
  -- `createUser`, with an id that no user has.
  pub create_user-IsManaged :
      (input : Params) (t : Team)
      → includes (map (λ u. u.id) t.users) env.new_id ≡ false
      → IsManaged login t
      → IsManaged login (create_user login env input t).0
  unfolding create_user new_user add_user find_user
  create_user-IsManaged input t fresh m =
      elim (Option-cases (valid_name (param input (codes "username")))) [
        | inl e ↦ same-IsManaged login t _ (ground (arith, e)) m
        | inr (name, e) ↦ elim (Bool-cases (is_taken login t name)) [
          | inl f ↦ same-IsManaged login t _ (ground (arith, e, f)) m
          | inr f ↦ elim (Option-cases (valid_password (param input (codes "password")))) [
            | inl g ↦ same-IsManaged login t _ (ground (arith, e, f, g)) m
            | inr (password, g) ↦
                let u = new_user env t name password input in
                same-IsManaged login (record t { users = t.users ++ u ∷ [] }) _
                  (ground (arith, e, f, g))
                  (snoc-IsManaged login t u fresh
                    (not_found-includes name t.users (ground (arith, f))) m)
          ]
        ]
      ]

  -- `deleteUser`.
  pub delete_user-IsManaged :
      (id : Text) (t : Team) → IsManaged login t → IsManaged login (delete_user login env id t).0
  unfolding delete_user may_leave save
  delete_user-IsManaged id t m = elim (Option-cases (find (has_user_id id) t.users)) [
    | inl e ↦ same-IsManaged login t _ (ground (arith, e)) m
    | inr (u, e) ↦ elim (Bool-cases (may_leave login t u)) [
      | inr f ↦ same-IsManaged login t _ (ground (arith, e, f)) m
      | inl f ↦
          let left = record t { users = keep (λ v. not (has_user_id id v)) t.users } in
          same-IsManaged login left _ (ground (arith, e, f)) (record {
            ids = Distinct-keep (λ u. u.id) (λ v. not (has_user_id id v)) t.users m.ids;
            names = Distinct-keep (λ u. u.username) (λ v. not (has_user_id id v)) t.users m.names;
            admin = ground (
              arith,
              f,
              m.admin,
              found_id id t.users u e,
              admin-keep_other id t.users,
              admin-keep_member id t.users u m.ids e,
            );
          })
    ]
  ]
