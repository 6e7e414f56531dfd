-- ===== src/Team/Users/Updates.antt =====
-- An update of a user of bundles/notGT/src/extension/team.ts: what stays, and what a refusal leaves behind.
use not_gt.Base.{
  ◌≡◌, refl, inl, inr, Text, codes, true, false, not, ◌||◌, some, List, [], ◌∷◌, find, is_empty,
  get_or, arith, Bool-cases, Option-cases,
}
use not_gt.Json.{Value}
use not_gt.Timers.Params.{Params, param, is_defined}
use not_gt.Team.{
  StoredUser, Team, Login, TeamEnv, is_admin, id_list, has_user_id, known_groups, valid_role,
  valid_password,
}
use not_gt.Team.Users.{
  public_user, may_leave, change_user, with_password, on_user, set_password, set_role, set_groups,
  asks_password, is_held_back, finish_update, update_user,
}
use not_gt.Team.Users.Admins.{
  IsManaged, has_admin, map-change_user, admin-change_same, admin-change_admin, admin-change_other,
  admin-change_member,
}
use not_gt.Team.Users.Names.{same-IsManaged, found_id, save-users}

-- A change that leaves the id and the name.
record Keeps (g : StoredUser → StoredUser) : Type 0 where
  id : (u : StoredUser) → (g u).id ≡ u.id
  username : (u : StoredUser) → (g u).username ≡ u.username

change-IsManaged :
    (login : Login) (t : Team) (id : Text) (g : StoredUser → StoredUser)
    → Keeps g
    → (not (is_empty login.builtin) || has_admin (change_user id g t.users)) ≡ true
    → IsManaged login t
    → IsManaged login (on_user id g t)
change-IsManaged login t id g k h m = record {
  ids = rw (map-change_user (λ u. u.id) id g k.id t.users) m.ids;
  names = rw (map-change_user (λ u. u.username) id g k.username t.users) m.names;
  admin = h;
}

found-change_user :
    (id : Text) (g : StoredUser → StoredUser) (us : List StoredUser) (u : StoredUser)
    → ((u : StoredUser) → (g u).id ≡ u.id)
    → find (has_user_id id) us ≡ some u
    → find (has_user_id id) (change_user id g us) ≡ some (g u)
unfolding change_user
found-change_user id g [] u same h = cc
found-change_user id g (v ∷ us) u same h = ground (arith, same v, found-change_user id g us u same)

module _ (login : Login) (env : TeamEnv) (id : Text) where
  set_password-IsManaged :
      (v : Value) (t t' : Team) (u : StoredUser)
      → set_password env id v t ≡ some t'
      → find (has_user_id id) t.users ≡ some u
      → IsManaged login t
      → IsManaged login t'
        × ((u' : StoredUser) × (find (has_user_id id) t'.users ≡ some u') × (u'.role ≡ u.role))
  unfolding set_password
  set_password-IsManaged v t t' u h e m = elim (Bool-cases (asks_password v)) [
    | inr n ↦
        (same-IsManaged login t t' (ground (arith, h, n)) m, (u, ground (arith, h, n, e), refl))
    | inl y ↦ elim (Option-cases (valid_password v)) [
      | inl f ↦ absurd (ground (arith, h, y, f))
      | inr (p, f) ↦
          let g = with_password env p in
          (
            same-IsManaged login (on_user id g t) t' (ground (arith, h, y, f)) (
                change-IsManaged login t id g (record { id = λ u. refl; username = λ u. refl })
                  (ground (arith, m.admin, admin-change_same id g (λ u. refl) t.users)) m),
            (g u, ground (arith, h, y, f, found-change_user id g t.users u (λ u. refl) e), refl),
          )
    ]
  ]

  set_role-IsManaged :
      (v : Value) (t : Team) (u now : StoredUser)
      → find (has_user_id id) t.users ≡ some now
      → now.role ≡ u.role
      → u.id ≡ id
      → is_held_back login t u v ≡ false
      → IsManaged login t
      → IsManaged login (set_role id v t)
  unfolding may_leave
  set_role-IsManaged v t u now e r i n m = elim (Bool-cases (is_defined v)) [
    | inr f ↦ same-IsManaged login t _ (ground (arith, f)) m
    | inl f ↦
        let g = λ (u : StoredUser). record u { role = valid_role v } in
        same-IsManaged login (on_user id g t) _ (ground (arith, f)) (
          change-IsManaged login t id g (record { id = λ u. refl; username = λ u. refl })
            (elim (Bool-cases (is_admin (valid_role v))) [
              | inl a ↦ ground (arith, m.admin, admin-change_admin id g (λ u. a) t.users)
              | inr a ↦ ground (
                arith,
                m.admin,
                n,
                f,
                a,
                r,
                i,
                admin-change_other id g t.users,
                admin-change_member id g t.users now e,
              )
            ])
            m)
  ]

  set_groups-IsManaged :
      (v : Value) (t : Team) → IsManaged login t → IsManaged login (set_groups id v t)
  set_groups-IsManaged v t m = elim (Bool-cases (is_defined v)) [
    | inr f ↦ same-IsManaged login t _ (ground (arith, f)) m
    | inl f ↦
        let g = λ (u : StoredUser). record u { groups = known_groups t (id_list v) } in
        same-IsManaged login (on_user id g t) _ (ground (arith, f)) (
          change-IsManaged login t id g (record { id = λ u. refl; username = λ u. refl })
            (ground (arith, m.admin, admin-change_same id g (λ u. refl) t.users)) m)
  ]

  -- The rest of an update.
  finish_update-IsManaged :
      (patch : Params) (t : Team) (u now : StoredUser)
      → find (has_user_id id) t.users ≡ some now
      → now.role ≡ u.role
      → u.id ≡ id
      → IsManaged login t
      → IsManaged login (finish_update login env id patch u t).0
  unfolding finish_update
  finish_update-IsManaged patch t u now e r i m =
      elim (Bool-cases (is_held_back login t u (param patch (codes "role")))) [
        | inl f ↦ same-IsManaged login t _ (ground (arith, f)) m
        | inr f ↦
            let t' =
              set_groups id (param patch (codes "groups"))
                (set_role id (param patch (codes "role")) t) in
            let info = public_user t' (get_or (find (has_user_id id) t'.users) u) in
            same-IsManaged login t' _ (ground (arith, f, save-users env t' info)) (
              set_groups-IsManaged _ _
                (set_role-IsManaged (param patch (codes "role")) t u now e r i f m))
      ]

  -- `updateUser`.
  pub update_user-IsManaged :
      (patch : Params) (t : Team)
      → IsManaged login t
      → IsManaged login (update_user login env id patch t).0
  unfolding update_user
  update_user-IsManaged patch t m = elim (Option-cases (find (has_user_id id) t.users)) [
    | inl e ↦ same-IsManaged login t _ (ground (arith, e)) m
    | inr (u, e) ↦ elim (Option-cases (set_password env id (param patch (codes "password")) t)) [
      | inl f ↦ same-IsManaged login t _ (ground (arith, e, f)) m
      | inr (t', f) ↦
          let (m', (now, e', r)) =
            set_password-IsManaged (param patch (codes "password")) t t' u f e m in
          same-IsManaged login (finish_update login env id patch u t').0 _ (ground (arith, e, f))
            (finish_update-IsManaged patch t' u now e' r (found_id id t.users u e) m')
    ]
  ]
