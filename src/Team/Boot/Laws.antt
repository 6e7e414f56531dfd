-- ===== src/Team/Boot/Laws.antt =====
-- Somebody can manage the team: at the start of the server, and after every request to
-- bundles/notGT/src/extension/team.ts.
use not_gt.Base.{
  ◌≡◌, refl, inl, inr, Text, true, false, not, List, [], ◌∷◌, ◌++◌, keep, any, map, is_empty, arith,
  Bool-cases, includes,
}
use mathlib.Core.List.{map-append}
use not_gt.Base.TextLaws.{Distinct}
use not_gt.Base.DistinctLaws.{Distinct-snoc, Distinct-keep, includes-keep}
use not_gt.Team.{StoredUser, Team, Login, TeamEnv, has_username}
use not_gt.Team.Users.Admins.{IsManaged, has_admin}
use not_gt.Team.Users.Names.{same-IsManaged, save-users, has_admin-append}
use not_gt.Team.Boot.{default_admin, default_user, drop_default, boot}

-- The ids and the names of the users of a team, as a file holds them.
pub record IsNamed (t : Team) : Type 0 where
  pub ids : Distinct (map (λ u. u.id) t.users)
  pub names : Distinct (map (λ u. u.username) t.users)

module _ (f : StoredUser → Text) where
  includes-drop_default :
      (us : List StoredUser) (s : Text)
      → includes (map f us) s ≡ false
      → includes (map f (drop_default us)) s ≡ false
  unfolding includes drop_default
  includes-drop_default [] s h = refl
  includes-drop_default (u ∷ us) s h = ground (arith, includes-drop_default us s)

  Distinct-drop_default :
      (us : List StoredUser) → Distinct (map f us) → Distinct (map f (drop_default us))
  unfolding drop_default
  Distinct-drop_default [] d = tt
  Distinct-drop_default (u ∷ us) d =
      ground (arith, Distinct-drop_default us d.1, includes-drop_default us (f u))

absent-keep_name :
    (name : Text) (us : List StoredUser)
    → includes (map (λ u. u.username) (keep (λ u. not (has_username name u)) us)) name ≡ false
unfolding includes
absent-keep_name name [] = refl
absent-keep_name name (u ∷ us) = ground (arith, absent-keep_name name us)

-- With the sign-in on, a team whose ids and names are unique has somebody who can manage it once the
-- server has started, if the id that is made for the default administrator is new.
pub boot-IsManaged :
    (login : Login) (env : TeamEnv) (t : Team)
    → login.enabled ≡ true
    → includes (map (λ u. u.id) t.users) env.new_id ≡ false
    → IsNamed t
    → IsManaged login (boot login env t)
unfolding boot default_user
boot-IsManaged login env t on fresh n = elim (Bool-cases (is_empty login.builtin)) [
  | inr named ↦ elim (Bool-cases (any (λ u. u.default_password) t.users)) [
    | inl d ↦
        same-IsManaged login (record t { users = drop_default t.users }) _
          (ground (
            arith,
            on,
            named,
            d,
            save-users env (record t { users = drop_default t.users }) (nothing),
          ))
          (record {
            ids = Distinct-drop_default (λ u. u.id) t.users n.ids;
            names = Distinct-drop_default (λ u. u.username) t.users n.names;
            admin = ground (arith, named);
          })
    | inr d ↦
        same-IsManaged login t _ (ground (arith, on, named, d))
          (record { ids = n.ids; names = n.names; admin = ground (arith, named) })
  ]
  | inl none_named ↦ elim (Bool-cases (has_admin t.users)) [
    | inl a ↦
        same-IsManaged login t _ (ground (arith, on, none_named, a))
          (record { ids = n.ids; names = n.names; admin = ground (arith, a) })
    | inr a ↦
        same-IsManaged login (record t { users = others ++ default_user env ∷ [] }) _
          (ground (
            arith,
            on,
            none_named,
            a,
            save-users env (record t { users = others ++ default_user env ∷ [] }) (nothing),
          ))
          (record {
            ids = rw (map-append (λ u. u.id) others (default_user env ∷ [])) (
                Distinct-snoc _ env.new_id (Distinct-keep (λ u. u.id) _ t.users n.ids)
                  (includes-keep (λ u. u.id) _ t.users env.new_id fresh));
            names = rw (map-append (λ u. u.username) others (default_user env ∷ [])) (
                Distinct-snoc _ default_admin (Distinct-keep (λ u. u.username) _ t.users n.names)
                  (absent-keep_name default_admin t.users));
            admin = ground (arith, has_admin-append others (default_user env ∷ []));
          })
  ]
]
  where
    nothing : Unit {0}
    nothing = tt

    others : List StoredUser
    others = keep (λ u. not (has_username default_admin u)) t.users
