-- ===== src/Team/Requests/Managed.antt =====
-- Who can manage the team of bundles/notGT/src/extension/team.ts while the server runs.
use not_gt.Base.{◌≡◌, refl, Text, true, List, [], ◌∷◌, find, map, arith, Option-cases, inl, inr}
use not_gt.Store.{Store}
use not_gt.Team.{StoredUser, StoredGroup, Team, Login, TeamEnv, save, has_group_id}
use not_gt.Team.Users.Admins.{IsManaged, has_admin}
use not_gt.Team.Users.Names.{same-IsManaged, create_user-IsManaged, delete_user-IsManaged}
use not_gt.Team.Users.Updates.{update_user-IsManaged}
use not_gt.Team.Groups.{
  create_group, update_group, delete_group, add_group_key, remove_group_key, on_group, leave_group,
}
use not_gt.Team.Keys.{out_key, ndi_key, regenerate_out_key, regenerate_ndi_key}
use not_gt.Team.Boot.Laws.{IsNamed, boot-IsManaged}
use not_gt.Team.Requests.{
  Request, create_user_request, update_user_request, delete_user_request, create_group_request,
  update_group_request, delete_group_request, add_key_request, remove_key_request, out_key_request,
  ndi_key_request, new_out_key_request, new_ndi_key_request, Run, start, next,
}

module _ (id : Text) where
  leave-ids :
      (us : List StoredUser) → map (λ u. u.id) (map (leave_group id) us) ≡ map (λ u. u.id) us
  leave-ids [] = refl
  leave-ids (u ∷ us) = ground (arith, leave-ids us)

  leave-names :
      (us : List StoredUser)
      → map (λ u. u.username) (map (leave_group id) us) ≡ map (λ u. u.username) us
  leave-names [] = refl
  leave-names (u ∷ us) = ground (arith, leave-names us)

  leave-admin : (us : List StoredUser) → has_admin (map (leave_group id) us) ≡ has_admin us
  leave-admin [] = refl
  leave-admin (u ∷ us) = ground (arith, leave-admin us)

module _ (login : Login) where
  delete_group-IsManaged :
      (env : TeamEnv) (id : Text) (t : Team)
      → IsManaged login t
      → IsManaged login (delete_group env id t).0
  unfolding delete_group save
  delete_group-IsManaged env id t m = elim (Option-cases (find (has_group_id id) t.groups)) [
    | inl e ↦ same-IsManaged login t _ (ground (arith, e)) m
    | inr (g, e) ↦
        same-IsManaged login (record t { users = map (leave_group id) t.users }) _
          (ground (arith, e))
          (record {
            ids = rw (leave-ids id t.users) m.ids;
            names = rw (leave-names id t.users) m.names;
            admin = ground (arith, leave-admin id t.users, m.admin);
          })
  ]

  on_group-users :
      (store : Store) (env : TeamEnv) (id : Text) (f : StoredGroup → StoredGroup) (g : StoredGroup)
      (t : Team)
      → (on_group store env id f g t).0.users ≡ t.users
  unfolding on_group save
  on_group-users store env id f g t = ground arith

  -- One request.
  Request-IsManaged : {t u : Team} → Request login t u → IsManaged login t → IsManaged login u
  unfolding create_group update_group add_group_key remove_group_key on_group out_key ndi_key
      regenerate_out_key regenerate_ndi_key save
  Request-IsManaged {t} (create_user_request env input fresh) m =
      create_user-IsManaged login env input t fresh m
  Request-IsManaged {t} (update_user_request env id patch) m =
      update_user-IsManaged login env id patch t m
  Request-IsManaged {t} (delete_user_request env id) m = delete_user-IsManaged login env id t m
  Request-IsManaged {t} (delete_group_request env id) m = delete_group-IsManaged env id t m
  Request-IsManaged {t} (create_group_request store env input) m =
      same-IsManaged login t _ (ground arith) m
  Request-IsManaged {t} (update_group_request store env id patch) m =
      same-IsManaged login t _ (ground arith) m
  Request-IsManaged {t} (add_key_request store env id label) m =
      same-IsManaged login t _ (ground arith) m
  Request-IsManaged {t} (remove_key_request store env id key_id) m =
      same-IsManaged login t _ (ground arith) m
  Request-IsManaged {t} (out_key_request store env out_id) m =
      same-IsManaged login t _ (ground arith) m
  Request-IsManaged {t} (ndi_key_request env) m = same-IsManaged login t _ (ground arith) m
  Request-IsManaged {t} (new_out_key_request store env out_id) m =
      same-IsManaged login t _ (ground arith) m
  Request-IsManaged {t} (new_ndi_key_request env) m = same-IsManaged login t _ (ground arith) m

  -- With the sign-in on, whatever requests are made, in whatever order, refused or not, and whether or not
  -- the disk can be written: from the start on somebody can manage the team, an administrator of the
  -- server's own config or a user who is one, and ids and names stay unique, if they are in the file and
  -- the ids that are made for users are new.
  pub Run-IsManaged :
      {file t : Team} → login.enabled ≡ true → IsNamed file → Run login file t → IsManaged login t
  Run-IsManaged {file} on n (start env fresh) = boot-IsManaged login env file on fresh n
  Run-IsManaged on n (next r q) = Request-IsManaged q (Run-IsManaged on n r)
