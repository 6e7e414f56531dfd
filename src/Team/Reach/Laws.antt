-- ===== src/Team/Reach/Laws.antt =====
-- The outs that a member of groups works with, in bundles/notGT/src/extension/team.ts.
use not_gt.Base.{
  ◌≡◌, refl, Text, Bool, false, ◌&&◌, some, List, [], ◌∷◌, keep, any, arith, =t_iff, includes,
  unique,
}
use not_gt.Base.TextLaws.{includes-append, includes-unique}
use not_gt.Store.{Store}
use not_gt.Team.{StoredUser, StoredGroup, Team, Login, out_exists, role_of}
use not_gt.Team.Reach.{user_of, is_admin_role, group_outs_of, outs_of}

pub includes-keep_texts :
    (p : Text → Bool) (ss : List Text) (s : Text) → includes (keep p ss) s ≡ (p s && includes ss s)
unfolding includes
includes-keep_texts p [] s = ground arith
includes-keep_texts p (t ∷ ss) s = ground (arith, includes-keep_texts p ss s, =t_iff t s)

-- A group of the list that has the out.
abbrev pub gives : List Text → Text → StoredGroup → Bool
gives ids o g = includes ids g.id && includes g.outs o

includes-group_outs_of :
    (ids : List Text) (gs : List StoredGroup) (o : Text)
    → includes (group_outs_of ids gs) o ≡ any (gives ids o) gs
unfolding group_outs_of includes
includes-group_outs_of ids [] o = refl
includes-group_outs_of ids (g ∷ gs) o =
    ground (arith, includes-group_outs_of ids gs o, includes-append g.outs (group_outs_of ids gs) o)

-- A user who is no administrator works with exactly the outs that exist and that a group of the user has.
pub outs_of_member :
    (login : Login) (t : Team) (store : Store) (name : Text) (u : StoredUser) (o : Text)
    → is_admin_role (role_of login t (some name)) ≡ false
    → user_of t (some name) ≡ some u
    → (outs_of login t store (some name)
        ≡ some (keep (out_exists store) (unique (group_outs_of u.groups t.groups))))
      × (includes (keep (out_exists store) (unique (group_outs_of u.groups t.groups))) o
          ≡ (out_exists store o && any (gives u.groups o) t.groups))
unfolding outs_of
outs_of_member login t store name u o h e = (
  ground (arith, h, e),
  ground (
    arith,
    includes-keep_texts (out_exists store) (unique (group_outs_of u.groups t.groups)) o,
    includes-unique (group_outs_of u.groups t.groups) o,
    includes-group_outs_of u.groups t.groups o,
  ),
)
