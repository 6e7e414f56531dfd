-- ===== src/Team/Groups/Laws.antt =====
-- A key of a group that is revoked, in bundles/notGT/src/extension/team.ts.
use not_gt.Base.{
  ◌≡◌, refl, Text, true, false, not, none, some, List, [], ◌∷◌, find, keep, any, map, arith, All,
  Bool-cases, Option-cases, inl, inr, ◌=t◌, =t_iff, includes,
}
use not_gt.Base.TextLaws.{Distinct}
use not_gt.Store.{Store}
use not_gt.Team.{StoredGroup, TeamGroupKey, Team, TeamEnv, save, has_group_id}
use not_gt.Team.Reach.{opens, find_group}
use not_gt.Team.Groups.{change_group, on_group, has_key_id, without_key, remove_group_key}

-- Only one entry of one group may hold the key.
module _ (key id key_id : Text) where
  abbrev pub IsOwn : StoredGroup → TeamGroupKey → Type 0
  IsOwn g k = (k.key =t key) ≡ true → (g.id ≡ id) × (k.id ≡ key_id)

  abbrev pub IsOnly : List StoredGroup → Type 0
  IsOnly gs = All (λ g. All (IsOwn g) g.keys) gs

  closed_elsewhere :
      (g : StoredGroup) (ks : List TeamGroupKey)
      → (g.id =t id) ≡ false
      → All (IsOwn g) ks
      → any (λ k. k.key =t key) ks ≡ false
  closed_elsewhere g [] h o = refl
  closed_elsewhere g (k ∷ ks) h o = ground (arith, closed_elsewhere g ks h o.1, o.0, =t_iff g.id id)

  closed_without :
      (g : StoredGroup) (ks : List TeamGroupKey)
      → All (IsOwn g) ks
      → any (λ k. k.key =t key) (keep (λ k. not (has_key_id key_id k)) ks) ≡ false
  closed_without g [] o = refl
  closed_without g (k ∷ ks) o = ground (arith, closed_without g ks o.1, o.0, =t_iff k.id key_id)

  closed_unheld :
      (g : StoredGroup) (ks : List TeamGroupKey)
      → any (has_key_id key_id) ks ≡ false
      → All (IsOwn g) ks
      → any (λ k. k.key =t key) ks ≡ false
  closed_unheld g [] h o = refl
  closed_unheld g (k ∷ ks) h o = ground (arith, closed_unheld g ks _ o.1, o.0, =t_iff k.id key_id)

  absent :
      (gs : List StoredGroup)
      → includes (map (λ g. g.id) gs) id ≡ false
      → IsOnly gs
      → find (opens key) gs ≡ none
  unfolding includes
  absent [] h o = refl
  absent (g ∷ gs) h o = ground (arith, absent gs _ o.1, closed_elsewhere g g.keys _ o.0)

  unheld :
      (gs : List StoredGroup) (g : StoredGroup)
      → find (has_group_id id) gs ≡ some g
      → any (has_key_id key_id) g.keys ≡ false
      → Distinct (map (λ g. g.id) gs)
      → IsOnly gs
      → find (opens key) gs ≡ none
  unheld [] g e h d o = cc
  unheld (x ∷ gs) g e h d o = elim (Bool-cases (x.id =t id)) [
    | inl s ↦
        ground (arith, s, e, d.0, o.0, =t_iff x.id id, closed_unheld x x.keys, absent gs _ o.1)
    | inr s ↦ ground (arith, s, e, unheld gs g _ h d.1 o.1, closed_elsewhere x x.keys s o.0)
  ]

  taken :
      (gs : List StoredGroup)
      → Distinct (map (λ g. g.id) gs)
      → IsOnly gs
      → find (opens key) (change_group id (without_key key_id) gs) ≡ none
  unfolding change_group
  taken [] d o = refl
  taken (x ∷ gs) d o = elim (Bool-cases (x.id =t id)) [
    | inl s ↦ ground (arith, s, d.0, =t_iff x.id id, closed_without x x.keys o.0, absent gs _ o.1)
    | inr s ↦ ground (arith, s, taken gs d.1 o.1, closed_elsewhere x x.keys s o.0)
  ]

  unnamed :
      (gs : List StoredGroup)
      → find (has_group_id id) gs ≡ none
      → includes (map (λ g. g.id) gs) id ≡ false
  unfolding includes
  unnamed [] h = refl
  unnamed (g ∷ gs) h = ground (arith, unnamed gs)

  -- After `removeGroupKey`, whatever it answers and whether or not the disk can be written, no group opens
  -- to the key, if ids of groups are unique and only the entry that was asked for could hold the key.
  pub find_group-remove_group_key :
      (store : Store) (env : TeamEnv) (t : Team)
      → Distinct (map (λ g. g.id) t.groups)
      → IsOnly t.groups
      → find_group (remove_group_key store env id key_id t).0 key ≡ none
  unfolding find_group remove_group_key on_group save
  find_group-remove_group_key store env t d o =
      elim (Option-cases (find (has_group_id id) t.groups)) [
        | inl e ↦ ground (arith, e, absent t.groups (unnamed t.groups e) o)
        | inr (g, e) ↦ elim (Bool-cases (any (has_key_id key_id) g.keys)) [
          | inl h ↦ ground (arith, e, h, taken t.groups d o)
          | inr h ↦ ground (arith, e, h, unheld t.groups g e h d o)
        ]
      ]
