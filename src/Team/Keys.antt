-- ===== src/Team/Keys.antt =====
-- The keys of the OBS links and of the NDI senders, of bundles/notGT/src/extension/team.ts.
use not_gt.Base.{Text, not, ◌||◌, Option, none, some, if◌then◌else◌, is_empty, lookup, insert}
use not_gt.Store.{Store}
use not_gt.Team.{Team, Login, TeamError, Outcome, done, refused, TeamEnv, out_exists, save}

-- A key that is there and not empty.
abbrev made : Option Text → Option Text
made none = none
made (some k) = if is_empty k then none else some k

-- Made on first use. An answer of `none` is `undefined`.
unfoldable pub out_key : Login → Store → TeamEnv → Text → Team → Team × Outcome (Option Text)
unfolding save
out_key login store env out_id t =
    if not login.enabled || not (out_exists store out_id)
    then (t, done none)
    else elim (made (lookup out_id t.out_keys)) [
      | some k ↦ (t, done (some k))
      | none ↦
          save env (record t { out_keys = insert out_id env.new_key t.out_keys }) (some env.new_key)
    ]

unfoldable pub ndi_key : Login → TeamEnv → Team → Team × Outcome (Option Text)
unfolding save
ndi_key login env t = if not login.enabled then (t, done none) else elim (made t.ndi_key) [
  | some k ↦ (t, done (some k))
  | none ↦ save env (record t { ndi_key = some env.new_key }) (some env.new_key)
]

unfoldable pub regenerate_out_key : Login → Store → TeamEnv → Text → Team → Team × Outcome Text
unfolding save
regenerate_out_key login store env out_id t =
    if not (out_exists store out_id)
    then (t, refused TeamError.not_found)
    else if not login.enabled
    then (t, refused TeamError.conflict)
    else save env (record t { out_keys = insert out_id env.new_key t.out_keys }) env.new_key

unfoldable pub regenerate_ndi_key : Login → TeamEnv → Team → Team × Outcome Text
unfolding save
regenerate_ndi_key login env t =
    if not login.enabled
    then (t, refused TeamError.conflict)
    else save env (record t { ndi_key = some env.new_key }) env.new_key
