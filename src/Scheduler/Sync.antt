-- ===== src/Scheduler/Sync.antt =====
-- What `sync` of scheduler.ts leaves on air, and which entries it leaves.
use not_gt.Base.{
  ◌≡◌, refl, Text, Bool, true, false, not, ◌&&◌, ◌||◌, Option, none, some, List, [], ◌∷◌, any, All,
  if◌then◌else◌, arith, inl, inr, Bool-cases, ◌=t◌, =t_iff, includes, lookup, lookup-insert,
  lookup-erase,
}
use not_gt.Model.{OutItem, Out}
use not_gt.Store.{Store}
use not_gt.Store.Library.{get_template}
use not_gt.Store.Playing.{is_playing, add_playing, mark_trigger, write_triggers, playing_for}
use not_gt.Store.Playing.Laws.{
  is_playing-add_playing, is_playing-remove_playing, add_playing-config,
}
use not_gt.Scheduler.{
  Due, Scheduler, key, stop, hold, placements, each, is_held, visit, sweep, keys, sync,
}
use not_gt.Scheduler.Keys.{
  IsId, IsKey, split_key-key, key_injective, includes-keys, insert-keys, erase-keys,
}

abbrev pub HasIds : List (Out × OutItem) → Type 0
HasIds ps = All (λ p. IsId p.0.id × IsId p.1.id) ps

abbrev pub HasKeys : Scheduler → Type 0
HasKeys c = All IsKey (keys c.timers)

-- The key of a placement that is held and has its template.
abbrev pub wanted : Store → List (Out × OutItem) → Text → Bool
wanted s ps k = any (λ p. is_held s p.1 && (key p.0.id p.1.id =t k)) ps

hold-lookup :
    (o i k : Text) (c : Scheduler)
    → lookup k (hold o i c).timers ≡ (if key o i =t k then some none else lookup k c.timers)
unfolding hold
hold-lookup o i k c = ground (arith, lookup-insert (key o i) k none c.timers)

mark_trigger-rest :
    (o i o' i' : Text) (s : Store)
    → (is_playing (mark_trigger o i s) o' i' ≡ is_playing s o' i')
      × ((mark_trigger o i s).templates ≡ s.templates)
      × ((mark_trigger o i s).outs ≡ s.outs)
unfolding mark_trigger write_triggers is_playing playing_for
mark_trigger-rest o i o' i' s = (refl, refl, refl)

hold-is_playing :
    (o i o' i' : Text) (c : Scheduler)
    → is_playing (hold o i c).store o' i' ≡ (is_playing c.store o' i' || ((o =t o') && (i =t i')))
unfolding hold
hold-is_playing o i o' i' c = ground (
  arith,
  is_playing-add_playing c.store o i o' i',
  mark_trigger-rest o i o' i' (add_playing o i c.store),
  =t_iff o o',
  =t_iff i i',
)

hold-config :
    (o i : Text) (c : Scheduler)
    → ((hold o i c).store.templates ≡ c.store.templates) × ((hold o i c).store.outs ≡ c.store.outs)
unfolding hold
hold-config o i c =
    ground
      (arith, add_playing-config c.store o i, mark_trigger-rest o i o i (add_playing o i c.store))

same_held : (s s' : Store) (i : OutItem) → s'.templates ≡ s.templates → is_held s' i ≡ is_held s i
unfolding get_template
same_held s s' i h = ground (arith, h)

same_wanted :
    (s s' : Store) (ps : List (Out × OutItem)) (k : Text)
    → s'.templates ≡ s.templates
    → wanted s' ps k ≡ wanted s ps k
same_wanted s s' [] k h = refl
same_wanted s s' (p ∷ ps) k h = ground (arith, same_held s s' p.1 h, same_wanted s s' ps k h)

-- The first loop: its keys, its entries, and what it puts on air.
first_desired :
    (ps : List (Out × OutItem)) (d : List Text) (c : Scheduler) (k : Text)
    → includes (each visit ps (d, c)).0 k ≡ (wanted c.store ps k || includes d k)
unfolding each visit includes
first_desired [] d c k = refl
first_desired ((o, i) ∷ ps) d c k = elim (Bool-cases (is_held c.store i)) [
  | inl e ↦ ground (
    arith,
    e,
    first_desired ps (key o.id i.id ∷ d) (hold o.id i.id c) k,
    same_wanted c.store (hold o.id i.id c).store ps k (hold-config o.id i.id c).0,
  )
  | inr e ↦ ground (arith, e, first_desired ps d c k)
]

first_lookup :
    (ps : List (Out × OutItem)) (d : List Text) (c : Scheduler) (k : Text)
    → lookup k (each visit ps (d, c)).1.timers
      ≡ (if wanted c.store ps k then some none else lookup k c.timers)
unfolding each visit
first_lookup [] d c k = refl
first_lookup ((o, i) ∷ ps) d c k = elim (Bool-cases (is_held c.store i)) [
  | inl e ↦ ground (
    arith,
    e,
    first_lookup ps (key o.id i.id ∷ d) (hold o.id i.id c) k,
    same_wanted c.store (hold o.id i.id c).store ps k (hold-config o.id i.id c).0,
    hold-lookup o.id i.id k c,
  )
  | inr e ↦ ground (arith, e, first_lookup ps d c k)
]

first_playing :
    (ps : List (Out × OutItem)) (d : List Text) (c : Scheduler) (o i : Text)
    → HasIds ps
    → IsId o
    → IsId i
    → is_playing (each visit ps (d, c)).1.store o i
      ≡ (is_playing c.store o i || wanted c.store ps (key o i))
unfolding each visit
first_playing [] d c o i h ho hi = ground arith
first_playing ((p, j) ∷ ps) d c o i h ho hi = elim (Bool-cases (is_held c.store j)) [
  | inl e ↦ ground (
    arith,
    e,
    first_playing ps (key p.id j.id ∷ d) (hold p.id j.id c) o i h.1 ho hi,
    same_wanted c.store (hold p.id j.id c).store ps (key o i) (hold-config p.id j.id c).0,
    hold-is_playing p.id j.id o i c,
    key_injective p.id j.id o i h.0.0 h.0.1 ho hi,
  )
  | inr e ↦ ground (arith, e, first_playing ps d c o i h.1 ho hi)
]

hold-HasKeys : (o i : Text) (c : Scheduler) → IsId o → IsId i → HasKeys c → HasKeys (hold o i c)
unfolding hold
hold-HasKeys o i c ho hi h =
    ground (arith, insert-keys IsKey (key o i) none c.timers (o, i, refl, ho, hi) h)

first_keys :
    (ps : List (Out × OutItem)) (d : List Text) (c : Scheduler)
    → HasIds ps
    → HasKeys c
    → HasKeys (each visit ps (d, c)).1
unfolding each visit
first_keys [] d c h hc = hc
first_keys ((p, j) ∷ ps) d c h hc = elim (Bool-cases (is_held c.store j)) [
  | inl e ↦ ground (
    arith,
    e,
    first_keys ps (key p.id j.id ∷ d) (hold p.id j.id c) h.1
        (hold-HasKeys p.id j.id c h.0.0 h.0.1 hc),
  )
  | inr e ↦ ground (arith, e, first_keys ps d c h.1 hc)
]

-- What the second loop stops: an entry with no timeout that is not desired.
abbrev pub idle : Option (Option Due) → Bool
idle none = false
idle (some none) = true
idle (some (some due)) = false

abbrev gone : List Text → List Text → Scheduler → Text → Bool
gone d ks c k = includes ks k && not (includes d k) && idle (lookup k c.timers)

stop-lookup :
    (j k : Text) (c : Scheduler)
    → lookup k (stop j c).timers ≡ (if j =t k then none else lookup k c.timers)
unfolding stop
stop-lookup j k c = ground (arith, lookup-erase j k c.timers)

stop-is_playing :
    (j o i : Text) (c : Scheduler)
    → IsKey j
    → IsId o
    → IsId i
    → is_playing (stop j c).store o i ≡ (is_playing c.store o i && not (j =t key o i))
unfolding stop
stop-is_playing j o i c (p, q, e, hp, hq) ho hi = ground (
  arith,
  e,
  split_key-key p q hp hq,
  is_playing-remove_playing c.store p q o i,
  key_injective p q o i hp hq ho hi,
)

sweep-lookup :
    (d : List Text) (j k : Text) (c : Scheduler)
    → lookup k (sweep d j c).timers ≡ (
        if (j =t k) && (not (includes d j) && idle (lookup j c.timers))
        then none
        else lookup k c.timers)
unfolding sweep
sweep-lookup d j k c = ground (arith, stop-lookup j k c)

sweep-is_playing :
    (d : List Text) (j o i : Text) (c : Scheduler)
    → IsKey j
    → IsId o
    → IsId i
    → is_playing (sweep d j c).store o i ≡ (
        is_playing c.store o i
        && not ((j =t key o i) && (not (includes d j) && idle (lookup j c.timers))))
unfolding sweep
sweep-is_playing d j o i c hj ho hi = ground (arith, stop-is_playing j o i c hj ho hi)

second_lookup :
    (d ks : List Text) (c : Scheduler) (k : Text)
    → lookup k (each (sweep d) ks c).timers ≡ (if gone d ks c k then none else lookup k c.timers)
unfolding each includes
second_lookup d [] c k = refl
second_lookup d (j ∷ ks) c k =
    ground (arith, second_lookup d ks (sweep d j c) k, sweep-lookup d j k c, =t_iff j k)

second_playing :
    (d ks : List Text) (c : Scheduler) (o i : Text)
    → All IsKey ks
    → IsId o
    → IsId i
    → is_playing (each (sweep d) ks c).store o i
      ≡ (is_playing c.store o i && not (gone d ks c (key o i)))
unfolding each includes
second_playing d [] c o i h ho hi = ground arith
second_playing d (j ∷ ks) c o i h ho hi = ground (
  arith,
  second_playing d ks (sweep d j c) o i h.1 ho hi,
  sweep-lookup d j (key o i) c,
  sweep-is_playing d j o i c h.0 ho hi,
  =t_iff j (key o i),
)

-- When the entries have keys of placements and all ids are texts with no colon, a placement is on
-- air after `sync` exactly when it is held and has its template, or was on air before and its
-- entry does not say, by having no timeout in flight, that it was held.
pub is_playing-sync :
    (c : Scheduler) (o i : Text)
    → HasKeys c
    → HasIds (placements c.store.outs)
    → IsId o
    → IsId i
    → is_playing (sync c).store o i ≡ (
        wanted c.store (placements c.store.outs) (key o i)
        || (is_playing c.store o i && not (idle (lookup (key o i) c.timers))))
unfolding sync includes
is_playing-sync c o i hk hp ho hi =
    let ps = placements c.store.outs in
    let d = (each visit ps ([], c)).0 in
    let f = (each visit ps ([], c)).1 in
    ground (
      arith,
      second_playing d (keys f.timers) f o i (first_keys ps [] c hp hk) ho hi,
      includes-keys f.timers (key o i),
      first_desired ps [] c (key o i),
      first_lookup ps [] c (key o i),
      first_playing ps [] c o i hp ho hi,
    )

-- After `sync` the entry of a key has no timeout when it is the key of a placement that is held and has
-- its template; otherwise an entry with no timeout is gone, and one in flight is as it was.
pub lookup-sync :
    (c : Scheduler) (k : Text)
    → lookup k (sync c).timers ≡ (
        if wanted c.store (placements c.store.outs) k
        then some none
        else if idle (lookup k c.timers)
        then none
        else lookup k c.timers)
unfolding sync includes
lookup-sync c k =
    let ps = placements c.store.outs in
    let d = (each visit ps ([], c)).0 in
    let f = (each visit ps ([], c)).1 in
    ground (
      arith,
      second_lookup d (keys f.timers) f k,
      includes-keys f.timers k,
      first_desired ps [] c k,
      first_lookup ps [] c k,
    )

sweep-HasKeys : (d : List Text) (j : Text) (c : Scheduler) → HasKeys c → HasKeys (sweep d j c)
unfolding sweep stop
sweep-HasKeys d j c h = ground (arith, erase-keys IsKey j c.timers h)

second_keys : (d ks : List Text) (c : Scheduler) → HasKeys c → HasKeys (each (sweep d) ks c)
unfolding each
second_keys d [] c h = h
second_keys d (j ∷ ks) c h = second_keys d ks (sweep d j c) (sweep-HasKeys d j c h)

-- `sync` leaves only keys of placements.
pub sync-HasKeys : (c : Scheduler) → HasKeys c → HasIds (placements c.store.outs) → HasKeys (sync c)
unfolding sync
sync-HasKeys c hk hp =
    let f = each visit (placements c.store.outs) ([], c) in
    second_keys f.0 (keys f.1.timers) f.1 (first_keys (placements c.store.outs) [] c hp hk)
