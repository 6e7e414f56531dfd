-- ===== src/Store/Playing/Laws.antt =====
-- The runtime as a set of placements on air and a counter for each.
use not_gt.Base.{
  ◌+◌, ◌≡◌, refl, Text, true, false, not, ◌&&◌, ◌||◌, List, [], ◌∷◌, ◌++◌, keep, if◌then◌else◌,
  is_empty, arith, All, Bool-cases, inl, inr, ◌=t◌, =t_iff, includes, unique, insert, erase, Dict,
  lookup-insert, lookup-erase,
}
use not_gt.Base.TextLaws.{includes-unique, includes-append, unique-Distinct, Distinct}
use not_gt.Store.{Store}
use not_gt.Store.Playing.{
  write_playing, write_triggers, set_playing, trigger_key, trigger_count, mark_trigger, playing_for,
  is_playing, add_playing, remove_playing,
}

emptied : (us : List Text) → is_empty us ≡ true → us ≡ []
emptied [] h = refl
emptied (u ∷ us) h = cc

-- The placements of an out that `setPlaying` leaves.
playing_for-set_playing :
    (s : Store) (o o' : Text) (ids : List Text)
    → playing_for (set_playing o ids s) o' ≡ (if o =t o' then unique ids else playing_for s o')
unfolding playing_for set_playing write_playing
playing_for-set_playing s o o' ids = ground (
  arith,
  lookup-erase o o' s.runtime.playing,
  lookup-insert o o' (unique ids) s.runtime.playing,
  emptied (unique ids),
)

-- `setPlaying` sets the placements of one out and leaves the others.
is_playing-set_playing :
    (s : Store) (o o' i' : Text) (ids : List Text)
    → is_playing (set_playing o ids s) o' i'
      ≡ (if o =t o' then includes ids i' else is_playing s o' i')
unfolding is_playing
is_playing-set_playing s o o' i' ids =
    ground (arith, playing_for-set_playing s o o' ids, includes-unique ids i')

without :
    (i j : Text) (is : List Text)
    → includes (keep (λ id. not (id =t i)) is) j ≡ (not (i =t j) && includes is j)
unfolding includes
without i j [] = ground arith
without i j (k ∷ is) = ground (arith, without i j is, =t_iff k i, =t_iff k j, =t_iff i j)

-- `addPlaying` puts exactly the one placement on air: every other one is on air as before.
pub is_playing-add_playing :
    (s : Store) (o i o' i' : Text)
    → is_playing (add_playing o i s) o' i' ≡ (is_playing s o' i' || ((o =t o') && (i =t i')))
unfolding add_playing is_playing includes
is_playing-add_playing s o i o' i' = ground (
  arith,
  is_playing-set_playing s o o' i' (playing_for s o ++ i ∷ []),
  includes-append (playing_for s o) (i ∷ []) i',
  =t_iff o o',
  =t_iff i i',
)

-- `removePlaying` takes exactly the one placement off air: every other one is on air as before.
pub is_playing-remove_playing :
    (s : Store) (o i o' i' : Text)
    → is_playing (remove_playing o i s) o' i' ≡ (is_playing s o' i' && not ((o =t o') && (i =t i')))
unfolding remove_playing is_playing
is_playing-remove_playing s o i o' i' = ground (
  arith,
  is_playing-set_playing s o o' i' (keep (λ id. not (id =t i)) (playing_for s o)),
  without i i' (playing_for s o),
  =t_iff o o',
  =t_iff i i',
)

-- Every out that is listed has placements, each once.
abbrev pub IsTidy : Dict (List Text) → Type 0
IsTidy m = All (λ e. (is_empty e.1 ≡ false) × Distinct e.1) m

insert-IsTidy :
    (o : Text) (is : List Text) (m : Dict (List Text))
    → is_empty is ≡ false
    → Distinct is
    → IsTidy m
    → IsTidy (insert o is m)
unfolding insert
insert-IsTidy o is [] he hd h = ((he, hd), tt)
insert-IsTidy o is ((k, js) ∷ m) he hd h = ground (arith, insert-IsTidy o is m he hd h.1)

pub erase-IsTidy : (o : Text) (m : Dict (List Text)) → IsTidy m → IsTidy (erase o m)
unfolding erase
erase-IsTidy o [] h = tt
erase-IsTidy o ((k, js) ∷ m) h = ground (arith, erase-IsTidy o m h.1)

set_playing-IsTidy :
    (s : Store) (o : Text) (ids : List Text)
    → IsTidy s.runtime.playing
    → IsTidy (set_playing o ids s).runtime.playing
unfolding set_playing write_playing
set_playing-IsTidy s o ids h = elim (Bool-cases (is_empty (unique ids))) [
  | inl e ↦ ground (arith, e, erase-IsTidy o s.runtime.playing h)
  | inr e ↦
      ground (arith, e, insert-IsTidy o (unique ids) s.runtime.playing e (unique-Distinct ids) h)
]

pub add_playing-IsTidy :
    (s : Store) (o i : Text) → IsTidy s.runtime.playing → IsTidy (add_playing o i s).runtime.playing
unfolding add_playing
add_playing-IsTidy s o i h = ground (arith, set_playing-IsTidy s o (playing_for s o ++ i ∷ []) h)

pub remove_playing-IsTidy :
    (s : Store) (o i : Text)
    → IsTidy s.runtime.playing
    → IsTidy (remove_playing o i s).runtime.playing
unfolding remove_playing
remove_playing-IsTidy s o i h =
    ground (arith, set_playing-IsTidy s o (keep (λ id. not (id =t i)) (playing_for s o)) h)

-- `markTrigger` adds one to the counter of its key.
pub trigger_count-mark_trigger :
    (s : Store) (o i o' i' : Text)
    → trigger_count (mark_trigger o i s) o' i' ≡ (
        if trigger_key o i =t trigger_key o' i'
        then trigger_count s o i + 1
        else trigger_count s o' i')
unfolding trigger_count mark_trigger write_triggers
trigger_count-mark_trigger s o i o' i' = ground (
  arith,
  lookup-insert (trigger_key o i) (trigger_key o' i') (trigger_count s o i + 1) s.runtime.triggers,
)

-- What is on air is no part of the templates and the outs.
pub add_playing-config :
    (s : Store) (o i : Text)
    → ((add_playing o i s).outs ≡ s.outs) × ((add_playing o i s).templates ≡ s.templates)
unfolding add_playing set_playing write_playing
add_playing-config s o i = ground arith

pub remove_playing-config :
    (s : Store) (o i : Text)
    → ((remove_playing o i s).outs ≡ s.outs) × ((remove_playing o i s).templates ≡ s.templates)
unfolding remove_playing set_playing write_playing
remove_playing-config s o i = ground arith

pub is_playing-mark_trigger :
    (s : Store) (o i o' i' : Text) → is_playing (mark_trigger o i s) o' i' ≡ is_playing s o' i'
unfolding is_playing playing_for mark_trigger write_triggers
is_playing-mark_trigger s o i o' i' = refl

pub add_playing-triggers :
    (s : Store) (o i : Text) → (add_playing o i s).runtime.triggers ≡ s.runtime.triggers
unfolding add_playing set_playing write_playing
add_playing-triggers s o i = ground arith

pub add_playing-trigger_count :
    (s : Store) (o i : Text) → trigger_count (add_playing o i s) o i ≡ trigger_count s o i
unfolding trigger_count
add_playing-trigger_count s o i = ground (arith, add_playing-triggers s o i)
