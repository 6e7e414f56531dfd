-- ===== src/Scheduler/Keys.antt =====
-- The keys of bundles/notGT/src/extension/scheduler.ts and the ids in them, texts with no colon.
use not_gt.Base.{
  ◌≡◌, refl, Text, true, false, ◌&&◌, none, some, [], ◌∷◌, any, All, ◌==◌, is_empty, arith, ◌⊎◌,
  inl, ◌=t◌, =t_iff, includes, Dict, lookup, insert, erase,
}
use not_gt.Scheduler.{key, before_mark, split_key, keys}

-- An id as `uid` makes them: not empty, and with no colon.
abbrev pub IsId : Text → Type 0
IsId t = (is_empty t ≡ false) × (any (λ c. c == b':') t ≡ false)

before_mark-key :
    (o i : Text) → any (λ c. c == b':') o ≡ false → before_mark (key o i) ≡ (o, some i)
unfolding before_mark
before_mark-key [] i h = refl
before_mark-key (c ∷ []) i h = ground arith
before_mark-key (c ∷ d ∷ o) i h = ground (arith, before_mark-key (d ∷ o) i (ground arith))

before_mark_id : (i : Text) → any (λ c. c == b':') i ≡ false → before_mark i ≡ (i, none)
unfolding before_mark
before_mark_id [] h = refl
before_mark_id (c ∷ []) h = refl
before_mark_id (c ∷ d ∷ i) h = ground (arith, before_mark_id (d ∷ i) (ground arith))

-- The key of two ids is split into them.
pub split_key-key : (o i : Text) → IsId o → IsId i → split_key (key o i) ≡ (o, i)
unfolding split_key
split_key-key o i ho hi = ground (arith, before_mark-key o i ho.1, before_mark_id i hi.1)

pub key_injective :
    (o i o' i' : Text)
    → IsId o
    → IsId i
    → IsId o'
    → IsId i'
    → (key o i =t key o' i') ≡ ((o =t o') && (i =t i'))
key_injective o i o' i' ho hi ho' hi' = ground (
  arith,
  =t_iff (key o i) (key o' i'),
  =t_iff o o',
  =t_iff i i',
  split_key-key o i ho hi,
  split_key-key o' i' ho' hi',
)

-- Every entry of the scheduler has the key of a placement.
abbrev pub IsKey : Text → Type 0
IsKey k = (o : Text) × (i : Text) × (k ≡ key o i) × IsId o × IsId i

pub includes-keys {ℓ} :
    {V : Type ℓ} (m : Dict V) (k : Text) → (lookup k m ≡ none) ⊎ (includes (keys m) k ≡ true)
unfolding lookup includes
includes-keys [] k = inl refl
includes-keys ((j, v) ∷ m) k = ground (arith, includes-keys m k, =t_iff j k)

pub insert-keys {ℓ κ} :
    {V : Type ℓ} (P : Text → Type κ) (k : Text) (v : V) (m : Dict V)
    → P k
    → All P (keys m)
    → All P (keys (insert k v m))
unfolding insert
insert-keys P k v [] hk h = (hk, tt)
insert-keys P k v ((j, w) ∷ m) hk h = ground (arith, insert-keys P k v m hk h.1)

pub erase-keys {ℓ κ} :
    {V : Type ℓ} (P : Text → Type κ) (k : Text) (m : Dict V)
    → All P (keys m)
    → All P (keys (erase k m))
unfolding erase
erase-keys P k [] h = tt
erase-keys P k ((j, w) ∷ m) h = ground (arith, erase-keys P k m h.1)
