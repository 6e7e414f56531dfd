-- ===== src/Timers/Command/Distinct.antt =====
-- Lists of timers whose ids, or keys, are all different.
use not_gt.Base.{
  ◌≡◌, refl, subst, ◌⊎◌, inl, inr, Text, true, false, some, List, [], ◌∷◌, map, if◌then◌else◌,
  arith, Bool-cases, includes, All, keep, ◌=t◌, =t_iff, =t_refl,
}
use not_gt.Base.TextLaws.{Distinct}
pub use not_gt.Base.DistinctLaws.{Distinct-snoc, Distinct-keep}
use not_gt.Timer.{Timer}
use not_gt.Timers.Command.{is_other, put, keys, is_timer, find_timer}

abbrev pub ids : List Timer → List Text
ids = map (λ t. t.id)

-- The timers with the id of `t` are `t`.
abbrev pub IsSole : Timer → List Timer → Type 0
IsSole t [] = Unit
IsSole t (x ∷ xs) = ((x ≡ t) ⊎ ((x.id =t t.id) ≡ false)) × IsSole t xs

absent-IsSole : (t : Timer) (ts : List Timer) → includes (ids ts) t.id ≡ false → IsSole t ts
unfolding includes
absent-IsSole t [] h = tt
absent-IsSole t (x ∷ xs) h = (inr (ground arith), absent-IsSole t xs (ground arith))

found-includes :
    (ref : Text) (ts : List Timer) (t : Timer)
    → find_timer ts ref ≡ some t
    → includes (ids ts) t.id ≡ true
unfolding find_timer includes
found-includes ref [] t h = cc
found-includes ref (x ∷ xs) t h = ground (arith, found-includes ref xs t, =t_refl x.id)

pub found-IsSole :
    (ref : Text) (ts : List Timer) (t : Timer)
    → Distinct (ids ts)
    → find_timer ts ref ≡ some t
    → IsSole t ts
unfolding find_timer
found-IsSole ref [] t d h = tt
found-IsSole ref (x ∷ xs) t d h = elim (Bool-cases (is_timer ref x)) [
  | inl here ↦ let e : x ≡ t = ground arith in (inl e, absent-IsSole t xs (rw e at d.0))
  | inr there ↦
      let h' : find_timer xs ref ≡ some t = ground arith in
      (
        inr (ground (arith, found-includes ref xs t h', =t_iff x.id t.id)),
        found-IsSole ref xs t d.1 h',
      )
]

pub ids-put : (t u : Timer) (ts : List Timer) → u.id ≡ t.id → ids (map (put t u) ts) ≡ ids ts
ids-put t u [] h = refl
ids-put t u (x ∷ xs) h = ground (arith, ids-put t u xs h, =t_iff x.id t.id)

pub keys-put :
    (t u : Timer) (ts : List Timer)
    → IsSole t ts
    → u.key ≡ t.key
    → keys (map (put t u) ts) ≡ keys ts
keys-put t u [] s h = refl
keys-put t u (x ∷ xs) s h = ground (arith, keys-put t u xs s.1 h)

includes-put :
    (t u : Timer) (ts : List Timer) (k : Text)
    → includes (keys ts) k ≡ false
    → (u.key =t k) ≡ false
    → includes (keys (map (put t u) ts)) k ≡ false
unfolding includes
includes-put t u [] k h n = refl
includes-put t u (x ∷ xs) k h n = ground (arith, includes-put t u xs k)

put_absent :
    (t u : Timer) (ts : List Timer) → includes (ids ts) t.id ≡ false → map (put t u) ts ≡ ts
unfolding includes
put_absent t u [] h = refl
put_absent t u (x ∷ xs) h = ground (arith, put_absent t u xs)

keep_absent :
    (t : Timer) (ts : List Timer) → includes (ids ts) t.id ≡ false → keep (is_other t) ts ≡ ts
unfolding includes
keep_absent t [] h = refl
keep_absent t (x ∷ xs) h = ground (arith, keep_absent t xs)

pub Distinct-put :
    (t u : Timer) (ts : List Timer)
    → Distinct (ids ts)
    → Distinct (keys ts)
    → includes (keys (keep (is_other t) ts)) u.key ≡ false
    → Distinct (keys (map (put t u) ts))
unfolding includes
Distinct-put t u [] d k h = tt
Distinct-put t u (x ∷ xs) d k h = elim (Bool-cases (x.id =t t.id)) [
  | inl same ↦
      let gone : includes (ids xs) t.id ≡ false = ground (arith, =t_iff x.id t.id) in
      rw (same, put_absent t u xs gone) (rw (same, keep_absent t xs gone) at h, k.1)
  | inr other ↦ rw other (
    includes-put t u xs x.key k.0 (ground (arith, =t_iff x.key u.key, =t_iff u.key x.key)),
    Distinct-put t u xs d.1 k.1 (ground arith),
  )
]

pub All-put {κ} :
    (P : Timer → Type κ) (t u : Timer) (ts : List Timer) → P u → All P ts → All P (map (put t u) ts)
All-put P t u [] h a = tt
All-put P t u (x ∷ xs) h a =
    elim (x.id =t t.id) as (λ b. P (if b then u else x) × All P (map (put t u) xs)) [
      | true ↦ (h, All-put P t u xs h a.1)
      | false ↦ (a.0, All-put P t u xs h a.1)
    ]

pub found-All {κ} :
    (P : Timer → Type κ) (ref : Text) (ts : List Timer) (t : Timer)
    → All P ts
    → find_timer ts ref ≡ some t
    → P t
unfolding find_timer
found-All P ref [] t a h = cc
found-All P ref (x ∷ xs) t a h = elim (Bool-cases (is_timer ref x)) [
  | inl here ↦ let e : x ≡ t = ground arith in subst P e a.0
  | inr there ↦ found-All P ref xs t a.1 (ground arith)
]
