-- ===== src/Slug/Laws.antt =====
-- What `slugify` makes of any text.
use not_gt.Base.{
  ℕ, ◌≡◌, ◌⊎◌, inl, inr, refl, Text, Bool, true, false, ◌&&◌, [], ◌∷◌, if◌then◌else◌, arith,
  Bool-cases, All, is_empty, trim_start, trim_end, trim, is_space,
}
use not_gt.Base.TextLaws.{trim_id}
use not_gt.Slug.{to_lower, is_slug_char, is_dash, dashed, slug_of, slugify}

-- Letters, digits and single dashes; `after_dash` says that a dash stands before the text.
abbrev pub Runs : Bool → Text → Type 0
Runs after_dash [] = Unit
Runs after_dash (c ∷ s) =
    ((is_slug_char c ≡ true) × Runs false s) ⊎ ((c ≡ b'-') × (after_dash ≡ false) × Runs true s)

dashed-Runs : (r : Bool) (s : Text) → Runs r (dashed r s)
unfolding dashed
dashed-Runs r [] = tt
dashed-Runs r (c ∷ s) = ground (arith, dashed-Runs false s, dashed-Runs true s)

Runs-weaken : (s : Text) → Runs true s → Runs false s
Runs-weaken [] h = h
Runs-weaken (c ∷ s) (inl h) = inl h
Runs-weaken (c ∷ s) (inr h) = cc

trim_end-Runs : (r : Bool) (s : Text) → Runs r s → Runs r (trim_end is_dash s)
unfolding trim_end
trim_end-Runs r [] h = tt
trim_end-Runs r (c ∷ s) (inl h) = ground (arith, trim_end-Runs false s h.1)
trim_end-Runs r (c ∷ s) (inr h) = ground (arith, trim_end-Runs true s h.2)

trim_start-Runs : (s : Text) → Runs false s → Runs true (trim_start is_dash s)
unfolding trim_start
trim_start-Runs [] h = tt
trim_start-Runs (c ∷ s) (inl h) = ground arith
trim_start-Runs (c ∷ s) (inr h) = ground (arith, trim_start-Runs s (Runs-weaken s h.2))

-- The text does not end in a dash.
abbrev pub EndsPlain : Text → Type 0
EndsPlain [] = Unit
EndsPlain (c ∷ []) = is_slug_char c ≡ true
EndsPlain (c ∷ d ∷ s) = EndsPlain (d ∷ s)

EndsPlain-cons : (c : ℕ) (s : Text) → is_empty s ≡ false → EndsPlain s → EndsPlain (c ∷ s)
EndsPlain-cons c [] f h = cc
EndsPlain-cons c (d ∷ s) f h = h

trim_end-EndsPlain : (r : Bool) (s : Text) → Runs r s → EndsPlain (trim_end is_dash s)
unfolding trim_end
trim_end-EndsPlain r [] h = tt
trim_end-EndsPlain r (c ∷ s) (inl h) = last (trim_end is_dash s) (trim_end-EndsPlain false s h.1)
  where
    last : (t : Text) → EndsPlain t → EndsPlain (if is_dash c && is_empty t then [] else c ∷ t)
    last [] e = ground arith
    last (d ∷ t) e = ground arith
trim_end-EndsPlain r (c ∷ s) (inr h) = last (trim_end is_dash s) (trim_end-EndsPlain true s h.2)
  where
    last : (t : Text) → EndsPlain t → EndsPlain (if is_dash c && is_empty t then [] else c ∷ t)
    last [] e = ground arith
    last (d ∷ t) e = ground arith

-- Runs of letters and digits joined by single dashes.
pub record IsSlug (s : Text) : Type 0 where
  pub runs : Runs true s
  pub ends : EndsPlain s

pub slug_of-IsSlug : (input : Text) → IsSlug (slug_of input)
unfolding slug_of
slug_of-IsSlug input = record {
  runs = trim_end-Runs true _ runs;
  ends = trim_end-EndsPlain true _ runs;
}
  where
    runs : Runs true (trim_start is_dash (dashed false (trim (to_lower input))))
    runs = trim_start-Runs _ (dashed-Runs false (trim (to_lower input)))

to_lower_id : (r : Bool) (s : Text) → Runs r s → to_lower s ≡ s
unfolding to_lower
to_lower_id r [] h = refl
to_lower_id r (c ∷ s) (inl h) = ground (arith, to_lower_id false s h.1)
to_lower_id r (c ∷ s) (inr h) = ground (arith, to_lower_id true s h.2)

Runs-plain : (r : Bool) (s : Text) → Runs r s → All (λ c. is_space c ≡ false) s
unfolding is_space
Runs-plain r [] h = tt
Runs-plain r (c ∷ s) (inl h) = (ground arith, Runs-plain false s h.1)
Runs-plain r (c ∷ s) (inr h) = (ground arith, Runs-plain true s h.2)

dashed_id : (r : Bool) (s : Text) → Runs r s → dashed r s ≡ s
unfolding dashed
dashed_id r [] h = refl
dashed_id r (c ∷ s) (inl h) = ground (arith, dashed_id false s h.1)
dashed_id r (c ∷ s) (inr h) = ground (arith, dashed_id true s h.2)

trim_start_id : (s : Text) → Runs true s → trim_start is_dash s ≡ s
unfolding trim_start
trim_start_id [] h = refl
trim_start_id (c ∷ s) (inl h) = ground arith
trim_start_id (c ∷ s) (inr h) = cc

trim_end_id : (s : Text) → EndsPlain s → trim_end is_dash s ≡ s
unfolding trim_end
trim_end_id [] h = refl
trim_end_id (c ∷ []) h = ground arith
trim_end_id (c ∷ d ∷ s) h = rw (trim_end_id (d ∷ s) h) (ground arith)

slug_of_of_IsSlug : (s : Text) → IsSlug s → slug_of s ≡ s
unfolding slug_of
slug_of_of_IsSlug s h =
    rw
      (
        to_lower_id true s h.runs,
        trim_id s (Runs-plain true s h.runs),
        dashed_id false s (Runs-weaken s h.runs),
        trim_start_id s h.runs,
      )
      (trim_end_id s h.ends)

-- When the fallback is letters, digits and single dashes between them, or empty, `slugify` gives
-- such a text for every input, and leaves what it gave as it is.
pub slugify-IsSlug :
    (input fallback : Text)
    → IsSlug fallback
    → IsSlug (slugify input fallback)
      × (slugify (slugify input fallback) fallback ≡ slugify input fallback)
unfolding slugify
slugify-IsSlug input fallback f = elim (Bool-cases (is_empty (slug_of input))) [
  | inl e ↦ rw e (f, rw (slug_of_of_IsSlug fallback f) (ground arith))
  | inr e ↦ rw e (slug_of-IsSlug input, rw (slug_of_of_IsSlug _ (slug_of-IsSlug input), e))
]
