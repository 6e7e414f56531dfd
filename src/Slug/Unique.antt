-- ===== src/Slug/Unique.antt =====
-- The keys that `uniqueTimerKey` of bundles/notGT/src/shared/timer.ts tries.
use not_gt.Base.{
  ℕ, zero, suc, ◌+◌, ◌≤◌, ◌<◌, ◌≡◌, ◌≢◌, refl, ◌∙◌, Text, codes, true, false, List, [], ◌∷◌, ◌++◌,
  if◌then◌else◌, includes, length, show_nat, arith, ◌=t◌, =t_iff, Bool-cases, inl, inr,
}
use not_gt.Base.TextLaws.{show_nat_injective}
use not_gt.Slug.{first_free, unique_timer_key, slugify}

append_cancel : (s : Text) {t u : Text} → s ++ t ≡ s ++ u → t ≡ u
append_cancel [] e = e
append_cancel (c ∷ s) e = append_cancel s (cc)

candidate_injective :
    (base : Text) (m n : ℕ) → base ++ b'-' ∷ show_nat m ≡ base ++ b'-' ∷ show_nat n → m ≡ n
candidate_injective base m n e = show_nat_injective m n (ground (arith, append_cancel base e))

-- The list without the first occurrence of a text.
without : Text → List Text → List Text
without s [] = []
without s (t ∷ ts) = if t =t s then ts else t ∷ without s ts

length-without :
    (s : Text) (ts : List Text) → includes ts s ≡ true → suc (length (without s ts)) ≡ length ts
unfolding without includes
length-without s [] h = cc
length-without s (t ∷ ts) h = ground (arith, length-without s ts)

includes-without : (s u : Text) (ts : List Text) → s ≢ u → includes (without s ts) u ≡ includes ts u
unfolding without includes
includes-without s u [] h = refl
includes-without s u (t ∷ ts) h = ground (arith, includes-without s u ts h, =t_iff t s, =t_iff t u)

first_free-without :
    (fuel : ℕ) (base : Text) (m n : ℕ) (used : List Text)
    → m < n
    → first_free fuel base n (without (base ++ b'-' ∷ show_nat m) used)
      ≡ first_free fuel base n used
unfolding first_free
first_free-without zero base m n used h = refl
first_free-without (suc fuel) base m n used h =
    rw
      (includes-without (base ++ b'-' ∷ show_nat m) (base ++ b'-' ∷ show_nat n) used
        (λ e. absurd (omega (arith, candidate_injective base m n e))))
      (ground (arith, first_free-without fuel base m (n + 1) used))

first_free-number :
    (fuel : ℕ) (base : Text) (n : ℕ) (used : List Text)
    → (k : ℕ) × (n ≤ k) × (first_free fuel base n used ≡ base ++ b'-' ∷ show_nat k)
unfolding first_free
first_free-number zero base n used = (n, omega arith, refl)
first_free-number (suc fuel) base n used =
    let (k, le, e) = first_free-number fuel base (n + 1) used in
    elim (Bool-cases (includes used (base ++ b'-' ∷ show_nat n))) [
      | inl h ↦ (k, omega arith, rw h e)
      | inr h ↦ (n, omega arith, rw h)
    ]

fresh_step :
    (base : Text) (n : ℕ) (used : List Text) (key : Text)
    → (k : ℕ) × (n + 1 ≤ k) × (key ≡ base ++ b'-' ∷ show_nat k)
    → includes (without (base ++ b'-' ∷ show_nat n) used) key ≡ false
    → includes used key ≡ false
fresh_step base n used key (k, le, e) h =
    rw (includes-without (base ++ b'-' ∷ show_nat n) key used other) at h
  where
    other : base ++ b'-' ∷ show_nat n ≢ key
    other p = absurd (omega (arith, candidate_injective base n k (p ∙ e)))

-- As many tries as there are keys, and the next one is free.
first_free-fresh :
    (fuel : ℕ) (base : Text) (n : ℕ) (used : List Text)
    → length used ≤ fuel
    → includes used (first_free fuel base n used) ≡ false
unfolding first_free includes
first_free-fresh zero base n [] h = refl
first_free-fresh zero base n (u ∷ used) h = absurd (omega arith)
first_free-fresh (suc fuel) base n used h =
    elim (Bool-cases (includes used (base ++ b'-' ∷ show_nat n))) [
      | inr free ↦ rw free free
      | inl taken ↦ rw taken (
          fresh_step base n used _ (first_free-number fuel base (n + 1) used) (
            rw (first_free-without fuel base n (n + 1) used (omega arith)) at (
              first_free-fresh fuel base (n + 1) (without (base ++ b'-' ∷ show_nat n) used)
                (omega (arith, length-without (base ++ b'-' ∷ show_nat n) used taken)))))
    ]

-- The key that is made for a timer is never one that is taken, so the loop that looks for it needs
-- no more tries than there are keys.
pub unique_timer_key-fresh :
    (name : Text) (taken : List Text) → includes taken (unique_timer_key name taken) ≡ false
unfolding unique_timer_key
unique_timer_key-fresh name taken =
    ground (arith, first_free-fresh (length taken) (slugify name (codes "timer")) 2 taken)
