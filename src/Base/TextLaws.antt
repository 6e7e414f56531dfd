-- ===== src/Base/TextLaws.antt =====
-- How printing, padding, trimming and splitting meet.
use Prim.Native.Nat.{ℕ, zero, suc, ◌+◌, ◌-◌, ◌*◌, ◌/◌, ◌%◌, ◌<◌, ◌≤◌}
use mathlib.Core.Path.{◌≡◌, refl, sym, ◌∙◌}
use mathlib.Core.Bool.{Bool, true, false, ◌||◌}
use mathlib.Core.List.{List, [], ◌∷◌, ◌++◌}
use mathlib.Core.Option.{some}
use native.Mathlib.Omega.{arith}
use not_gt.Base.Tests.{◌==◌}
use not_gt.Base.Lists.{length, any, All}
use not_gt.Base.Texts.{
  Text, show_from, show_nat, is_digit, digits_from, zeros, pad_start, split_on, ◌=t◌, =t_iff,
  =t_refl, includes, unique, unique_from, trim, trim_start, trim_end, is_space, is_empty,
}

abbrev pub IsDigit : ℕ → Type 0
IsDigit c = (b'0' ≤ c) × (c ≤ b'9')

show_from-IsDigit : (fuel n : ℕ) (acc : Text) → All IsDigit acc → All IsDigit (show_from fuel n acc)
unfolding show_from
show_from-IsDigit zero n acc h = h
show_from-IsDigit (suc fuel) n acc h =
    ground (arith, show_from-IsDigit fuel (n / 10) ((b'0' + n % 10) ∷ acc))

-- A number is printed in digits.
pub show_nat-IsDigit : (n : ℕ) → All IsDigit (show_nat n)
unfolding show_nat
show_nat-IsDigit n = show_from-IsDigit (suc n) n [] tt

show_from_filled : (fuel n c : ℕ) (acc : Text) → is_empty (show_from fuel n (c ∷ acc)) ≡ false
unfolding show_from
show_from_filled zero n c acc = refl
show_from_filled (suc fuel) n c acc =
    ground (arith, show_from_filled fuel (n / 10) (b'0' + n % 10) (c ∷ acc))

pub show_nat_filled : (n : ℕ) → is_empty (show_nat n) ≡ false
unfolding show_nat show_from
show_nat_filled n = ground (arith, show_from_filled n (n / 10) (b'0' + n % 10) [])

zeros-IsDigit : (k : ℕ) (s : Text) → All IsDigit s → All IsDigit (zeros k s)
zeros-IsDigit zero s h = h
zeros-IsDigit (suc k) s h = (omega arith, zeros-IsDigit k s h)

zeros_filled : (k : ℕ) (s : Text) → is_empty s ≡ false → is_empty (zeros k s) ≡ false
zeros_filled zero s h = h
zeros_filled (suc k) s h = refl

pub pad_start-IsDigit : (k : ℕ) (s : Text) → All IsDigit s → All IsDigit (pad_start k s)
unfolding pad_start
pad_start-IsDigit k s h = zeros-IsDigit (k - length s) s h

pub pad_start_filled : (k : ℕ) (s : Text) → is_empty s ≡ false → is_empty (pad_start k s) ≡ false
unfolding pad_start
pad_start_filled k s h = zeros_filled (k - length s) s h

-- A text without the separator is one part, up to the first separator.
pub split_on_one : (c : ℕ) (s : Text) → All (λ d. (d == c) ≡ false) s → split_on c s ≡ s ∷ []
unfolding split_on
split_on_one c [] h = refl
split_on_one c (d ∷ s) h = rw (h.0, split_on_one c s h.1)

pub split_on-append :
    (c : ℕ) (s rest : Text)
    → All (λ d. (d == c) ≡ false) s
    → split_on c (s ++ c ∷ rest) ≡ s ∷ split_on c rest
unfolding split_on
split_on-append c [] rest h = ground arith
split_on-append c (d ∷ s) rest h = rw (h.0, split_on-append c s rest h.1)

trim_end_id : (p : ℕ → Bool) (s : Text) → All (λ c. p c ≡ false) s → trim_end p s ≡ s
unfolding trim_end
trim_end_id p [] h = refl
trim_end_id p (c ∷ s) h = rw (h.0, trim_end_id p s h.1)

trim_start_id : (p : ℕ → Bool) (s : Text) → All (λ c. p c ≡ false) s → trim_start p s ≡ s
unfolding trim_start
trim_start_id p [] h = refl
trim_start_id p (c ∷ s) h = rw (h.0)

pub trim_id : (s : Text) → All (λ c. is_space c ≡ false) s → trim s ≡ s
unfolding trim
trim_id s h = rw (trim_start_id is_space s h) (trim_end_id is_space s h)

pub All-mono {ℓ κ μ} :
    {A : Type ℓ} {P : A → Type κ} {Q : A → Type μ} (f : (a : A) → P a → Q a) (xs : List A)
    → All P xs
    → All Q xs
All-mono f [] h = tt
All-mono f (x ∷ xs) h = (f x h.0, All-mono f xs h.1)

digits_from-show_from :
    (fuel n : ℕ) (acc : Text) → n < fuel → digits_from 0 (show_from fuel n acc) ≡ digits_from n acc
unfolding digits_from show_from is_digit
digits_from-show_from zero n acc h = elim h [ ]
digits_from-show_from (suc fuel) n acc h =
    ground (arith, digits_from-show_from fuel (n / 10) ((b'0' + n % 10) ∷ acc), split n)
  where
    split : (n : ℕ) → n / 10 * 10 + n % 10 ≡ n
    split n = omega arith

-- A number that is printed is read back.
pub digits_from-show_nat : (n : ℕ) → digits_from 0 (show_nat n) ≡ some n
unfolding show_nat digits_from
digits_from-show_nat n = digits_from-show_from (suc n) n [] (omega arith)

pub show_nat_injective : (m n : ℕ) → show_nat m ≡ show_nat n → m ≡ n
show_nat_injective m n e = cc (digits_from-show_nat m, digits_from-show_nat n)

pub digits_from-zeros : (k : ℕ) (s : Text) → digits_from 0 (zeros k s) ≡ digits_from 0 s
unfolding digits_from is_digit
digits_from-zeros zero s = refl
digits_from-zeros (suc k) s = digits_from-zeros k s

pub any-append : (p : Text → Bool) (xs ys : List Text) → any p (xs ++ ys) ≡ (any p xs || any p ys)
any-append p [] ys = refl
any-append p (x ∷ xs) ys = ground (arith, any-append p xs ys)

any_seen :
    (p : Text → Bool) (seen : List Text) (s : Text)
    → includes seen s ≡ true
    → p s ≡ true
    → any p seen ≡ true
unfolding includes
any_seen p [] s h k = cc
any_seen p (x ∷ xs) s h k = ground (arith, any_seen p xs s, =t_iff x s)

-- Taking repetitions out keeps what is there.
pub any-unique_from :
    (p : Text → Bool) (seen ss : List Text)
    → any p seen ≡ false
    → any p (unique_from seen ss) ≡ any p ss
unfolding unique_from
any-unique_from p seen [] h = refl
any-unique_from p seen (s ∷ ss) h =
    ground (arith, any-unique_from p seen ss h, any-unique_from p (s ∷ seen) ss, any_seen p seen s)

includes-any : (ss : List Text) (s : Text) → includes ss s ≡ any (λ t. t =t s) ss
unfolding includes
includes-any [] s = refl
includes-any (t ∷ ts) s = ground (arith, includes-any ts s)

pub includes-unique : (ss : List Text) (s : Text) → includes (unique ss) s ≡ includes ss s
unfolding unique
includes-unique ss s =
    includes-any (unique_from [] ss) s
    ∙ any-unique_from (λ t. t =t s) [] ss refl
    ∙ sym (includes-any ss s)

pub includes-append :
    (xs ys : List Text) (s : Text) → includes (xs ++ ys) s ≡ (includes xs s || includes ys s)
unfolding includes
includes-append [] ys s = refl
includes-append (x ∷ xs) ys s = ground (arith, includes-append xs ys s)

-- Texts that are all different.
abbrev pub Distinct : List Text → Type 0
Distinct [] = Unit
Distinct (s ∷ ss) = (includes ss s ≡ false) × Distinct ss

includes-unique_from :
    (seen ss : List Text) (s : Text)
    → includes seen s ≡ true
    → includes (unique_from seen ss) s ≡ false
unfolding unique_from includes
includes-unique_from seen [] s h = refl
includes-unique_from seen (t ∷ ts) s h =
    ground
      (arith, includes-unique_from seen ts s h, includes-unique_from (t ∷ seen) ts s, =t_iff t s)

unique_from-Distinct : (seen ss : List Text) → Distinct (unique_from seen ss)
unfolding unique_from includes
unique_from-Distinct seen [] = tt
unique_from-Distinct seen (s ∷ ss) = ground (
  arith,
  unique_from-Distinct seen ss,
  unique_from-Distinct (s ∷ seen) ss,
  includes-unique_from (s ∷ seen) ss s,
  =t_refl s,
)

pub unique-Distinct : (ss : List Text) → Distinct (unique ss)
unfolding unique
unique-Distinct ss = unique_from-Distinct [] ss
