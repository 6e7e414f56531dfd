-- ===== src/Base/Texts.antt =====
-- Strings of the source as lists of code points, with the tests and methods that the source uses.
use Prim.Native.Nat.{ℕ, zero, suc, ◌+◌, ◌-◌, ◌/◌, ◌%◌}
use Prim.Native.Char.{code}
use Prim.Native.String.{String}
use mathlib.Core.Path.{◌≡◌, refl}
use mathlib.Core.Logic.{◌↔◌}
use mathlib.Core.Bool.{Bool, true, false, ◌&&◌, ◌||◌}
use Prim.Native.Nat.{◌*◌}
use mathlib.Core.Option.{Option, none, some}
use mathlib.Core.List.{List, [], ◌∷◌}
use native.Mathlib.Omega.{arith}
use not_gt.Base.Tests.{ltb, leb, ◌==◌, if◌then◌else◌}
use not_gt.Base.Lists.{length}

abbrev pub Text : Type 0
Text = List ℕ

-- A literal of the source.
abbrev pub codes : String → Text
codes String.[] = []
codes (String.◌∷◌ c s) = code c ∷ codes s

-- `s === t`.
infix 50 ◌=t◌
unfoldable pub ◌=t◌ : Text → Text → Bool
[] =t [] = true
[] =t (_ ∷ _) = false
(_ ∷ _) =t [] = false
(c ∷ s) =t (d ∷ t) = (c == d) && (s =t t)

pub =t_sound : (s t : Text) → (s =t t) ≡ true → s ≡ t
unfolding ◌=t◌
=t_sound [] [] h = refl
=t_sound [] (_ ∷ _) h = cc
=t_sound (_ ∷ _) [] h = cc
=t_sound (c ∷ s) (d ∷ t) h = ground (arith, =t_sound s t)

pub =t_refl : (s : Text) → (s =t s) ≡ true
unfolding ◌=t◌
=t_refl [] = refl
=t_refl (c ∷ s) = ground (arith, =t_refl s)

pub =t_iff : (s t : Text) → ((s =t t) ≡ true) ↔ (s ≡ t)
=t_iff s t = (=t_sound s t, λ e. rw e (=t_refl t))

-- `s === ""`, `list.length === 0`.
abbrev pub is_empty {ℓ} : {A : Type ℓ} → List A → Bool
is_empty [] = true
is_empty (_ ∷ _) = false

-- `list.includes(s)`.
unfoldable pub includes : List Text → Text → Bool
includes [] s = false
includes (t ∷ ts) s = (t =t s) || includes ts s

-- `[...new Set(ids)]`: the first of each, in order.
unfoldable pub unique_from : List Text → List Text → List Text
unique_from seen [] = []
unique_from seen (s ∷ ss) =
    let rest = unique_from (s ∷ seen) ss in
    let others = unique_from seen ss in if includes seen s then others else s ∷ rest

unfoldable pub unique : List Text → List Text
unfolding unique_from
unique ss = unique_from [] ss

-- `String(n)` for a whole number that is not negative; the fuel is above the number of digits.
unfoldable pub show_from : ℕ → ℕ → Text → Text
show_from zero n acc = acc
show_from (suc fuel) n acc =
    let rest = show_from fuel (n / 10) ((b'0' + n % 10) ∷ acc) in
    if ltb n 10 then (b'0' + n) ∷ acc else rest

unfoldable pub show_nat : ℕ → Text
unfolding show_from
show_nat n = show_from (suc n) n []

-- `s.padStart(size, "0")`.
abbrev pub zeros : ℕ → Text → Text
zeros zero s = s
zeros (suc n) s = b'0' ∷ zeros n s

unfoldable pub pad_start : ℕ → Text → Text
pad_start size s = zeros (size - length s) s

-- `s.split(c)`: never empty.
abbrev pub extend_first : ℕ → List Text → List Text
extend_first d [] = (d ∷ []) ∷ []
extend_first d (part ∷ parts) = (d ∷ part) ∷ parts

unfoldable pub split_on : ℕ → Text → List Text
split_on c [] = [] ∷ []
split_on c (d ∷ s) = let parts = split_on c s in if d == c then [] ∷ parts else extend_first d parts

-- `s.trim()`: the white space and line ends of ECMAScript.
unfoldable pub is_space : ℕ → Bool
is_space c =
    (leb 9 c && leb c 13)
    || (c == 32)
    || (c == 160)
    || (c == 0x1680)
    || (leb 0x2000 c && leb c 0x200a)
    || (c == 0x2028)
    || (c == 0x2029)
    || (c == 0x202f)
    || (c == 0x205f)
    || (c == 0x3000)
    || (c == 0xfeff)

unfoldable pub trim_start : (ℕ → Bool) → Text → Text
trim_start p [] = []
trim_start p (c ∷ s) = let rest = trim_start p s in if p c then rest else c ∷ s

unfoldable pub trim_end : (ℕ → Bool) → Text → Text
trim_end p [] = []
trim_end p (c ∷ s) = let rest = trim_end p s in if p c && is_empty rest then [] else c ∷ rest

unfoldable pub trim : Text → Text
unfolding trim_start trim_end is_space
trim s = trim_end is_space (trim_start is_space s)

-- Reading a number.
unfoldable pub is_digit : ℕ → Bool
is_digit c = leb b'0' c && leb c b'9'

-- The number that digits after those of `acc` make; `none` at any other character.
unfoldable pub digits_from : ℕ → Text → Option ℕ
digits_from acc [] = some acc
digits_from acc (c ∷ s) =
    let rest = digits_from (acc * 10 + (c - b'0')) s in if is_digit c then rest else none
