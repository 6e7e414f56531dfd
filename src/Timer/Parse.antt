-- ===== src/Timer/Parse.antt =====
-- `parseTimerText` of bundles/notGT/src/shared/timer.ts. A number is read exactly, as a fraction
-- over a power of ten, where the source adds floating-point numbers up.
use not_gt.Base.{
  ℕ, ◌+◌, ◌*◌, ◌/◌, ◌^◌, Text, Option, none, some, List, [], ◌∷◌, ◌==◌, ltb, leb, if◌then◌else◌,
  ◌>>=◌, length, is_empty, split_on, trim, is_digit, digits_from,
}
use not_gt.Timer.{timer_max_ms}

-- `mantissa / 10 ^ places`.
pub record Decimal : Type 0 where
  pub mantissa : ℕ
  pub places : ℕ

-- `\d+`.
unfoldable pub digits : Text → Option ℕ
digits s = if is_empty s then none else digits_from 0 s

-- `^\d+(\.\d+)?$`, and the number it matches.
read_parts : List Text → Option Decimal
read_parts (whole ∷ []) = do n ← digits whole; some (record { mantissa = n; places = 0 })
read_parts (whole ∷ fraction ∷ []) = do
  n ← digits whole
  f ← digits fraction
  some (record { mantissa = n * 10 ^ length fraction + f; places = length fraction })
read_parts _ = none

unfoldable pub read_decimal : Text → Option Decimal
unfolding read_parts digits is_digit digits_from
read_decimal part = read_parts (split_on b'.' part)

-- `seconds * 60 + Number(part)`.
abbrev pub add_part : Decimal → Decimal → Decimal
add_part seconds part = record {
  mantissa = seconds.mantissa * 60 * 10 ^ part.places + part.mantissa * 10 ^ seconds.places;
  places = seconds.places + part.places;
}

unfoldable pub add_parts : Decimal → List Text → Option Decimal
add_parts seconds [] = some seconds
add_parts seconds (part ∷ parts) = do d ← read_decimal part; add_parts (add_part seconds d) parts

-- `Math.round(seconds * 1000)`.
abbrev pub to_ms : Decimal → ℕ
to_ms d = (2 * 1000 * d.mantissa + 10 ^ d.places) / (2 * 10 ^ d.places)

-- `text.replace(",", ".")`: the first one only.
unfoldable pub comma_to_dot : Text → Text
comma_to_dot [] = []
comma_to_dot (c ∷ s) = if c == b',' then b'.' ∷ s else c ∷ comma_to_dot s

unfoldable pub parse_timer_text : Text → Option ℕ
parse_timer_text input =
    let text = comma_to_dot (trim input) in
    let parts = split_on b':' text in
    if is_empty text then none else if ltb 3 (length parts) then none else do
      seconds ← add_parts (record { mantissa = 0; places = 0 }) parts
      if leb (to_ms seconds) timer_max_ms then some (to_ms seconds) else none
