-- ===== src/Slug.antt =====
-- `slugify` of bundles/notGT/src/shared/types.ts and `uniqueTimerKey` of shared/timer.ts.
pub mod Laws
pub mod Unique
use not_gt.Base.{
  ℕ, zero, suc, ◌+◌, Text, codes, Bool, true, false, ◌&&◌, ◌||◌, List, [], ◌∷◌, ◌++◌, ◌==◌, leb,
  if◌then◌else◌, is_empty, includes, trim, trim_start, trim_end, show_nat, length, not,
}

-- `toLowerCase`, as far as it makes letters of ASCII: the Kelvin sign and the dotted capital I do.
abbrev lower : ℕ → Text
lower c =
    if leb b'A' c && leb c b'Z'
    then (c + 32) ∷ []
    else if c == 0x212a
    then b'k' ∷ []
    else if c == 0x130
    then b'i' ∷ 0x307 ∷ []
    else c ∷ []

unfoldable pub to_lower : Text → Text
to_lower [] = []
to_lower (c ∷ s) = lower c ++ to_lower s

abbrev pub is_slug_char : ℕ → Bool
is_slug_char c = (leb b'a' c && leb c b'z') || (leb b'0' c && leb c b'9')

-- `replace(/[^a-z0-9]+/g, "-")`; `in_run` says that the dash of a run is written.
unfoldable pub dashed : Bool → Text → Text
dashed in_run [] = []
dashed in_run (c ∷ s) =
    let rest = dashed (not (is_slug_char c)) s in
    if is_slug_char c then c ∷ rest else if in_run then rest else b'-' ∷ rest

abbrev pub is_dash : ℕ → Bool
is_dash c = c == b'-'

unfoldable pub slug_of : Text → Text
slug_of input = trim_end is_dash (trim_start is_dash (dashed false (trim (to_lower input))))

unfoldable pub slugify : Text → Text → Text
unfolding slug_of to_lower dashed
slugify input fallback = if is_empty (slug_of input) then fallback else slug_of input

-- The loop of `uniqueTimerKey` from the suffix `n`; the fuel bounds the keys that it tries.
unfoldable pub first_free : ℕ → Text → ℕ → List Text → Text
first_free zero base n used = base ++ b'-' ∷ show_nat n
first_free (suc fuel) base n used =
    let candidate = base ++ b'-' ∷ show_nat n in
    let rest = first_free fuel base (n + 1) used in
    if not (includes used candidate) then candidate else rest

unfoldable pub unique_timer_key : Text → List Text → Text
unfolding first_free
unique_timer_key name taken =
    let base = slugify name (codes "timer") in
    let numbered = first_free (length taken) base 2 taken in
    if not (includes taken base) then base else numbered
