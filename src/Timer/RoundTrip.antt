-- ===== src/Timer/RoundTrip.antt =====
-- `parseTimerText` on the texts of `timerVars`, of bundles/notGT/src/shared/timer.ts.
use not_gt.Base.{
  ℕ, ◌+◌, ◌*◌, ◌/◌, ◌%◌, ◌^◌, ◌≤◌, ◌<◌, ◌≡◌, refl, ◌∙◌, ap, Text, true, false, some, List, [], ◌∷◌,
  ◌++◌, ◌==◌, ltb, if◌then◌else◌, length, is_empty, split_on, All, All-append, show_nat, show_from,
  pad_start, arith, is_space, digits_from, Bool-cases, ◌⊎◌, inl, inr,
}
use not_gt.Base.TextLaws.{
  digits_from-show_nat, digits_from-zeros, IsDigit, show_nat-IsDigit, show_nat_filled,
  pad_start-IsDigit, pad_start_filled, split_on_one, split_on-append, trim_id, All-mono,
}
use not_gt.Timer.{TimerFormat, timer_max_ms, pad, clock_text, has_tenths}
use not_gt.Timer.Parse.{
  Decimal, digits, read_decimal, add_part, add_parts, to_ms, comma_to_dot, parse_timer_text,
}

-- A text of digits that is read as `n`.
record IsNumber (n : ℕ) (s : Text) : Type 0 where
  all_digits : All IsDigit s
  filled : is_empty s ≡ false
  reads : digits s ≡ some n

show_nat-IsNumber : (n : ℕ) → IsNumber n (show_nat n)
unfolding digits show_nat digits_from
show_nat-IsNumber n = record {
  all_digits = show_nat-IsDigit n;
  filled = show_nat_filled n;
  reads = rw (show_nat_filled n) (digits_from-show_nat n);
}

pad-IsNumber : (n : ℕ) → IsNumber n (pad n)
unfolding pad digits pad_start show_nat digits_from
pad-IsNumber n = record {
  all_digits = pad_start-IsDigit 2 (show_nat n) (show_nat-IsDigit n);
  filled = pad_start_filled 2 (show_nat n) (show_nat_filled n);
  reads =
      rw (pad_start_filled 2 (show_nat n) (show_nat_filled n), digits_from-zeros)
        (digits_from-show_nat n);
}

abbrev whole : ℕ → Decimal
whole n = record { mantissa = n; places = 0 }

not_char : (c d : ℕ) → (c < b'0') ⊎ (b'9' < c) → IsDigit d → (d == c) ≡ false
not_char c d h i = ground arith

read_decimal-whole : (n : ℕ) (s : Text) → IsNumber n s → read_decimal s ≡ some (whole n)
unfolding read_decimal
read_decimal-whole n s h = rw (
  split_on_one b'.' s (All-mono (λ d. not_char b'.' d (inl (omega arith))) s h.all_digits),
  h.reads,
)

read_decimal_fraction :
    (n f : ℕ) (s r : Text)
    → IsNumber n s
    → IsNumber f r
    → read_decimal (s ++ b'.' ∷ r)
      ≡ some (record { mantissa = n * 10 ^ length r + f; places = length r })
unfolding read_decimal
read_decimal_fraction n f s r h k = rw (
  split_on-append b'.' s r (All-mono (λ d. not_char b'.' d (inl (omega arith))) s h.all_digits),
  split_on_one b'.' r (All-mono (λ d. not_char b'.' d (inl (omega arith))) r k.all_digits),
  h.reads,
  k.reads,
)

-- What stands in the text of a clock: digits, colons and a dot.
abbrev pub IsClock : ℕ → Type 0
IsClock c = (b'.' ≤ c) × (c ≤ b':')

pub clock_plain : (c : ℕ) → IsClock c → is_space c ≡ false
unfolding is_space
clock_plain c h = ground arith

comma_to_dot_id : (s : Text) → All IsClock s → comma_to_dot s ≡ s
unfolding comma_to_dot
comma_to_dot_id [] h = refl
comma_to_dot_id (c ∷ s) h = ground (arith, comma_to_dot_id s h.1)

-- A text of at most three parts is read part by part.
parse_of_parts :
    (s : Text) (parts : List Text) (d : Decimal)
    → All IsClock s
    → is_empty s ≡ false
    → split_on b':' s ≡ parts
    → length parts ≤ 3
    → add_parts (whole 0) parts ≡ some d
    → to_ms d ≤ timer_max_ms
    → parse_timer_text s ≡ some (to_ms d)
unfolding parse_timer_text
parse_of_parts s parts d c f sp l a m =
    rw (trim_id s (All-mono clock_plain s c), comma_to_dot_id s c, f, sp) (ground (arith, a))

digits-IsClock : (n : ℕ) (s : Text) → IsNumber n s → All IsClock s
digits-IsClock n s h = All-mono (λ c i. (omega arith, omega arith)) s h.all_digits

no_colon : (n : ℕ) (s : Text) → IsNumber n s → All (λ d. (d == b':') ≡ false) s
no_colon n s h = All-mono (λ d. not_char b':' d (inr (omega arith))) s h.all_digits

append_filled : (s r : Text) (c : ℕ) → is_empty (s ++ c ∷ r) ≡ false
append_filled [] r c = refl
append_filled (d ∷ s) r c = refl

parse_one :
    (n : ℕ) (s : Text)
    → IsNumber n s
    → n * 1000 ≤ timer_max_ms
    → parse_timer_text s ≡ some (n * 1000)
unfolding add_parts
parse_one n s h m =
    parse_of_parts s (s ∷ []) (whole n) (digits-IsClock n s h) h.filled
      (split_on_one b':' s (no_colon n s h)) (omega arith)
      (rw (read_decimal-whole n s h) (ap (λ k. some (whole k)) (omega arith))) (omega arith)
    ∙ ap some (omega arith)

add_two :
    (m : ℕ) (d : Decimal) (a b : Text)
    → IsNumber m a
    → read_decimal b ≡ some d
    → add_parts (whole 0) (a ∷ b ∷ []) ≡ some (add_part (whole m) d)
unfolding add_parts
add_two m d a b h k =
    rw (read_decimal-whole m a h, k) (ap (λ x. some (add_part (whole x) d)) (omega arith))

parse_two :
    (m s : ℕ) (a b : Text)
    → IsNumber m a
    → IsNumber s b
    → (m * 60 + s) * 1000 ≤ timer_max_ms
    → parse_timer_text (a ++ b':' ∷ b) ≡ some ((m * 60 + s) * 1000)
parse_two m s a b h k l =
    parse_of_parts (a ++ b':' ∷ b) (a ∷ b ∷ []) (add_part (whole m) (whole s))
      (All-append IsClock a (b':' ∷ b) (digits-IsClock m a h)
        ((omega arith, omega arith), digits-IsClock s b k))
      (append_filled a b b':')
      (rw (split_on-append b':' a b (no_colon m a h), split_on_one b':' b (no_colon s b k)))
      (omega arith) (add_two m (whole s) a b h (read_decimal-whole s b k)) (omega arith)
    ∙ ap some (omega arith)

parse_two_tenths :
    (m s f : ℕ) (a b c : Text)
    → IsNumber m a
    → IsNumber s b
    → IsNumber f c
    → length c ≡ 1
    → (m * 60 + s) * 1000 + 100 * f ≤ timer_max_ms
    → parse_timer_text (a ++ b':' ∷ (b ++ b'.' ∷ c)) ≡ some ((m * 60 + s) * 1000 + 100 * f)
parse_two_tenths m s f a b c h k j one l =
    parse_of_parts (a ++ b':' ∷ r) (a ∷ r ∷ [])
      (add_part (whole m) (record { mantissa = s * 10 + f; places = 1 }))
      (All-append IsClock a (b':' ∷ r) (digits-IsClock m a h) ((omega arith, omega arith), clock))
      (append_filled a r b':')
      (rw (split_on-append b':' a r (no_colon m a h), split_on_one b':' r colons)) (omega arith)
      (add_two m _ a r h (rw one at (read_decimal_fraction s f b c k j))) (omega arith)
    ∙ ap some (omega arith)
  where
    r : Text
    r = b ++ b'.' ∷ c

    clock : All IsClock r
    clock =
        All-append IsClock b (b'.' ∷ c) (digits-IsClock s b k)
          ((omega arith, omega arith), digits-IsClock f c j)

    colons : All (λ d. (d == b':') ≡ false) r
    colons =
        All-append (λ d. (d == b':') ≡ false) b (b'.' ∷ c) (no_colon s b k) (refl, no_colon f c j)

parse_three :
    (n m s : ℕ) (a b c : Text)
    → IsNumber n a
    → IsNumber m b
    → IsNumber s c
    → (n * 3600 + m * 60 + s) * 1000 ≤ timer_max_ms
    → parse_timer_text (a ++ b':' ∷ (b ++ b':' ∷ c)) ≡ some ((n * 3600 + m * 60 + s) * 1000)
unfolding add_parts
parse_three n m s a b c h k j l =
    parse_of_parts (a ++ b':' ∷ r) (a ∷ b ∷ c ∷ [])
      (add_part (add_part (whole n) (whole m)) (whole s))
      (All-append IsClock a (b':' ∷ r) (digits-IsClock n a h) ((omega arith, omega arith), clock))
      (append_filled a r b':')
      (rw (
        split_on-append b':' a r (no_colon n a h),
        split_on-append b':' b c (no_colon m b k),
        split_on_one b':' c (no_colon s c j),
      ))
      (omega arith)
      (rw (read_decimal-whole n a h, read_decimal-whole m b k, read_decimal-whole s c j)
        (ap (λ x. some (add_part (add_part (whole x) (whole m)) (whole s))) (omega arith)))
      (omega arith)
    ∙ ap some (omega arith)
  where
    r : Text
    r = b ++ b':' ∷ c

    clock : All IsClock r
    clock =
        All-append IsClock b (b':' ∷ c) (digits-IsClock m b k)
          ((omega arith, omega arith), digits-IsClock s c j)

-- A tenth is one digit.
length-tenth : (f : ℕ) → f < 10 → length (show_nat f) ≡ 1
unfolding show_nat show_from
length-tenth f h = ground arith

-- The text of a clock is read as its seconds, and its tenth where it has one.
pub parse_timer_text-clock_text :
    (f : TimerFormat) (total tenth : ℕ)
    → tenth < 10
    → total * 1000 + (if has_tenths f then 100 * tenth else 0) ≤ timer_max_ms
    → parse_timer_text (clock_text f total (total / 3600) (total % 3600 / 60) (total % 60) tenth)
      ≡ some (total * 1000 + (if has_tenths f then 100 * tenth else 0))
parse_timer_text-clock_text TimerFormat.hh_mm_ss n f t l =
    parse_three _ _ _ _ _ _ (pad-IsNumber (n / 3600)) (pad-IsNumber (n % 3600 / 60))
      (pad-IsNumber (n % 60)) (omega arith)
    ∙ ap some (omega arith)
parse_timer_text-clock_text TimerFormat.mm_ss n f t l =
    parse_two _ _ _ _ (pad-IsNumber (n / 60)) (pad-IsNumber (n % 60)) (omega arith)
    ∙ ap some (omega arith)
parse_timer_text-clock_text TimerFormat.ss n f t l =
    parse_one n _ (show_nat-IsNumber n) (omega arith) ∙ ap some (omega arith)
parse_timer_text-clock_text TimerFormat.mm_ss_t n f t l =
    parse_two_tenths _ _ _ _ _ _ (pad-IsNumber (n / 60)) (pad-IsNumber (n % 60))
      (show_nat-IsNumber f) (length-tenth f t) (omega arith)
    ∙ ap some (omega arith)
parse_timer_text-clock_text TimerFormat.auto n f t l = elim (Bool-cases (ltb 0 (n / 3600))) [
  | inl e ↦ rw e (
      parse_three _ _ _ _ _ _ (show_nat-IsNumber (n / 3600)) (pad-IsNumber (n % 3600 / 60))
        (pad-IsNumber (n % 60)) (omega arith)
      ∙ ap some (omega arith))
  | inr e ↦ rw e (
      parse_two _ _ _ _ (pad-IsNumber (n % 3600 / 60)) (pad-IsNumber (n % 60)) (ground arith)
      ∙ ap some (ground arith))
]

number-IsClock : (n : ℕ) → All IsClock (show_nat n)
number-IsClock n = digits-IsClock n (show_nat n) (show_nat-IsNumber n)

pad-IsClock : (n : ℕ) → All IsClock (pad n)
pad-IsClock n = digits-IsClock n (pad n) (pad-IsNumber n)

join-IsClock :
    (c : ℕ) (a b : Text) → IsClock c → All IsClock a → All IsClock b → All IsClock (a ++ c ∷ b)
join-IsClock c a b i h k = All-append IsClock a (c ∷ b) h (i, k)

-- The text of a clock holds no sign, no comma and no space.
pub clock_text-IsClock :
    (f : TimerFormat) (total hours minutes seconds tenth : ℕ)
    → All IsClock (clock_text f total hours minutes seconds tenth)
clock_text-IsClock TimerFormat.hh_mm_ss n h m s t =
    join-IsClock b':' (pad h) _ (omega arith) (pad-IsClock h)
      (join-IsClock b':' (pad m) (pad s) (omega arith) (pad-IsClock m) (pad-IsClock s))
clock_text-IsClock TimerFormat.mm_ss n h m s t =
    join-IsClock b':' (pad (n / 60)) (pad s) (omega arith) (pad-IsClock (n / 60)) (pad-IsClock s)
clock_text-IsClock TimerFormat.ss n h m s t = number-IsClock n
clock_text-IsClock TimerFormat.mm_ss_t n h m s t =
    join-IsClock b':' (pad (n / 60)) _ (omega arith) (pad-IsClock (n / 60))
      (join-IsClock b'.' (pad s) (show_nat t) (omega arith) (pad-IsClock s) (number-IsClock t))
clock_text-IsClock TimerFormat.auto n h m s t =
    elim (ltb 0 h)
      as (λ b.
        All IsClock
          (if b then show_nat h ++ b':' ∷ (pad m ++ b':' ∷ pad s) else pad m ++ b':' ∷ pad s)) [
            | true ↦
                join-IsClock b':' (show_nat h) _ (omega arith) (number-IsClock h)
                  (join-IsClock b':' (pad m) (pad s) (omega arith) (pad-IsClock m) (pad-IsClock s))
            | false ↦
                join-IsClock b':' (pad m) (pad s) (omega arith) (pad-IsClock m) (pad-IsClock s)
          ]
