-- ===== src/Ngt/Bytes.antt =====
-- Bytes of a `.ngt` file put together and taken apart.
use not_gt.Base.{ℕ, zero, suc, ◌/◌, ◌^◌, ◌<◌, ◌≡◌, refl, ap, [], ◌∷◌, ◌++◌, length, arith}
use not_gt.Timers.Params.{take}
use not_gt.Auth.Guard.{drop}
use not_gt.Ngt.{Bytes, little_endian, of_little_endian}

pub of_little_endian-little_endian :
    (k n : ℕ) → n < 256 ^ k → of_little_endian (little_endian k n) ≡ n
of_little_endian-little_endian zero n h = omega arith
of_little_endian-little_endian (suc k) n h =
    ground (arith, of_little_endian-little_endian k (n / 256) (omega arith))

pub append-append : (a b c : Bytes) → (a ++ b) ++ c ≡ a ++ (b ++ c)
append-append [] b c = refl
append-append (x ∷ a) b c = ap (λ t. x ∷ t) (append-append a b c)

pub take-append : (a b : Bytes) → take (length a) (a ++ b) ≡ a
take-append [] b = refl
take-append (x ∷ a) b = ap (λ t. x ∷ t) (take-append a b)

pub drop-append : (a b : Bytes) → drop (length a) (a ++ b) ≡ b
drop-append [] b = refl
drop-append (x ∷ a) b = drop-append a b
