-- ===== src/Ws/Commands/Select/Laws.antt =====
-- Stepping through a list variable with `select` of bundles/notGT/src/extension/ws.ts.
use not_gt.Base.{
  ℕ, zero, suc, ◌+◌, ◌-◌, ◌%◌, min, ◌<◌, ◌≡◌, refl, if◌then◌else◌, arith, ◌==◌, Bool-cases, inl,
  inr,
}
use not_gt.Base.Int.{ℤ, pos, negsuc, pos_part, neg_part, ◌+ℤ◌}
use native.Mathlib.Nat.{mod-lt, mod-eq_of_lt, mod_self, mod-mod, add-mod_right, mod-suc}
use not_gt.Json.{Value}
use not_gt.Ws.Commands.Select.{remainder, wrapped, clamped, stays, step_to}

wrapped-pos : (n m : ℕ) → wrapped (pos n) (suc m) ≡ n % suc m
unfolding wrapped ◌+ℤ◌
wrapped-pos n m = ground (arith, add-mod_right (n % suc m) (suc m), mod-mod n (suc m))

wrapped-last : (m : ℕ) → wrapped (negsuc 0) (suc m) ≡ m
unfolding wrapped ◌+ℤ◌
wrapped-last zero = refl
wrapped-last (suc m) =
    ground (arith, mod-eq_of_lt {n = 1} {m = suc (suc m)} (omega arith), mod-suc (suc m))

next : (m k : ℕ) → k < suc m → wrapped (pos (k + 1)) (suc m) ≡ (if k == m then 0 else k + 1)
next m k h = elim (Bool-cases (k == m)) [
  | inl e ↦ ground (arith, e, wrapped-pos (k + 1) m, mod_self (suc m))
  | inr e ↦
      ground
        (arith, e, wrapped-pos (k + 1) m, mod-eq_of_lt {n = k + 1} {m = suc m} (ground (arith, e)))
]

back : (m k : ℕ) → k < suc m → wrapped (pos k +ℤ negsuc 0) (suc m) ≡ (if k == 0 then m else k - 1)
unfolding ◌+ℤ◌
back m zero h = wrapped-last m
back m (suc k) h = ground (arith, wrapped-pos k m, mod-eq_of_lt {n = k} {m = suc m} (omega arith))

-- A step of a selection in a list that is not empty ends in the list. Without `wrap: false` one step ahead
-- of the last element is the first, one step back of the first is the last, and any other step of one goes
-- to the element beside it; with it the first and the last element hold.
pub step_to-wraps :
    (wrap : Value) (m k : ℕ) (i : ℤ)
    → k < suc m
    → (pos_part (step_to wrap (suc m) i) < suc m)
      × (neg_part (step_to wrap (suc m) i) ≡ 0)
      × (step_to wrap (suc m) (pos (k + 1))
          ≡ pos (if stays wrap then min m (k + 1) else if k == m then 0 else k + 1))
      × (step_to wrap (suc m) (pos k +ℤ negsuc 0)
          ≡ pos (if stays wrap then k - 1 else if k == 0 then m else k - 1))
unfolding step_to wrapped clamped ◌+ℤ◌
step_to-wraps wrap m k i h = (
  ground (arith, mod-lt (pos_part (remainder i (suc m) +ℤ pos (suc m))) {m = suc m} (omega arith)),
  refl,
  ground (arith, next m k h),
  ground (arith, back m k h),
)
