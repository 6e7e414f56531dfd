-- ===== src/Base/DistinctLaws.antt =====
-- Texts that are all different, when one is added and when some are left out.
use mathlib.Core.Path.{◌≡◌, refl}
use mathlib.Core.Bool.{Bool, false, ◌||◌}
use mathlib.Core.List.{List, [], ◌∷◌, ◌++◌, map}
use native.Mathlib.Omega.{arith}
use not_gt.Base.Lists.{keep}
use not_gt.Base.Texts.{Text, ◌=t◌, =t_iff, includes}
use not_gt.Base.TextLaws.{Distinct}

pub includes-snoc :
    (xs : List Text) (y s : Text) → includes (xs ++ y ∷ []) s ≡ (includes xs s || (y =t s))
unfolding includes
includes-snoc [] y s = ground arith
includes-snoc (x ∷ xs) y s = ground (arith, includes-snoc xs y s)

pub Distinct-snoc :
    (xs : List Text) (y : Text) → Distinct xs → includes xs y ≡ false → Distinct (xs ++ y ∷ [])
unfolding includes
Distinct-snoc [] y d h = (refl, tt)
Distinct-snoc (x ∷ xs) y d h =
    ground (arith, Distinct-snoc xs y d.1, includes-snoc xs y x, =t_iff x y, =t_iff y x)

module _ {ℓ} {A : Type ℓ} (f : A → Text) (p : A → Bool) where
  pub includes-keep :
      (ts : List A) (s : Text)
      → includes (map f ts) s ≡ false
      → includes (map f (keep p ts)) s ≡ false
  unfolding includes
  includes-keep [] s h = refl
  includes-keep (t ∷ ts) s h = ground (arith, includes-keep ts s)

  pub Distinct-keep : (ts : List A) → Distinct (map f ts) → Distinct (map f (keep p ts))
  Distinct-keep [] d = tt
  Distinct-keep (t ∷ ts) d = ground (arith, Distinct-keep ts d.1, includes-keep ts (f t) d.0)
