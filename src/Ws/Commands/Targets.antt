-- ===== src/Ws/Commands/Targets.antt =====
-- The outs that the commands of bundles/notGT/src/extension/ws.ts are about, for a client with a limited reach.
use not_gt.Base.{
  ◌≡◌, inl, inr, Text, true, false, Option, some, List, [], ◌∷◌, arith, Bool-cases, Option-cases,
  ◌=t◌, =t_iff, =t_refl, includes,
}
use not_gt.Timers.Params.{Params}
use not_gt.Ws.{
  Reply, accepted, rejected, and_then, Outs, out_of, within, sole_out, target_out, reach_of,
}

-- A text in the list is not one that is not in it.
pub apart :
    (os : List Text) (p o : Text) → includes os p ≡ true → includes os o ≡ false → (p =t o) ≡ false
apart os p o hp ho = ground (arith, hp, ho, =t_iff p o)

pub sole_out-includes :
    (os : List Text) (t : Option Text)
    → sole_out os ≡ accepted t
    → (p : Text) × (t ≡ some p) × (includes os p ≡ true)
unfolding includes
sole_out-includes [] t h = absurd (ground (arith, h))
sole_out-includes (p ∷ []) t h = (p, ground (arith, h), ground (arith, =t_refl p))
sole_out-includes (p ∷ q ∷ os) t h = absurd (ground (arith, h))

module _ (os : List Text) where
  pub within-same :
      (p : Text) (r : Reply Text)
      → and_then r (within (some os)) ≡ accepted p
      → within (some os) p ≡ accepted p
  unfolding within
  within-same p (rejected e) h = absurd (ground (arith, h))
  within-same p (accepted q) h = elim (Bool-cases (includes os q)) [
    | inl m ↦ ground (arith, h, m)
    | inr m ↦ absurd (ground (arith, h, m))
  ]

  pub within-includes : (o p : Text) → within (some os) o ≡ accepted p → includes os p ≡ true
  unfolding within
  within-includes o p h = ground (arith, h)

  -- The out that a command puts something on is in reach.
  pub target_out-includes :
      (params : Params) (t : Option Text)
      → target_out params (some os) ≡ accepted t
      → (p : Text) × (t ≡ some p) × (includes os p ≡ true)
  unfolding target_out within includes
  target_out-includes params t h = elim (Option-cases (out_of params)) [
    | inl e ↦ sole_out-includes os t (ground (arith, e, h))
    | inr (p, e) ↦ elim (Bool-cases (includes os p)) [
      | inl m ↦ (p, ground (arith, e, h, m), m)
      | inr m ↦ absurd (ground (arith, e, h, m))
    ]
  ]

  -- The outs that a command takes something off are in reach.
  pub reach_of-includes :
      (params : Params) (r : Outs)
      → reach_of params (some os) ≡ accepted r
      → (ps : List Text) × (r ≡ some ps)
        × ((o : Text) → includes os o ≡ false → includes ps o ≡ false)
  unfolding reach_of within includes
  reach_of-includes params r h = elim (Option-cases (out_of params)) [
    | inl e ↦ (os, ground (arith, e, h), λ o g. g)
    | inr (p, e) ↦ elim (Bool-cases (includes os p)) [
      | inl m ↦ (p ∷ [], ground (arith, e, h, m), λ o g. ground (arith, apart os p o m g))
      | inr m ↦ absurd (ground (arith, e, h, m))
    ]
  ]
