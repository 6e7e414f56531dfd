-- ===== src/Ws/View/Laws.antt =====
-- What a client with a limited reach is told, in bundles/notGT/src/extension/ws.ts.
use not_gt.Base.{
  ◌≡◌, ◌↔◌, refl, Bool, subst, Text, true, false, none, some, List, [], ◌∷◌, keep, if◌then◌else◌,
  arith, Bool-cases, inl, inr, includes, Dict, lookup, =t_iff,
}
use mathlib.Core.List.{Memᴰ}
use not_gt.Model.{ActiveTitleState}
use not_gt.Store.{default_active}
use not_gt.Ws.View.{OutView, TimerView, PublicState, shares, is_foreign, state_for}

lookup-keep :
    {V : Type 0} (os : List Text) (o : Text) (m : Dict V)
    → lookup o (keep (λ e. includes os e.0) m) ≡ (if includes os o then lookup o m else none)
unfolding lookup
lookup-keep os o [] = ground arith
lookup-keep os o ((k, v) ∷ m) = ground (arith, lookup-keep os o m, =t_iff k o)

-- What the server would say of the program output if it held another title.
abbrev pub with_title : ActiveTitleState → PublicState → PublicState
with_title a full = record full {
  active = a;
  active_template_id = a.template_id;
  active_visible = a.visible;
  active_out_id = a.out_id;
}

module _ {A : Type 0} (p : A → Bool) (x : A) where
  kept_first :
      (y : A) (xs : List A)
      → p y ≡ true
      → (Memᴰ x (keep p xs) → Memᴰ x xs × (p x ≡ true))
      → Memᴰ x (y ∷ keep p xs)
      → Memᴰ x (y ∷ xs) × (p x ≡ true)
  kept_first y xs e rest (Memᴰ.head q) = (Memᴰ.head q, rw q e)
  kept_first y xs e rest (Memᴰ.tail m) = let r = rest m in (Memᴰ.tail r.0, r.1)

  kept_from : (xs : List A) → Memᴰ x (keep p xs) → Memᴰ x xs × (p x ≡ true)
  kept_from [] h = elim h [ ]
  kept_from (y ∷ xs) h = from (kept_from xs) h
    where
      from :
          (Memᴰ x (keep p xs) → Memᴰ x xs × (p x ≡ true))
          → Memᴰ x (keep p (y ∷ xs))
          → Memᴰ x (y ∷ xs) × (p x ≡ true)
      from rest = elim (Bool-cases (p y)) [
        | inl e ↦ rw e (kept_first y xs e rest)
        | inr e ↦ rw e (λ m. let r = rest m in (Memᴰ.tail r.0, r.1))
      ]

  kept_into : (xs : List A) → Memᴰ x xs → p x ≡ true → Memᴰ x (keep p xs)
  kept_into [] m h = elim m [ ]
  kept_into (y ∷ xs) (Memᴰ.head q) h =
      let e : p y ≡ true = subst (λ z. p z ≡ true) q h in rw e (Memᴰ.head q)
  kept_into (y ∷ xs) (Memᴰ.tail m) h = elim (Bool-cases (p y)) [
    | inl e ↦ rw e (Memᴰ.tail (kept_into xs m h))
    | inr e ↦ rw e (kept_into xs m h)
  ]

  kept_there : (xs : List A) → Memᴰ x (keep p xs) ↔ (Memᴰ x xs × (p x ≡ true))
  kept_there xs = (kept_from xs, λ h. kept_into xs h.0 h.1)

-- A client that reaches some outs and some groups is told of exactly the placements on air on those outs, of
-- exactly the outs that it reaches, and of exactly the timers that are shared with everyone or with one of its
-- groups. Of a title that is shown on another out it is told nothing but when it was last touched: it is told what
-- it would be told if no title had been shown. Of every other title it is told what the server says of it.
pub state_for-limited :
    (os groups : List Text) (full : PublicState) (a : ActiveTitleState)
    → let shown = with_title a full in
      let told = state_for (some os) (some groups) shown in
      ((o : Text) → lookup o told.playing ≡ (if includes os o then lookup o full.playing else none))
      × ((v : OutView) → Memᴰ v told.outs ↔ (Memᴰ v full.outs × (includes os v.id ≡ true)))
      × ((t : TimerView) → Memᴰ t told.timers ↔ (Memᴰ t full.timers × (shares groups t ≡ true)))
      × (is_foreign os a.out_id ≡ true
          → told
            ≡ state_for (some os) (some groups) (with_title (default_active a.updated_at) full))
      × (is_foreign os a.out_id ≡ false
          → (told.active ≡ a)
            × (told.active_template_id ≡ a.template_id)
            × (told.active_visible ≡ a.visible)
            × (told.active_out_id ≡ a.out_id))
unfolding state_for
state_for-limited os groups full a = elim (Bool-cases (is_foreign os a.out_id)) [
  | inl f ↦ rw f (
    (λ o. lookup-keep os o full.playing),
    (λ v. kept_there (λ v. includes os v.id) v full.outs),
    (λ t. kept_there (shares groups) t full.timers),
    (λ h. refl),
    (λ h. absurd (ground (arith, h))),
  )
  | inr f ↦ rw f (
    (λ o. lookup-keep os o full.playing),
    (λ v. kept_there (λ v. includes os v.id) v full.outs),
    (λ t. kept_there (shares groups) t full.timers),
    (λ h. absurd (ground (arith, h))),
    (λ h. (refl, refl, refl, refl)),
  )
]
