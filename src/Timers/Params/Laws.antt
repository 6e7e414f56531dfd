-- ===== src/Timers/Params/Laws.antt =====
-- What the settings of a `create` or an `update` leave as it is, and what they check.
use not_gt.Base.{
  ◌≤◌, ◌≡◌, refl, ◌∙◌, ◌⊎◌, inl, inr, Text, codes, Bool, false, Option, none, some, List, arith,
  Option-cases, includes, is_empty,
}
use not_gt.Base.Int.{ℤ}
use not_gt.Json.{Value}
use not_gt.Timer.{Timer, timer_max_ms}
use not_gt.Timers.Params.{
  Result, ok, err, TimerError, ◌>>=◌, or_fail, Params, param, mode_of, duration, clamp_ms, set_name,
  set_key, set_mode, set_duration, set_overtime, set_format, set_groups, set_last,
  set_from_duration, set_from_mode, set_from_key, settings,
}

-- `b` is `a` after a change of its settings, with a key that is not among the `taken`.
pub record IsEdited (taken : List Text) (a b : Timer) : Type 0 where
  pub id : b.id ≡ a.id
  pub running : b.running ≡ a.running
  pub started_at : b.started_at ≡ a.started_at
  pub elapsed_ms : b.elapsed_ms ≡ a.elapsed_ms
  pub key : (b.key ≡ a.key) ⊎ ((includes taken b.key ≡ false) × (is_empty b.key ≡ false))
  pub duration_ms : a.duration_ms ≤ timer_max_ms → b.duration_ms ≤ timer_max_ms

module _ (taken : List Text) where
  IsEdited-trans : {a b c : Timer} → IsEdited taken a b → IsEdited taken b c → IsEdited taken a c
  IsEdited-trans {a} {b} {c} p q = record {
    id = q.id ∙ p.id;
    running = q.running ∙ p.running;
    started_at = q.started_at ∙ p.started_at;
    elapsed_ms = q.elapsed_ms ∙ p.elapsed_ms;
    key = ground (arith, p.key, q.key);
    duration_ms = λ h. q.duration_ms (p.duration_ms h);
  }

  set_name-IsEdited : (v : Value) (t : Timer) → IsEdited taken t (set_name v t)
  unfolding set_name
  set_name-IsEdited v t = ground arith

  set_key-IsEdited : (v : Value) (t u : Timer) → set_key taken v t ≡ ok u → IsEdited taken t u
  unfolding set_key
  set_key-IsEdited v t u h = ground arith

  set_mode-IsEdited : (v : Value) (t u : Timer) → set_mode v t ≡ ok u → IsEdited taken t u
  unfolding set_mode
  set_mode-IsEdited v t u h = elim (Option-cases (mode_of v)) [
    | inl e ↦ ground arith
    | inr (m, e) ↦ ground arith
  ]

  set_duration-IsEdited : (ms : Option ℤ) (t : Timer) → IsEdited taken t (set_duration ms t)
  unfolding set_duration clamp_ms
  set_duration-IsEdited ms t = ground arith

  set_overtime-IsEdited : (v : Value) (t : Timer) → IsEdited taken t (set_overtime v t)
  unfolding set_overtime
  set_overtime-IsEdited v t = ground arith

  set_format-IsEdited : (v : Value) (t u : Timer) → set_format v t ≡ ok u → IsEdited taken t u
  unfolding set_format
  set_format-IsEdited v t u h = ground arith

  set_groups-IsEdited :
      (hg : Option (Text → Bool)) (v : Value) (t u : Timer)
      → set_groups hg v t ≡ ok u
      → IsEdited taken t u
  unfolding set_groups
  set_groups-IsEdited hg v t u h = ground arith

module _ {ℓ κ} {A : Type ℓ} {B : Type κ} where
  -- When a chain gives an answer, so does its first step, and the rest gives the answer from it.
  pub ok-inv :
      (step : Result A) (rest : A → Result B) {answer : B}
      → (step >>= rest) ≡ ok answer
      → (given : A) × (step ≡ ok given) × (rest given ≡ ok answer)
  ok-inv (err e) rest h = cc
  ok-inv (ok given) rest h = (given, refl, h)

pub or_fail-eq-ok {ℓ} :
    {A : Type ℓ} (o : Option A) (e : TimerError) {a : A} → or_fail o e ≡ ok a → o ≡ some a
or_fail-eq-ok none e h = cc
or_fail-eq-ok (some b) e h = cc

set_from_mode-IsEdited :
    (taken : List Text) (hg : Option (Text → Bool)) (params : Params) (moded t : Timer)
    → set_from_mode hg params moded ≡ ok t
    → IsEdited taken moded t
unfolding set_from_mode
set_from_mode-IsEdited taken hg params moded t h =
    let (ms, hd, h1) =
      ok-inv (duration params (codes "duration")) (set_from_duration hg params moded) h in
    let timed = set_duration ms moded in
    let overtime = param params (codes "overtime") in
    let format = param params (codes "format") in
    let (formatted, hf, h2) =
      ok-inv (set_format format (set_overtime overtime timed)) (set_last hg params) h1 in
    IsEdited-trans taken (set_duration-IsEdited taken ms moded) (
      IsEdited-trans taken (set_overtime-IsEdited taken overtime timed) (
        IsEdited-trans taken
          (set_format-IsEdited taken format (set_overtime overtime timed) formatted hf)
          (set_groups-IsEdited taken hg (param params (codes "groups")) formatted t h2)))

-- Settings that are accepted change neither the id nor the running, the start or the elapsed time
-- of the timer, keep a duration that is within bounds within them, and leave its key or give it
-- one that is not empty and not taken.
pub settings-IsEdited :
    (hg : Option (Text → Bool)) (params : Params) (base : Timer) (taken : List Text) (t : Timer)
    → settings hg params base taken ≡ ok t
    → IsEdited taken base t
unfolding settings
settings-IsEdited hg params base taken t h =
    let name = param params (codes "name") in
    let key = param params (codes "key") in
    let mode = param params (codes "mode") in
    let named = set_name name base in
    let (keyed, hk, h1) = ok-inv (set_key taken key named) (set_from_key hg params) h in
    let (moded, hm, h2) = ok-inv (set_mode mode keyed) (set_from_mode hg params) h1 in
    IsEdited-trans taken (set_name-IsEdited taken name base) (
      IsEdited-trans taken (set_key-IsEdited taken key named keyed hk) (
        IsEdited-trans taken (set_mode-IsEdited taken mode keyed moded hm)
          (set_from_mode-IsEdited taken hg params moded t h2)))
