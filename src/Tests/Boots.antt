-- ===== src/Tests/Boots.antt =====
-- The theorems about the timers that are normalized, at one input.
use not_gt.Base.{◌≡◌, refl, codes, none, some, [], ◌∷◌, map, All, true}
use not_gt.Base.Int.{pos}
use not_gt.Json.{undef, num, str, bool, arr, nil}
use not_gt.Timers.Stored.{RawTimer, normalize_all}
use not_gt.Timers.Stored.Laws.{
  stored, normal, entry_of, IsNamed, normalize_all-stored, normalize_all_again,
}
use not_gt.Tests.{two_timers}

two_timers-IsNamed : All IsNamed two_timers
two_timers-IsNamed = (
  record { id = refl; name = refl; key = refl; started = refl },
  (record { id = refl; name = refl; key = refl; started = refl }, tt),
)

normalize_all-stored_example :
    normalize_all (λ k. 9000) (λ k. codes "t9") (map stored two_timers) 0 ≡ map normal two_timers
normalize_all-stored_example =
    normalize_all-stored (λ k. 9000) (λ k. codes "t9") two_timers 0 two_timers-IsNamed

-- It claims to run, and has no start; its name is a number, and its duration a text.
abbrev damaged : RawTimer
damaged = record {
  id = undef;
  name = num (pos 7);
  key = str (codes "break");
  mode = str (codes "sideways");
  duration_ms = str (codes "5:00");
  overtime = undef;
  format = undef;
  running = bool true;
  started_at = none;
  elapsed_ms = none;
  groups = arr nil;
  created_at = some 1000;
  updated_at = none;
}

normalize_all_again_example :
    normalize_all
      (λ k. 9999)
      (λ k. codes "t8")
      (map entry_of (normalize_all (λ k. 9000) (λ k. codes "t9") (damaged ∷ []) 0))
      0
    ≡ normalize_all (λ k. 9000) (λ k. codes "t9") (damaged ∷ []) 0
normalize_all_again_example =
    normalize_all_again (λ k. 9000) (λ k. 9999) (λ k. codes "t9") (λ k. codes "t8") (damaged ∷ []) 0
      0 (λ k. refl)
