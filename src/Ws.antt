-- ===== src/Ws.antt =====
-- bundles/notGT/src/extension/ws.ts: the WebSocket API. A client is who signed in and the topics that it
-- listens to; the caches of the last frames, the timeouts that gather changes and the heartbeat are left out.
pub mod Commands
pub mod View
pub mod Session
pub mod Frames
use not_gt.Base.{
  ℕ, zero, suc, ◌+◌, ◌*◌, ◌-◌, Text, codes, Bool, true, false, not, ◌&&◌, ◌||◌, Option, none, some,
  List, [], ◌∷◌, ◌++◌, ◌==◌, if◌then◌else◌, is_empty, is_some, get_or, ◌=t◌, includes, trim,
  digits_from, keep, any, map,
}
use not_gt.Base.Int.{ℤ, pos, sub_ℕ}
use not_gt.Json.{Value, undef, null, bool, num, str, arr, obj, items, Fields, fields, show_int}
use not_gt.Model.{TitleData}
use not_gt.Timers.Params.{Params, param}
use not_gt.Timers.Settle.{State}
use not_gt.Scheduler.{Scheduler}
use not_gt.Team.{Team}
use not_gt.Auth.{Principal}
use not_gt.Auth.Guard.{or_else}

pub data Topic : Type 0 where
  state_topic data_topic timers_topic : Topic

pub record Client : Type 0 where
  pub principal : Option Principal
  pub topics : List Topic

-- What the commands work on.
pub record Live : Type 0 where
  pub scheduler : Scheduler
  pub timers : State

pub data CommandError : Type 0 where
  bad_request not_found forbidden : CommandError

pub data Reply {ℓ} (A : Type ℓ) : Type ℓ where
  accepted : A → Reply A
  rejected : CommandError → Reply A

abbrev pub and_then {ℓ κ} : {A : Type ℓ} {B : Type κ} → Reply A → (A → Reply B) → Reply B
and_then (rejected e) f = rejected e
and_then (accepted a) f = f a

-- `pickString`.
unfoldable pub pick_string : Value → Option Text
pick_string (str s) = if is_empty (trim s) then none else some (trim s)
pick_string (num n) = some (show_int n)
pick_string v = none

abbrev signed : ℕ → Text → Option ℤ
signed sign s = elim (digits_from 0 s) [
  | none ↦ none
  | some n ↦ some (if sign == b'-' then sub_ℕ 0 n else pos n)
]

-- `Number(value)` of digits with or without a sign; other spellings of a number are left out.
abbrev pub number_text : Text → Option ℤ
number_text [] = none
number_text (c ∷ s) =
    if ((c == b'-') || (c == b'+')) && not (is_empty s) then signed c s else signed 0 (c ∷ s)

-- `pickNumber`.
unfoldable pub pick_number : Value → Option ℤ
pick_number (num n) = some n
pick_number (str s) = number_text (trim s)
pick_number v = none

abbrev found : Option Text → Reply Text → Reply Text
found none later = later
found (some s) later = accepted s

unfoldable pub require_string : Params → List Text → Reply Text
unfolding pick_string
require_string params [] = rejected CommandError.bad_request
require_string params (name ∷ names) =
    found (pick_string (param params name)) (require_string params names)

unfoldable pub out_of : Params → Option Text
unfolding pick_string
out_of params = pick_string (or_else (param params (codes "out")) (param params (codes "outId")))

abbrev pub data_of : Params → Option TitleData
data_of params = object (param params (codes "data"))
  where
    object : Value → Option TitleData
    object (obj fs) = some (fields fs)
    object v = none

-- The outs that a client reaches; `none` is every out.
abbrev pub Outs : Type 0
Outs = Option (List Text)

abbrev pub reaches : Outs → Text → Bool
reaches none o = true
reaches (some os) o = includes os o

unfoldable pub within : Outs → Text → Reply Text
within outs o = if reaches outs o then accepted o else rejected CommandError.forbidden

abbrev pub sole_out : List Text → Reply (Option Text)
sole_out [] = rejected CommandError.bad_request
sole_out (o ∷ []) = accepted (some o)
sole_out (o ∷ p ∷ os) = rejected CommandError.bad_request

-- `null`, every out, is `none`.
unfoldable pub target_out : Params → Outs → Reply (Option Text)
unfolding out_of within
target_out params outs = elim (out_of params) [
  | some o ↦ and_then (within outs o) (λ p. accepted (some p))
  | none ↦ elim outs [ none ↦ accepted none | some os ↦ sole_out os ]
]

-- `undefined`, every out there is, is `none`.
unfoldable pub reach_of : Params → Outs → Reply Outs
unfolding out_of within
reach_of params outs = elim (out_of params) [
  | some o ↦ and_then (within outs o) (λ p. accepted (some (p ∷ [])))
  | none ↦ accepted outs
]

abbrev topic_of : Value → List Topic
topic_of (str s) =
    if s =t codes "state"
    then Topic.state_topic ∷ []
    else if s =t codes "data"
    then Topic.data_topic ∷ []
    else if s =t codes "timers"
    then Topic.timers_topic ∷ []
    else []
topic_of v = []

abbrev topics_in : List Value → List Topic
topics_in [] = []
topics_in (v ∷ vs) = topic_of v ++ topics_in vs

abbrev listed : Value → List Value
listed (arr vs) = items vs
listed v = v ∷ []

abbrev some_topics : List Topic → Reply (List Topic)
some_topics [] = rejected CommandError.bad_request
some_topics (x ∷ xs) = accepted (x ∷ xs)

unfoldable pub topics_of : Params → Reply (List Topic)
topics_of params =
    some_topics
      (topics_in (listed (or_else (param params (codes "topics")) (param params (codes "topic")))))
