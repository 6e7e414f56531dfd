-- ===== src/Auth/Guard.antt =====
-- The guard of `/api/*` in bundles/notGT/src/extension/auth.ts: the token of a request, where the request
-- comes from, and whether it is let through. NodeCG's check of the session and the parser of URLs are
-- parameters.
pub mod Laws
use not_gt.Base.{
  ℕ, zero, suc, ◌+◌, Text, codes, Bool, true, false, not, ◌&&◌, ◌||◌, Option, none, some, List, [],
  ◌∷◌, leb, if◌then◌else◌, is_empty, get_or, ◌=t◌, map, trim, Dict, lookup,
}
use not_gt.Json.{Value, undef, null, str}
use not_gt.Timers.Params.{Params, param, take}
use not_gt.Team.{Team, TeamEnv}
use not_gt.Auth.{Config, token, matches, check_ndi_key}

pub data Header : Type 0 where
  single : Text → Header
  several : List Text → Header

pub record ApiRequest : Type 0 where
  pub method : Text
  pub path : Text
  pub headers : Dict Header
  pub query : Params

-- `Array.isArray(value) ? value[0] : value`.
abbrev first_of : Option Header → Option Text
first_of none = none
first_of (some (single s)) = some s
first_of (some (several [])) = none
first_of (some (several (s ∷ ss))) = some s

unfoldable pub header : ApiRequest → Text → Option Text
header req name = first_of (lookup name req.headers)

-- A text that is empty counts as missing.
abbrev pub filled : Option Text → Option Text
filled none = none
filled (some s) = if is_empty s then none else some s

abbrev lower : ℕ → ℕ
lower c = if leb b'A' c && leb c b'Z' then c + 32 else c

-- `header.toLowerCase().startsWith("bearer ")`: no character but a capital letter of ASCII has one of
-- these as its lower case.
unfoldable pub is_bearer : Text → Bool
is_bearer s = map lower (take 7 s) =t codes "bearer "

abbrev pub drop : ℕ → Text → Text
drop zero s = s
drop (suc n) [] = []
drop (suc n) (c ∷ s) = drop n s

-- The token of the `Authorization` header.
unfoldable pub bearer : Option Text → Option Text
unfolding is_bearer
bearer none = none
bearer (some s) = if is_bearer s then some (trim (drop 7 s)) else none

unfoldable pub first_header : ApiRequest → List Text → Option Text
unfolding header
first_header req [] = none
first_header req (name ∷ names) =
    let later = first_header req names in
    elim (filled (header req name)) [ none ↦ later | some s ↦ some s ]

-- `a ?? b`.
abbrev pub or_else : Value → Value → Value
or_else undef w = w
or_else null w = w
or_else v w = v

abbrev pub filled_text : Value → Option Text
filled_text (str s) = if is_empty s then none else some s
filled_text _ = none

unfoldable pub extract_token : ApiRequest → Option Text
unfolding header bearer first_header
extract_token req = elim (bearer (header req (codes "authorization"))) [
  | some s ↦ some s
  | none ↦
      elim (first_header req
        (codes "x-api-token" ∷ codes "x-notgt-token" ∷ codes "x-nodecg-token" ∷ [])) [
          | some s ↦ some s
          | none ↦
              filled_text
                (or_else (param req.query (codes "token")) (param req.query (codes "key")))
        ]
]

-- `a !== b` of a text and one that may be missing.
abbrev differs : Text → Option Text → Bool
differs s none = true
differs s (some t) = not (s =t t)

-- `host_of origin` is `new URL(origin).host`, and `none` when that throws.
unfoldable pub is_cross_site : (Text → Option Text) → ApiRequest → Bool
unfolding header
is_cross_site host_of req = elim (filled (header req (codes "sec-fetch-site"))) [
  | some site ↦ not (site =t codes "same-origin") && not (site =t codes "none")
  | none ↦ elim (filled (header req (codes "origin"))) [
    | none ↦ false
    | some origin ↦ elim (host_of origin) [
      | none ↦ true
      | some host ↦ differs host (header req (codes "host"))
    ]
  ]
]

-- Status 204, `next()`, and status 401.
pub data Answer : Type 0 where
  no_content let_through unauthorized : Answer

abbrev token_value : Option Text → Value
token_value none = undef
token_value (some s) = str s

-- `access.open`, and `access.checkToken(extractToken(req))`.
unfoldable pub is_open : Config → Bool
unfolding token
is_open config = is_empty (token config) && not config.login.enabled

unfoldable pub has_token : Config → ApiRequest → Bool
unfolding token matches extract_token
has_token config req = matches (token_value (extract_token req)) (token config)

abbrev pub is_health : ApiRequest → Bool
is_health req = (req.path =t codes "/health") && (req.method =t codes "GET")

abbrev pub is_ndi_path : ApiRequest → Bool
is_ndi_path req = (req.path =t codes "/ndi") || (req.path =t codes "/ndi/status")

-- The last way in: `signed_in` is what NodeCG's check says of the session.
unfoldable pub by_session : Config → (Text → Option Text) → Bool → ApiRequest → Answer
unfolding is_cross_site
by_session config host_of signed_in req =
    if config.login.enabled && (not (is_cross_site host_of req) && signed_in)
    then let_through
    else unauthorized

-- `createApiAuth`. The team is left with an NDI key when the request made one.
unfoldable pub guard :
    Config → TeamEnv → (Text → Option Text) → Bool → ApiRequest → Team → Team × Answer
unfolding is_open has_token check_ndi_key extract_token by_session
guard config env host_of signed_in req t =
    let asked = check_ndi_key config env (token_value (extract_token req)) t in
    let last = by_session config host_of signed_in req in
    if req.method =t codes "OPTIONS"
    then (t, no_content)
    else if is_open config
    then (t, let_through)
    else if is_health req
    then (t, let_through)
    else if has_token config req
    then (t, let_through)
    else if is_ndi_path req
    then (if asked.1 then (asked.0, let_through) else (asked.0, last))
    else (t, last)
