-- ===== src/Auth/Guard/Laws.antt =====
-- Which requests to `/api/*` get through the guard of bundles/notGT/src/extension/auth.ts.
use not_gt.Base.{
  ◌≡◌, ◌↔◌, Text, codes, Bool, true, false, not, ◌&&◌, ◌||◌, Option, arith, Bool-cases, inl, inr,
  ◌=t◌,
}
use not_gt.Team.{Team, TeamEnv}
use not_gt.Auth.{Config, check_ndi_key}
use not_gt.Auth.Guard.{
  ApiRequest, extract_token, is_cross_site, let_through, token_value, is_open, has_token, is_health,
  is_ndi_path, by_session, guard,
}

module _ (config : Config) (env : TeamEnv) (host_of : Text → Option Text) where
  abbrev pub has_ndi_key : ApiRequest → Team → Bool
  has_ndi_key req t = (check_ndi_key config env (token_value (extract_token req)) t).1

  -- A request gets through exactly when it is no preflight and one of these holds: nothing is configured;
  -- it asks for the health of the server; it brings the token; it is about NDI and brings the key of the
  -- NDI senders; or the sign-in is on, the request comes from our own pages, and its session is signed in.
  pub guard-let_through :
      (signed_in : Bool) (req : ApiRequest) (t : Team)
      → ((guard config env host_of signed_in req t).1 ≡ let_through) ↔ (
          (not (req.method =t codes "OPTIONS")
            && (is_open config
                || (is_health req
                    || (has_token config req
                        || ((is_ndi_path req && has_ndi_key req t)
                            || (config.login.enabled
                                && (not (is_cross_site host_of req) && signed_in)))))))
          ≡ true)
  unfolding guard by_session
  guard-let_through signed_in req t = elim (Bool-cases (req.method =t codes "OPTIONS")) [
    | inl m ↦ ground (arith, m)
    | inr m ↦ elim (Bool-cases (is_open config || (is_health req || has_token config req))) [
      | inl o ↦ ground (arith, m, o)
      | inr o ↦ elim (Bool-cases (is_ndi_path req)) [
        | inr n ↦ ground (arith, m, o, n)
        | inl n ↦ elim (Bool-cases (has_ndi_key req t)) [
          | inl k ↦ ground (arith, m, o, n, k)
          | inr k ↦ ground (arith, m, o, n, k)
        ]
      ]
    ]
  ]

  -- The session of an operator is of no use to a page of another site: what is answered to a request that
  -- comes from there, and what the request does to the team, are the same with it and without it.
  pub guard-cross_site :
      (signed_in : Bool) (req : ApiRequest) (t : Team)
      → is_cross_site host_of req ≡ true
      → guard config env host_of signed_in req t ≡ guard config env host_of false req t
  unfolding guard by_session
  guard-cross_site signed_in req t h = ground (arith, h)
